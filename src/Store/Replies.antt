-- ===== src/Store/Replies.antt =====
-- What store/src/lib.rs answers to readers of a key that is written, before or after they ask.
-- What the task relies on: a put is read back, and leaves other keys as they were.
use hotstuff_dag.Prelude.{
  Bool, List, Option, [], ap, arith, bytes_beq, bytes_eq, false, lookup, nat_eq, none, not, pair_eq,
  quad_eq, refl, some, true, ◌&&◌, ◌∙◌, ◌∷◌, ◌≡◌,
}
use hotstuff_dag.Store.{
  Database, Key, Sender, StoreCommand, StoreResult, Task, Value, failed, fulfil, notify,
  notify_read, notify_response, read, read_response, run, step, value, write,
}

pub record IsReliable {D : Type 0} (database : Database D) : Type 0 where
  pub get-put_self :
      (d : D) (k : Key) (v : Value) → database.get (database.put d k v) k ≡ value (some v)
  pub get-put_ne :
      (d : D) (k j : Key) (v : Value)
      → bytes_beq k j ≡ false
      → database.get (database.put d k v) j ≡ database.get d j

abbrev pub never_writes : Key → List StoreCommand → Bool
never_writes k [] = true
never_writes k (write j v ∷ cs) = not (bytes_beq j k) && never_writes k cs
never_writes k (read j s ∷ cs) = never_writes k cs
never_writes k (notify_read j s ∷ cs) = never_writes k cs

module _ {D : Type 0} (database : Database D) where
  pub db-fulfil :
      (k : Key) (v : Value) (found : Option (List Sender)) (t : Task D)
      → (fulfil database k v found t).db ≡ t.db
  unfolding fulfil
  db-fulfil k v none t = refl
  db-fulfil k v (some senders) t = refl

  db-notify :
      (r : StoreResult (Option Value)) (k : Key) (s : Sender) (t : Task D)
      → (notify database r k s t).db ≡ t.db
  unfolding notify
  db-notify (value none) k s t = refl
  db-notify (value (some v)) k s t = refl
  db-notify failed k s t = refl

  module _ (reliable : IsReliable database) where
    get-step-write :
        (k : Key) (v : Value) (t : Task D)
        → database.get (step database (write k v) t).db k ≡ value (some v)
    unfolding step
    get-step-write k v t =
        ap (λ d. database.get d k)
          (db-fulfil k v (lookup k t.obligations) (record t { db = database.put t.db k v }))
        ∙ reliable.get-put_self t.db k v

    get-run :
        (k : Key) (cs : List StoreCommand) (t : Task D)
        → never_writes k cs ≡ true
        → database.get (run database cs t).db k ≡ database.get t.db k
    unfolding run step
    get-run k [] t h = refl
    get-run k (write j v ∷ cs) t h =
        get-run k cs (step database (write j v) t) (ground (arith, h))
        ∙ (ap (λ d. database.get d k)
              (db-fulfil j v (lookup j t.obligations) (record t { db = database.put t.db j v }))
            ∙ reliable.get-put_ne t.db j k v (ground (arith, h)))
    get-run k (read j s ∷ cs) t h = get-run k cs (step database (read j s) t) h
    get-run k (notify_read j s ∷ cs) t h =
        get-run k cs (step database (notify_read j s) t) h
        ∙ ap (λ d. database.get d k) (db-notify (database.get t.db j) j s t)

    -- With a reliable database, after a write of `k` and any commands that do not write `k` again, a
    -- `Read` and a `NotifyRead` of `k` are both answered at once, with the value written.
    pub read-write :
        (k : Key) (v : Value) (s : Sender) (cs : List StoreCommand) (t : Task D)
        → never_writes k cs ≡ true
        → ((step database (read k s) (run database (write k v ∷ cs) t)).sent
            ≡ (s, read_response (value (some v))) ∷ (run database (write k v ∷ cs) t).sent)
          × ((step database (notify_read k s) (run database (write k v ∷ cs) t)).sent
              ≡ (s, notify_response (value v)) ∷ (run database (write k v ∷ cs) t).sent)
    unfolding step notify
    read-write k v s cs t h = (rw there refl, rw there refl)
      where
        there : database.get (run database (write k v ∷ cs) t).db k ≡ value (some v)
        there = unfold run in get-run k cs (step database (write k v) t) h ∙ get-step-write k v t

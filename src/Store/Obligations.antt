-- ===== src/Store/Obligations.antt =====
-- Who waits for what in store/src/lib.rs: no sender is lost, and none is answered twice.
-- How often a sender stands in a list, in the obligations of all keys, and among those answered.
use hotstuff_dag.Prelude.{
  List, Map, Option, [], arith, bytes_eq, if◌then◌else◌, insert, lookup, lookup_or, nat_eq, none,
  pair_eq, quad_eq, refl, remove, some, ℕ, ◌++◌, ◌+◌, ◌==◌, ◌∷◌, ◌≡◌,
}
use hotstuff_dag.Store.{
  Database, Key, Response, Sender, StoreCommand, StoreResult, Task, Value, answer_all, failed,
  fulfil, notify, notify_read, notify_response, put_value, read, run, step, value, write,
}

abbrev pub count : Sender → List Sender → ℕ
count s [] = 0
count s (x ∷ xs) = (if x == s then 1 else 0) + count s xs

abbrev pub waiting : Sender → Map Key (List Sender) → ℕ
waiting s [] = 0
waiting s ((k, senders) ∷ m) = count s senders + waiting s m

abbrev pub answered : Sender → List (Sender × Response) → ℕ
answered s [] = 0
answered s ((x, r) ∷ xs) = (if x == s then 1 else 0) + answered s xs

-- How often a sender comes with the commands.
abbrev pub asked : Sender → List StoreCommand → ℕ
asked s [] = 0
asked s (write k v ∷ cs) = asked s cs
asked s (read k x ∷ cs) = (if x == s then 1 else 0) + asked s cs
asked s (notify_read k x ∷ cs) = (if x == s then 1 else 0) + asked s cs

pub count-append : (s : Sender) (xs ys : List Sender) → count s (xs ++ ys) ≡ count s xs + count s ys
count-append s [] ys = omega arith
count-append s (x ∷ xs) ys = ground (arith, count-append s xs ys)

waiting-insert :
    (s : Sender) (k : Key) (v : List Sender) (m : Map Key (List Sender))
    → waiting s (insert k v m) + count s (lookup_or k [] m) ≡ waiting s m + count s v
waiting-insert s k v [] = omega arith
waiting-insert s k v ((j, w) ∷ m) = ground (arith, waiting-insert s k v m)

waiting-remove :
    (s : Sender) (k : Key) (m : Map Key (List Sender))
    → waiting s (remove k m) + count s (lookup_or k [] m) ≡ waiting s m
waiting-remove s k [] = omega arith
waiting-remove s k ((j, w) ∷ m) = ground (arith, waiting-remove s k m)

pub answered-answer_all :
    (s : Sender) (v : Value) (xs : List Sender) (sent : List (Sender × Response))
    → answered s (answer_all v xs sent) ≡ count s xs + answered s sent
unfolding answer_all
answered-answer_all s v [] sent = omega arith
answered-answer_all s v (x ∷ xs) sent =
    omega (arith, answered-answer_all s v xs ((x, notify_response (value v)) ∷ sent))

-- All the places of a sender.
abbrev pub places : {D : Type 0} → Sender → Task D → ℕ
places s t = waiting s t.obligations + answered s t.sent

module _ {D : Type 0} (database : Database D) where
  places-fulfil :
      (s : Sender) (k : Key) (v : Value) (found : Option (List Sender)) (t : Task D)
      → lookup k t.obligations ≡ found
      → places s (fulfil database k v found t) ≡ places s t
  unfolding fulfil
  places-fulfil s k v none t e = refl
  places-fulfil s k v (some senders) t e = omega (
    arith,
    answered-answer_all s v senders t.sent,
    let at : count s (lookup_or k [] t.obligations) ≡ count s senders = rw (e, count, lookup_or) in
        at,
    waiting-remove s k t.obligations,
  )

  places-notify :
      (s x : Sender) (k : Key) (r : StoreResult (Option Value)) (t : Task D)
      → places s (notify database r k x t) ≡ (if x == s then 1 else 0) + places s t
  unfolding notify
  places-notify s x k (value none) t = omega (
    arith,
    waiting-insert s k (lookup_or k [] t.obligations ++ x ∷ []) t.obligations,
    count-append s (lookup_or k [] t.obligations) (x ∷ []),
  )
  places-notify s x k (value (some v)) t = omega arith
  places-notify s x k failed t = omega arith

  places-step :
      (s : Sender) (c : StoreCommand) (t : Task D)
      → places s (step database c t) ≡ asked s (c ∷ []) + places s t
  unfolding step
  places-step s (write k v) t =
      omega (arith, places-fulfil s k v (lookup k t.obligations) (put_value database k v t) refl)
  places-step s (read k x) t = omega arith
  places-step s (notify_read k x) t = omega (arith, places-notify s x k (database.get t.db k) t)

  asked-cons :
      (s : Sender) (c : StoreCommand) (cs : List StoreCommand)
      → asked s (c ∷ cs) ≡ asked s (c ∷ []) + asked s cs
  asked-cons s (write k v) cs = omega arith
  asked-cons s (read k x) cs = omega arith
  asked-cons s (notify_read k x) cs = omega arith

  -- Whatever the database answers, after any commands each sender that came with them, as often as
  -- it came, has been answered or is waiting in an obligation: none is lost or answered twice.
  pub run-places :
      (s : Sender) (cs : List StoreCommand) (t : Task D)
      → waiting s (run database cs t).obligations + answered s (run database cs t).sent
        ≡ asked s cs + (waiting s t.obligations + answered s t.sent)
  unfolding run
  run-places s [] t = omega arith
  run-places s (c ∷ cs) t =
      omega (arith, run-places s cs (step database c t), places-step s c t, asked-cons s c cs)

-- ===== src/Store/Liveness.antt =====
-- A `NotifyRead` of store/src/lib.rs is answered once its key is written.
-- The sender waits for the key, or has had an answer.
use hotstuff_dag.Prelude.{
  Bool-cases, List, Option, [], arith, bytes_beq, bytes_beq_iff, bytes_eq, inl, inr, lookup,
  lookup-insert, lookup-insert_self, lookup-remove_ne, lookup_or, nat_eq, none, pair_eq, quad_eq,
  refl, remove, some, ◌++◌, ◌+◌, ◌<◌, ◌∷◌, ◌≡◌, ◌≤◌,
}
use hotstuff_dag.Store.Obligations.{answered, answered-answer_all, count, count-append}
use hotstuff_dag.Store.{
  Database, Key, Sender, StoreCommand, StoreResult, Task, Value, failed, fulfil, notify,
  notify_read, put_value, read, run, step, value, write,
}

abbrev pub Served : {D : Type 0} → Key → Sender → Task D → Type 0
Served k s t = 0 < count s (lookup_or k [] t.obligations) + answered s t.sent

module _ {D : Type 0} (database : Database D) where
  Served-fulfil :
      (k j : Key) (v : Value) (s : Sender) (found : Option (List Sender)) (t : Task D)
      → lookup j t.obligations ≡ found
      → Served k s t
      → Served k s (fulfil database j v found t)
  unfolding fulfil
  Served-fulfil k j v s none t e h = h
  Served-fulfil k j v s (some senders) t e h = elim (Bool-cases (bytes_beq j k)) [
    | inl hit ↦
        let same : lookup k t.obligations ≡ some senders = rw (← (bytes_beq_iff j k).0 hit) e in
        let moved : count s (lookup_or k [] t.obligations) ≡ count s senders =
          rw (same, count, lookup_or) in
        omega (arith, answered-answer_all s v senders t.sent, h, moved)
    | inr miss ↦
        let same : lookup k (remove j t.obligations) ≡ lookup k t.obligations =
          lookup-remove_ne j k t.obligations miss in
        let kept : count s (lookup_or k [] (remove j t.obligations))
            ≡ count s (lookup_or k [] t.obligations) =
          rw (same, count, lookup_or) in
        omega (arith, answered-answer_all s v senders t.sent, h, kept)
  ]

  Served-notify :
      (k j : Key) (x s : Sender) (r : StoreResult (Option Value)) (t : Task D)
      → Served k s t
      → Served k s (notify database r j x t)
  unfolding notify
  Served-notify k j x s (value none) t h = ground (
    arith,
    lookup-insert j k (lookup_or j [] t.obligations ++ x ∷ []) t.obligations,
    bytes_beq_iff j k,
    count-append s (lookup_or j [] t.obligations) (x ∷ []),
  )
  Served-notify k j x s (value (some v)) t h = omega (arith, h)
  Served-notify k j x s failed t h = omega (arith, h)

  Served-step :
      (k : Key) (s : Sender) (c : StoreCommand) (t : Task D)
      → Served k s t
      → Served k s (step database c t)
  unfolding step
  Served-step k s (write j v) t h =
      Served-fulfil k j v s (lookup j t.obligations) (put_value database j v t) refl h
  Served-step k s (read j x) t h = omega (arith, h)
  Served-step k s (notify_read j x) t h = Served-notify k j x s (database.get t.db j) t h

  Served-run :
      (k : Key) (s : Sender) (cs : List StoreCommand) (t : Task D)
      → Served k s t
      → Served k s (run database cs t)
  unfolding run
  Served-run k s [] t h = h
  Served-run k s (c ∷ cs) t h = Served-run k s cs (step database c t) (Served-step k s c t h)

  asks :
      (k : Key) (s : Sender) (r : StoreResult (Option Value)) (t : Task D)
      → Served k s (notify database r k s t)
  unfolding notify
  asks k s (value none) t = ground (
    arith,
    lookup-insert_self k (lookup_or k [] t.obligations ++ s ∷ []) t.obligations,
    count-append s (lookup_or k [] t.obligations) (s ∷ []),
  )
  asks k s (value (some v)) t = ground arith
  asks k s failed t = ground arith

  answered-fulfil :
      (k : Key) (v : Value) (s : Sender) (found : Option (List Sender)) (t : Task D)
      → lookup k t.obligations ≡ found
      → Served k s t
      → 0 < answered s (fulfil database k v found t).sent
  unfolding fulfil
  answered-fulfil k v s none t e h =
      let nobody : count s (lookup_or k [] t.obligations) ≡ 0 = rw (e, count, lookup_or) in
      omega (arith, h, nobody)
  answered-fulfil k v s (some senders) t e h =
      let all : count s (lookup_or k [] t.obligations) ≡ count s senders =
        rw (e, count, lookup_or) in
      omega (arith, answered-answer_all s v senders t.sent, h, all)

  answered-fulfil_le :
      (s : Sender) (k : Key) (v : Value) (found : Option (List Sender)) (t : Task D)
      → answered s t.sent ≤ answered s (fulfil database k v found t).sent
  unfolding fulfil
  answered-fulfil_le s k v none t = omega arith
  answered-fulfil_le s k v (some senders) t = omega (arith, answered-answer_all s v senders t.sent)

  answered-notify_le :
      (s x : Sender) (k : Key) (r : StoreResult (Option Value)) (t : Task D)
      → answered s t.sent ≤ answered s (notify database r k x t).sent
  unfolding notify
  answered-notify_le s x k (value none) t = omega arith
  answered-notify_le s x k (value (some v)) t = omega arith
  answered-notify_le s x k failed t = omega arith

  answered-step_le :
      (s : Sender) (c : StoreCommand) (t : Task D)
      → answered s t.sent ≤ answered s (step database c t).sent
  unfolding step
  answered-step_le s (write k v) t =
      answered-fulfil_le s k v (lookup k t.obligations) (put_value database k v t)
  answered-step_le s (read k x) t = omega arith
  answered-step_le s (notify_read k x) t = answered-notify_le s x k (database.get t.db k) t

  answered-run_le :
      (s : Sender) (cs : List StoreCommand) (t : Task D)
      → answered s t.sent ≤ answered s (run database cs t).sent
  unfolding run
  answered-run_le s [] t = omega arith
  answered-run_le s (c ∷ cs) t =
      omega (arith, answered-step_le s c t, answered-run_le s cs (step database c t))

  run-append :
      (cs ds : List StoreCommand) (t : Task D)
      → run database (cs ++ ds) t ≡ run database ds (run database cs t)
  unfolding run
  run-append [] ds t = refl
  run-append (c ∷ cs) ds t = run-append cs ds (step database c t)

  -- Whatever the database answers and whatever comes between and after: a sender that asks to be
  -- notified of `k` has been answered once `k` is written.
  pub notify_read-answered :
      (k : Key) (s : Sender) (v : Value) (between after : List StoreCommand) (t : Task D)
      → 0 < answered s (run database (notify_read k s ∷ (between ++ write k v ∷ after)) t).sent
  unfolding run step
  notify_read-answered k s v between after t =
      let asked_t = step database (notify_read k s) t in
      let waited = run database between asked_t in
      let written = step database (write k v) waited in
      let served : Served k s waited =
        Served-run k s between asked_t (asks k s (database.get t.db k) t) in
      rw (run-append between (write k v ∷ after) asked_t) (
        omega (
          arith,
          answered-run_le s after written,
          answered-fulfil k v s (lookup k waited.obligations) (put_value database k v waited) refl
              served,
        ))

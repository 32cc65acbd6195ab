-- ===== src/Mempool/Payload/Sizes.antt =====
-- The sizes of the payloads that the runner of mempool/src/payload.rs makes.
use hotstuff_dag.Crypto.{Primitives}
use hotstuff_dag.Mempool.Messages
use hotstuff_dag.Mempool.Messages.{Transaction, total_len}
use hotstuff_dag.Mempool.Payload.Transactions.{payload_of}
use hotstuff_dag.Mempool.Payload.{
  Input, Output, Runner, add, client, make, request, run, step, to_output,
}
use hotstuff_dag.Prelude.{
  All, Bool-cases, List, [], arith, inl, inr, length, ltb, refl, some, true, ℕ, ◌++◌, ◌+◌, ◌<◌, ◌∷◌,
  ◌≡◌, ◌≤◌,
}

total_len-append : (xs ys : List Transaction) → total_len (xs ++ ys) ≡ total_len xs + total_len ys
total_len-append [] ys = omega arith
total_len-append (x ∷ xs) ys = omega (arith, total_len-append xs ys)

-- The runner counts the bytes that it holds, and holds no more than a payload may.
pub record IsWithin (most : ℕ) (r : Runner) : Type 0 where
  pub limit : r.max_size ≡ most
  pub counted : r.size ≡ total_len r.transactions
  pub bounded : r.size ≤ most

abbrev pub AllFit : ℕ → List Input → Type 0
AllFit most [] = Unit {0}
AllFit most (client tx ∷ inputs) = (length tx ≤ most) × AllFit most inputs
AllFit most (request ∷ inputs) = AllFit most inputs

module _ (c : Primitives) where
  add-IsWithin :
      (most : ℕ) (tx : Transaction) (r : Runner)
      → length tx ≤ most
      → IsWithin most r
      → IsWithin most (add c tx r).1
  unfolding add make
  add-IsWithin most tx r fits h = elim (Bool-cases (ltb r.max_size (r.size + length tx))) [
    | inl full ↦
        rw full (record { limit = h.limit; counted = omega arith; bounded = omega (arith, fits) })
    | inr room ↦ rw room (record {
      limit = h.limit;
      counted = omega (arith, total_len-append r.transactions (tx ∷ []), h.counted);
      bounded = ground (arith, room, h.limit);
    })
  ]

  -- What a full runner closes is no larger than it was.
  add-size :
      (most : ℕ) (tx : Transaction) (r : Runner)
      → IsWithin most r
      → All (λ o. Messages.size (payload_of o) ≤ most) (to_output (add c tx r).0)
  unfolding add make to_output Messages.new
  add-size most tx r h = elim (Bool-cases (ltb r.max_size (r.size + length tx))) [
    | inl full ↦ rw full (omega (arith, h.counted, h.bounded), tt)
    | inr room ↦ rw room tt
  ]

  All-append :
      (most : ℕ) (xs ys : List Output)
      → All (λ o. Messages.size (payload_of o) ≤ most) xs
      → All (λ o. Messages.size (payload_of o) ≤ most) ys
      → All (λ o. Messages.size (payload_of o) ≤ most) (xs ++ ys)
  All-append most [] ys h k = k
  All-append most (x ∷ xs) ys h k = (h.0, All-append most xs ys h.1 k)

  -- If no transaction is larger than a payload may be, no payload is: those sent to the core and
  -- those given on request, and the runner never holds more.
  pub run-size :
      (most : ℕ) (inputs : List Input) (r : Runner)
      → AllFit most inputs
      → IsWithin most r
      → All (λ o. Messages.size (payload_of o) ≤ most) (run c inputs r).0
        × IsWithin most (run c inputs r).1
  unfolding run step
  run-size most [] r fit h = (tt, h)
  run-size most (client tx ∷ inputs) r fit h =
      let rest = run-size most inputs (add c tx r).1 fit.1 (add-IsWithin most tx r fit.0 h) in
      (
        All-append most (to_output (add c tx r).0) (run c inputs (add c tx r).1).0
            (add-size most tx r h) rest.0,
        rest.1,
      )
  run-size most (request ∷ inputs) r fit h =
      let rest =
        run-size most inputs (make c r).1 fit (
          unfold make in
          record { limit = h.limit; counted = omega arith; bounded = omega arith }) in
      ((unfold make Messages.new in omega (arith, h.counted, h.bounded), rest.0), rest.1)

  -- A transaction that is larger than a payload may be is put into a payload all the same: the next
  -- payload that the runner makes is too big, and what was held before is closed, if only an
  -- empty payload.
  pub add_oversize :
      (tx : Transaction) (r : Runner)
      → r.max_size < length tx
      → ((add c tx r).0 ≡ some (make c r).0)
        × (r.max_size < Messages.size (make c (add c tx r).1).0)
  unfolding add make Messages.new
  add_oversize tx r big =
      let full : ltb r.max_size (r.size + length tx) ≡ true = ground (arith, big) in
      rw full (refl, omega (arith, big))

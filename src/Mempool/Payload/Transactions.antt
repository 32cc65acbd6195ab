-- ===== src/Mempool/Payload/Transactions.antt =====
-- The transactions that go through the runner of mempool/src/payload.rs, in order and none lost.
use hotstuff_dag.Crypto.{Primitives}
use hotstuff_dag.Mempool.Messages
use hotstuff_dag.Mempool.Messages.{Payload, Transaction, own_payload, payload, payload_request}
use hotstuff_dag.Mempool.Payload.{
  Input, Output, Runner, add, answer, client, make, request, run, step, to_core, to_output,
}
use hotstuff_dag.Prelude.{
  Bool-cases, List, [], ap, inl, inr, length, ltb, refl, sym, ◌++◌, ◌+◌, ◌∷◌, ◌≡◌,
}
use mathlib.Core.List.{append-nil, append_assoc}
use mathlib.Core.Path.{◌∎, ◌≡⟨◌⟩◌}

abbrev pub payload_of : Output → Payload
payload_of (to_core (own_payload p)) = p
payload_of (to_core (payload p)) = p
payload_of (to_core (payload_request ds name)) = record {
  transactions = [];
  author = name;
  signature = 0;
}
payload_of (answer p) = p

-- The transactions of all that the runner has given out, and those that clients have sent.
abbrev pub given_out : List Output → List Transaction
given_out [] = []
given_out (o ∷ os) = (payload_of o).transactions ++ given_out os

abbrev pub received : List Input → List Transaction
received [] = []
received (client tx ∷ inputs) = tx ∷ received inputs
received (request ∷ inputs) = received inputs

given_out-append : (xs ys : List Output) → given_out (xs ++ ys) ≡ given_out xs ++ given_out ys
given_out-append [] ys = refl
given_out-append (x ∷ xs) ys = simp (given_out-append xs ys, append_assoc)

received-cons :
    (input : Input) (inputs : List Input)
    → received (input ∷ inputs) ≡ received (input ∷ []) ++ received inputs
received-cons (client tx) inputs = refl
received-cons request inputs = refl

module _ (c : Primitives) where
  step-transactions :
      (input : Input) (r : Runner)
      → given_out (step c input r).0 ++ (step c input r).1.transactions
        ≡ r.transactions ++ received (input ∷ [])
  unfolding step add make to_output Messages.new
  step-transactions (client tx) r = elim (Bool-cases (ltb r.max_size (r.size + length tx))) [
    | inl full ↦ rw full (simp append-nil)
    | inr fits ↦ rw fits refl
  ]
  step-transactions request r = simp append-nil

  -- Every transaction is given out once, in the order of arrival, or waits at the end: what has been
  -- given out and then what waits is what waited before and then what clients have sent.
  pub run-transactions :
      (inputs : List Input) (r : Runner)
      → given_out (run c inputs r).0 ++ (run c inputs r).1.transactions
        ≡ r.transactions ++ received inputs
  unfolding run
  run-transactions [] r = simp append-nil
  run-transactions (input ∷ inputs) r =
      let os = (step c input r).0 in
      let r' = (step c input r).1 in
      let rest = (run c inputs r').0 in
      let left = (run c inputs r').1.transactions in
      given_out (os ++ rest) ++ left
      ≡⟨ ap (λ l. l ++ left) (given_out-append os rest) ⟩ (given_out os ++ given_out rest) ++ left
      ≡⟨ append_assoc (given_out os) (given_out rest) left ⟩
        given_out os ++ (given_out rest ++ left)
      ≡⟨ ap (λ l. given_out os ++ l) (run-transactions inputs r') ⟩
        given_out os ++ (r'.transactions ++ received inputs)
      ≡⟨ sym (append_assoc (given_out os) r'.transactions (received inputs)) ⟩
        (given_out os ++ r'.transactions) ++ received inputs
      ≡⟨ ap (λ l. l ++ received inputs) (step-transactions input r) ⟩
        (r.transactions ++ received (input ∷ [])) ++ received inputs
      ≡⟨ append_assoc r.transactions (received (input ∷ [])) (received inputs) ⟩
        r.transactions ++ (received (input ∷ []) ++ received inputs)
      ≡⟨ ap (λ l. r.transactions ++ l) (sym (received-cons input inputs)) ⟩
        r.transactions ++ received (input ∷ inputs) ∎

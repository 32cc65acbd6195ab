-- ===== src/Mempool/Core/Acceptance.antt =====
-- Which payloads mempool/src/core.rs takes from other nodes, and that what it has stored of its own
-- is what it hands to a node that asks.
use hotstuff_dag.Crypto.{verify_signature}
use hotstuff_dag.Error.{Result}
use hotstuff_dag.Mempool.Config.{exists}
use hotstuff_dag.Mempool.Core.{handle_others_payload}
use hotstuff_dag.Mempool.Error.{
  MempoolError, err, invalid_signature, ok, payload_too_big, unknown_authority,
}
use hotstuff_dag.Mempool.Messages
use hotstuff_dag.Mempool.Messages.{Payload}
use hotstuff_dag.Mempool.State.{Core, Env, wrote}
use hotstuff_dag.Prelude.{
  Bool-cases, arith, inl, inr, leb, leb→le, refl, set_insert, sym, true, ◌∙◌, ◌∷◌, ◌≡◌, ◌≢◌, ◌≤◌,
  ◌⊎◌,
}

module _ (env : Env) where
  -- What a payload of another node must meet.
  pub record IsAcceptable (made : Payload) (c : Core) : Type 0 where
    pub known : exists c.committee made.author ≡ true
    pub fits : Messages.size made ≤ c.parameters.max_payload_size
    pub signed :
        verify_signature env.primitives made.signature
          (Messages.digest env.primitives made)
          made.author
        ≡ Result.ok tt

  abbrev pub Outcome : Payload → Core → Type 0
  Outcome made c =
      (IsAcceptable made c
        × (handle_others_payload env made c ≡ (
          ok tt,
          record c {
            pes_queue = set_insert (Messages.digest env.primitives made) c.pes_queue;
            trace = wrote (Messages.digest env.primitives made) (env.serialize made) ∷ c.trace;
          },
        )))
      ⊎ ((¬ IsAcceptable made c)
          × ((e : MempoolError) × (handle_others_payload env made c ≡ (err e, c))))

  -- A payload of another node is stored and queued exactly if its author is in the committee, it is no
  -- larger than allowed and its signature verifies; otherwise the core is left as it was.
  pub handle_others_payload_lem : (made : Payload) (c : Core) → Outcome made c
  unfolding handle_others_payload
  handle_others_payload_lem made c = elim (Bool-cases (exists c.committee made.author)) [
    | inr stranger ↦
        inr (λ a. cc (a.known, stranger), (unknown_authority made.author, rw stranger refl))
    | inl known ↦ elim (Bool-cases (leb (Messages.size made) c.parameters.max_payload_size)) [
      | inr big ↦ inr (λ a. ground (arith, a.fits, big), (payload_too_big, rw known (rw big refl)))
      | inl fits ↦
          checked known fits
            (verify_signature env.primitives made.signature (Messages.digest env.primitives made)
              made.author)
            refl
    ]
  ]
    where
      refused :
          (r : Result (Unit {0}))
          → verify_signature env.primitives made.signature
              (Messages.digest env.primitives made)
              made.author
            ≡ r
          → r ≢ Result.ok tt
          → ¬ IsAcceptable made c
      refused r e bad a = bad (sym e ∙ a.signed)

      checked :
          exists c.committee made.author ≡ true
          → leb (Messages.size made) c.parameters.max_payload_size ≡ true
          → (r : Result (Unit {0}))
          → verify_signature env.primitives made.signature
              (Messages.digest env.primitives made)
              made.author
            ≡ r
          → Outcome made c
      checked known fits (Result.ok u) e = inl (
        record { known = known; fits = leb→le _ _ fits; signed = e },
        rw known (rw fits (rw e refl)),
      )
      checked known fits (Result.err x) e =
          inr (
            refused (Result.err x) e (λ q. cc),
            (invalid_signature, rw known (rw fits (rw e refl))),
          )
      checked known fits Result.panic e =
          inr
            (refused Result.panic e (λ q. cc), (invalid_signature, rw known (rw fits (rw e refl))))
      checked known fits Result.out_of_fuel e = inr (
        refused Result.out_of_fuel e (λ q. cc),
        (invalid_signature, rw known (rw fits (rw e refl))),
      )

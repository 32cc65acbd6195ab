-- ===== src/Core/Aba/Output.antt =====
-- The output of the binary agreement of consensus/src/core.rs.
use hotstuff_dag.Core.Aba.{is_expired_aba_message, next_round, process_aba_proof}
use hotstuff_dag.Core.State.{Core, val_phase}
use hotstuff_dag.Messages.Aba.{AbaProof}
use hotstuff_dag.Prelude.{
  Bool-cases, Option-cases, [], add64, arith, false, inl, inr, lookup, lookup-insert_self,
  lookup-retain_dropped, nat_eq, none, pair_eq, quad_eq, refl, some, true, u64_mod, ℕ, ◌%◌, ◌+◌,
  ◌<◌, ◌==◌, ◌≡◌, ◌≢◌, ◌≤◌, ◌⊎◌,
}

-- A proof becomes the output, and nothing else changes, when the coin of its round is known and has
-- its parity. Without the coin, or at the other parity, the core is left as it was.
process_aba_proof_lem :
    (p : AbaProof) (c : Core)
    → ((coin : ℕ) × (lookup (p.epoch, p.round) c.aba_coin_cache ≡ some coin)
        × (p.val % 2 ≡ coin)
        × (process_aba_proof p c ≡ record c { aba_output_val = some p.val }))
      ⊎ (((coin : ℕ) → lookup (p.epoch, p.round) c.aba_coin_cache ≡ some coin → p.val % 2 ≢ coin)
          × (process_aba_proof p c ≡ c))
unfolding process_aba_proof
process_aba_proof_lem p c = elim (Option-cases (lookup (p.epoch, p.round) c.aba_coin_cache)) [
  | inl e ↦ inr ((λ coin h. absurd (unknown coin e h)), rw (e, process_aba_proof))
  | inr (coin, e) ↦ elim (Bool-cases (p.val % 2 == coin)) [
    | inl hit ↦ inl (coin, e, ground arith, rw (e, process_aba_proof) (rw hit))
    | inr miss ↦ inr ((λ coin' h. other coin coin' e h miss), rw (e, process_aba_proof) (rw miss))
  ]
]
  where
    unknown :
        (coin : ℕ)
        → lookup (p.epoch, p.round) c.aba_coin_cache ≡ none
        → lookup (p.epoch, p.round) c.aba_coin_cache ≡ some coin
        → ⊥
    unknown coin e h = cc

    other :
        (coin coin' : ℕ)
        → lookup (p.epoch, p.round) c.aba_coin_cache ≡ some coin
        → lookup (p.epoch, p.round) c.aba_coin_cache ≡ some coin'
        → (p.val % 2 == coin) ≡ false
        → p.val % 2 ≢ coin'
    other coin coin' e h miss = ground arith

-- Starting a round raises the round number, stays within the epoch, goes back to `val_phase`,
-- records the input of the new round, clears the values and the four flags of what was sent, and
-- keeps the coins and the output.
next_round_lem :
    (v : ℕ) (c : Core)
    → c.aba_round + 1 < u64_mod
    → let c' = next_round v c in
      (c'.aba_round ≡ c.aba_round + 1)
      × (c'.epoch ≡ c.epoch)
      × (c'.phase ≡ val_phase)
      × (lookup c'.aba_round c'.aba_input_val ≡ some v)
      × (c'.bin_values ≡ [])
      × (c'.val_value_broadcasted ≡ false)
      × (c'.aux_value_broadcasted ≡ false)
      × (c'.coin_share_broadcasted ≡ false)
      × (c'.aux_proof_broadcasted ≡ false)
      × (c'.aba_coin_cache ≡ c.aba_coin_cache)
      × (c'.aba_output_val ≡ c.aba_output_val)
unfolding next_round
next_round_lem v c h = (
  omega arith,
  refl,
  refl,
  lookup-insert_self (add64 c.aba_round 1) v c.aba_input_val,
  refl,
  refl,
  refl,
  refl,
  refl,
  refl,
  refl,
)

-- A message of the round that has ended, or of an earlier one of the epoch, is expired in the next
-- round, and the caches hold no proof of it.
pub next_round-is_expired :
    (v round : ℕ) (c : Core)
    → c.aba_round + 1 < u64_mod
    → round ≤ c.aba_round
    → (is_expired_aba_message c.epoch round (next_round v c) ≡ true)
      × (lookup (c.epoch, round) (next_round v c).aba_val_phase_cache1 ≡ none)
      × (lookup (c.epoch, round) (next_round v c).aba_val_phase_cache2 ≡ none)
      × (lookup (c.epoch, round) (next_round v c).aba_aux_phase_cache ≡ none)
      × (lookup (c.epoch, round) (next_round v c).aba_proof_cache ≡ none)
unfolding next_round is_expired_aba_message
next_round-is_expired v round c fits old = (
  ground arith,
  lookup-retain_dropped _ (c.epoch, round) c.aba_val_phase_cache1 (ground arith),
  lookup-retain_dropped _ (c.epoch, round) c.aba_val_phase_cache2 (ground arith),
  lookup-retain_dropped _ (c.epoch, round) c.aba_aux_phase_cache (ground arith),
  lookup-retain_dropped _ (c.epoch, round) c.aba_proof_cache (ground arith),
)

-- ===== src/Messages/Qc/Intersection.antt =====
-- Two quorum certificates (consensus/src/messages.rs, `QC::verify`) share stake.
use hotstuff_dag.Config.{Committee, quorum_threshold, total_votes}
use hotstuff_dag.Crypto.{Primitives}
use hotstuff_dag.Error.{Result, authority_reuse_in_qc, err, ok, out_of_fuel, panic}
use hotstuff_dag.Messages.Qc.{Qc, verify}
use hotstuff_dag.Messages.Tally.Quorums.{
  everyone, held, held_overlap, stake_sum-le-held, sum_stakes-held, tally_sound,
}
use hotstuff_dag.Messages.Tally.{tally}
use hotstuff_dag.Prelude.{
  [], arith, contains, distinct, keys, refl, true, u32_mod, ℕ, ◌&&◌, ◌*◌, ◌+◌, ◌<◌, ◌≡◌, ◌≤◌,
}

module _ (c : Primitives) where
  -- A verified certificate carries at least the quorum threshold, in the stake of its signers.
  pub verified_stake :
      (qc : Qc) (cm : Committee)
      → verify c qc cm ≡ ok tt
      → (distinct (keys qc.votes) ≡ true)
        × (quorum_threshold cm ≤ held (contains (keys qc.votes)) cm.authorities)
  unfolding verify
  verified_stake qc cm h = go (tally authority_reuse_in_qc cm [] 0 (keys qc.votes)) refl
    where
      go :
          (r : Result ℕ)
          → tally authority_reuse_in_qc cm [] 0 (keys qc.votes) ≡ r
          → (distinct (keys qc.votes) ≡ true)
            × (quorum_threshold cm ≤ held (contains (keys qc.votes)) cm.authorities)
      go (ok t) e =
          let s = tally_sound authority_reuse_in_qc cm [] 0 (keys qc.votes) t e in
          (s.0, ground (arith, s.2, stake_sum-le-held cm.authorities (keys qc.votes) s.0))
      go (err x) e = absurd (ground arith)
      go panic e = absurd (ground arith)
      go out_of_fuel e = absurd (ground arith)

  -- If the stakes of the committee sum to 3 f + 1, without passing 2 ^ 32, then any two certificates
  -- that verify are signed by common authorities that hold at least f + 1.
  pub verified_overlap :
      (f : ℕ) (a b : Qc) (cm : Committee)
      → held everyone cm.authorities ≡ 3 * f + 1
      → 3 * f + 1 < u32_mod
      → verify c a cm ≡ ok tt
      → verify c b cm ≡ ok tt
      → f + 1 ≤ held (λ k. contains (keys a.votes) k && contains (keys b.votes) k) cm.authorities
  unfolding quorum_threshold total_votes
  verified_overlap f a b cm total fits va vb = omega (
    arith,
    (verified_stake a cm va).1,
    (verified_stake b cm vb).1,
    sum_stakes-held cm.authorities (omega arith),
    held_overlap (contains (keys a.votes)) (contains (keys b.votes)) cm.authorities,
  )

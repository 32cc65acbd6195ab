-- ===== src/Core/Voting/Certificates.antt =====
-- The heights of a chain under a certificate: `process_qc` of consensus/src/core.rs.
-- The certificate of a chain lies below the height at which the chain proposes.
use hotstuff_dag.Core.State.{Chain, Work}
use hotstuff_dag.Core.Voting.{advance_height, process_qc, update_high_qc}
use hotstuff_dag.Messages.Qc.{Qc}
use hotstuff_dag.Prelude.{
  arith, lookup, lookup-insert_self, nat_eq, pair_eq, quad_eq, some, u64_mod, ◌+◌, ◌<◌, ◌≡◌, ◌≤◌,
}

pub record IsAhead (chain : Chain) : Type 0 where
  pub certified_below : chain.high_qc.height < chain.height
  pub no_overflow : chain.height < u64_mod

process_qc_heights :
    (qc : Qc) (w : Work)
    → qc.height + 1 < u64_mod
    → IsAhead w.chain
    → let w' = process_qc qc w in
      IsAhead w'.chain
      × (w.chain.height ≤ w'.chain.height)
      × (w.chain.high_qc.height ≤ w'.chain.high_qc.height)
      × (qc.height < w'.chain.height)
      × (qc.height ≤ w'.chain.high_qc.height)
      × (w'.chain.last_voted_height ≡ w.chain.last_voted_height)
unfolding process_qc update_high_qc advance_height
process_qc_heights qc w h v = ground arith

process_qc_digest :
    (qc : Qc) (w : Work) → lookup qc.height (process_qc qc w).chain.height_to_digest ≡ some qc.hash
unfolding process_qc update_high_qc
process_qc_digest qc w = lookup-insert_self qc.height qc.hash _

-- Processing a certificate whose successor height fits a `u64` keeps the chain ahead of its highest
-- certificate, moves neither the height nor the certified height back, leaves the height above the
-- certificate's and the certified height not below it, does not touch the height last voted for,
-- and records the certificate's block at its height, whoever proposed that block.
pub process_qc_lem :
    (qc : Qc) (w : Work)
    → qc.height + 1 < u64_mod
    → IsAhead w.chain
    → let w' = process_qc qc w in
      IsAhead w'.chain
      × (w.chain.height ≤ w'.chain.height)
      × (w.chain.high_qc.height ≤ w'.chain.high_qc.height)
      × (qc.height < w'.chain.height)
      × (qc.height ≤ w'.chain.high_qc.height)
      × (w'.chain.last_voted_height ≡ w.chain.last_voted_height)
      × (lookup qc.height w'.chain.height_to_digest ≡ some qc.hash)
process_qc_lem qc w h v =
    let p = process_qc_heights qc w h v in (p.0, p.1, p.2, p.3, p.4, p.5, process_qc_digest qc w)

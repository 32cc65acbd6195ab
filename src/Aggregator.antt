-- ===== src/Aggregator.antt =====
-- consensus/src/aggregator.rs: the aggregator keeps one maker for each height, epoch, value or
-- round, and hands every message to the maker of its key.
pub mod QcVotes
pub mod Timeouts
pub mod AbaVals
pub mod CoinShares
use hotstuff_dag.Aggregator.AbaVals
use hotstuff_dag.Aggregator.AbaVals.{AbaProofMaker}
use hotstuff_dag.Aggregator.CoinShares
use hotstuff_dag.Aggregator.CoinShares.{CoinMaker}
use hotstuff_dag.Aggregator.QcVotes
use hotstuff_dag.Aggregator.QcVotes.{QcMaker}
use hotstuff_dag.Aggregator.Timeouts
use hotstuff_dag.Aggregator.Timeouts.{TcMaker}
use hotstuff_dag.Config.{Committee}
use hotstuff_dag.Crypto.{Primitives}
use hotstuff_dag.Exec.{Exec}
use hotstuff_dag.Messages.Aba.{AbaProof, AbaVal}
use hotstuff_dag.Messages.Coin.{RandomnessShare}
use hotstuff_dag.Messages.Qc.{Qc, timeout}
use hotstuff_dag.Messages.Tc.{Tc}
use hotstuff_dag.Messages.Timeout.{Timeout}
use hotstuff_dag.Messages.Vote.{Vote}
use hotstuff_dag.Prelude.{
  Eq, Map, Option, [], insert, leb, lookup_or, nat_eq, pair_eq, quad_eq, retain, ℕ,
}

pub record Aggregator : Type 0 where
  pub committee : Committee
  pub votes_aggregators : Map ℕ QcMaker
  pub timeouts_aggregators : Map ℕ TcMaker
  pub aba_vals_aggregators : Map (ℕ × ℕ × ℕ × ℕ) AbaProofMaker
  pub aba_randomcoin_aggregators : Map (ℕ × ℕ) CoinMaker

unfoldable pub new : Committee → Aggregator
new committee = record {
  committee = committee;
  votes_aggregators = [];
  timeouts_aggregators = [];
  aba_vals_aggregators = [];
  aba_randomcoin_aggregators = [];
}

-- `map.entry(k).or_insert_with(d).append(…)`: the entry is there afterwards, also on an error.
unfoldable pub entry {ℓ} :
    {K : Type ℓ} {V A : Type ℓ} ⦃e : Eq K⦄ → K → V → Exec V A → Exec (Map K V) A
entry k d append m = let (r, v) = append (lookup_or k d m) in (r, insert k v m)

unfoldable pub add_vote : Vote → Exec Aggregator (Option Qc)
unfolding entry
add_vote vote a =
    let (r, m) =
      entry vote.height QcVotes.new (QcVotes.append vote a.committee) a.votes_aggregators in
    (r, record a { votes_aggregators = m })

unfoldable pub add_timeout : Timeout → Exec Aggregator (Option Tc)
unfolding entry
add_timeout timeout a =
    let (r, m) =
      entry timeout.epoch Timeouts.new (Timeouts.append timeout a.committee)
        a.timeouts_aggregators in
    (r, record a { timeouts_aggregators = m })

unfoldable pub add_aba_val : AbaVal → Exec Aggregator (Option AbaProof)
unfolding entry
add_aba_val v a =
    let (r, m) =
      entry (v.epoch, v.round, v.phase, v.val) AbaVals.new (AbaVals.append v a.committee)
        a.aba_vals_aggregators in
    (r, record a { aba_vals_aggregators = m })

unfoldable pub add_aba_random : Primitives → RandomnessShare → Exec Aggregator (Option ℕ)
unfolding entry
add_aba_random c share a =
    let (r, m) =
      entry (share.epoch, share.round) CoinShares.new (CoinShares.append c share a.committee)
        a.aba_randomcoin_aggregators in
    (r, record a { aba_randomcoin_aggregators = m })

unfoldable pub cleanup : ℕ → ℕ → Aggregator → Aggregator
cleanup epoch height a = record a {
  votes_aggregators = retain (λ k. leb height k) a.votes_aggregators;
  timeouts_aggregators = retain (λ k. leb epoch k) a.timeouts_aggregators;
}

unfoldable pub cleanup_aba : ℕ → Aggregator → Aggregator
cleanup_aba epoch a = record a {
  aba_vals_aggregators = retain (λ k. leb epoch k.0) a.aba_vals_aggregators;
  aba_randomcoin_aggregators = retain (λ k. leb epoch k.0) a.aba_randomcoin_aggregators;
}

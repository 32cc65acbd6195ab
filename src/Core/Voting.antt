-- ===== src/Core/Voting.antt =====
-- consensus/src/core.rs: voting, and the height and the certificates of a chain.
pub mod Certificates
pub mod Safety
use Prim.Native.Nat.{max}
use hotstuff_dag.Aggregator
use hotstuff_dag.Aggregator.{Aggregator}
use hotstuff_dag.Core.State.{Chain, Work}
use hotstuff_dag.Error.{Result, err, ok, out_of_fuel, panic}
use hotstuff_dag.Exec.{Exec}
use hotstuff_dag.Leader.{get_leader}
use hotstuff_dag.Messages.Block.{Block}
use hotstuff_dag.Messages.Qc
use hotstuff_dag.Messages.Qc.{Qc}
use hotstuff_dag.Messages.Vote
use hotstuff_dag.Messages.Vote.{Vote}
use hotstuff_dag.Prelude.{
  Option, add64, if◌then◌else◌, insert, ltb, nat_eq, none, pair_eq, quad_eq, some, ℕ, ◌&&◌, ◌==◌,
  ◌||◌,
}
use hotstuff_dag.World.{Env}

unfoldable pub increase_last_voted_round : ℕ → Chain → Chain
increase_last_voted_round target chain = record chain {
  last_voted_height = max chain.last_voted_height target;
}

module _ (env : Env) where
  -- Core::make_vote. The two safety rules are tested after the epoch and the view change.
  unfoldable pub make_vote : Block → Exec Work (Option Vote)
  unfolding increase_last_voted_round
  make_vote block w =
      let chain = w.chain in
      let safety_rule_1 = ltb chain.last_voted_height block.height in
      let safety_rule_2 = add64 block.qc.height 1 == block.height || Qc.eq block.qc Qc.genesis in
      let ballot = Vote.new env.primitives block w.core.name in
      let cast : Result (Option Vote) × Work =
        (ok (some ballot), record w { chain = increase_last_voted_round block.height chain }) in
      let checked : Result (Option Vote) × Work =
        if safety_rule_1 && safety_rule_2 then cast else (ok none, w) in
      if ltb block.epoch chain.epoch
      then (ok none, w)
      else if w.core.is_view_change
      then elim (get_leader w.core.committee w.core.epoch) [
        | ok l ↦ if block.author == l then (ok none, w) else checked
        | err e ↦ (err e, w)
        | panic ↦ (panic, w)
        | out_of_fuel ↦ (out_of_fuel, w)
      ]
      else checked

-- Core::update_high_qc
unfoldable pub update_high_qc : Qc → Chain → Chain
update_high_qc qc chain = record chain {
  height_to_digest = insert qc.height qc.hash chain.height_to_digest;
  high_qc = if ltb chain.high_qc.height qc.height then qc else chain.high_qc;
}

-- Core::advance_height, given the epoch of the core.
unfoldable pub advance_height : ℕ → ℕ → Chain → Chain
advance_height epoch height chain = if ltb height chain.height then chain else record chain {
  height = add64 height 1;
  aggregator = Aggregator.cleanup epoch (add64 height 1) chain.aggregator;
}

-- Core::process_qc
unfoldable pub process_qc : Qc → Work → Work
unfolding update_high_qc advance_height
process_qc qc w = record w {
  chain = update_high_qc qc (advance_height w.core.epoch qc.height w.chain);
}

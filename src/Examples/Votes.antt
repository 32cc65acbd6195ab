-- ===== src/Examples/Votes.antt =====
-- The handlers of votes and proposals with enough fuel, where the aggregator of the chain holds two
-- votes at the height of the vote that comes.
use hotstuff_dag.Config.{quorum_threshold, stake, total_votes}
use hotstuff_dag.Core.Proposals.Fuel.{NoLoneQuorum}
use hotstuff_dag.Core.Proposals.Termination.{handlers_end}
use hotstuff_dag.Core.Proposals.{handle_proposal, handle_vote}
use hotstuff_dag.Core.State.{Chain, Work}
use hotstuff_dag.Error.{out_of_fuel}
use hotstuff_dag.Examples.References.{
  before_two_commits, before_two_commits-IsSteady, honest, honest-Apart, owner,
}
use hotstuff_dag.Examples.{child, first_vote, four, gathered, lone}
use hotstuff_dag.Prelude.{[], arith, ◌+◌, ◌∷◌, ◌≡◌, ◌≢◌}

abbrev waiting : Chain
waiting = record lone {
  aggregator = record {
    committee = four;
    votes_aggregators = (7, gathered) ∷ [];
    timeouts_aggregators = [];
    aba_vals_aggregators = [];
    aba_randomcoin_aggregators = [];
  };
}

nobody_is_a_quorum : NoLoneQuorum four
unfolding stake quorum_threshold total_votes
nobody_is_a_quorum name = ground arith

-- The core is the one of the commit of two chains, where the leader refers to the other chain.
abbrev steady_work : Work
steady_work = record { core = before_two_commits.core; chain = waiting }

handlers_end_example :
    ((handle_vote honest 2 2 first_vote steady_work).0 ≢ out_of_fuel)
    × ((handle_proposal honest 2 2 child steady_work).0 ≢ out_of_fuel)
    × (handle_vote honest 2 (5 + 2) first_vote steady_work
        ≡ handle_vote honest 2 2 first_vote steady_work)
    × (handle_proposal honest 2 (5 + 2) child steady_work
        ≡ handle_proposal honest 2 2 child steady_work)
handlers_end_example =
    handlers_end honest owner 1 0 5 2 first_vote child steady_work honest-Apart
      before_two_commits-IsSteady nobody_is_a_quorum (omega arith) (omega arith) (omega arith)

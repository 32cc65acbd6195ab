-- ===== src/Core/Commit/Aggregators.antt =====
-- The commit walk of consensus/src/core.rs, and the aggregator of the chain.
use hotstuff_dag.Aggregator.{Aggregator}
use hotstuff_dag.Core.Commit.Heights.{Moves, Moves-commit_round}
use hotstuff_dag.Core.Commit.{
  Committing, Recur, commit, commit_prev_block, commit_round, commit_rounds, deliver,
}
use hotstuff_dag.Core.State.{Chain, Work}
use hotstuff_dag.Error.{Result, err, ok, out_of_fuel, panic}
use hotstuff_dag.Exec.{continue, pure}
use hotstuff_dag.Messages.Block.{Block}
use hotstuff_dag.Prelude.{
  Bool, [], ap, false, if◌then◌else◌, refl, suc, true, zero, ℕ, ◌-◌, ◌∙◌, ◌≡◌,
}
use hotstuff_dag.World.{Env}
use mathlib.Core.List.{reverse}

moved-aggregator :
    (chain : Chain) (r : Result Bool × Committing)
    → Moves chain r
    → r.1.chain.aggregator ≡ chain.aggregator
moved-aggregator chain (ok true, s) m = ap {A = Chain} {B = Aggregator} (λ c. c.aggregator) m
moved-aggregator chain (ok false, s) m = ap {A = Chain} {B = Aggregator} (λ c. c.aggregator) m
moved-aggregator chain (err e, s) m = ap {A = Chain} {B = Aggregator} (λ c. c.aggregator) m
moved-aggregator chain (panic, s) m = ap {A = Chain} {B = Aggregator} (λ c. c.aggregator) m
moved-aggregator chain (out_of_fuel, s) m = ap {A = Chain} {B = Aggregator} (λ c. c.aggregator) m

module _ (env : Env) where
  commit_rounds-aggregator :
      (recur : Recur) (k : ℕ) (s : Committing)
      → (commit_rounds env recur k s).1.chain.aggregator ≡ s.chain.aggregator
  unfolding commit_rounds
  commit_rounds-aggregator recur zero s = refl
  commit_rounds-aggregator recur (suc k) s =
      go (commit_round env recur s).0
        (commit_rounds-aggregator recur k (commit_round env recur s).1)
    where
      round : (commit_round env recur s).1.chain.aggregator ≡ s.chain.aggregator
      round = moved-aggregator s.chain (commit_round env recur s) (Moves-commit_round env recur s)

      go :
          (r : Result Bool)
          → (commit_rounds env recur k (commit_round env recur s).1).1.chain.aggregator
            ≡ (commit_round env recur s).1.chain.aggregator
          → (continue r
              (λ more. if more then commit_rounds env recur k else pure false)
              (commit_round env recur s).1).1.chain.aggregator
            ≡ s.chain.aggregator
      go (ok true) rest = rest ∙ round
      go (ok false) rest = round
      go (err e) rest = round
      go panic rest = round
      go out_of_fuel rest = round

  commit_prev_block-aggregator :
      (fuel : ℕ) (b : Block) (s : Committing)
      → (commit_prev_block env fuel b s).1.chain.aggregator ≡ s.chain.aggregator
  unfolding commit_prev_block
  commit_prev_block-aggregator zero b s = refl
  commit_prev_block-aggregator (suc fuel) b s =
      commit_rounds-aggregator (commit_prev_block env fuel)
        (b.height - s.chain.last_committed_height) s

  pub commit-aggregator :
      (depth : ℕ) (b : Block) (w : Work)
      → (commit env depth b w).1.chain.aggregator ≡ w.chain.aggregator
  unfolding commit
  commit-aggregator depth b w =
      go (commit_prev_block env depth b from_here).0
        (commit_prev_block-aggregator depth b from_here)
    where
      from_here : Committing
      from_here = record { core = w.core; chain = w.chain; to_commit = [] }

      s : Committing
      s = (commit_prev_block env depth b from_here).1

      go :
          (r : Result Bool)
          → s.chain.aggregator ≡ w.chain.aggregator
          → (elim r as (λ _. Result (Unit {0}) × Work) [
            | ok done ↦
                (ok tt, record { core = deliver (reverse s.to_commit) s.core; chain = s.chain })
            | err e ↦ (err e, record { core = s.core; chain = s.chain })
            | panic ↦ (panic, record { core = s.core; chain = s.chain })
            | out_of_fuel ↦ (out_of_fuel, record { core = s.core; chain = s.chain })
          ]).1.chain.aggregator
            ≡ w.chain.aggregator
      go (ok done) h = h
      go (err e) h = h
      go panic h = h
      go out_of_fuel h = h

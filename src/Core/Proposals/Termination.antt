-- ===== src/Core/Proposals/Termination.antt =====
-- How much fuel the handlers of votes and proposals of consensus/src/core.rs need.
use hotstuff_dag.Aggregator
use hotstuff_dag.Aggregator.QcVotes
use hotstuff_dag.Aggregator.{Aggregator}
use hotstuff_dag.Core.Commit.Ends.{
  Always, Ends-lift, Halts, Halts-bind, Halts-if, Returns, Returns-halts, ensure-Returns,
}
use hotstuff_dag.Core.Commit.Foreign.{Apart, IsSteady}
use hotstuff_dag.Core.Outside.{mempool_verify}
use hotstuff_dag.Core.Proposals.Checks.{block_verify-Returns, vote_verify-Returns}
use hotstuff_dag.Core.Proposals.Fuel.{
  NoLoneQuorum, NoLoneQuorum-over, advance_shrinks, more_fuel_settles, process_qc-votes, votes,
}
use hotstuff_dag.Core.Proposals.Halting.{
  broadcast_propose-Halts, generate_proposal-Ends, mempool_verify-Ends, on_core-Ends,
  process_block-Halts,
}
use hotstuff_dag.Core.Proposals.{
  HandleVote, aggregate, certified, handle_proposal, handle_vote, handle_vote_with, process_block,
}
use hotstuff_dag.Core.State.{Work, on_core}
use hotstuff_dag.Core.Voting.{process_qc}
use hotstuff_dag.Crypto.{Digest, PublicKey}
use hotstuff_dag.Error.{Result, ensure, err, ok, out_of_fuel, panic, wrong_author}
use hotstuff_dag.Exec.{continue, modify, pure, ◌>>=◌, ◌>>◌}
use hotstuff_dag.Messages.Block
use hotstuff_dag.Messages.Block.{Block}
use hotstuff_dag.Messages.Qc.{Qc}
use hotstuff_dag.Messages.Vote
use hotstuff_dag.Messages.Vote.{Vote}
use hotstuff_dag.Prelude.{
  Bool-cases, Option, ap, arith, if◌then◌else◌, inl, inr, length, ltb, none, refl, some, suc, sym,
  u64_mod, zero, ℕ, ◌+◌, ◌<◌, ◌==◌, ◌≡◌, ◌≢◌, ◌≤◌,
}
use hotstuff_dag.World.{Env}
use mathlib.Core.Path.{subst}

module _ (env : Env) (owner : Digest → PublicKey) (l : PublicKey) (apart : Apart env owner l)
    (depth : ℕ) where
  abbrev deep : ℕ
  deep = suc (suc depth)

  abbrev With : Aggregator → Work → Type 0
  With a w = IsSteady owner l w.core × (w.chain.aggregator ≡ a)

  add_vote-Returns : (v : Vote) (a : Aggregator) → Returns Always (Aggregator.add_vote v a).0
  unfolding Aggregator.add_vote QcVotes.append
  add_vote-Returns v a = ground arith

  -- After a certificate the handlers see votes at the new height of the chain only.
  certified-Returns :
      (f : HandleVote) (qc : Qc) (w : Work)
      → IsSteady owner l w.core
      → ((v : Vote)
          → v.height ≡ (process_qc qc w).chain.height
          → Halts (With (process_qc qc w).chain.aggregator) (f v))
      → Returns Always (certified env deep f (some qc) w).0
  unfolding certified process_qc
  certified-Returns f qc w steady halting =
      (Halts-bind {P = With after.chain.aggregator}
          (on_core-Ends env owner l apart depth after.chain.aggregator
            (generate_proposal-Ends env owner l apart depth after.chain))
          (λ b at_h.
            broadcast_propose-Halts env owner l apart depth after.chain.aggregator
              after.chain.height f halting b at_h)).halts
        after (steady, refl)
    where
      after : Work
      after = process_qc qc w

  module _ (recur : HandleVote) (v : Vote) (w : Work) (steady : IsSteady owner l w.core) where
    added : Work
    added = (aggregate (Aggregator.add_vote v) w).1

    made_ends :
        (made : Result (Option Qc))
        → Returns Always made
        → ((qc : Qc)
            → made ≡ ok (some qc)
            → (v' : Vote) → v'.height ≡ (process_qc qc added).chain.height
            → Halts (With (process_qc qc added).chain.aggregator) (recur v'))
        → Returns (Always {A = Unit {0}}) (continue made (certified env deep recur) added).0
    unfolding certified added
    made_ends (ok none) g again = tt
    made_ends (ok (some qc)) g again = certified-Returns recur qc added steady (again qc refl)
    made_ends (err x) g again = tt
    made_ends panic g again = tt
    made_ends out_of_fuel g again = absurd g

    handle_vote_with-Returns :
        ((qc : Qc)
          → (Aggregator.add_vote v w.chain.aggregator).0 ≡ ok (some qc)
          → w.chain.height ≤ v.height
          → (v' : Vote) → v'.height ≡ (process_qc qc added).chain.height
          → Halts (With (process_qc qc added).chain.aggregator) (recur v'))
        → Returns Always (handle_vote_with env deep recur v w).0
    unfolding handle_vote_with added
    handle_vote_with-Returns again = elim (Bool-cases (ltb v.height w.chain.height)) [
      | inl old ↦ rw old tt
      | inr due ↦ rw due (
          verified (Vote.verify env.primitives v w.core.committee)
            (vote_verify-Returns env.primitives v w.core.committee) (ground (arith, due)))
    ]
      where
        verified :
            (r : Result (Unit {0}))
            → Returns Always r
            → w.chain.height ≤ v.height
            → Returns
                (Always {A = Unit {0}})
                (continue r
                  (λ _. aggregate (Aggregator.add_vote v) >>= certified env deep recur)
                  w).0
        verified (ok u) g due =
            made_ends (Aggregator.add_vote v w.chain.aggregator).0
              (add_vote-Returns v w.chain.aggregator) (λ qc e. again qc e due)
        verified (err x) g due = tt
        verified panic g due = tt
        verified out_of_fuel g due = absurd g

  handle_vote_ends :
      (fuel : ℕ) (v : Vote) (w : Work)
      → IsSteady owner l w.core
      → NoLoneQuorum w.chain.aggregator.committee
      → length w.chain.aggregator.votes_aggregators < fuel
      → v.height + length w.chain.aggregator.votes_aggregators + 1 < u64_mod
      → Returns Always (handle_vote env deep fuel v w).0
  unfolding handle_vote added
  handle_vote_ends zero v w steady lone enough small = absurd (none_left enough)
    where
      none_left : length w.chain.aggregator.votes_aggregators < 0 → ⊥
      none_left enough = omega (arith, enough)
  handle_vote_ends (suc fuel) v w steady lone enough small =
      handle_vote_with-Returns (handle_vote env deep fuel) v w steady (λ qc e due v' at_h.
        let (next, same, fewer) = advance_shrinks v w qc lone e due (ground (arith, small)) in
        record {
          halts = λ w' at.
              handle_vote_ends fuel v' w' at.0 (NoLoneQuorum-over at.1 same lone)
                (omega (arith, enough, fewer, votes at.1))
                (omega (arith, small, fewer, votes at.1, next, at_h));
        })

  handle_proposal_ends :
      (fuel : ℕ) (b : Block) (w : Work)
      → IsSteady owner l w.core
      → NoLoneQuorum w.chain.aggregator.committee
      → length w.chain.aggregator.votes_aggregators < fuel
      → b.height + length w.chain.aggregator.votes_aggregators + 1 < u64_mod
      → Returns Always (handle_proposal env deep fuel b w).0
  unfolding handle_proposal process_qc
  handle_proposal_ends fuel b w steady lone enough small =
      (Halts-bind
          (Ends-lift (λ x. x ≡ w) Always
            (ensure (b.author == w.chain.name)
              (wrong_author (Block.digest env.primitives b) b.author b.height))
            (ensure-Returns (b.author == w.chain.name)
              (wrong_author (Block.digest env.primitives b) b.author b.height)))
          (λ _ _.
            Halts-bind
              (Ends-lift (λ x. x ≡ w) Always (Block.verify env.primitives b w.core.committee)
                (block_verify-Returns env.primitives b w.core.committee))
              (λ _ _. record { halts = λ x at. after_check x at }))).halts
        w refl
    where
      agg : Aggregator
      agg = (process_qc b.qc w).chain.aggregator

      after_check :
          (x : Work)
          → x ≡ w
          → Returns
              (Always {A = Unit {0}})
              ((modify (process_qc b.qc) >> (do
                available ← on_core (mempool_verify env b)
                if available
                    then process_block env deep (handle_vote env deep fuel) b
                    else pure tt))
                x).0
      after_check x at =
          let (same, fewer) = process_qc-votes env deep b.qc w in
          (Halts-bind {P = With agg}
              (on_core-Ends env owner l apart depth agg
                (mempool_verify-Ends env owner l apart depth b))
              (λ available _.
                Halts-if available
                  (λ _.
                    process_block-Halts env owner l apart depth agg b.height
                      (handle_vote env deep fuel)
                      (λ v' at_h. record {
                        halts = λ w' at.
                            handle_vote_ends fuel v' w' at.0 (NoLoneQuorum-over at.1 same lone)
                              (omega (arith, enough, fewer, votes at.1))
                              (omega (arith, small, fewer, votes at.1, at_h));
                      })
                      b refl)
                  (λ _. record { halts = λ w at. tt }))).halts
            (process_qc b.qc x)
            (
              subst (λ x. IsSteady owner l x.core) (sym at) steady,
              ap {A = Work} {B = Aggregator} (λ x. (process_qc b.qc x).chain.aggregator) at,
            )

-- Where the blocks of the leader that can be read refer to no block of the leader, the chains of the
-- others hold none, and no authority has a quorum of stake alone, a depth of two for the walk of
-- commit, and fuel above the number of heights at which the aggregator of the chain holds votes, are
-- enough, as long as the heights up to that number above the vote or the block fit a `u64`:
-- `handle_vote` and `handle_proposal` come to an end, with all their calls on the node's own votes and
-- of commit, and any more fuel gives the same result.
pub handlers_end :
    (env : Env) (owner : Digest → PublicKey) (l : PublicKey) (depth k fuel : ℕ) (v : Vote)
    (b : Block) (w : Work)
    → Apart env owner l
    → IsSteady owner l w.core
    → NoLoneQuorum w.chain.aggregator.committee
    → length w.chain.aggregator.votes_aggregators < fuel
    → v.height + length w.chain.aggregator.votes_aggregators + 1 < u64_mod
    → b.height + length w.chain.aggregator.votes_aggregators + 1 < u64_mod
    → ((handle_vote env (suc (suc depth)) fuel v w).0 ≢ out_of_fuel)
      × ((handle_proposal env (suc (suc depth)) fuel b w).0 ≢ out_of_fuel)
      × (handle_vote env (suc (suc depth)) (k + fuel) v w
          ≡ handle_vote env (suc (suc depth)) fuel v w)
      × (handle_proposal env (suc (suc depth)) (k + fuel) b w
          ≡ handle_proposal env (suc (suc depth)) fuel b w)
handlers_end env owner l depth k fuel v b w apart steady lone enough v_small b_small =
    let same = more_fuel_settles env (suc (suc depth)) k fuel v b w lone enough v_small b_small in
    (
      Returns-halts (handle_vote env (suc (suc depth)) fuel v w).0
          (handle_vote_ends env owner l apart depth fuel v w steady lone enough v_small),
      Returns-halts (handle_proposal env (suc (suc depth)) fuel b w).0
          (handle_proposal_ends env owner l apart depth fuel b w steady lone enough b_small),
      same.0,
      same.1,
    )

-- ===== src/Core/Proposals/Fuel.antt =====
-- How deep `handle_vote` of consensus/src/core.rs calls itself when the vote for a node's own next
-- block completes a certificate at once.
use hotstuff_dag.Aggregator
use hotstuff_dag.Aggregator.QcVotes
use hotstuff_dag.Aggregator.QcVotes.{QcMaker}
use hotstuff_dag.Aggregator.{Aggregator}
use hotstuff_dag.Config.{Committee, quorum_threshold, stake}
use hotstuff_dag.Core.Outside.{mempool_verify}
use hotstuff_dag.Core.Proposals.Agreement.{bind-Agree, handle_vote_with-Agree, process_block-Agree}
use hotstuff_dag.Core.Proposals.{aggregate, handle_proposal, handle_vote, process_block}
use hotstuff_dag.Core.State.{Work, on_core}
use hotstuff_dag.Core.Voting.{advance_height, process_qc, update_high_qc}
use hotstuff_dag.Crypto.{PublicKey}
use hotstuff_dag.Error.{Result, ensure, ok, wrong_author}
use hotstuff_dag.Exec.{lift, pure}
use hotstuff_dag.Messages.Block
use hotstuff_dag.Messages.Block.{Block}
use hotstuff_dag.Messages.Qc.{Qc}
use hotstuff_dag.Messages.Vote.{Vote}
use hotstuff_dag.Prelude.{
  Bool, Bool-cases, add32, add64, ap, arith, bytes_eq, contains_key, false, if◌then◌else◌, inl, inr,
  insert, leb, length, length-insert_old, length-retain, length-retain_lt, lookup-insert_self,
  lookup_or, lookup_or_fresh, ltb, nat_eq, pair_eq, quad_eq, refl, some, suc, sym, true, u64_mod,
  zero, ℕ, ◌+◌, ◌<◌, ◌==◌, ◌∙◌, ◌≡◌, ◌≤◌,
}
use hotstuff_dag.World.{Env}
use mathlib.Core.Path.{subst}

-- No authority has a quorum of stake alone.
abbrev pub NoLoneQuorum : Committee → Type 0
NoLoneQuorum committee =
    (name : PublicKey) → add32 0 (stake committee name) < quorum_threshold committee

fresh_append :
    (v : Vote) (committee : Committee) (qc : Qc)
    → NoLoneQuorum committee
    → ¬ ((QcVotes.append v committee QcVotes.new).0 ≡ ok (some qc))
unfolding QcVotes.append
fresh_append v committee qc lone e = ground (arith, e, lone v.author)

append-height :
    (v : Vote) (committee : Committee) (m : QcMaker) (qc : Qc)
    → (QcVotes.append v committee m).0 ≡ ok (some qc)
    → qc.height ≡ v.height
unfolding QcVotes.append
append-height v committee m qc e = ground (arith, e)

-- The maker of a certificate held votes before.
add_vote_certifies :
    (v : Vote) (a : Aggregator) (qc : Qc)
    → NoLoneQuorum a.committee
    → (Aggregator.add_vote v a).0 ≡ ok (some qc)
    → (qc.height ≡ v.height) × (contains_key v.height a.votes_aggregators ≡ true)
unfolding Aggregator.add_vote Aggregator.entry
add_vote_certifies v a qc lone e = (
  append-height v a.committee (lookup_or v.height QcVotes.new a.votes_aggregators) qc e,
  elim (Bool-cases (contains_key v.height a.votes_aggregators)) [
    | inl there ↦ there
    | inr fresh ↦ absurd (
        fresh_append v a.committee qc lone (
          subst (λ m. (QcVotes.append v a.committee m).0 ≡ ok (some qc))
            (lookup_or_fresh v.height QcVotes.new a.votes_aggregators fresh) e))
  ],
)

-- An advance from the height of a certificate drops the votes that made it.
pub advance_shrinks :
    (v : Vote) (w : Work) (qc : Qc)
    → NoLoneQuorum w.chain.aggregator.committee
    → (Aggregator.add_vote v w.chain.aggregator).0 ≡ ok (some qc)
    → w.chain.height ≤ v.height
    → v.height + 1 < u64_mod
    → let chain = (process_qc qc (aggregate (Aggregator.add_vote v) w).1).chain in
      (chain.height ≡ v.height + 1)
      × (chain.aggregator.committee ≡ w.chain.aggregator.committee)
      × (length chain.aggregator.votes_aggregators < length w.chain.aggregator.votes_aggregators)
unfolding process_qc advance_height update_high_qc Aggregator.cleanup Aggregator.add_vote
    Aggregator.entry
advance_shrinks v w qc lone e due small =
    let (at_v, there) = add_vote_certifies v w.chain.aggregator qc lone e in
    let advances : ltb qc.height w.chain.height ≡ false = ground (arith, at_v, due) in
    let next : add64 qc.height 1 ≡ v.height + 1 = ground (arith, at_v, small) in
    let a = w.chain.aggregator in
    let maker =
      (QcVotes.append v a.committee (lookup_or v.height QcVotes.new a.votes_aggregators)).1 in
    let dropped =
      length-retain_lt (λ k. leb (v.height + 1) k) v.height
        (insert v.height maker a.votes_aggregators) (ground arith)
        (ground (arith, lookup-insert_self v.height maker a.votes_aggregators)) in
    let kept = length-insert_old v.height maker a.votes_aggregators there in
    rw (advances, next) (refl, refl, omega (arith, dropped, kept))

pub votes : {a b : Aggregator} → a ≡ b → length a.votes_aggregators ≡ length b.votes_aggregators
votes e = ap {A = Aggregator} {B = ℕ} (λ a. length a.votes_aggregators) e

pub NoLoneQuorum-over :
    {a b : Aggregator} {c : Committee}
    → a ≡ b
    → b.committee ≡ c
    → NoLoneQuorum c
    → NoLoneQuorum a.committee
NoLoneQuorum-over at same lone =
    subst NoLoneQuorum (sym (ap {A = Aggregator} {B = Committee} (λ a. a.committee) at ∙ same)) lone

module _ (env : Env) (depth : ℕ) where
  handle_vote_settles :
      (k fuel : ℕ) (v : Vote) (w : Work)
      → NoLoneQuorum w.chain.aggregator.committee
      → length w.chain.aggregator.votes_aggregators < fuel
      → v.height + length w.chain.aggregator.votes_aggregators + 1 < u64_mod
      → handle_vote env depth (k + fuel) v w ≡ handle_vote env depth fuel v w
  unfolding handle_vote
  handle_vote_settles k zero v w lone enough small = ground arith
  handle_vote_settles k (suc fuel) v w lone enough small =
      ap {A = ℕ} {B = Result (Unit {0}) × Work} (λ n. handle_vote env depth n v w) one_more
      ∙ handle_vote_with-Agree env depth (handle_vote env depth (k + fuel))
          (handle_vote env depth fuel) v w
          (λ qc e due v' w' at_h at_a.
            let (next, same, fewer) = advance_shrinks v w qc lone e due (ground (arith, small)) in
            handle_vote_settles k fuel v' w' (NoLoneQuorum-over at_a same lone)
              (omega (arith, enough, fewer, votes at_a))
              (omega (arith, small, fewer, votes at_a, next, at_h)))
    where
      one_more : k + suc fuel ≡ suc (k + fuel)
      one_more = omega arith

  pub process_qc-votes :
      (qc : Qc) (w : Work)
      → let before = w.chain.aggregator in
        let after = (process_qc qc w).chain.aggregator in
        (after.committee ≡ before.committee)
        × (length after.votes_aggregators ≤ length before.votes_aggregators)
  unfolding process_qc update_high_qc advance_height Aggregator.cleanup
  process_qc-votes qc w =
      ground
        (arith, length-retain (λ k. leb (add64 qc.height 1) k) w.chain.aggregator.votes_aggregators)

  handle_proposal_settles :
      (k fuel : ℕ) (b : Block) (w : Work)
      → NoLoneQuorum w.chain.aggregator.committee
      → length w.chain.aggregator.votes_aggregators < fuel
      → b.height + length w.chain.aggregator.votes_aggregators + 1 < u64_mod
      → handle_proposal env depth (k + fuel) b w ≡ handle_proposal env depth fuel b w
  unfolding handle_proposal
  handle_proposal_settles k fuel b w lone enough small =
      bind-Agree
        (lift (
          ensure (b.author == w.chain.name)
            (wrong_author (Block.digest env.primitives b) b.author b.height)))
        _ _ w
        (λ _ _. bind-Agree (lift (Block.verify env.primitives b w.core.committee)) _ _ w (λ _ _.
          bind-Agree (on_core (mempool_verify env b)) _ _ (process_qc b.qc w)
            (λ available _. if_available available)))
    where
      after : Work
      after = (on_core (mempool_verify env b) (process_qc b.qc w)).1

      if_available :
          (available : Bool)
          → (if available
                then process_block env depth (handle_vote env depth (k + fuel)) b
                else pure tt)
              after
            ≡ (if available
                  then process_block env depth (handle_vote env depth fuel) b
                  else pure tt)
                after
      if_available false = refl
      if_available true =
          process_block-Agree env depth (handle_vote env depth (k + fuel))
            (handle_vote env depth fuel) b.height after.chain.aggregator
            (λ v' w' at_h at_a.
              let (same, fewer) = process_qc-votes b.qc w in
              handle_vote_settles k fuel v' w' (NoLoneQuorum-over at_a same lone)
                (omega (arith, enough, fewer, votes at_a))
                (omega (arith, small, fewer, votes at_a, at_h)))
            b refl after refl

  -- If no authority has a quorum of stake alone, the fuel exceeds the number of heights at which the
  -- aggregator of the chain holds votes, and the heights up to that number above the vote or the
  -- block fit a `u64`, then any more fuel gives the same result of `handle_vote` and of
  -- `handle_proposal`: the calls of `handle_vote` on the node's own votes come to an end.
  pub more_fuel_settles :
      (k fuel : ℕ) (v : Vote) (b : Block) (w : Work)
      → NoLoneQuorum w.chain.aggregator.committee
      → length w.chain.aggregator.votes_aggregators < fuel
      → v.height + length w.chain.aggregator.votes_aggregators + 1 < u64_mod
      → b.height + length w.chain.aggregator.votes_aggregators + 1 < u64_mod
      → (handle_vote env depth (k + fuel) v w ≡ handle_vote env depth fuel v w)
        × (handle_proposal env depth (k + fuel) b w ≡ handle_proposal env depth fuel b w)
  more_fuel_settles k fuel v b w lone enough v_small b_small = (
    handle_vote_settles k fuel v w lone enough v_small,
    handle_proposal_settles k fuel b w lone enough b_small,
  )

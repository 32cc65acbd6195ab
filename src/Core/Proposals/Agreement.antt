-- ===== src/Core/Proposals/Agreement.antt =====
-- Where two versions of `handle_vote` agree on the votes that a handler of consensus/src/core.rs
-- passes to it, the handler gives the same result with either.
-- They agree on votes at one height, in states where the chain has one aggregator.
use hotstuff_dag.Aggregator
use hotstuff_dag.Aggregator.{Aggregator}
use hotstuff_dag.Core.Commit.Aggregators.{commit-aggregator}
use hotstuff_dag.Core.Commit.{commit}
use hotstuff_dag.Core.Outside.{store_block, transmit}
use hotstuff_dag.Core.Proposals.{
  HandleVote, aggregate, broadcast_propose, cast_vote, certified, commit_ancestors,
  generate_proposal, handle_vote_with, process_block, process_block_commit, process_block_prepare,
  process_block_vote,
}
use hotstuff_dag.Core.State.{Chain, Work, hotstuff, leader, on_core}
use hotstuff_dag.Core.Voting.Safety.{make_vote-Cast}
use hotstuff_dag.Core.Voting.{increase_last_voted_round, make_vote, process_qc}
use hotstuff_dag.Error.{Result, err, ok, out_of_fuel, panic}
use hotstuff_dag.Exec.{Exec, continue, lift, modify, pure, ◌>>=◌}
use hotstuff_dag.Messages.Block
use hotstuff_dag.Messages.Block.{Block}
use hotstuff_dag.Messages.Qc
use hotstuff_dag.Messages.Qc.{Qc}
use hotstuff_dag.Messages.Vote
use hotstuff_dag.Messages.Vote.{Vote}
use hotstuff_dag.Prelude.{
  Bool, Bool-cases, Option, add64, ap, arith, false, if◌then◌else◌, inl, inr, leb, ltb, none, not,
  refl, some, true, ℕ, ◌&&◌, ◌==◌, ◌||◌, ◌∙◌, ◌≡◌, ◌≤◌,
}
use hotstuff_dag.World.{Env, network_filter, propose}

abbrev pub Agree : ℕ → Aggregator → HandleVote → HandleVote → Type 0
Agree h a f g = (v : Vote) (w : Work) → v.height ≡ h → w.chain.aggregator ≡ a → f v w ≡ g v w

pub bind-Agree :
    {A B : Type 0} (m : Exec Work A) (f g : A → Exec Work B) (w : Work)
    → ((a : A) → (m w).0 ≡ ok a → f a (m w).1 ≡ g a (m w).1)
    → (m >>= f) w ≡ (m >>= g) w
bind-Agree {A} {B} m f g w h = go (m w).0 h
  where
    go :
        (r : Result A)
        → ((a : A) → r ≡ ok a → f a (m w).1 ≡ g a (m w).1)
        → continue r f (m w).1 ≡ continue r g (m w).1
    go (ok a) k = k a refl
    go (err e) k = refl
    go panic k = refl
    go out_of_fuel k = refl

abbrev Stays : {A : Type 0} → Exec Work A → Type 0
Stays m = (w : Work) → (m w).1.chain.aggregator ≡ w.chain.aggregator

Stays-bind :
    {A B : Type 0} (m : Exec Work A) (f : A → Exec Work B)
    → Stays m
    → ((a : A) → Stays (f a))
    → Stays (m >>= f)
Stays-bind {A} {B} m f km kf w = go (m w).0
  where
    go : (r : Result A) → (continue r f (m w).1).1.chain.aggregator ≡ w.chain.aggregator
    go (ok a) = kf a (m w).1 ∙ km w
    go (err x) = km w
    go panic = km w
    go out_of_fuel = km w

Stays-if :
    {A : Type 0} (c : Bool) (m n : Exec Work A) → Stays m → Stays n → Stays (if c then m else n)
Stays-if true m n km kn = km
Stays-if false m n km kn = kn

-- The two do the same from every state whose chain has this aggregator.
abbrev pub Same : {A : Type 0} → Aggregator → Exec Work A → Exec Work A → Type 0
Same a m n = (w : Work) → w.chain.aggregator ≡ a → m w ≡ n w

Same-bind :
    {A B : Type 0} {a : Aggregator} (m : Exec Work A) (f g : A → Exec Work B)
    → Stays m
    → ((x : A) → Same a (f x) (g x))
    → Same a (m >>= f) (m >>= g)
Same-bind m f g km same w at_a = bind-Agree m f g w (λ x _. same x (m w).1 (km w ∙ at_a))

module _ (env : Env) where
  process_block_commit-Stays :
      (depth : ℕ) (b0 b1 : Block) → Stays (process_block_commit env depth b0 b1)
  unfolding process_block_commit
  process_block_commit-Stays depth b0 b1 =
      Stays-bind (on_core leader) _ (λ w. refl)
        (λ leading.
          Stays-if (leading == b0.author && add64 b0.height 1 == b1.height) (commit env depth b0)
            (pure tt) (commit-aggregator env depth b0) (λ w. refl))

  commit_ancestors-Stays :
      (depth : ℕ) (f : HandleVote) (b : Block) (o : Option (Block × Block))
      → Stays (commit_ancestors env depth f b o)
  unfolding commit_ancestors
  commit_ancestors-Stays depth f b none w = refl
  commit_ancestors-Stays depth f b (some (b0, b1)) w =
      Stays-if (not w.core.is_view_change && leb b.epoch w.chain.epoch)
        (process_block_commit env depth b0 b1) (pure tt) (process_block_commit-Stays depth b0 b1)
        (λ w. refl) w

  make_vote-aggregator :
      (b : Block) (w : Work) → (make_vote env b w).1.chain.aggregator ≡ w.chain.aggregator
  unfolding make_vote increase_last_voted_round
  make_vote-aggregator b w = ground arith

  pub vote-height :
      (b : Block) (w : Work) (v : Vote) → (make_vote env b w).0 ≡ ok (some v) → v.height ≡ b.height
  unfolding Vote.new
  vote-height b w v e = ap {A = Vote} {B = ℕ} (λ v. v.height) (make_vote-Cast env b w v e).signed

  module _ (depth : ℕ) (f g : HandleVote) (h : ℕ) (a : Aggregator) (agree : Agree h a f g) where
    cast_vote-Agree :
        (o : Option Vote) (w : Work)
        → ((v : Vote) → o ≡ some v → v.height ≡ h)
        → w.chain.aggregator ≡ a
        → cast_vote env depth f o w ≡ cast_vote env depth g o w
    unfolding cast_vote
    cast_vote-Agree none w at_h at_a = refl
    cast_vote-Agree (some v) w at_h at_a = elim (Bool-cases (v.proposer == w.core.name)) [
      | inl own ↦ rw own (agree v w (at_h v refl) at_a)
      | inr sent_off ↦ rw sent_off refl
    ]

    process_block_vote-Agree :
        (b : Block)
        → b.height ≡ h
        → Same a (process_block_vote env depth f b) (process_block_vote env depth g b)
    unfolding process_block_vote
    process_block_vote-Agree b at_h w at_a =
        elim (Bool-cases (b.height == w.chain.height || Qc.eq b.qc Qc.genesis)) [
          | inl due ↦ rw due (
              bind-Agree (make_vote env b) (cast_vote env depth f) (cast_vote env depth g) w (λ o e.
                cast_vote-Agree o (make_vote env b w).1
                  (λ v is. vote-height b w v (e ∙ ap ok is) ∙ at_h)
                  (make_vote-aggregator b w ∙ at_a)))
          | inr not_due ↦ rw not_due refl
        ]

    pub process_block-Agree :
        (b : Block)
        → b.height ≡ h
        → Same a (process_block env depth f b) (process_block env depth g b)
    unfolding process_block
    process_block-Agree b at_h =
        Same-bind (on_core (modify (store_block env b))) _ _ (λ w. refl)
          (λ _.
            Same-bind (on_core leader) _ _ (λ w. refl)
              (λ leading.
                Same-bind (on_core (process_block_prepare env b)) _ _ (λ w. refl)
                  (λ ancestors.
                    Same-bind
                      (if b.author == leading
                        then commit_ancestors env depth f b ancestors
                        else pure tt)
                      _ _
                      (Stays-if (b.author == leading) _ _
                        (commit_ancestors-Stays depth f b ancestors) (λ w. refl))
                      (λ _. process_block_vote-Agree b at_h))))

    broadcast_propose-Agree :
        (b : Block)
        → b.height ≡ h
        → Same a (broadcast_propose env depth f b) (broadcast_propose env depth g b)
    unfolding broadcast_propose
    broadcast_propose-Agree b at_h =
        Same-bind (on_core (transmit (propose b) none network_filter hotstuff)) _ _ (λ w. refl)
          (λ _. process_block-Agree b at_h)

  proposal-height :
      (chain : Chain) (w : Work) (b : Block)
      → (generate_proposal env chain false w.core).0 ≡ ok b
      → b.height ≡ chain.height
  unfolding generate_proposal Block.new
  proposal-height chain w b e = ground (arith, e)

  -- After a certificate the handlers see votes at the new height of the chain only.
  certified-Agree :
      (depth : ℕ) (f g : HandleVote) (qc : Qc) (w : Work)
      → let chain = (process_qc qc w).chain in
        Agree chain.height chain.aggregator f g
        → certified env depth f (some qc) w ≡ certified env depth g (some qc) w
  unfolding certified
  certified-Agree depth f g qc w agree =
      bind-Agree (on_core (generate_proposal env chain false)) _ _ after (λ b e.
        broadcast_propose-Agree depth f g chain.height chain.aggregator agree b
          (proposal-height chain after b e) _ refl)
    where
      after : Work
      after = process_qc qc w

      chain : Chain
      chain = after.chain

  -- So does the handling of a vote, where they agree on what its certificate, if it makes one, leads to.
  pub handle_vote_with-Agree :
      (depth : ℕ) (f g : HandleVote) (v : Vote) (w : Work)
      → ((qc : Qc)
          → (Aggregator.add_vote v w.chain.aggregator).0 ≡ ok (some qc)
          → w.chain.height ≤ v.height
          → let chain = (process_qc qc (aggregate (Aggregator.add_vote v) w).1).chain in
            Agree chain.height chain.aggregator f g)
      → handle_vote_with env depth f v w ≡ handle_vote_with env depth g v w
  unfolding handle_vote_with
  handle_vote_with-Agree depth f g v w agree = elim (Bool-cases (ltb v.height w.chain.height)) [
    | inl old ↦ rw old refl
    | inr due ↦ rw due (
        bind-Agree (lift (Vote.verify env.primitives v w.core.committee)) _ _ w (λ _ _.
          bind-Agree (aggregate (Aggregator.add_vote v)) (certified env depth f)
            (certified env depth g) w (λ made e. made_agree made e (ground (arith, due)))))
  ]
    where
      added : Work
      added = (aggregate (Aggregator.add_vote v) w).1

      made_agree :
          (made : Option Qc)
          → (aggregate (Aggregator.add_vote v) w).0 ≡ ok made
          → w.chain.height ≤ v.height
          → certified env depth f made added ≡ certified env depth g made added
      made_agree none e due = refl
      made_agree (some qc) e due = certified-Agree depth f g qc added (agree qc e due)

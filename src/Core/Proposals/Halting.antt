-- ===== src/Core/Proposals/Halting.antt =====
-- The handlers of votes and proposals of consensus/src/core.rs come to an end: each certificate that
-- a node's own vote completes takes votes out of the aggregator, and the walk of commit goes two
-- calls deep where the leader refers to other chains only.
use hotstuff_dag.Aggregator.{Aggregator}
use hotstuff_dag.Config.{SocketAddr, address, smvba_address}
use hotstuff_dag.Core.Commit.Aggregators.{commit-aggregator}
use hotstuff_dag.Core.Commit.Depth.{commit-Ends}
use hotstuff_dag.Core.Commit.Ends.{
  Always, Ends, Ends-Halts, Ends-bind, Ends-if, Ends-pure, Halts, Halts-bind, Halts-if, Returns,
}
use hotstuff_dag.Core.Commit.Foreign.{Apart, IfFound, IsSteady, get_block-Ends}
use hotstuff_dag.Core.Commit.{commit}
use hotstuff_dag.Core.Outside.{
  addresses, get_ancestors, get_block, get_parent_block, grandparent, mempool_get, mempool_verify,
  store_block, transmit,
}
use hotstuff_dag.Core.Proposals.Agreement.{vote-height}
use hotstuff_dag.Core.Proposals.{
  HandleVote, broadcast_propose, cast_vote, commit_ancestors, generate_proposal, process_block,
  process_block_commit, process_block_prepare, process_block_vote,
}
use hotstuff_dag.Core.State.{Chain, Core, Work, emit, hotstuff, leader, on_core}
use hotstuff_dag.Core.Voting.{increase_last_voted_round, make_vote}
use hotstuff_dag.Crypto.{Digest, PublicKey}
use hotstuff_dag.Error.{Result, err, ok, out_of_fuel, panic}
use hotstuff_dag.Exec.{Exec, continue, modify, pure, ◌>>=◌}
use hotstuff_dag.Messages.Block
use hotstuff_dag.Messages.Block.{Block, parent}
use hotstuff_dag.Messages.Qc
use hotstuff_dag.Messages.Qc.{Qc}
use hotstuff_dag.Messages.Vote.{Vote}
use hotstuff_dag.Prelude.{
  List, Option, add64, ap, arith, false, leb, none, not, refl, some, suc, ℕ, ◌&&◌, ◌==◌, ◌||◌, ◌∙◌,
  ◌≡◌,
}
use hotstuff_dag.World.{ConsensusMessage, Env, Network, network_filter, propose, sent}

module _ (env : Env) (owner : Digest → PublicKey) (l : PublicKey) (apart : Apart env owner l)
    (depth : ℕ) where
  abbrev deep : ℕ
  deep = suc (suc depth)

  -- The core is steady, and the chain at hand has this aggregator.
  abbrev pub With : Aggregator → Work → Type 0
  With a w = IsSteady owner l w.core × (w.chain.aggregator ≡ a)

  pub on_core-Ends :
      {A : Type 0} {Q : A → Type 0} {m : Exec Core A} (a : Aggregator)
      → Ends (IsSteady owner l) Q m
      → Ends (With a) Q (on_core m)
  on_core-Ends a hm = record {
    ends = λ w h. (((hm.ends w.core h.0).0, h.1), (hm.ends w.core h.0).1);
  }

  Ends-Always :
      {A : Type 0} (Q : A → Type 0) (m : Exec Core A)
      → Ends (IsSteady owner l) Q m
      → Ends (IsSteady owner l) Always m
  Ends-Always Q m hm = record { ends = λ c h. ((hm.ends c h).0, (Ends-Halts hm).halts c h) }

  store_block-Ends : (b : Block) → Ends (IsSteady owner l) Always (modify (store_block env b))
  unfolding store_block
  store_block-Ends b = record { ends = λ c h. (h, tt) }

  leader-Ends : Ends (IsSteady owner l) Always leader
  leader-Ends = record { ends = λ c h. (h, rw h.0 tt) }

  get_block_of-Ends :
      (author : PublicKey) (d : Digest) (b : Option Block)
      → Ends (IsSteady owner l) Always (get_block env author d b)
  get_block_of-Ends author d b =
      Ends-Always (IfFound owner l d) (get_block env author d b)
        (get_block-Ends env owner l apart author d b)

  prepare-Ends : (b : Block) → Ends (IsSteady owner l) Always (process_block_prepare env b)
  unfolding process_block_prepare get_ancestors get_parent_block grandparent
  prepare-Ends b =
      Ends-bind (get_block_of-Ends b.author (Block.parent b) (some b)) (λ parent _. further parent)
    where
      further : (parent : Option Block) → Ends (IsSteady owner l) Always (grandparent env parent)
      further none = Ends-pure (IsSteady owner l) Always none tt
      further (some b1) =
          Ends-bind (get_block_of-Ends b1.author (Block.parent b1) (some b1))
            (λ found _. Ends-pure (IsSteady owner l) Always _ tt)

  transmit-Ends :
      (m : ConsensusMessage) (to : Option PublicKey) (network : Network) (tag : ℕ)
      → Ends (IsSteady owner l) Always (transmit m to network tag)
  unfolding transmit addresses address smvba_address
  transmit-Ends m to network tag = record {
    ends = λ c h. go c h (addresses c.name to c.committee tag) (answers c to);
  }
    where
      answers :
          (c : Core) (to : Option PublicKey) → Returns Always (addresses c.name to c.committee tag)
      answers c none = ground arith
      answers c (some k) = ground arith

      go :
          (c : Core)
          → IsSteady owner l c
          → (r : Result (List SocketAddr)) → Returns Always r
          → let out = elim r as (λ _. Result (Unit {0}) × Core) [
            | ok to_addresses ↦ (ok tt, emit (sent network m to_addresses) c)
            | err e ↦ (err e, c)
            | panic ↦ (panic, c)
            | out_of_fuel ↦ (out_of_fuel, c)
          ] in
            IsSteady owner l out.1 × Returns Always out.0
      go c h (ok a) g = (h, tt)
      go c h (err e) g = (h, tt)
      go c h panic g = (h, tt)
      go c h out_of_fuel g = absurd g

  pub mempool_verify-Ends : (b : Block) → Ends (IsSteady owner l) Always (mempool_verify env b)
  unfolding mempool_verify
  mempool_verify-Ends b = record { ends = λ c h. (h, ground arith) }

  commit-With : (a : Aggregator) (b : Block) → Ends (With a) Always (commit env deep b)
  commit-With a b = record {
    ends = λ w h.
        let out = (commit-Ends env owner l apart depth b).ends w h.0 in
        ((out.0, commit-aggregator env deep b w ∙ h.1), out.1);
  }

  module _ (a : Aggregator) (h : ℕ) (f : HandleVote)
      (halting : (v : Vote) → v.height ≡ h → Halts (With a) (f v)) where
    process_block_commit-Ends :
        (b0 b1 : Block) → Ends (With a) Always (process_block_commit env deep b0 b1)
    unfolding process_block_commit
    process_block_commit-Ends b0 b1 = Ends-bind (on_core-Ends a leader-Ends) (λ leading _.
        Ends-if (leading == b0.author && add64 b0.height 1 == b1.height) (λ _. commit-With a b0)
          (λ _. Ends-pure (With a) Always tt tt))

    commit_ancestors-Ends :
        (b : Block) (o : Option (Block × Block))
        → Ends (With a) Always (commit_ancestors env deep f b o)
    unfolding commit_ancestors
    commit_ancestors-Ends b none = Ends-pure (With a) Always tt tt
    commit_ancestors-Ends b (some (b0, b1)) = record {
      ends = λ w at.
          (Ends-if (not w.core.is_view_change && leb b.epoch w.chain.epoch)
              (λ _. process_block_commit-Ends b0 b1) (λ _. Ends-pure (With a) Always tt tt)).ends
            w at;
    }

    cast_vote-Halts :
        (o : Option Vote)
        → ((v : Vote) → o ≡ some v → v.height ≡ h)
        → Halts (With a) (cast_vote env deep f o)
    unfolding cast_vote
    cast_vote-Halts none at_h = record { halts = λ w at. tt }
    cast_vote-Halts (some v) at_h = record {
      halts = λ w at.
          (Halts-if (v.proposer == w.core.name) (λ _. halting v (at_h v refl))
              (λ _. Ends-Halts (
                on_core-Ends a (
                  transmit-Ends (ConsensusMessage.vote v) (some v.proposer) network_filter
                    hotstuff)))).halts
            w at;
    }

    make_vote-at :
        (b : Block) (w : Work)
        → With a w
        → With a (make_vote env b w).1 × Returns Always (make_vote env b w).0
    unfolding make_vote increase_last_voted_round
    make_vote-at b w at = rw at.0.0 (ground (arith, at))

    process_block_vote-Halts :
        (b : Block) → b.height ≡ h → Halts (With a) (process_block_vote env deep f b)
    unfolding process_block_vote
    process_block_vote-Halts b at_h = record {
      halts = λ w at.
          (Halts-if {m = make_vote env b >>= cast_vote env deep f} {n = pure tt}
              (b.height == w.chain.height || Qc.eq b.qc Qc.genesis)
              (λ _. record {
                halts = λ w at. voted w at (make_vote env b w).0 refl (make_vote-at b w at);
              })
              (λ _. record { halts = λ w at. tt })).halts
            w at;
    }
      where
        voted :
            (w : Work)
            → With a w
            → (r : Result (Option Vote)) → (make_vote env b w).0 ≡ r
            → With a (make_vote env b w).1 × Returns Always r
            → Returns
                (Always {A = Unit {0}})
                (continue r (cast_vote env deep f) (make_vote env b w).1).0
        voted w at (ok o) e out =
            (cast_vote-Halts o (λ v is. vote-height env b w v (e ∙ ap ok is) ∙ at_h)).halts
              (make_vote env b w).1 out.0
        voted w at (err x) e out = tt
        voted w at panic e out = tt
        voted w at out_of_fuel e out = absurd out.1

    pub process_block-Halts :
        (b : Block) → b.height ≡ h → Halts (With a) (process_block env deep f b)
    unfolding process_block
    process_block-Halts b at_h = Halts-bind (on_core-Ends a (store_block-Ends b)) (λ _ _.
        Halts-bind (on_core-Ends a leader-Ends) (λ leading _.
          Halts-bind (on_core-Ends a (prepare-Ends b)) (λ ancestors _.
            Halts-bind
              (Ends-if (b.author == leading) (λ _. commit_ancestors-Ends b ancestors)
                (λ _. Ends-pure (With a) Always tt tt))
              (λ _ _. process_block_vote-Halts b at_h))))

    pub broadcast_propose-Halts :
        (b : Block) → b.height ≡ h → Halts (With a) (broadcast_propose env deep f b)
    unfolding broadcast_propose
    broadcast_propose-Halts b at_h =
        Halts-bind (on_core-Ends a (transmit-Ends (propose b) none network_filter hotstuff))
          (λ _ _. process_block-Halts b at_h)

  pub generate_proposal-Ends :
      (chain : Chain)
      → Ends (IsSteady owner l) (λ b. b.height ≡ chain.height) (generate_proposal env chain false)
  unfolding generate_proposal mempool_get Block.new
  generate_proposal-Ends chain = record { ends = λ c h. (h, refl) }

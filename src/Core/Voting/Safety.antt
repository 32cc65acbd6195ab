-- ===== src/Core/Voting/Safety.antt =====
-- The voting rule of consensus/src/core.rs (`make_vote`): when a vote is cast, and that a node never
-- votes twice at one height of a chain.
use hotstuff_dag.Core.State.{Work}
use hotstuff_dag.Core.Voting.{increase_last_voted_round, make_vote}
use hotstuff_dag.Error.{Result, err, ok, out_of_fuel, panic}
use hotstuff_dag.Messages.Block.{Block}
use hotstuff_dag.Messages.Qc
use hotstuff_dag.Messages.Qc.{Qc}
use hotstuff_dag.Messages.Vote
use hotstuff_dag.Messages.Vote.{Vote}
use hotstuff_dag.Prelude.{
  List, Option, [], add64, arith, none, refl, some, true, ℕ, ◌<◌, ◌∷◌, ◌≡◌, ◌≤◌, ◌⊎◌,
}
use hotstuff_dag.World.{Env}

module _ (env : Env) where
  -- What a cast vote says of the block and of the chain, and what it leaves.
  pub record Cast (block : Block) (w w' : Work) (v : Vote) : Type 0 where
    pub not_old : w.chain.epoch ≤ block.epoch
    pub higher : w.chain.last_voted_height < block.height
    pub extends : (add64 block.qc.height 1 ≡ block.height) ⊎ (Qc.eq block.qc Qc.genesis ≡ true)
    pub signed : v ≡ Vote.new env.primitives block w.core.name
    pub recorded : w'.chain.last_voted_height ≡ block.height

  -- If `make_vote` casts a vote, the block's epoch is not older than the chain's, its height is above
  -- every height voted for, it follows its certificate or carries the genesis one, the vote is the
  -- node's vote for this block, and the chain records the height as voted for.
  pub make_vote-Cast :
      (block : Block) (w : Work) (v : Vote)
      → (make_vote env block w).0 ≡ ok (some v)
      → Cast block w (make_vote env block w).1 v
  unfolding make_vote increase_last_voted_round
  make_vote-Cast block w v h = ground arith

  -- Without a vote the chain and the core are left as they were.
  make_vote_unchanged :
      (block : Block) (w : Work)
      → (make_vote env block w).0 ≡ ok none
      → (make_vote env block w).1 ≡ w
  unfolding make_vote
  make_vote_unchanged block w h = ground arith

  -- The heights at which votes are cast while a list of blocks is offered, oldest first.
  pub vote_heights : List Block → Work → List ℕ
  vote_heights [] w = []
  vote_heights (b ∷ bs) w =
      let later = vote_heights bs (make_vote env b w).1 in
      elim (make_vote env b w).0 [
        | ok cast ↦ elim cast [ none ↦ later | some v ↦ v.height ∷ later ]
        | _ ↦ later
      ]

abbrev pub IncreasingAbove : ℕ → List ℕ → Type 0
IncreasingAbove n [] = Unit {0}
IncreasingAbove n (h ∷ hs) = (n < h) × IncreasingAbove h hs

module _ (env : Env) where
  last_voted_le :
      (block : Block) (w : Work)
      → w.chain.last_voted_height ≤ (make_vote env block w).1.chain.last_voted_height
  unfolding make_vote increase_last_voted_round
  last_voted_le block w = ground arith

  vote_height :
      (block : Block) (w : Work) (v : Vote)
      → (make_vote env block w).0 ≡ ok (some v)
      → (w.chain.last_voted_height < v.height)
        × (v.height ≡ (make_vote env block w).1.chain.last_voted_height)
  unfolding make_vote increase_last_voted_round Vote.new
  vote_height block w v h = ground arith

  IncreasingAbove-mono :
      {m n : ℕ} (hs : List ℕ) → m ≤ n → IncreasingAbove n hs → IncreasingAbove m hs
  IncreasingAbove-mono [] le i = tt
  IncreasingAbove-mono (h ∷ hs) le i = (omega arith, i.1)

  -- Whatever blocks are offered, the heights of the votes strictly increase from above the height
  -- last voted for: no height of a chain gets two votes of one node.
  pub vote_heights-IncreasingAbove :
      (bs : List Block) (w : Work)
      → IncreasingAbove w.chain.last_voted_height (vote_heights env bs w)
  unfolding vote_heights
  vote_heights-IncreasingAbove [] w = tt
  vote_heights-IncreasingAbove (b ∷ bs) w =
      go (make_vote env b w).0 refl (vote_heights-IncreasingAbove bs (make_vote env b w).1)
    where
      later : List ℕ
      later = vote_heights env bs (make_vote env b w).1

      go :
          (r : Result (Option Vote))
          → (make_vote env b w).0 ≡ r
          → IncreasingAbove (make_vote env b w).1.chain.last_voted_height later
          → IncreasingAbove w.chain.last_voted_height (elim r [
            | ok cast ↦ elim cast [ none ↦ later | some v ↦ v.height ∷ later ]
            | _ ↦ later
          ])
      go (ok none) e ih = IncreasingAbove-mono later (last_voted_le b w) ih
      go (ok (some v)) e ih = ((vote_height b w v e).0, rw ((vote_height b w v e).1) ih)
      go (err x) e ih = IncreasingAbove-mono later (last_voted_le b w) ih
      go panic e ih = IncreasingAbove-mono later (last_voted_le b w) ih
      go out_of_fuel e ih = IncreasingAbove-mono later (last_voted_le b w) ih

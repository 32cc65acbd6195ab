-- ===== src/Core/Commit/Recursion.antt =====
-- The recursion of `commit_prev_block` of consensus/src/core.rs through the references of a leader
-- block: it works on the clone of a chain in `pubkey_to_chain`, where nothing is committed until it
-- comes back.
use hotstuff_dag.Config.{Committee}
use hotstuff_dag.Core.Commit.{
  Committing, Recur, commit, commit_current, commit_digest, commit_leader_references,
  commit_prev_block, commit_references, commit_round, commit_rounds, sort_references, visit,
  visit_reference,
}
use hotstuff_dag.Core.Outside.{decode, found_block, get_block, read_store}
use hotstuff_dag.Core.State.{Chain, Core, Work, emit}
use hotstuff_dag.Crypto.{Digest, PublicKey}
use hotstuff_dag.Error.{ok, out_of_fuel}
use hotstuff_dag.Exec.{Exec, ◌>>=◌}
use hotstuff_dag.Leader.{get_leader}
use hotstuff_dag.Messages.Block.{Block}
use hotstuff_dag.Messages.Qc
use hotstuff_dag.Messages.Qc.{Qc}
use hotstuff_dag.Prelude.{
  ==_iff, List, Map, [], add64, arith, bytes_eq, false, lookup, nat_eq, none, pair_eq, quad_eq,
  refl, some, suc, sym, zero, ℕ, ◌-◌, ◌<◌, ◌==◌, ◌∷◌, ◌≡◌,
}
use hotstuff_dag.Store.Obligations.{answered}
use hotstuff_dag.Store.{value}
use hotstuff_dag.World.{Bytes, Env, Trace, read}
use mathlib.Core.Path.{subst}

-- The store answers the digest by the block.
abbrev pub Stored : Env → Digest → Block → Type 0
Stored env d b =
    ((d == Qc.genesis.hash) ≡ false)
    × ((t : Trace)
        → (bytes : Bytes) × (env.db_get t d ≡ value (some bytes))
          × (env.deserialize bytes ≡ some b))

-- The block after the last committed one.
abbrev pub Next : Chain → Digest → Type 0
Next chain at = lookup (add64 chain.last_committed_height 1) chain.height_to_digest ≡ some at

-- In the map of the chains the next block of a chain is the leader's, and its first reference is to
-- a block whose author has this chain and which is above what the chain has committed.
pub record LoopsBack (env : Env) (committee : Committee) (epoch : ℕ) (chains : Map PublicKey Chain)
    (clone : Chain) (b x : Block) : Type 0 where
  pub at : Digest
  pub reference : PublicKey × Digest
  pub others : List (PublicKey × Digest)
  pub leads : get_leader committee epoch ≡ ok b.author
  pub next : Next clone at
  pub stored : Stored env at b
  pub refers : sort_references b.references ≡ reference ∷ others
  pub resolved : Stored env reference.1 x
  pub kept : lookup x.author chains ≡ some clone
  pub uncommitted : clone.last_committed_height < x.height

bind-out_of_fuel :
    {S A B : Type 0} (m : Exec S A) (f : A → Exec S B) (s : S)
    → (m s).0 ≡ out_of_fuel
    → ((m >>= f) s).0 ≡ out_of_fuel
bind-out_of_fuel m f s h = rw h refl

module _ (env : Env) where
  get_block-Stored :
      (author : PublicKey) (d : Digest) (b : Block) (c : Core)
      → Stored env d b
      → get_block env author d none c ≡ (ok (some b), emit (read d) c)
  unfolding get_block read_store found_block decode
  get_block-Stored author d b c (apart, answers) =
      let (bytes, answered, parsed) = answers (read d ∷ c.trace) in
      rw (apart, answered, parsed) refl

  abbrev Loops : Committing → Chain → Block → Block → Type 0
  Loops s clone b x = LoopsBack env s.core.committee s.core.epoch s.core.pubkey_to_chain clone b x

  module _ (recur : Recur) (clone : Chain) (b x : Block) where
    -- The recursive calls that the round makes are all on `x`, where the state loops back again.
    abbrev RunsOut : Type 0
    RunsOut = (s : Committing) → Loops s clone b x → s.chain ≡ clone → (recur x s).0 ≡ out_of_fuel

    visit-out :
        (target : Chain) (s : Committing)
        → (recur x (record s { chain = target })).0 ≡ out_of_fuel
        → (visit env recur x target s).0 ≡ out_of_fuel
    unfolding visit
    visit-out target s h = rw (visit, h) refl

    commit_references-out :
        (refs : List (PublicKey × Digest)) (s : Committing)
        → (l : Loops s clone b x) → refs ≡ l.reference ∷ l.others
        → RunsOut
        → (commit_references env recur refs s).0 ≡ out_of_fuel
    unfolding commit_references visit_reference
    commit_references-out refs s l is out =
        let found : Committing = record s { core = emit (read l.reference.1) s.core } in
        rw (is, get_block-Stored s.core.name l.reference.1 x s.core l.resolved, l.kept)
          (bind-out_of_fuel (visit env recur x clone) _ found
            (visit-out clone found (out (record found { chain = clone }) l refl)))

    commit_round-out :
        (s : Committing)
        → (l : Loops s clone b x) → Next s.chain l.at
        → RunsOut
        → (commit_round env recur s).0 ≡ out_of_fuel
    unfolding commit_round commit_digest commit_current commit_leader_references
    commit_round-out s l at out =
        let once : Core = emit (read l.at) s.core in
        let twice : Committing = record s { core = emit (read l.at) once } in
        rw
          (
            at,
            get_block-Stored s.core.name l.at b s.core l.stored,
            get_block-Stored s.core.name l.at b once l.stored,
            l.leads,
            (==_iff b.author b.author).1 refl,
            commit_references-out (sort_references b.references) twice l l.refers out,
          )
          refl

    commit_rounds-out :
        (k : ℕ) (s : Committing)
        → (l : Loops s clone b x) → Next s.chain l.at
        → RunsOut
        → (commit_rounds env recur (suc k) s).0 ≡ out_of_fuel
    unfolding commit_rounds
    commit_rounds-out k s l at out = rw (commit_round-out s l at out) refl

  commit_prev_block-out :
      (fuel : ℕ) (clone : Chain) (b x y : Block) (s : Committing)
      → (l : Loops s clone b x) → Next s.chain l.at
      → s.chain.last_committed_height < y.height
      → (commit_prev_block env fuel y s).0 ≡ out_of_fuel
  unfolding commit_prev_block
  commit_prev_block-out zero clone b x y s l at behind = refl
  commit_prev_block-out (suc fuel) clone b x y s l at behind =
      let some_rounds : y.height - s.chain.last_committed_height
          ≡ suc (y.height - s.chain.last_committed_height - 1) =
        omega (arith, behind) in
      rw some_rounds (
        commit_rounds-out (commit_prev_block env fuel) clone b x
          (y.height - s.chain.last_committed_height - 1) s l at
          (λ t lt is_clone.
            commit_prev_block-out fuel clone b x x t lt
              (subst (λ c. Next c lt.at) (sym is_clone) lt.next)
              (subst (λ c. c.last_committed_height < x.height) (sym is_clone) lt.uncommitted)))

  -- A block is to be committed above the last committed height of a chain, the next block of the
  -- chain is the leader's, and its first reference is to a block above what the author's chain in the
  -- map has committed, where the next block is the same one; the store has both blocks. Then the walk
  -- runs out of any bound on its depth: the recursion of `commit` does not end.
  pub commit_never_ends :
      (depth : ℕ) (clone : Chain) (b x y : Block) (w : Work)
      → (l : LoopsBack env w.core.committee w.core.epoch w.core.pubkey_to_chain clone b x)
      → Next w.chain l.at
      → w.chain.last_committed_height < y.height
      → (commit env depth y w).0 ≡ out_of_fuel
  unfolding commit
  commit_never_ends depth clone b x y w l at behind =
      rw
        (
          commit,
          commit_prev_block-out depth clone b x y
              (record { core = w.core; chain = w.chain; to_commit = [] }) l at behind,
        )
        refl

-- ===== src/Core/Commit.antt =====
-- consensus/src/core.rs: committing a block with all that it rests on. The depth of the recursion
-- through the references is bounded by fuel; the loop over the heights is not, since it runs
-- `block.height - last_committed_height` rounds at most.
pub mod Aggregators
pub mod Heights
pub mod Growth
pub mod Reads
pub mod Pushes
pub mod Recursion
pub mod References
pub mod Foreign
pub mod Depth
pub mod Ends
use hotstuff_dag.Core.Outside.{get_block, mempool_cleanup}
use hotstuff_dag.Core.State.{Chain, Core, Work, emit, leader}
use hotstuff_dag.Crypto.{Digest, PublicKey}
use hotstuff_dag.Error.{err, ok, out_of_fuel, panic, unwrap}
use hotstuff_dag.Exec.{Exec, gets, lift, modify, pure, ◌>>=◌, ◌>>◌}
use hotstuff_dag.Messages.Block.{Block}
use hotstuff_dag.Prelude.{
  Bool, List, Option, [], add64, bytes_eq, false, if◌then◌else◌, insert, is_empty, leb, lookup,
  nat_eq, none, pair_eq, quad_eq, some, suc, true, zero, ℕ, ◌-◌, ◌==◌, ◌∷◌,
}
use hotstuff_dag.World.{Env, committed}
use mathlib.Core.List.{reverse}

pub record Committing : Type 0 where
  pub core : Core
  pub chain : Chain
  pub to_commit : List Block

abbrev pub in_core : {A : Type 0} → Exec Core A → Exec Committing A
in_core m s = let (r, c) = m s.core in (r, record s { core = c })

unfoldable pub insert_reference :
    PublicKey × Digest → List (PublicKey × Digest) → List (PublicKey × Digest)
insert_reference r [] = r ∷ []
insert_reference r (x ∷ xs) =
    let rest = insert_reference r xs in if leb r.0 x.0 then r ∷ x ∷ xs else x ∷ rest

-- `references.sort_by_key(|(pk, _)| *pk)`, which is stable.
unfoldable pub sort_references : List (PublicKey × Digest) → List (PublicKey × Digest)
unfolding insert_reference
sort_references [] = []
sort_references (x ∷ xs) = insert_reference x (sort_references xs)

abbrev pub Recur : Type 0
Recur = Block → Exec Committing Bool

module _ (env : Env) (recur : Recur) where
  -- The recursive call on a clone of another chain, which comes back beside the answer.
  unfoldable pub visit : Block → Chain → Exec Committing (Bool × Chain)
  visit block target s =
      let (r, s') = recur block (record s { chain = target }) in
      let back = record s' { chain = s.chain } in
      elim r [
        | ok done ↦ (ok (done, s'.chain), back)
        | err e ↦ (err e, back)
        | panic ↦ (panic, back)
        | out_of_fuel ↦ (out_of_fuel, back)
      ]

  abbrev pub put_chain : PublicKey → Chain → Committing → Committing
  put_chain name chain s = record s {
    core = record s.core { pubkey_to_chain = insert name chain s.core.pubkey_to_chain };
  }

  unfoldable pub visit_reference : Exec Committing Bool → Option Block → Exec Committing Bool
  unfolding visit
  visit_reference rest none = pure false
  visit_reference rest (some block) = do
    chains ← gets (λ s. s.core.pubkey_to_chain)
    target ← lift (unwrap (lookup block.author chains))
    visited ← visit block target
    if visited.0 then (modify (put_chain block.author visited.1) >> rest) else pure false

  unfoldable pub commit_references : List (PublicKey × Digest) → Exec Committing Bool
  unfolding visit_reference
  commit_references [] = pure true
  commit_references ((pk, d) ∷ references) =
      let rest = commit_references references in
      do
        name ← gets (λ s. s.core.name)
        found ← in_core (get_block env name d none)
        visit_reference rest found

  -- The references of a leader block come first.
  unfoldable pub commit_leader_references : Block → Exec Committing (Bool × Block)
  unfolding commit_references sort_references
  commit_leader_references block = do
    leading ← in_core leader
    if block.author == leading
        then (do
          done ← commit_references (sort_references block.references)
          pure (done, record block { references = sort_references block.references }))
        else pure (true, block)

  abbrev pub push : Block → Committing → Committing
  push block s = record s {
    to_commit = block ∷ s.to_commit;
    chain = record s.chain { last_committed_height = add64 s.chain.last_committed_height 1 };
  }

  unfoldable pub commit_current : PublicKey → Digest → Option Block → Exec Committing Bool
  unfolding commit_leader_references
  commit_current name current_digest none = pure false
  commit_current name current_digest (some _) = do
    again ← in_core (get_block env name current_digest none)
    current ← lift (unwrap again)
    ready ← commit_leader_references current
    if ready.0 then (modify (push ready.1) >> pure true) else pure false

  unfoldable pub commit_digest : PublicKey → Option Digest → Exec Committing Bool
  unfolding commit_current
  commit_digest name none = pure false
  commit_digest name (some current_digest) = do
    present ← in_core (get_block env name current_digest none)
    commit_current name current_digest present

  -- One round of the loop; false ends it.
  unfoldable pub commit_round : Exec Committing Bool
  unfolding commit_digest
  commit_round s =
      commit_digest s.core.name
        (lookup (add64 s.chain.last_committed_height 1) s.chain.height_to_digest) s

  unfoldable pub commit_rounds : ℕ → Exec Committing Bool
  unfolding commit_round
  commit_rounds zero = pure true
  commit_rounds (suc k) =
      let rest = commit_rounds k in do more ← commit_round; if more then rest else pure false

module _ (env : Env) where
  -- Core::commit_prev_block
  unfoldable pub commit_prev_block : ℕ → Block → Exec Committing Bool
  unfolding commit_rounds
  commit_prev_block zero block s = (out_of_fuel, s)
  commit_prev_block (suc fuel) block s =
      let recur = commit_prev_block fuel in
      commit_rounds env recur (block.height - s.chain.last_committed_height) s

-- The loop that sends the newly committed blocks to the application, oldest first.
unfoldable pub deliver : List Block → Core → Core
unfolding mempool_cleanup
deliver [] c = c
deliver (block ∷ blocks) c =
    deliver blocks
      (emit (committed block) (if is_empty block.payload then c else mempool_cleanup block c))

module _ (env : Env) where
  -- Core::commit. What was gathered before the walk stopped is sent, unless it stopped by an error.
  unfoldable pub commit : ℕ → Block → Exec Work (Unit {0})
  unfolding commit_prev_block deliver
  commit depth block w =
      let (r, s) =
        commit_prev_block env depth block
          (record { core = w.core; chain = w.chain; to_commit = [] }) in
      elim r [
        | ok done ↦ (ok tt, record { core = deliver (reverse s.to_commit) s.core; chain = s.chain })
        | err e ↦ (err e, record { core = s.core; chain = s.chain })
        | panic ↦ (panic, record { core = s.core; chain = s.chain })
        | out_of_fuel ↦ (out_of_fuel, record { core = s.core; chain = s.chain })
      ]

-- ===== src/Core/Commit/Pushes.antt =====
-- What the commit walk of consensus/src/core.rs gathers: a block for every height.
use hotstuff_dag.Core.Commit.Growth.{
  IsLed, get_block-IsLed, commit_round-Grows, Extends, Grows, Grows-commit_leader_references,
  commit_prev_block-Grows,
}
use hotstuff_dag.Core.Commit.Heights.{commit_prev_block-climbs, moved_on}
use hotstuff_dag.Core.Commit.Reads.{
  IsRead, bind-ok, get_block-IsRead, not_true, ok-injective, unwrap-ok,
}
use hotstuff_dag.Core.Commit.{
  Committing, Recur, commit_current, commit_digest, commit_leader_references, commit_prev_block,
  commit_references, commit_round, commit_rounds, in_core, push, sort_references,
}
use hotstuff_dag.Core.Outside.{get_block}
use hotstuff_dag.Core.State.{Chain, leader}
use hotstuff_dag.Crypto.{Digest, PublicKey}
use hotstuff_dag.Error.{Result, err, ok, out_of_fuel, panic, unwrap}
use hotstuff_dag.Exec.{lift, modify, pure, ◌>>=◌, ◌>>◌}
use hotstuff_dag.Leader.{get_leader}
use hotstuff_dag.Messages.Block.{Block}
use hotstuff_dag.Prelude.{
  ◌≢◌, ==_iff, Bool, List, Map, Option, add64, ap, arith, false, if◌then◌else◌, inl, inr, lookup,
  nat_eq, none, pair_eq, quad_eq, refl, some, suc, sym, true, u64_mod, zero, ℕ, ◌+◌, ◌-◌, ◌<◌, ◌==◌,
  ◌∙◌, ◌∷◌, ◌≡◌, ◌⊎◌,
}
use hotstuff_dag.World.{Env}
use mathlib.Core.Path.{subst}

-- The block, with its references in order if it is one of the leader `l`.
abbrev pub IsOrdered : PublicKey → Block → Block → Type 0
IsOrdered l x y =
    ((x.author ≡ l) × (y ≡ record x { references = sort_references x.references }))
    ⊎ ((x.author ≢ l) × (y ≡ x))

-- One block has been added for a digest, after what its references have added.
abbrev pub Adds : Env → PublicKey → Digest → List Block → List Block → Type 0
Adds env l d old new =
    (x : Block) × IsRead env d x
    × (y : Block) × IsOrdered l x y
    × (mid : List Block) × Extends old mid
    × (new ≡ y ∷ mid)

-- For each of `k` heights from the one above `last` the chain has a digest, and its block has been
-- added, lower heights first.
abbrev pub Pushed : Env → PublicKey → Map ℕ Digest → ℕ → ℕ → List Block → List Block → Type 0
Pushed env l digests last zero old new = new ≡ old
Pushed env l digests last (suc k) old new =
    (d : Digest) × (lookup (last + 1) digests ≡ some d)
    × (next : List Block) × Adds env l d old next
    × Pushed env l digests (last + 1) k next new

module _ (env : Env) (recur : Recur) (grows : (b : Block) → Grows (recur b)) (l : PublicKey) where
  leader_references-IsOrdered :
      (b : Block) (s : Committing) (ready : Bool × Block)
      → IsLed l s.core
      → (commit_leader_references env recur b s).0 ≡ ok ready
      → IsOrdered l b ready.1
  unfolding commit_leader_references
  leader_references-IsOrdered b s ready led h =
      let (leading, e, same) = bind-ok (in_core leader) _ s ready h in
      let is : leading ≡ l = ok-injective leading l (sym e ∙ led) in
      go leading is (b.author == leading) refl (in_core leader s).1 (sym (ap (λ r. r.0) same) ∙ h)
    where
      block_of : Result (Bool × Block) → Block
      block_of (ok r) = r.1
      block_of (err e) = b
      block_of panic = b
      block_of out_of_fuel = b

      go :
          (leading : PublicKey)
          → leading ≡ l
          → (leads : Bool) → (b.author == leading) ≡ leads
          → (s : Committing)
          → ((if leads
                then (commit_references env recur (sort_references b.references) >>= λ done.
                    pure (done, record b { references = sort_references b.references }))
                else pure (true, b))
              s).0
            ≡ ok ready
          → IsOrdered l b ready.1
      go leading is true hit s h =
          let (done, e, same) =
            bind-ok (commit_references env recur (sort_references b.references)) _ s ready h in
          inl
            ((==_iff b.author leading).0 hit ∙ is, sym (ap block_of (sym (ap (λ r. r.0) same) ∙ h)))
      go leading is false miss s h = inr (other, sym (ap block_of h))
        where
          other : b.author ≢ l
          other e = ground (arith, miss, e, is)

  current-Adds :
      (name : PublicKey) (d : Digest) (found : Option Block) (s : Committing)
      → IsLed l s.core
      → (commit_current env recur name d found s).0 ≡ ok true
      → Adds env l d s.to_commit (commit_current env recur name d found s).1.to_commit
  unfolding commit_current
  current-Adds name d none s led h = not_true h
  current-Adds name d (some b) s led h =
      let (again, e, same) = bind-ok (in_core (get_block env name d none)) _ s true h in
      let s' = (in_core (get_block env name d none) s).1 in
      let (current, e', same') =
        bind-ok (lift (unwrap again)) _ s' true (sym (ap (λ r. r.0) same) ∙ h) in
      let (ready, e'', same'') =
        bind-ok (commit_leader_references env recur current) _ s' true
          (sym (ap (λ r. r.0) (same ∙ same')) ∙ h) in
      let after = (commit_leader_references env recur current s').1 in
      let whole = same ∙ same' ∙ same'' in
      subst (λ r. Adds env l d s.to_commit r.1.to_commit) (sym whole)
        (pushed ready after (sym (ap (λ r. r.0) whole) ∙ h) current
          (get_block-IsRead env name d s.core current (e ∙ ap ok (unwrap-ok again current e')))
          (leader_references-IsOrdered current s' ready (get_block-IsLed env l name d s.core led)
            e'')
          (Grows-commit_leader_references env recur grows current s').0)
    where
      pushed :
          (ready : Bool × Block) (t : Committing)
          → ((if ready.0 then (modify (push env recur ready.1) >> pure true) else pure false) t).0
            ≡ ok true
          → (x : Block) → IsRead env d x
          → IsOrdered l x ready.1
          → Extends s.to_commit t.to_commit
          → Adds env l d s.to_commit
              ((if ready.0 then (modify (push env recur ready.1) >> pure true) else pure false)
                t).1.to_commit
      pushed (true, y) t h x was_read ordered grown =
          (x, was_read, y, ordered, t.to_commit, grown, refl)
      pushed (false, y) t h x was_read ordered grown = not_true h

  digest-Adds :
      (name : PublicKey) (found : Option Digest) (s : Committing)
      → IsLed l s.core
      → (commit_digest env recur name found s).0 ≡ ok true
      → (d : Digest) × (found ≡ some d)
        × Adds env l d s.to_commit (commit_digest env recur name found s).1.to_commit
  unfolding commit_digest
  digest-Adds name none s led h = not_true h
  digest-Adds name (some d) s led h =
      let (present, e, same) = bind-ok (in_core (get_block env name d none)) _ s true h in
      let s' = (in_core (get_block env name d none) s).1 in
      (
        d,
        refl,
        subst (λ r. Adds env l d s.to_commit r.1.to_commit) (sym same)
            (current-Adds name d present s' (get_block-IsLed env l name d s.core led)
              (sym (ap (λ r. r.0) same) ∙ h)),
      )

  rounds-Pushed :
      (k : ℕ) (s : Committing)
      → IsLed l s.core
      → s.chain.last_committed_height + k < u64_mod
      → (commit_rounds env recur k s).0 ≡ ok true
      → Pushed env l s.chain.height_to_digest s.chain.last_committed_height k s.to_commit
          (commit_rounds env recur k s).1.to_commit
  unfolding commit_rounds commit_round
  rounds-Pushed zero s led bound h = refl
  rounds-Pushed (suc k) s led bound h =
      let (more, e, same) = bind-ok (commit_round env recur) _ s true h in
      subst
        (λ r.
          Pushed env l s.chain.height_to_digest s.chain.last_committed_height (suc k) s.to_commit
            r.1.to_commit)
        (sym same) (goes_on more e (sym (ap (λ r. r.0) same) ∙ h) (rounds-Pushed k t still))
    where
      t : Committing
      t = (commit_round env recur s).1

      still : IsLed l t.core
      still = (commit_round-Grows env recur grows s).1 l led

      next : add64 s.chain.last_committed_height 1 ≡ s.chain.last_committed_height + 1
      next = omega (arith, bound)

      goes_on :
          (more : Bool)
          → (commit_round env recur s).0 ≡ ok more
          → ((if more then commit_rounds env recur k else pure false) t).0 ≡ ok true
          → (t.chain.last_committed_height + k < u64_mod
              → (commit_rounds env recur k t).0 ≡ ok true
              → Pushed env l t.chain.height_to_digest t.chain.last_committed_height k t.to_commit
                  (commit_rounds env recur k t).1.to_commit)
          → Pushed env l s.chain.height_to_digest s.chain.last_committed_height
              (suc k)
              s.to_commit
              ((if more then commit_rounds env recur k else pure false) t).1.to_commit
      goes_on false e h ih = not_true h
      goes_on true e h ih =
          let moved = moved_on env recur s e in
          let (d, there, added) =
            digest-Adds s.core.name
              (lookup (add64 s.chain.last_committed_height 1) s.chain.height_to_digest) s led e in
          let last : t.chain.last_committed_height ≡ s.chain.last_committed_height + 1 =
            ap {A = Chain} {B = ℕ} (λ c. c.last_committed_height) moved ∙ next in
          let same_digests : t.chain.height_to_digest ≡ s.chain.height_to_digest =
            ap {A = Chain} {B = Map ℕ Digest} (λ c. c.height_to_digest) moved in
          let rest = ih (omega (arith, last, bound)) h in
          (
            d,
            subst (λ n. lookup n s.chain.height_to_digest ≡ some d) next there,
            t.to_commit,
            added,
            subst
                (λ n.
                  Pushed env l s.chain.height_to_digest n k t.to_commit
                    (commit_rounds env recur k t).1.to_commit)
                last
                (subst
                  (λ m.
                    Pushed env l m t.chain.last_committed_height k t.to_commit
                      (commit_rounds env recur k t).1.to_commit)
                  same_digests rest),
          )

-- If the height of the block and the last committed height are below 2^64 and the epoch has a leader,
-- then whenever `commit_prev_block` answers true, at any bound on the depth, it has taken every
-- height from the one above the last committed up to that of the block: for each the chain has a
-- digest, and the block that was read for it has been added to those to commit, with its references
-- in order if it is the leader's and as they stand if not, after what these have added, lower heights
-- first. The last committed height has become the height of the block, or stays where it was no
-- lower, and the rest of the chain is unchanged.
pub commit_prev_block-Pushed :
    (env : Env) (fuel : ℕ) (l : PublicKey) (b : Block) (s : Committing)
    → get_leader s.core.committee s.core.epoch ≡ ok l
    → s.chain.last_committed_height < u64_mod
    → b.height < u64_mod
    → (commit_prev_block env fuel b s).0 ≡ ok true
    → ((commit_prev_block env fuel b s).1.chain ≡ record s.chain {
      last_committed_height =
          s.chain.last_committed_height + (b.height - s.chain.last_committed_height);
    })
      × Pushed env l s.chain.height_to_digest s.chain.last_committed_height
          (b.height - s.chain.last_committed_height)
          s.to_commit
          (commit_prev_block env fuel b s).1.to_commit
unfolding commit_prev_block
commit_prev_block-Pushed env zero l b s led low small run = absurd (no run)
  where
    no : Path (Result Bool) out_of_fuel (ok true) → ⊥
    no h = cc
commit_prev_block-Pushed env (suc fuel) l b s led low small run = (
  commit_prev_block-climbs env (suc fuel) b s low small run,
  rounds-Pushed env (commit_prev_block env fuel) (commit_prev_block-Grows env fuel) l
      (b.height - s.chain.last_committed_height) s led (omega (arith, low, small)) run,
)

-- ===== src/Core/Commit/Heights.antt =====
-- The heights that the commit walk of consensus/src/core.rs goes through.
use hotstuff_dag.Core.Commit.{
  Committing, Recur, commit_current, commit_digest, commit_leader_references, commit_prev_block,
  commit_references, commit_round, commit_rounds, in_core, push, put_chain, sort_references, visit,
  visit_reference,
}
use hotstuff_dag.Core.Outside.{get_block}
use hotstuff_dag.Core.State.{Chain, leader}
use hotstuff_dag.Crypto.{Digest, PublicKey}
use hotstuff_dag.Error.{Result, err, ok, out_of_fuel, panic, unwrap}
use hotstuff_dag.Exec.{Exec, continue, lift, modify, pure, ◌>>=◌, ◌>>◌}
use hotstuff_dag.Messages.Block.{Block}
use hotstuff_dag.Prelude.{
  Bool, List, Option, [], add64, ap, ap₂, arith, bytes_eq, false, if◌then◌else◌, lookup, nat_eq,
  none, pair_eq, quad_eq, refl, some, suc, true, u64_mod, zero, ℕ, ◌+◌, ◌-◌, ◌<◌, ◌==◌, ◌∙◌, ◌∷◌,
  ◌≡◌,
}
use hotstuff_dag.Store.{run}
use hotstuff_dag.World.{Env}

abbrev Keeps : {A : Type 0} → Exec Committing A → Type 0
Keeps m = (s : Committing) → (m s).1.chain ≡ s.chain

Keeps-bind :
    {A B : Type 0} (m : Exec Committing A) (f : A → Exec Committing B)
    → Keeps m
    → ((a : A) → Keeps (f a))
    → Keeps (m >>= f)
Keeps-bind {A} {B} m f km kf s = go (m s).0 refl
  where
    go : (r : Result A) → (m s).0 ≡ r → (continue r f (m s).1).1.chain ≡ s.chain
    go (ok a) e = kf a (m s).1 ∙ km s
    go (err x) e = km s
    go panic e = km s
    go out_of_fuel e = km s

Keeps-unwrap : {A : Type 0} (found : Option A) → Keeps (lift (unwrap found))
Keeps-unwrap none s = refl
Keeps-unwrap (some x) s = refl

-- A round keeps the chain unless it succeeds, and then it moves on by one height.
abbrev pub Moves : Chain → Result Bool × Committing → Type 0
Moves chain (ok true, s) =
    s.chain ≡ record chain { last_committed_height = add64 chain.last_committed_height 1 }
Moves chain (ok false, s) = s.chain ≡ chain
Moves chain (err e, s) = s.chain ≡ chain
Moves chain (panic, s) = s.chain ≡ chain
Moves chain (out_of_fuel, s) = s.chain ≡ chain

move_from : {c d : Chain} → c ≡ d → (r : Result Bool × Committing) → Moves c r → Moves d r
move_from e (ok true, s) m =
    m
    ∙ ap {A = Chain} {B = Chain}
        (λ c. record c { last_committed_height = add64 c.last_committed_height 1 }) e
move_from e (ok false, s) m = m ∙ e
move_from e (err x, s) m = m ∙ e
move_from e (panic, s) m = m ∙ e
move_from e (out_of_fuel, s) m = m ∙ e

module _ (env : Env) (recur : Recur) where
  Keeps-visit : (b : Block) (target : Chain) → Keeps (visit env recur b target)
  unfolding visit
  Keeps-visit b target s = ground arith

  Keeps-visit_reference :
      (rest : Exec Committing Bool) (found : Option Block)
      → Keeps rest
      → Keeps (visit_reference env recur rest found)
  unfolding visit_reference
  Keeps-visit_reference rest none kr s = refl
  Keeps-visit_reference rest (some block) kr s = go (lookup block.author s.core.pubkey_to_chain)
    where
      go :
          (found : Option Chain)
          → ((lift (unwrap found) >>= λ target. visit env recur block target >>= λ visited.
                if visited.0
                then (modify (put_chain env recur block.author visited.1) >> rest)
                else pure false)
              s).1.chain
            ≡ s.chain
      go none = refl
      go (some target) =
          Keeps-bind (visit env recur block target) _ (Keeps-visit block target)
            (λ visited t. ground (arith, kr (put_chain env recur block.author visited.1 t))) s

  -- The references are committed in clones of other chains: the chain at hand stays as it was.
  Keeps-commit_references :
      (refs : List (PublicKey × Digest)) → Keeps (commit_references env recur refs)
  unfolding commit_references
  Keeps-commit_references [] s = refl
  Keeps-commit_references ((pk, d) ∷ refs) s =
      Keeps-bind (in_core (get_block env s.core.name d none))
        (visit_reference env recur (commit_references env recur refs)) (λ t. refl)
        (λ found.
          Keeps-visit_reference (commit_references env recur refs) found
            (Keeps-commit_references refs))
        s

  Keeps-commit_leader_references : (b : Block) → Keeps (commit_leader_references env recur b)
  unfolding commit_leader_references
  Keeps-commit_leader_references b =
      Keeps-bind (in_core leader) _ (λ t. refl) (λ leading. go (b.author == leading))
    where
      go :
          (is_leader : Bool)
          → Keeps {A = Bool × Block} (
              if is_leader
              then (commit_references env recur (sort_references b.references) >>= λ done.
                  pure (done, record b { references = sort_references b.references }))
              else pure (true, b))
      go true =
          Keeps-bind (commit_references env recur (sort_references b.references)) _
            (Keeps-commit_references (sort_references b.references)) (λ done t. refl)
      go false = λ s. refl

  Moves-bind :
      {A : Type 0} (m : Exec Committing A) (f : A → Exec Committing Bool)
      → Keeps m
      → ((a : A) (s : Committing) → Moves s.chain (f a s))
      → (s : Committing) → Moves s.chain ((m >>= f) s)
  Moves-bind {A} m f km mf s = go (m s).0 refl
    where
      go : (r : Result A) → (m s).0 ≡ r → Moves s.chain (continue r f (m s).1)
      go (ok a) e = move_from (km s) (f a (m s).1) (mf a (m s).1)
      go (err x) e = km s
      go panic e = km s
      go out_of_fuel e = km s

  Moves-commit_current :
      (name : PublicKey) (d : Digest) (found : Option Block) (s : Committing)
      → Moves s.chain (commit_current env recur name d found s)
  unfolding commit_current
  Moves-commit_current name d none s = refl
  Moves-commit_current name d (some b) s =
      Moves-bind (in_core (get_block env name d none)) _ (λ t. refl)
        (λ again. Moves-bind (lift (unwrap again)) _ (Keeps-unwrap again) (λ current.
          Moves-bind (commit_leader_references env recur current) _
            (Keeps-commit_leader_references current) (λ ready. go ready.0 ready.1)))
        s
    where
      go :
          (done : Bool) (b : Block) (s : Committing)
          → Moves s.chain
              ((if done then (modify (push env recur b) >> pure true) else pure false) s)
      go true b s = refl
      go false b s = refl

  Moves-commit_digest :
      (name : PublicKey) (found : Option Digest) (s : Committing)
      → Moves s.chain (commit_digest env recur name found s)
  unfolding commit_digest
  Moves-commit_digest name none s = refl
  Moves-commit_digest name (some d) s =
      Moves-bind (in_core (get_block env name d none)) _ (λ t. refl)
        (λ present. Moves-commit_current name d present) s

  pub Moves-commit_round : (s : Committing) → Moves s.chain (commit_round env recur s)
  unfolding commit_round
  Moves-commit_round s =
      Moves-commit_digest s.core.name
        (lookup (add64 s.chain.last_committed_height 1) s.chain.height_to_digest) s

  pub moved_on :
      (s : Committing)
      → (commit_round env recur s).0 ≡ ok true
      → (commit_round env recur s).1.chain
        ≡ record s.chain { last_committed_height = add64 s.chain.last_committed_height 1 }
  moved_on s e = go (commit_round env recur s).0 e (Moves-commit_round s)
    where
      go :
          (r : Result Bool)
          → r ≡ ok true
          → Moves s.chain (r, (commit_round env recur s).1)
          → (commit_round env recur s).1.chain
            ≡ record s.chain { last_committed_height = add64 s.chain.last_committed_height 1 }
      go (ok true) e m = m
      go (ok false) e m = cc
      go (err x) e m = cc
      go panic e m = cc
      go out_of_fuel e m = cc

  -- `m`, where it answers true, takes the chain `k` heights on.
  abbrev Climbs : ℕ → Exec Committing Bool → Type 0
  Climbs k m =
      (s : Committing)
      → s.chain.last_committed_height + k < u64_mod
      → (m s).0 ≡ ok true
      → (m s).1.chain ≡ record s.chain { last_committed_height = s.chain.last_committed_height + k }

  Climbs-suc :
      (k : ℕ) (rest : Exec Committing Bool)
      → Climbs k rest
      → (s t : Committing) (r : Result Bool) → s.chain.last_committed_height + suc k < u64_mod
      → Moves s.chain (r, t)
      → (continue r (λ more. if more then rest else pure false) t).0 ≡ ok true
      → (continue r (λ more. if more then rest else pure false) t).1.chain
        ≡ record s.chain { last_committed_height = s.chain.last_committed_height + suc k }
  Climbs-suc k rest ih s t (ok true) bound moved run =
      ih t (ground (arith, climbed, bound)) run
      ∙ ap₂ {A = Chain} {B = ℕ} {C = Chain} (λ c h. record c { last_committed_height = h }) moved
          (ground (arith, climbed, bound))
    where
      climbed : t.chain.last_committed_height ≡ s.chain.last_committed_height + 1
      climbed = ap {A = Chain} {B = ℕ} (λ c. c.last_committed_height) moved ∙ omega arith
  Climbs-suc k rest ih s t (ok false) bound moved run = ground (arith, moved, run)
  Climbs-suc k rest ih s t (err e) bound moved run = ground (arith, moved, run)
  Climbs-suc k rest ih s t panic bound moved run = ground (arith, moved, run)
  Climbs-suc k rest ih s t out_of_fuel bound moved run = ground (arith, moved, run)

  commit_rounds-Climbs : (k : ℕ) → Climbs k (commit_rounds env recur k)
  unfolding commit_rounds
  commit_rounds-Climbs zero s bound run =
      ap {A = ℕ} {B = Chain} (λ h. record s.chain { last_committed_height = h }) (omega arith)
  commit_rounds-Climbs (suc k) s bound run =
      Climbs-suc k (commit_rounds env recur k) (commit_rounds-Climbs k) s
        (commit_round env recur s).1 (commit_round env recur s).0 bound (Moves-commit_round s) run

module _ (env : Env) where
  pub commit_prev_block-climbs :
      (fuel : ℕ) (b : Block) (s : Committing)
      → s.chain.last_committed_height < u64_mod
      → b.height < u64_mod
      → (commit_prev_block env fuel b s).0 ≡ ok true
      → (commit_prev_block env fuel b s).1.chain ≡ record s.chain {
        last_committed_height =
            s.chain.last_committed_height + (b.height - s.chain.last_committed_height);
      }
  unfolding commit_prev_block
  commit_prev_block-climbs zero b s low small run = ground (arith, run)
  commit_prev_block-climbs (suc fuel) b s low small run =
      commit_rounds-Climbs env (commit_prev_block env fuel)
        (b.height - s.chain.last_committed_height) s (omega arith) run

-- ===== src/Core/Commit/Growth.antt =====
-- The commit walk of consensus/src/core.rs only adds to the blocks that it has gathered, and keeps
-- the leader.
use hotstuff_dag.Core.Commit.{
  Committing, Recur, commit_current, commit_digest, commit_leader_references, commit_prev_block,
  commit_references, commit_round, commit_rounds, in_core, push, put_chain, sort_references, visit,
  visit_reference,
}
use hotstuff_dag.Core.Outside.{decode, found_block, get_block, read_store}
use hotstuff_dag.Core.State.{Chain, Core, leader}
use hotstuff_dag.Crypto.{Digest, PublicKey}
use hotstuff_dag.Error.{Result, err, ok, out_of_fuel, panic, unwrap}
use hotstuff_dag.Exec.{Exec, continue, lift, modify, pure, ◌>>=◌, ◌>>◌}
use hotstuff_dag.Leader.{get_leader}
use hotstuff_dag.Messages.Block
use hotstuff_dag.Messages.Block.{Block}
use hotstuff_dag.Messages.Qc
use hotstuff_dag.Prelude.{
  Bool, List, add64, Option, [], ap, bytes_eq, false, if◌then◌else◌, lookup, nat_eq, none, pair_eq,
  quad_eq, refl, some, suc, sym, true, zero, ℕ, ◌++◌, ◌-◌, ◌==◌, ◌∙◌, ◌∷◌, ◌≡◌,
}
use hotstuff_dag.World.{Bytes, Env}
use mathlib.Core.List.{append_assoc}

abbrev pub Extends : List Block → List Block → Type 0
Extends old new = (added : List Block) × (new ≡ added ++ old)

Extends-trans : (a b c : List Block) → Extends a b → Extends b c → Extends a c
Extends-trans a b c (xs, e) (ys, f) =
    (ys ++ xs, f ∙ ap (λ l. ys ++ l) e ∙ sym (append_assoc ys xs a))

abbrev pub IsLed : PublicKey → Core → Type 0
IsLed l c = get_leader c.committee c.epoch ≡ ok l

-- Blocks may have been added, and the leader is the same.
abbrev pub Onward : Committing → Committing → Type 0
Onward s t = Extends s.to_commit t.to_commit × ((l : PublicKey) → IsLed l s.core → IsLed l t.core)

Onward-trans : (s t u : Committing) → Onward s t → Onward t u → Onward s u
Onward-trans s t u (added, led) (more, still) =
    (Extends-trans s.to_commit t.to_commit u.to_commit added more, λ l h. still l (led l h))

abbrev pub Grows : {A : Type 0} → Exec Committing A → Type 0
Grows m = (s : Committing) → Onward s (m s).1

Grows-bind :
    {A B : Type 0} (m : Exec Committing A) (f : A → Exec Committing B)
    → Grows m
    → ((a : A) → Grows (f a))
    → Grows (m >>= f)
Grows-bind {A} {B} m f gm gf s = go (m s).0
  where
    go : (r : Result A) → Onward s (continue r f (m s).1).1
    go (ok a) = Onward-trans s (m s).1 (f a (m s).1).1 (gm s) (gf a (m s).1)
    go (err x) = gm s
    go panic = gm s
    go out_of_fuel = gm s

Grows-if :
    {A : Type 0} (b : Bool) (m n : Exec Committing A)
    → Grows m
    → Grows n
    → Grows (if b then m else n)
Grows-if true m n gm gn = gm
Grows-if false m n gm gn = gn

unchanged : (s : Committing) → Onward s s
unchanged s = (([], refl), λ l led. led)

module _ (env : Env) (l : PublicKey) where
  found_block-IsLed :
      (name : PublicKey) (d : Digest) (found : Option Bytes) (c : Core)
      → IsLed l c
      → IsLed l (found_block env name d none found c).1
  unfolding found_block
  found_block-IsLed name d none c led = led
  found_block-IsLed name d (some bytes) c led = go (decode env bytes)
    where
      go : (r : Result Block) → IsLed l (continue r (λ b. pure (some b)) c).1
      go (ok b) = led
      go (err e) = led
      go panic = led
      go out_of_fuel = led

  pub get_block-IsLed :
      (name : PublicKey) (d : Digest) (c : Core)
      → IsLed l c
      → IsLed l (get_block env name d none c).1
  unfolding get_block read_store
  get_block-IsLed name d c led = go (d == Qc.genesis.hash)
    where
      answered :
          (r : Result (Option Bytes))
          → IsLed l (continue r (found_block env name d none) (read_store env d c).1).1
      answered (ok stored) = found_block-IsLed name d stored (read_store env d c).1 led
      answered (err e) = led
      answered panic = led
      answered out_of_fuel = led

      go :
          (hit : Bool)
          → IsLed l
              ((if hit
                  then pure (some Block.genesis)
                  else (read_store env d >>= found_block env name d none))
                c).1
      go true = led
      go false = answered (read_store env d c).0

module _ (env : Env) (recur : Recur) (grows : (b : Block) → Grows (recur b)) where
  pub Grows-get_block :
      (name : PublicKey) (d : Digest) → Grows (in_core (get_block env name d none))
  Grows-get_block name d s = (([], refl), λ l. get_block-IsLed env l name d s.core)

  Grows-visit : (b : Block) (target : Chain) → Grows (visit env recur b target)
  unfolding visit
  Grows-visit b target s = go (recur b from).0
    where
      from : Committing
      from = record s { chain = target }

      back : Committing
      back = record (recur b from).1 { chain = s.chain }

      go :
          (r : Result Bool)
          → Onward s
              (elim r as (λ _. Result (Bool × Chain) × Committing) [
                | ok done ↦ (ok (done, (recur b from).1.chain), back)
                | err e ↦ (err e, back)
                | panic ↦ (panic, back)
                | out_of_fuel ↦ (out_of_fuel, back)
              ]).1
      go (ok done) = grows b from
      go (err e) = grows b from
      go panic = grows b from
      go out_of_fuel = grows b from

  Grows-visit_reference :
      (rest : Exec Committing Bool) (found : Option Block)
      → Grows rest
      → Grows (visit_reference env recur rest found)
  unfolding visit_reference
  Grows-visit_reference rest none gr s = unchanged s
  Grows-visit_reference rest (some b) gr s =
      Grows-bind (lift (unwrap (lookup b.author s.core.pubkey_to_chain))) _ unchanged
        (λ target. Grows-bind (visit env recur b target) _ (Grows-visit b target) (λ visited.
          Grows-if visited.0 (modify (put_chain env recur b.author visited.1) >> rest) (pure false)
            (Grows-bind (modify (put_chain env recur b.author visited.1)) (λ _. rest) unchanged
              (λ _. gr))
            unchanged))
        s

  Grows-commit_references :
      (refs : List (PublicKey × Digest)) → Grows (commit_references env recur refs)
  unfolding commit_references
  Grows-commit_references [] s = unchanged s
  Grows-commit_references ((pk, d) ∷ refs) s =
      Grows-bind (in_core (get_block env s.core.name d none))
        (visit_reference env recur (commit_references env recur refs))
        (Grows-get_block s.core.name d)
        (λ found.
          Grows-visit_reference (commit_references env recur refs) found
            (Grows-commit_references refs))
        s

  pub Grows-commit_leader_references : (b : Block) → Grows (commit_leader_references env recur b)
  unfolding commit_leader_references
  Grows-commit_leader_references b = Grows-bind (in_core leader) _ unchanged (λ leading.
      Grows-if (b.author == leading) _ (pure (true, b))
        (Grows-bind (commit_references env recur (sort_references b.references))
          (λ done. pure (done, record b { references = sort_references b.references }))
          (Grows-commit_references (sort_references b.references)) (λ done. unchanged))
        unchanged)

  Grows-commit_current :
      (name : PublicKey) (d : Digest) (found : Option Block)
      → Grows (commit_current env recur name d found)
  unfolding commit_current
  Grows-commit_current name d none = unchanged
  Grows-commit_current name d (some b) =
      Grows-bind (in_core (get_block env name d none)) _ (Grows-get_block name d) (λ again.
        Grows-bind (lift (unwrap again)) _ unchanged (λ current.
          Grows-bind (commit_leader_references env recur current) _
            (Grows-commit_leader_references current)
            (λ ready.
              Grows-if ready.0 (modify (push env recur ready.1) >> pure true) (pure false)
                (λ s. ((ready.1 ∷ [], refl), λ l led. led)) unchanged)))

  pub commit_round-Grows : Grows (commit_round env recur)
  unfolding commit_round commit_digest
  commit_round-Grows s =
      go (lookup (add64 s.chain.last_committed_height 1) s.chain.height_to_digest)
    where
      go : (found : Option Digest) → Onward s (commit_digest env recur s.core.name found s).1
      go none = unchanged s
      go (some d) =
          Grows-bind (in_core (get_block env s.core.name d none)) _ (Grows-get_block s.core.name d)
            (λ present. Grows-commit_current s.core.name d present) s

  commit_rounds-Grows : (k : ℕ) → Grows (commit_rounds env recur k)
  unfolding commit_rounds
  commit_rounds-Grows zero = unchanged
  commit_rounds-Grows (suc k) = Grows-bind (commit_round env recur) _ commit_round-Grows (λ more.
      Grows-if more (commit_rounds env recur k) (pure false) (commit_rounds-Grows k) unchanged)

pub commit_prev_block-Grows :
    (env : Env) (fuel : ℕ) (b : Block) → Grows (commit_prev_block env fuel b)
unfolding commit_prev_block
commit_prev_block-Grows env zero b s = unchanged s
commit_prev_block-Grows env (suc fuel) b s =
    commit_rounds-Grows env (commit_prev_block env fuel) (commit_prev_block-Grows env fuel)
      (b.height - s.chain.last_committed_height) s

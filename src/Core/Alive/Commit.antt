-- ===== src/Core/Alive/Commit.antt =====
-- The commit walk of consensus/src/core.rs keeps the core valid and does not panic: the author of a
-- referenced block has a chain, and a block that has been found is found again.
use hotstuff_dag.Config.{Committee}
use hotstuff_dag.Core.Alive.Aba.{leader-Safe}
use hotstuff_dag.Core.Alive.Outside.{
  IsFound, IsReadable, get_block-Safe, get_block_again, get_block_found,
}
use hotstuff_dag.Core.Alive.{
  Any, Gives, IsCertain, IsMember, IsValid, IsValidWork, Maybe, Safe, Safe-bind, Safe-if, Safe-lift,
  Safe-modify, Safe-pure, Safe-then, Trust,
}
use hotstuff_dag.Core.Commit.{
  Committing, Recur, commit, commit_current, commit_digest, commit_leader_references,
  commit_prev_block, commit_references, commit_round, commit_rounds, deliver, in_core, push,
  put_chain, sort_references, visit, visit_reference,
}
use hotstuff_dag.Core.Commit.References.{sort_references-All}
use hotstuff_dag.Core.Outside.{get_block, mempool_cleanup}
use hotstuff_dag.Core.State.{Chain, Core, Work, emit}
use hotstuff_dag.Crypto.{Digest, PublicKey}
use hotstuff_dag.Error.{Result, err, ok, out_of_fuel, panic, unwrap}
use hotstuff_dag.Exec.{Exec, continue, lift, modify, pure, ◌>>=◌, ◌>>◌}
use hotstuff_dag.Messages.Block.{Block}
use hotstuff_dag.Prelude.{
  All, All-insert, All-lookup, Bool, List, Map, Option, [], add64, bytes_eq, contains, false,
  if◌then◌else◌, is_empty, keys, keys-insert_old, lookup, lookup-contains, nat_eq, none, pair_eq,
  quad_eq, refl, some, suc, sym, true, zero, ℕ, ◌-◌, ◌==◌, ◌∙◌, ◌∷◌, ◌≡◌, ◌≢◌,
}
use hotstuff_dag.World.{Env, cleaned_up, committed}
use mathlib.Core.List.{reverse}
use mathlib.Core.Path.{subst}

chain_of_member :
    (cm : Committee) (k : PublicKey) (m : Map PublicKey Chain)
    → keys m ≡ keys cm.authorities
    → All (λ e. IsCertain e.1.high_qc) m
    → IsMember cm k
    → Gives (λ (chain : Chain). IsCertain chain.high_qc) (unwrap (lookup k m))
chain_of_member cm k m same certain member =
    let (chain, found) =
      lookup-contains k m (subst (λ ks. contains ks k ≡ true) (sym same) member) in
    rw found (All-lookup (λ e. IsCertain e.1.high_qc) k chain m certain found)

module _ (env : Env) (cm : Committee) (trust : Trust env cm) where
  abbrev Kept : Committing → Type 0
  Kept s = IsValid env cm false s.core × IsCertain s.chain.high_qc

  in_core-Safe :
      {A : Type 0} {Q : A → Type 0} {m : Exec Core A}
      → Safe (IsValid env cm false) Q m
      → Safe Kept Q (in_core m)
  in_core-Safe hm = record {
    keeps = λ s h. (((hm.keeps s.core h.0).0, h.1), (hm.keeps s.core h.0).1);
  }

  module _ (recur : Recur) (recurs : (b : Block) → Safe Kept Any (recur b)) where
    visit-Safe :
        (b : Block) (target : Chain)
        → IsCertain target.high_qc
        → Safe Kept (λ x. IsCertain x.1.high_qc) (visit env recur b target)
    unfolding visit
    visit-Safe b target certain = record {
      keeps = λ s h.
          let out = (recurs b).keeps (record s { chain = target }) (h.0, certain) in
          go s h.1 (recur b (record s { chain = target })).0
            (recur b (record s { chain = target })).1 out.0 out.1;
    }
      where
        go :
            (s : Committing)
            → IsCertain s.chain.high_qc
            → (r : Result Bool) (s' : Committing) → Kept s'
            → Gives Any r
            → let back = record s' { chain = s.chain } in
              let out = elim r as (λ _. Result (Bool × Chain) × Committing) [
                | ok done ↦ (ok (done, s'.chain), back)
                | err e ↦ (err e, back)
                | panic ↦ (panic, back)
                | out_of_fuel ↦ (out_of_fuel, back)
              ] in
              Kept out.1 × Gives (λ x. IsCertain x.1.high_qc) out.0
        go s c (ok done) s' h g = ((h.0, c), h.1)
        go s c (err e) s' h g = ((h.0, c), tt)
        go s c panic s' h g = absurd g
        go s c out_of_fuel s' h g = ((h.0, c), tt)

    put_chain-Kept :
        (k : PublicKey) (chain : Chain) (s : Committing)
        → IsMember cm k
        → IsCertain chain.high_qc
        → Kept s
        → Kept (put_chain env recur k chain s)
    put_chain-Kept k chain s member certain h =
        let chains = s.core.pubkey_to_chain in
        let here : contains (keys chains) k ≡ true =
          subst (λ ks. contains ks k ≡ true) (sym h.0.0.0.1) member in
        (
          (
            (
              (
                h.0.0.0.0,
                keys-insert_old k chain chains here ∙ h.0.0.0.1,
                h.0.0.0.2,
                All-insert (λ e. IsCertain e.1.high_qc) k chain chains certain h.0.0.0.3,
              ),
              h.0.0.1,
              h.0.0.2,
              h.0.0.3,
            ),
            h.0.1,
          ),
          h.1,
        )

    enter-Safe :
        (rest : Exec Committing Bool) (b : Block) (target : Chain)
        → Safe Kept Any rest
        → IsMember cm b.author
        → IsCertain target.high_qc
        → Safe Kept Any (do
          visited ← visit env recur b target
          if visited.0
              then (modify (put_chain env recur b.author visited.1) >> rest)
              else pure false)
    enter-Safe rest b target hr member certain =
        Safe-bind (visit-Safe b target certain) (λ visited back.
          Safe-if visited.0
            (λ _.
              Safe-then
                (Safe-modify Kept (put_chain env recur b.author visited.1)
                  (λ s h. put_chain-Kept b.author visited.1 s member back h))
                hr)
            (λ _. Safe-pure Kept Any false tt))

    visit_reference-Safe :
        (rest : Exec Committing Bool) (found : Option Block)
        → Safe Kept Any rest
        → Maybe (λ b. IsMember cm b.author) found
        → Safe Kept Any (visit_reference env recur rest found)
    unfolding visit_reference
    visit_reference-Safe rest none hr member = Safe-pure Kept Any false tt
    visit_reference-Safe rest (some b) hr member = record {
      keeps = λ s h.
          (Safe-bind
              (Safe-lift Kept (λ (chain : Chain). IsCertain chain.high_qc)
                (unwrap (lookup b.author s.core.pubkey_to_chain))
                (chain_of_member cm b.author s.core.pubkey_to_chain h.0.0.0.1 h.0.0.0.3 member))
              (λ target certain. enter-Safe rest b target hr member certain)).keeps
            s h;
    }

    commit_references-Safe :
        (refs : List (PublicKey × Digest))
        → All (λ r. r.1 ≢ 0) refs
        → Safe Kept Any (commit_references env recur refs)
    unfolding commit_references
    commit_references-Safe [] h = Safe-pure Kept Any true tt
    commit_references-Safe ((pk, d) ∷ refs) h = record {
      keeps = λ s v.
          (Safe-bind (in_core-Safe (get_block-Safe env cm trust false s.core.name d none))
              (λ found at.
                visit_reference-Safe (commit_references env recur refs) found
                  (commit_references-Safe refs h.1) (authored found at))).keeps
            s v;
    }
      where
        authored :
            (found : Option Block)
            → Maybe (IsFound env cm trust false d) found
            → Maybe (λ b. IsMember cm b.author) found
        authored none at = tt
        authored (some b) at = at.0 h.0

    commit_leader_references-Safe :
        (b : Block)
        → All (λ r. r.1 ≢ 0) b.references
        → Safe Kept Any (commit_leader_references env recur b)
    unfolding commit_leader_references
    commit_leader_references-Safe b h =
        Safe-bind (in_core-Safe (leader-Safe env cm trust false)) (λ leading _.
          Safe-if (b.author == leading)
            (λ _.
              Safe-bind
                (commit_references-Safe (sort_references b.references)
                  (sort_references-All (λ r. r.1 ≢ 0) b.references h))
                (λ done _. Safe-pure Kept Any _ tt))
            (λ _. Safe-pure Kept Any (true, b) tt))

    commit_found-Safe :
        (d : Digest) (again : Option Block)
        → again ≢ none
        → Maybe (IsFound env cm trust false d) again
        → Safe Kept Any (do
          current ← lift (unwrap again)
          ready ← commit_leader_references env recur current
          if ready.0 then (modify (push env recur ready.1) >> pure true) else pure false)
    commit_found-Safe d none there found = absurd (there refl)
    commit_found-Safe d (some b) there found =
        Safe-bind (Safe-lift Kept (λ x. All (λ r. r.1 ≢ 0) x.references) (ok b) found.1)
          (λ current sound. Safe-bind (commit_leader_references-Safe current sound) (λ ready _.
            Safe-if ready.0
              (λ _.
                Safe-then (Safe-modify Kept (push env recur ready.1) (λ s h. h))
                  (Safe-pure Kept Any true tt))
              (λ _. Safe-pure Kept Any false tt)))

    commit_current-keeps :
        (name : PublicKey) (d : Digest) (b : Block) (s : Committing)
        → Kept s
        → IsReadable env cm trust d s.core
        → Kept (commit_current env recur name d (some b) s).1
          × Gives Any (commit_current env recur name d (some b) s).0
    unfolding commit_current
    commit_current-keeps name d b s h readable =
        go (in_core (get_block env name d none) s).0 (in_core (get_block env name d none) s).1 refl
          ((in_core-Safe (get_block-Safe env cm trust false name d none)).keeps s h)
      where
        rest : Option Block → Exec Committing Bool
        rest again = do
          current ← lift (unwrap again)
          ready ← commit_leader_references env recur current
          if ready.0 then (modify (push env recur ready.1) >> pure true) else pure false

        go :
            (r : Result (Option Block)) (s' : Committing)
            → (get_block env name d none s.core).0 ≡ r
            → Kept s' × Gives (Maybe (IsFound env cm trust false d)) r
            → Kept (continue r rest s').1 × Gives Any (continue r rest s').0
        go (ok none) s' e h = absurd (get_block_again env cm trust name d s.core readable e)
        go (ok (some b)) s' e h = (commit_found-Safe d (some b) (λ e. cc) h.1).keeps s' h.0
        go (err x) s' e h = (h.0, tt)
        go panic s' e h = absurd h.1
        go out_of_fuel s' e h = (h.0, tt)

    commit_digest-Safe :
        (name : PublicKey) (found : Option Digest)
        → Safe Kept Any (commit_digest env recur name found)
    unfolding commit_digest commit_current
    commit_digest-Safe name none = Safe-pure Kept Any false tt
    commit_digest-Safe name (some d) = record {
      keeps = λ s h.
          go s (in_core (get_block env name d none) s).0 refl
            ((in_core-Safe (get_block-Safe env cm trust false name d none)).keeps s h);
    }
      where
        go :
            (s : Committing) (r : Result (Option Block))
            → (get_block env name d none s.core).0 ≡ r
            → let s' = (in_core (get_block env name d none) s).1 in
              Kept s' × Gives (Maybe (IsFound env cm trust false d)) r
              → let out = continue r (commit_current env recur name d) s' in
                Kept out.1 × Gives Any out.0
        go s (ok none) e h = (h.0, tt)
        go s (ok (some b)) e h =
            commit_current-keeps name d b (in_core (get_block env name d none) s).1 h.0
              (get_block_found env cm trust name d b s.core e)
        go s (err x) e h = (h.0, tt)
        go s panic e h = absurd h.1
        go s out_of_fuel e h = (h.0, tt)

    commit_rounds-Safe : (k : ℕ) → Safe Kept Any (commit_rounds env recur k)
    unfolding commit_rounds commit_round
    commit_rounds-Safe zero = Safe-pure Kept Any true tt
    commit_rounds-Safe (suc k) =
        Safe-bind
          (record {
            keeps = λ s.
                (commit_digest-Safe s.core.name
                    (lookup (add64 s.chain.last_committed_height 1) s.chain.height_to_digest)).keeps
                  s;
          })
          (λ more _. Safe-if more (λ _. commit_rounds-Safe k) (λ _. Safe-pure Kept Any false tt))

  commit_prev_block-Safe : (fuel : ℕ) (b : Block) → Safe Kept Any (commit_prev_block env fuel b)
  unfolding commit_prev_block
  commit_prev_block-Safe zero b = record { keeps = λ s h. (h, tt) }
  commit_prev_block-Safe (suc fuel) b = record {
    keeps = λ s.
        (commit_rounds-Safe (commit_prev_block env fuel) (commit_prev_block-Safe fuel)
            (b.height - s.chain.last_committed_height)).keeps
          s;
  }

  deliver-IsValid :
      (bs : List Block) (c : Core) → IsValid env cm false c → IsValid env cm false (deliver bs c)
  unfolding deliver mempool_cleanup
  deliver-IsValid [] c h = h
  deliver-IsValid (b ∷ bs) c h = deliver-IsValid bs _ (sent_on (is_empty b.payload))
    where
      sent_on :
          (none_inside : Bool)
          → IsValid env cm false (
              emit
                (committed b)
                (if none_inside then c else emit (cleaned_up b.payload b.height) c))
      sent_on true = (h.0, (tt, h.1))
      sent_on false = (h.0, (tt, (tt, h.1)))

  pub commit-Safe : (depth : ℕ) (b : Block) → Safe (IsValidWork env cm) Any (commit env depth b)
  unfolding commit
  commit-Safe depth b = record {
    keeps = λ w h.
        let s : Committing = record { core = w.core; chain = w.chain; to_commit = [] } in
        let out = (commit_prev_block-Safe depth b).keeps s h in
        go (commit_prev_block env depth b s).0 (commit_prev_block env depth b s).1 out.0 out.1;
  }
    where
      go :
          (r : Result Bool) (s : Committing)
          → Kept s
          → Gives Any r
          → let out = elim r as (λ _. Result (Unit {0}) × Work) [
            | ok done ↦
                (ok tt, record { core = deliver (reverse s.to_commit) s.core; chain = s.chain })
            | err e ↦ (err e, record { core = s.core; chain = s.chain })
            | panic ↦ (panic, record { core = s.core; chain = s.chain })
            | out_of_fuel ↦ (out_of_fuel, record { core = s.core; chain = s.chain })
          ] in
            IsValidWork env cm out.1 × Gives Any out.0
      go (ok done) s h g = ((deliver-IsValid (reverse s.to_commit) s.core h.0, h.1), tt)
      go (err e) s h g = (h, tt)
      go panic s h g = absurd g
      go out_of_fuel s h g = (h, tt)

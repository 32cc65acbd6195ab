-- ===== src/Core/Commit/Depth.antt =====
-- How deep the walk of commit (consensus/src/core.rs) goes where the leader refers to other chains
-- than its own, and no chain but the leader's holds a block of the leader.
use hotstuff_dag.Core.Commit.Ends.{
  Always, Ends, Ends-bind, Ends-if, Ends-lift, Ends-modify, Ends-pure, Returns, Returns-halts,
  unwrap-Returns,
}
use hotstuff_dag.Core.Commit.Foreign.{
  Apart, IfFound, InForeign, IsApart, IsForeign, IsSteady, foreign_walk-Ends, get_block-Ends,
  leader-Returns,
}
use hotstuff_dag.Core.Commit.References.{sort_references-All}
use hotstuff_dag.Core.Commit.{
  Committing, Recur, commit, commit_current, commit_digest, commit_leader_references,
  commit_prev_block, commit_references, commit_round, commit_rounds, deliver, in_core, push,
  put_chain, sort_references, visit, visit_reference,
}
use hotstuff_dag.Core.Outside.{get_block, mempool_cleanup}
use hotstuff_dag.Core.State.{Chain, Core, Work, emit, leader}
use hotstuff_dag.Crypto.{Digest, PublicKey}
use hotstuff_dag.Error.{Result, err, ok, out_of_fuel, panic, unwrap}
use hotstuff_dag.Exec.{Exec, modify, pure, ◌>>=◌, ◌>>◌}
use hotstuff_dag.Messages.Block.{Block}
use hotstuff_dag.Prelude.{
  ==_iff, All, All-insert, All-lookup, Bool, List, Option, [], add64, arith, bytes_eq, false,
  if◌then◌else◌, is_empty, lookup, nat_eq, none, pair_eq, quad_eq, some, suc, sym, true, zero, ℕ,
  ◌-◌, ◌==◌, ◌∙◌, ◌∷◌, ◌≡◌, ◌≢◌, ◌≤◌,
}
use hotstuff_dag.World.{Env, cleaned_up, committed}
use mathlib.Core.List.{reverse}
use mathlib.Core.Path.{subst}

module _ (env : Env) (owner : Digest → PublicKey) (l : PublicKey) (apart : Apart env owner l) where
  -- In any chain.
  abbrev InChain : Committing → Type 0
  InChain s = IsSteady owner l s.core

  block-Ends :
      (name : PublicKey) (d : Digest)
      → Ends InChain (IfFound owner l d) (in_core (get_block env name d none))
  block-Ends name d = record {
    ends = λ s h. (get_block-Ends env owner l apart name d none).ends s.core h;
  }

  leader-Ends : Ends InChain (λ leading. leading ≡ l) (in_core leader)
  leader-Ends = record { ends = λ s h. (h, leader-Returns env owner l apart s.core h) }

  -- In any chain the recursive calls are on foreign ones.
  module _ (recur : Recur) (recurs : (b : Block) → Ends (InForeign owner l) Always (recur b)) where
    visit-Ends :
        (b : Block) (target : Chain)
        → IsForeign owner l target
        → Ends InChain (λ x. IsForeign owner l x.1) (visit env recur b target)
    unfolding visit
    visit-Ends b target foreign = record {
      ends = λ s h.
          let out = (recurs b).ends (record s { chain = target }) (h, foreign) in
          go s.chain (recur b (record s { chain = target })).0
            (recur b (record s { chain = target })).1 out.0 out.1;
    }
      where
        go :
            (chain : Chain) (r : Result Bool) (s' : Committing)
            → InForeign owner l s'
            → Returns Always r
            → let back = record s' { chain = chain } in
              let out = elim r as (λ _. Result (Bool × Chain) × Committing) [
                | ok done ↦ (ok (done, s'.chain), back)
                | err e ↦ (err e, back)
                | panic ↦ (panic, back)
                | out_of_fuel ↦ (out_of_fuel, back)
              ] in
              InChain out.1 × Returns (λ x. IsForeign owner l x.1) out.0
        go chain (ok done) s' h g = (h.0, h.1)
        go chain (err e) s' h g = (h.0, tt)
        go chain panic s' h g = (h.0, tt)
        go chain out_of_fuel s' h g = absurd g

    abbrev IfOther : Option Block → Type 0
    IfOther none = Unit {0}
    IfOther (some b) = b.author ≢ l

    follow-Ends :
        (rest : Exec Committing Bool) (b : Block) (target : Chain)
        → Ends InChain Always rest
        → IsForeign owner l target
        → Ends InChain Always (do
          visited ← visit env recur b target
          if visited.0
              then (modify (put_chain env recur b.author visited.1) >> rest)
              else pure false)
    follow-Ends rest b target hr foreign = Ends-bind (visit-Ends b target foreign) (λ visited back.
        Ends-if visited.0
          (λ _.
            Ends-bind
              (Ends-modify InChain (put_chain env recur b.author visited.1) (λ s h. (
                h.0,
                All-insert (λ e. e.0 ≢ l → IsForeign owner l e.1) b.author visited.1
                    s.core.pubkey_to_chain (λ _. back) h.1,
              )))
              (λ _ _. hr))
          (λ _. Ends-pure InChain Always false tt))

    visit_reference-Ends :
        (rest : Exec Committing Bool) (found : Option Block)
        → Ends InChain Always rest
        → IfOther found
        → Ends InChain Always (visit_reference env recur rest found)
    unfolding visit_reference
    visit_reference-Ends rest none hr other = Ends-pure InChain Always false tt
    visit_reference-Ends rest (some b) hr other = record {
      ends = λ s h.
          (Ends-bind
              (Ends-lift InChain (IsForeign owner l)
                (unwrap (lookup b.author s.core.pubkey_to_chain))
                (unwrap-Returns (IsForeign owner l) (lookup b.author s.core.pubkey_to_chain)
                  (λ chain found.
                    All-lookup (λ e. e.0 ≢ l → IsForeign owner l e.1) b.author chain
                      s.core.pubkey_to_chain h.1 found other)))
              (λ target foreign. follow-Ends rest b target hr foreign)).ends
            s h;
    }

    commit_references-Ends :
        (refs : List (PublicKey × Digest))
        → All (λ r. owner r.1 ≢ l) refs
        → Ends InChain Always (commit_references env recur refs)
    unfolding commit_references
    commit_references-Ends [] h = Ends-pure InChain Always true tt
    commit_references-Ends ((pk, d) ∷ refs) h = record {
      ends = λ s v.
          (Ends-bind (block-Ends s.core.name d) (λ found own.
              visit_reference-Ends (commit_references env recur refs) found
                (commit_references-Ends refs h.1) (authored found own))).ends
            s v;
    }
      where
        authored : (found : Option Block) → IfFound owner l d found → IfOther found
        authored none own = tt
        authored (some b) own = λ e. h.0 (sym own.0 ∙ e)

    commit_leader_references-Ends :
        (b : Block)
        → (b.author ≡ l → All (λ r. owner r.1 ≢ l) b.references)
        → Ends InChain Always (commit_leader_references env recur b)
    unfolding commit_leader_references
    commit_leader_references-Ends b refers = Ends-bind leader-Ends (λ leading is.
        Ends-if (b.author == leading)
          (λ hit.
            Ends-bind
              (commit_references-Ends (sort_references b.references) (
                sort_references-All (λ r. owner r.1 ≢ l) b.references
                  (refers ((==_iff b.author leading).0 hit ∙ is))))
              (λ done _. Ends-pure InChain Always _ tt))
          (λ _. Ends-pure InChain Always (true, b) tt))

    commit_current-Ends :
        (name : PublicKey) (d : Digest) (found : Option Block)
        → Ends InChain Always (commit_current env recur name d found)
    unfolding commit_current
    commit_current-Ends name d none = Ends-pure InChain Always false tt
    commit_current-Ends name d (some b) = Ends-bind (block-Ends name d) (λ again own.
        Ends-bind
          (Ends-lift InChain (IsApart owner l d) (unwrap again)
            (unwrap-Returns (IsApart owner l d) again (λ b is. subst (IfFound owner l d) is own)))
          (λ current mine. Ends-bind (commit_leader_references-Ends current mine.1) (λ ready _.
            Ends-if ready.0
              (λ _.
                Ends-bind (Ends-modify InChain (push env recur ready.1) (λ s h. h))
                  (λ _ _. Ends-pure InChain Always true tt))
              (λ _. Ends-pure InChain Always false tt))))

    commit_digest-Ends :
        (name : PublicKey) (found : Option Digest)
        → Ends InChain Always (commit_digest env recur name found)
    unfolding commit_digest
    commit_digest-Ends name none = Ends-pure InChain Always false tt
    commit_digest-Ends name (some d) =
        Ends-bind (block-Ends name d) (λ present _. commit_current-Ends name d present)

    commit_rounds-Ends : (k : ℕ) → Ends InChain Always (commit_rounds env recur k)
    unfolding commit_rounds commit_round
    commit_rounds-Ends zero = Ends-pure InChain Always true tt
    commit_rounds-Ends (suc k) =
        Ends-bind
          (record {
            ends = λ s.
                (commit_digest-Ends s.core.name
                    (lookup (add64 s.chain.last_committed_height 1) s.chain.height_to_digest)).ends
                  s;
          })
          (λ more _.
            Ends-if more (λ _. commit_rounds-Ends k) (λ _. Ends-pure InChain Always false tt))

  walk-Ends :
      (fuel : ℕ) (b : Block) → Ends InChain Always (commit_prev_block env (suc (suc fuel)) b)
  unfolding commit_prev_block
  walk-Ends fuel b = record {
    ends = λ s h.
        (commit_rounds-Ends (commit_prev_block env (suc fuel))
            (foreign_walk-Ends env owner l apart fuel)
            (b.height - s.chain.last_committed_height)).ends
          s h;
  }

  deliver-IsSteady :
      (bs : List Block) (c : Core) → IsSteady owner l c → IsSteady owner l (deliver bs c)
  unfolding deliver mempool_cleanup
  deliver-IsSteady [] c h = h
  deliver-IsSteady (b ∷ bs) c h = deliver-IsSteady bs _ (sent_on (is_empty b.payload))
    where
      sent_on :
          (none_inside : Bool)
          → IsSteady owner l (
              emit
                (committed b)
                (if none_inside then c else emit (cleaned_up b.payload b.height) c))
      sent_on true = h
      sent_on false = h

  pub commit-Ends :
      (depth : ℕ) (b : Block)
      → Ends (λ (w : Work). IsSteady owner l w.core) Always (commit env (suc (suc depth)) b)
  unfolding commit
  commit-Ends depth b = record {
    ends = λ w h.
        let s : Committing = record { core = w.core; chain = w.chain; to_commit = [] } in
        let out = (walk-Ends depth b).ends s h in
        go (commit_prev_block env (suc (suc depth)) b s).0
          (commit_prev_block env (suc (suc depth)) b s).1 out.0 out.1;
  }
    where
      go :
          (r : Result Bool) (s : Committing)
          → IsSteady owner l s.core
          → Returns Always r
          → let out = elim r as (λ _. Result (Unit {0}) × Work) [
            | ok done ↦
                (ok tt, record { core = deliver (reverse s.to_commit) s.core; chain = s.chain })
            | err e ↦ (err e, record { core = s.core; chain = s.chain })
            | panic ↦ (panic, record { core = s.core; chain = s.chain })
            | out_of_fuel ↦ (out_of_fuel, record { core = s.core; chain = s.chain })
          ] in
            IsSteady owner l out.1.core × Returns Always out.0
      go (ok done) s h g = (deliver-IsSteady (reverse s.to_commit) s.core h, tt)
      go (err e) s h g = (h, tt)
      go panic s h g = (h, tt)
      go out_of_fuel s h g = absurd g

  -- Where the blocks of the leader that can be read refer to no block of the leader, and the chains
  -- of the others hold none, the walk of commit goes two calls deep at most, whatever the store
  -- answers and whatever there is to commit: from a depth of two on it comes to an end.
  pub commit_ends :
      (depth : ℕ) (b : Block) (w : Work)
      → 2 ≤ depth
      → IsSteady owner l w.core
      → (commit env depth b w).0 ≢ out_of_fuel
  commit_ends zero b w enough h = absurd (short enough)
    where
      short : 2 ≤ 0 → ⊥
      short h = omega (arith, h)
  commit_ends (suc zero) b w enough h = absurd (short enough)
    where
      short : 2 ≤ 1 → ⊥
      short h = omega (arith, h)
  commit_ends (suc (suc depth)) b w enough h =
      Returns-halts (commit env (suc (suc depth)) b w).0 ((commit-Ends depth b).ends w h).1

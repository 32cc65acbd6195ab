-- ===== src/Core/Commit/Foreign.antt =====
-- The walk of commit (consensus/src/core.rs) in a chain that holds no block of the leader.
-- What the store holds: `owner` is the author of the block of a digest.
use hotstuff_dag.Core.Commit.Ends.{
  Always, Ends, Ends-bind, Ends-if, Ends-lift, Ends-modify, Ends-pure, Returns, unwrap-Returns,
}
use hotstuff_dag.Core.Commit.{
  Committing, Recur, commit_current, commit_digest, commit_leader_references, commit_prev_block,
  commit_round, commit_rounds, in_core, push,
}
use hotstuff_dag.Core.Outside.{decode, found_block, get_block, read_store}
use hotstuff_dag.Core.State.{Chain, Core, leader}
use hotstuff_dag.Crypto.{Digest, PublicKey}
use hotstuff_dag.Error.{Result, err, ok, store_error, unwrap}
use hotstuff_dag.Leader.{get_leader}
use hotstuff_dag.Messages.Block
use hotstuff_dag.Messages.Block.{Block}
use hotstuff_dag.Messages.Qc
use hotstuff_dag.Messages.Qc.{Qc}
use hotstuff_dag.Prelude.{
  ==_iff, All, All-lookup, Option, Option-cases, add64, ap, arith, bytes_eq, false, inl, inr,
  lookup, nat_eq, none, pair_eq, quad_eq, refl, some, suc, sym, true, zero, ℕ, ◌-◌, ◌==◌, ◌∙◌, ◌∷◌,
  ◌≡◌, ◌≢◌,
}
use hotstuff_dag.Store.{StoreResult, failed, value}
use hotstuff_dag.World.{Bytes, Env, Trace, read}
use mathlib.Core.Path.{subst}

abbrev pub IsApart : (Digest → PublicKey) → PublicKey → Digest → Block → Type 0
IsApart owner l d b = (b.author ≡ owner d) × (b.author ≡ l → All (λ r. owner r.1 ≢ l) b.references)

-- The blocks that can be read have their owners as authors, and those of the leader refer to no
-- block of the leader; the genesis block counts as one of the key 0.
pub record Apart (env : Env) (owner : Digest → PublicKey) (l : PublicKey) : Type 0 where
  pub of_genesis : owner 0 ≡ 0
  pub reads :
      (t : Trace) (d : Digest) (bytes : Bytes) (b : Block)
      → env.db_get t d ≡ value (some bytes)
      → env.deserialize bytes ≡ some b
      → IsApart owner l d b

-- A chain that holds no block of the leader.
abbrev pub IsForeign : (Digest → PublicKey) → PublicKey → Chain → Type 0
IsForeign owner l chain = All (λ e. owner e.1 ≢ l) chain.height_to_digest

-- The leader of the epoch is `l`, and the chains of the others are foreign.
abbrev pub IsSteady : (Digest → PublicKey) → PublicKey → Core → Type 0
IsSteady owner l c =
    (get_leader c.committee c.epoch ≡ ok l)
    × All (λ e. e.0 ≢ l → IsForeign owner l e.1) c.pubkey_to_chain

-- What reading the digest gives.
abbrev pub IfFound : (Digest → PublicKey) → PublicKey → Digest → Option Block → Type 0
IfFound owner l d none = Unit {0}
IfFound owner l d (some b) = IsApart owner l d b

-- In a foreign chain no reference is followed, whatever the recursive call does.
abbrev pub InForeign : (Digest → PublicKey) → PublicKey → Committing → Type 0
InForeign owner l s = IsSteady owner l s.core × IsForeign owner l s.chain

module _ (env : Env) (owner : Digest → PublicKey) (l : PublicKey) (apart : Apart env owner l) where
  abbrev IsAnswer : Digest → Option Bytes → Type 0
  IsAnswer d none = Unit {0}
  IsAnswer d (some bytes) = (t : Trace) × (env.db_get t d ≡ value (some bytes))

  read_store-Ends : (d : Digest) → Ends (IsSteady owner l) (IsAnswer d) (read_store env d)
  unfolding read_store
  read_store-Ends d = record {
    ends = λ c h. (h, answer (read d ∷ c.trace) (env.db_get (read d ∷ c.trace) d) refl);
  }
    where
      answer :
          (t : Trace) (r : StoreResult (Option Bytes))
          → env.db_get t d ≡ r
          → Returns
              (IsAnswer d)
              (elim r as (λ _. Result (Option Bytes)) [ failed ↦ err store_error | value v ↦ ok v ])
      answer t failed e = tt
      answer t (value none) e = tt
      answer t (value (some bytes)) e = (t, e)

  decode-Returns :
      (d : Digest) (bytes : Bytes) (t : Trace)
      → env.db_get t d ≡ value (some bytes)
      → Returns (IsApart owner l d) (decode env bytes)
  unfolding decode
  decode-Returns d bytes t e = elim (Option-cases (env.deserialize bytes)) [
    | inl nothing ↦ rw nothing tt
    | inr (b, found) ↦ rw found (apart.reads t d bytes b e found)
  ]

  found_block-Ends :
      (author : PublicKey) (d : Digest) (block : Option Block) (found : Option Bytes)
      → IsAnswer d found
      → Ends (IsSteady owner l) (IfFound owner l d) (found_block env author d block found)
  unfolding found_block
  found_block-Ends author d block none h = record { ends = λ c steady. (steady, tt) }
  found_block-Ends author d block (some bytes) (t, e) =
      Ends-bind
        (Ends-lift (IsSteady owner l) (IsApart owner l d) (decode env bytes)
          (decode-Returns d bytes t e))
        (λ b own. Ends-pure (IsSteady owner l) (IfFound owner l d) (some b) own)

  pub get_block-Ends :
      (author : PublicKey) (d : Digest) (block : Option Block)
      → Ends (IsSteady owner l) (IfFound owner l d) (get_block env author d block)
  unfolding get_block
  get_block-Ends author d block =
      Ends-if (d == Qc.genesis.hash)
        (λ hit.
          Ends-pure (IsSteady owner l) (IfFound owner l d) (some Block.genesis)
            (sym (ap owner (zero_digest hit) ∙ apart.of_genesis), λ _. tt))
        (λ miss.
          Ends-bind (read_store-Ends d)
            (λ found answered. found_block-Ends author d block found answered))
    where
      zero_digest : (d == Qc.genesis.hash) ≡ true → d ≡ 0
      zero_digest hit = ground arith

  foreign_block-Ends :
      (name : PublicKey) (d : Digest)
      → Ends (InForeign owner l) (IfFound owner l d) (in_core (get_block env name d none))
  foreign_block-Ends name d = record {
    ends = λ s h. let out = (get_block-Ends name d none).ends s.core h.0 in ((out.0, h.1), out.1);
  }

  pub leader-Returns :
      (c : Core) → IsSteady owner l c → Returns (λ leading. leading ≡ l) (leader c).0
  leader-Returns c h = rw h.0 refl

  foreign_leader-Ends : Ends (InForeign owner l) (λ leading. leading ≡ l) (in_core leader)
  foreign_leader-Ends = record { ends = λ s h. (h, leader-Returns s.core h.0) }

  module _ (recur : Recur) where
    stay-Ends :
        (b : Block)
        → b.author ≢ l
        → Ends (InForeign owner l) Always (commit_leader_references env recur b)
    unfolding commit_leader_references
    stay-Ends b other = Ends-bind foreign_leader-Ends (λ leading is.
        Ends-if (b.author == leading) (λ hit. absurd (other ((==_iff b.author leading).0 hit ∙ is)))
          (λ _. Ends-pure (InForeign owner l) Always (true, b) tt))

    foreign_current-Ends :
        (name : PublicKey) (d : Digest) (found : Option Block)
        → owner d ≢ l
        → Ends (InForeign owner l) Always (commit_current env recur name d found)
    unfolding commit_current
    foreign_current-Ends name d none other = Ends-pure (InForeign owner l) Always false tt
    foreign_current-Ends name d (some b) other = Ends-bind (foreign_block-Ends name d) (λ again own.
        Ends-bind
          (Ends-lift (InForeign owner l) (IsApart owner l d) (unwrap again)
            (unwrap-Returns (IsApart owner l d) again (λ b is. subst (IfFound owner l d) is own)))
          (λ current mine. Ends-bind (stay-Ends current (λ e. other (sym mine.0 ∙ e))) (λ ready _.
            Ends-if ready.0
              (λ _.
                Ends-bind (Ends-modify (InForeign owner l) (push env recur ready.1) (λ s h. h))
                  (λ _ _. Ends-pure (InForeign owner l) Always true tt))
              (λ _. Ends-pure (InForeign owner l) Always false tt))))

    foreign_digest-Ends :
        (name : PublicKey) (found : Option Digest)
        → ((d : Digest) → found ≡ some d → owner d ≢ l)
        → Ends (InForeign owner l) Always (commit_digest env recur name found)
    unfolding commit_digest
    foreign_digest-Ends name none other = Ends-pure (InForeign owner l) Always false tt
    foreign_digest-Ends name (some d) other =
        Ends-bind (foreign_block-Ends name d)
          (λ present _. foreign_current-Ends name d present (other d refl))

    foreign_round-Ends : Ends (InForeign owner l) Always (commit_round env recur)
    unfolding commit_round
    foreign_round-Ends = record {
      ends = λ s h.
          let next = add64 s.chain.last_committed_height 1 in
          (foreign_digest-Ends s.core.name (lookup next s.chain.height_to_digest) (λ d found.
              All-lookup (λ e. owner e.1 ≢ l) next d s.chain.height_to_digest h.1 found)).ends
            s h;
    }

    foreign_rounds-Ends : (k : ℕ) → Ends (InForeign owner l) Always (commit_rounds env recur k)
    unfolding commit_rounds
    foreign_rounds-Ends zero = Ends-pure (InForeign owner l) Always true tt
    foreign_rounds-Ends (suc k) = Ends-bind foreign_round-Ends (λ more _.
        Ends-if more (λ _. foreign_rounds-Ends k)
          (λ _. Ends-pure (InForeign owner l) Always false tt))

  pub foreign_walk-Ends :
      (fuel : ℕ) (b : Block) → Ends (InForeign owner l) Always (commit_prev_block env (suc fuel) b)
  unfolding commit_prev_block
  foreign_walk-Ends fuel b = record {
    ends = λ s h.
        (foreign_rounds-Ends (commit_prev_block env fuel)
            (b.height - s.chain.last_committed_height)).ends
          s h;
  }

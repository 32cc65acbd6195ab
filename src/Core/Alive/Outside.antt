-- ===== src/Core/Alive/Outside.antt =====
-- What the core asks of its surroundings (consensus/src/core.rs, consensus/src/synchronizer.rs,
-- consensus/src/mempool.rs) only adds to the trace; a block that comes back from the store is one
-- that was written.
use hotstuff_dag.Config.{Committee, SocketAddr, address, smvba_address}
use hotstuff_dag.Core.Alive.{
  Any, Gives, Happened, IsMember, IsSound, IsValid, Maybe, Safe, Safe-bind, Safe-if, Safe-lift,
  Safe-pure, Trust, WritesSound, Safe-Any,
}
use hotstuff_dag.Core.Outside.{
  addresses, decode, found_block, get_ancestors, get_block, get_parent_block, grandparent,
  mempool_get, mempool_verify, read_store, store_block, transmit,
}
use hotstuff_dag.Core.State.{Core, emit}
use hotstuff_dag.Crypto.{Digest, PublicKey}
use hotstuff_dag.Error.{Result, err, ok, out_of_fuel, panic, store_error}
use hotstuff_dag.Exec.{continue, pure}
use hotstuff_dag.Messages.Block
use hotstuff_dag.Messages.Block.{Block, parent}
use hotstuff_dag.Messages.Qc
use hotstuff_dag.Messages.Qc.{Qc}
use hotstuff_dag.Prelude.{
  All, Bool, Bool-cases, List, Option, Option-cases, [], arith, inl, inr, none, refl, some, sym,
  true, ℕ, ◌==◌, ◌∙◌, ◌∷◌, ◌≡◌, ◌≢◌, ◌⊎◌,
}
use hotstuff_dag.Store.{StoreResult, failed, value}
use hotstuff_dag.World.{Bytes, ConsensusMessage, Env, Event, Network, Trace, read, sent, wrote}
use mathlib.Core.Path.{subst}

happened_All : (P : Event → Type 0) (e : Event) (t : Trace) → All P t → Happened e t → P e
happened_All P e [] h there = absurd there
happened_All P e (x ∷ t) h (inl same) = subst P same h.0
happened_All P e (x ∷ t) h (inr later) = happened_All P e t h.1 later

module _ (env : Env) (cm : Committee) (trust : Trust env cm) (begun : Bool) where
  abbrev Kept : Core → Type 0
  Kept = IsValid env cm begun

  pub store_block-IsValid :
      (b : Block) (c : Core) → IsSound cm b → Kept c → Kept (store_block env b c)
  unfolding store_block
  store_block-IsValid b c sound h = (h.0, ((b, refl, sound), h.1))

  -- What a sound block is written as.
  abbrev pub IsStored : Bytes → Type 0
  IsStored bytes = (b : Block) × (bytes ≡ env.serialize b) × IsSound cm b

  pub read_store-Safe : (d : Digest) → Safe Kept (Maybe IsStored) (read_store env d)
  unfolding read_store
  read_store-Safe d = record {
    keeps = λ c h. ((h.0, (tt, h.1)), answer c h.1 (env.db_get (read d ∷ c.trace) d) refl);
  }
    where
      answer :
          (c : Core)
          → All (WritesSound env cm) c.trace
          → (r : StoreResult (Option Bytes)) → env.db_get (read d ∷ c.trace) d ≡ r
          → Gives
              (Maybe IsStored)
              (elim r as (λ _. Result (Option Bytes)) [ failed ↦ err store_error | value v ↦ ok v ])
      answer c h failed e = tt
      answer c h (value none) e = tt
      answer c h (value (some bytes)) e =
          happened_All (WritesSound env cm) (wrote d bytes) (read d ∷ c.trace) (tt, h)
            (trust.reads (read d ∷ c.trace) d bytes e)

  pub decode-Gives : (bytes : Bytes) → IsStored bytes → Gives (IsSound cm) (decode env bytes)
  unfolding decode
  decode-Gives bytes (b, e, sound) = elim (Option-cases (env.deserialize bytes)) [
    | inl nothing ↦ rw nothing tt
    | inr (b', found) ↦ rw found (
        subst (IsSound cm)
          (sym (trust.decodes b b' (subst (λ x. env.deserialize x ≡ some b') e found))) sound)
  ]

  found_block-Safe :
      (author : PublicKey) (d : Digest) (block : Option Block) (found : Option Bytes)
      → Maybe IsStored found
      → Safe Kept (Maybe (IsSound cm)) (found_block env author d block found)
  unfolding found_block
  found_block-Safe author d block none stored = record { keeps = λ c h. ((h.0, (tt, h.1)), tt) }
  found_block-Safe author d block (some bytes) stored =
      Safe-bind (Safe-lift Kept (IsSound cm) (decode env bytes) (decode-Gives bytes stored))
        (λ b sound. Safe-pure Kept (Maybe (IsSound cm)) (some b) sound)

  -- A block refers to no genesis block, and is a member's unless it is the genesis block.
  abbrev pub IsFound : Digest → Block → Type 0
  IsFound d b = (d ≢ 0 → IsMember cm b.author) × All (λ r. r.1 ≢ 0) b.references

  pub get_block-Safe :
      (author : PublicKey) (d : Digest) (block : Option Block)
      → Safe Kept (Maybe (IsFound d)) (get_block env author d block)
  unfolding get_block
  get_block-Safe author d block =
      Safe-if (d == Qc.genesis.hash)
        (λ hit.
          Safe-pure Kept (Maybe (IsFound d)) (some Block.genesis)
            ((λ other. absurd (other (zero_digest hit))), tt))
        (λ miss.
          Safe-bind (read_store-Safe d)
            (λ found stored. weaken found (found_block-Safe author d block found stored)))
    where
      zero_digest : (d == Qc.genesis.hash) ≡ true → d ≡ 0
      zero_digest hit = ground arith

      forget :
          (r : Result (Option Block)) → Gives (Maybe (IsSound cm)) r → Gives (Maybe (IsFound d)) r
      forget (ok none) g = tt
      forget (ok (some b)) g = ((λ _. g.0), g.1)
      forget (err e) g = tt
      forget panic g = g
      forget out_of_fuel g = tt

      weaken :
          (found : Option Bytes)
          → Safe Kept (Maybe (IsSound cm)) (found_block env author d block found)
          → Safe Kept (Maybe (IsFound d)) (found_block env author d block found)
      weaken found safe = record {
        keeps = λ c h. (
          (safe.keeps c h).0,
          forget (found_block env author d block found c).0 (safe.keeps c h).1,
        );
      }

  get_parent_block-Safe : (b : Block) → Safe Kept Any (get_parent_block env b)
  unfolding get_parent_block
  get_parent_block-Safe b = Safe-Any (get_block-Safe b.author (Block.parent b) (some b))

  pub get_ancestors-Safe : (b : Block) → Safe Kept Any (get_ancestors env b)
  unfolding get_ancestors grandparent
  get_ancestors-Safe b = Safe-bind (get_parent_block-Safe b) (λ parent _. further parent)
    where
      further : (parent : Option Block) → Safe Kept Any (grandparent env parent)
      further none = Safe-pure Kept Any none tt
      further (some b1) = Safe-bind (get_parent_block-Safe b1) (λ found _. Safe-pure Kept Any _ tt)

  pub mempool_get-Safe : (n : ℕ) → Safe Kept Any (mempool_get env n)
  unfolding mempool_get
  mempool_get-Safe n = record { keeps = λ c h. ((h.0, (tt, h.1)), tt) }

  pub mempool_verify-Safe : (b : Block) → Safe Kept Any (mempool_verify env b)
  unfolding mempool_verify
  mempool_verify-Safe b = record { keeps = λ c h. ((h.0, (tt, h.1)), ground arith) }

  -- To a member or to all the others.
  pub transmit-Safe :
      (m : ConsensusMessage) (to : Option PublicKey) (network : Network) (tag : ℕ)
      → Safe Kept Any (transmit m to network tag)
  unfolding transmit addresses address smvba_address
  transmit-Safe m to network tag = record {
    keeps = λ c h. go c h (addresses c.name to c.committee tag) (no_panic c to);
  }
    where
      no_panic :
          (c : Core) (to : Option PublicKey) → Gives Any (addresses c.name to c.committee tag)
      no_panic c none = ground arith
      no_panic c (some k) = ground arith

      go :
          (c : Core)
          → Kept c
          → (r : Result (List SocketAddr)) → Gives Any r
          → let out = elim r as (λ _. Result (Unit {0}) × Core) [
            | ok to_addresses ↦ (ok tt, emit (sent network m to_addresses) c)
            | err e ↦ (err e, c)
            | panic ↦ (panic, c)
            | out_of_fuel ↦ (out_of_fuel, c)
          ] in
            Kept out.1 × Gives Any out.0
      go c h (ok a) g = ((h.0, (tt, h.1)), tt)
      go c h (err e) g = (h, tt)
      go c h panic g = absurd g
      go c h out_of_fuel g = (h, tt)

module _ (env : Env) (cm : Committee) (trust : Trust env cm) where
  -- The block of the digest can be read.
  abbrev pub IsReadable : Digest → Core → Type 0
  IsReadable d c =
      ((d == Qc.genesis.hash) ≡ true)
      ⊎ ((bytes : Bytes) × (env.db_get c.trace d ≡ value (some bytes)))

  found_block_stays :
      (name : PublicKey) (d : Digest) (bytes : Bytes) (c : Core)
      → (found_block env name d none (some bytes) c).1 ≡ c
  unfolding found_block
  found_block_stays name d bytes c = go (decode env bytes)
    where
      go : (r : Result Block) → (continue r (λ b. pure (some b)) c).1 ≡ c
      go (ok b) = refl
      go (err e) = refl
      go panic = refl
      go out_of_fuel = refl

  -- A block that has been found is found again.
  pub get_block_found :
      (name : PublicKey) (d : Digest) (b : Block) (c : Core)
      → (get_block env name d none c).0 ≡ ok (some b)
      → IsReadable d (get_block env name d none c).1
  unfolding get_block read_store found_block
  get_block_found name d b c found = elim (Bool-cases (d == Qc.genesis.hash)) [
    | inl hit ↦ inl hit
    | inr miss ↦
        inr (rw miss (go (env.db_get (read d ∷ c.trace) d) refl (sym (rw miss refl) ∙ found)))
  ]
    where
      next : Core
      next = emit (read d) c

      go :
          (r : StoreResult (Option Bytes))
          → env.db_get (read d ∷ c.trace) d ≡ r
          → (continue
              (elim r as (λ _. Result (Option Bytes)) [ failed ↦ err store_error | value v ↦ ok v ])
              (found_block env name d none)
              next).0
            ≡ ok (some b)
          → (bytes : Bytes) × (env.db_get
                (continue
                  (elim r as (λ _. Result (Option Bytes)) [
                    | failed ↦ err store_error
                    | value v ↦ ok v
                  ])
                  (found_block env name d none)
                  next).1.trace
                d
              ≡ value (some bytes))
      go failed e found = cc
      go (value none) e found = cc
      go (value (some bytes)) e found = (
        bytes,
        subst (λ x. env.db_get x.trace d ≡ value (some bytes))
            (sym (found_block_stays name d bytes next)) e,
      )

  found_some :
      (name : PublicKey) (d : Digest) (bytes : Bytes) (c : Core)
      → (found_block env name d none (some bytes) c).0 ≢ ok none
  unfolding found_block
  found_some name d bytes c = go (decode env bytes)
    where
      go : (r : Result Block) → (continue r (λ b. pure (some b)) c).0 ≢ ok none
      go (ok b) = λ e. cc
      go (err e) = λ e. cc
      go panic = λ e. cc
      go out_of_fuel = λ e. cc

  pub get_block_again :
      (name : PublicKey) (d : Digest) (c : Core)
      → IsReadable d c
      → (get_block env name d none c).0 ≢ ok none
  unfolding get_block read_store
  get_block_again name d c (inl hit) e = clash (sym (rw hit refl) ∙ e)
    where
      clash : ok (some Block.genesis) ≡ ok none → ⊥
      clash e = cc
  get_block_again name d c (inr (bytes, there)) e = elim (Bool-cases (d == Qc.genesis.hash)) [
    | inl hit ↦ clash (sym (rw hit refl) ∙ e)
    | inr miss ↦ go (env.db_get (read d ∷ c.trace) d) refl (sym (rw miss refl) ∙ e)
  ]
    where
      clash : ok (some Block.genesis) ≡ ok none → ⊥
      clash e = cc

      go :
          (r : StoreResult (Option Bytes))
          → env.db_get (read d ∷ c.trace) d ≡ r
          → ¬ (
              (continue
                (elim r as (λ _. Result (Option Bytes)) [
                  | failed ↦ err store_error
                  | value v ↦ ok v
                ])
                (found_block env name d none)
                (emit (read d) c)).0
              ≡ ok none)
      go failed at e = cc
      go (value none) at e = trust.lasts c.trace d bytes (read d) there at
      go (value (some bytes')) at e = found_some name d bytes' (emit (read d) c) e

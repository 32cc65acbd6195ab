-- ===== src/Mempool/Core/Availability.antt =====
-- When `verify_payload` of mempool/src/core.rs accepts a block, and what it asks for otherwise.
-- A store that does not fail, and does not change while the block is looked at: what it has.
use hotstuff_dag.Crypto.{Digest}
use hotstuff_dag.Mempool.Core.{missing_of, read_store, verify_payload}
use hotstuff_dag.Mempool.Error.{ok}
use hotstuff_dag.Mempool.State.{Core, Env, Event, emit, read, synced}
use hotstuff_dag.Messages.Block.{Block}
use hotstuff_dag.Prelude.{
  ==_iff, Bool, Bool-cases, List, [], arith, contains, false, if◌then◌else◌, inl, inr, is_empty,
  none, not, refl, set_insert, some, sym, true, ℕ, ◌&&◌, ◌==◌, ◌||◌, ◌∙◌, ◌∷◌, ◌≡◌, ◌⊎◌,
}
use hotstuff_dag.Store.{value}
use hotstuff_dag.World.{Bytes}

pub record HasStored (env : Env) (stored : Digest → Bool) : Type 0 where
  pub bytes : Digest → Bytes
  pub reads :
      (trace : List Event) (d : Digest)
      → env.db_get trace d ≡ value (if stored d then some (bytes d) else none)

-- `all` of the payload's digests are there.
abbrev pub all_stored : (Digest → Bool) → List Digest → Bool
all_stored stored [] = true
all_stored stored (d ∷ ds) = stored d && all_stored stored ds

pub contains-set_insert :
    (v a : ℕ) (xs : List ℕ) → contains (set_insert v xs) a ≡ (v == a || contains xs a)
contains-set_insert v a xs = elim (Bool-cases (contains xs v)) [
  | inl old ↦ rw old (ground (arith, old, ==_iff v a))
  | inr fresh ↦ rw fresh refl
]

stored_of_all :
    (stored : Digest → Bool) (ds : List Digest) (d : Digest)
    → all_stored stored ds ≡ true
    → contains ds d ≡ true
    → stored d ≡ true
stored_of_all stored [] d all h = cc
stored_of_all stored (x ∷ ds) d all h =
    ground (arith, all, h, ==_iff x d, stored_of_all stored ds d)

not_stored :
    (stored : Digest → Bool) (ds : List Digest)
    → all_stored stored ds ≡ false
    → (d : Digest) × (contains ds d ≡ true) × (stored d ≡ false)
not_stored stored [] h = absurd (cc)
not_stored stored (x ∷ ds) h = elim (Bool-cases (stored x)) [
  | inl there ↦
      let (d, has, absent) = not_stored stored ds (ground (arith, h, there)) in
      (d, ground (arith, has), absent)
  | inr absent ↦ (x, ground arith, absent)
]

module _ (env : Env) (stored : Digest → Bool) (store : HasStored env stored) where
  abbrev IsMissing : List Digest → List Digest → List Digest → Type 0
  IsMissing ds missing found =
      (d : Digest) → contains found d ≡ (contains missing d || (contains ds d && not (stored d)))

  missing_of_lem :
      (ds missing : List Digest) (c : Core)
      → (found : List Digest) × ((missing_of env ds missing c).0 ≡ ok found)
        × IsMissing ds missing found
  unfolding missing_of read_store
  missing_of_lem [] missing c = (missing, refl, λ d. ground arith)
  missing_of_lem (x ∷ ds) missing c = elim (Bool-cases (stored x)) [
    | inl there ↦
        let (found, done, exact) = missing_of_lem ds missing (emit (read x) c) in
        (
          found,
          rw (store.reads (read x ∷ c.trace) x) (rw there done),
          λ d. ground (arith, exact d, ==_iff x d, there),
        )
    | inr absent ↦
        let (found, done, exact) = missing_of_lem ds (set_insert x missing) (emit (read x) c) in
        (
          found,
          rw (store.reads (read x ∷ c.trace) x) (rw absent done),
          λ d. ground (arith, exact d, ==_iff x d, absent, contains-set_insert x d missing),
        )
  ]

  -- Nothing is missing exactly when all is stored.
  none_missing :
      (ds found : List Digest) → IsMissing ds [] found → is_empty found ≡ all_stored stored ds
  none_missing ds [] exact = elim (Bool-cases (all_stored stored ds)) [
    | inl all ↦ sym all
    | inr some_absent ↦
        let (d, has, absent) = not_stored stored ds some_absent in
        ground (arith, exact d, has, absent)
  ]
  none_missing ds (x ∷ found) exact = ground (arith, exact x, stored_of_all stored ds x)

  -- In a store that does not fail: a block is accepted exactly when all of its payload is stored; otherwise the answer is to wait, and the synchronizer is given the
  -- block with exactly the digests that are not stored.
  pub verify_payload_lem :
      (b : Block) (c : Core)
      → (((all_stored stored b.payload) ≡ true) × ((verify_payload env b c).0 ≡ ok true))
        ⊎ (((all_stored stored b.payload) ≡ false)
            × ((verify_payload env b c).0 ≡ ok false)
            × ((missing : List Digest) × (trace : List Event) × ((verify_payload env b c).1.trace
                  ≡ synced missing b ∷ trace)
                × ((d : Digest) → contains missing d ≡ (contains b.payload d && not (stored d)))))
  unfolding verify_payload
  verify_payload_lem b c =
      let (found, done, exact) = missing_of_lem b.payload [] c in
      elim (Bool-cases (is_empty found)) [
        | inl empty ↦
            inl (sym (none_missing b.payload found exact) ∙ empty, rw done (rw empty refl))
        | inr more ↦ inr (
          sym (none_missing b.payload found exact) ∙ more,
          rw done (rw more refl),
          (found, (missing_of env b.payload [] c).1.trace, rw done (rw more refl), exact),
        )
      ]

-- ===== src/Core/Commit/References.antt =====
-- The order of the references of a leader block (consensus/src/core.rs) says nothing of what they are.
use hotstuff_dag.Core.Commit.{insert_reference, sort_references}
use hotstuff_dag.Crypto.{Digest, PublicKey}
use hotstuff_dag.Prelude.{All, Bool-cases, List, [], inl, inr, leb, ◌∷◌}

module _ (P : PublicKey × Digest → Type 0) where
  insert_reference-All :
      (r : PublicKey × Digest) (refs : List (PublicKey × Digest))
      → P r
      → All P refs
      → All P (insert_reference r refs)
  unfolding insert_reference
  insert_reference-All r [] p h = (p, tt)
  insert_reference-All r (x ∷ xs) p h = elim (Bool-cases (leb r.0 x.0)) [
    | inl before ↦ rw before (p, (h.0, h.1))
    | inr after ↦ rw after (h.0, insert_reference-All r xs p h.1)
  ]

  pub sort_references-All :
      (refs : List (PublicKey × Digest)) → All P refs → All P (sort_references refs)
  unfolding sort_references
  sort_references-All [] h = tt
  sort_references-All (x ∷ xs) h =
      insert_reference-All x (sort_references xs) h.0 (sort_references-All xs h.1)

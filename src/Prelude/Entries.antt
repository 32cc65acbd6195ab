-- ===== src/Prelude/Entries.antt =====
-- What holds of every entry of a map, and the keys of a map over numbers.
use Prim.Native.Nat.{ℕ}
use hotstuff_dag.Prelude.Lists.{All, contains}
use hotstuff_dag.Prelude.Maps.{
  Map, contains_key, contains_key-insert, insert, keys, lookup, lookup_or, retain,
}
use hotstuff_dag.Prelude.Tests.{Bool-cases, Eq, Option-cases, nat_eq, ◌==◌}
use mathlib.Core.Bool.{Bool, true}
use mathlib.Core.List.{[], ◌∷◌}
use mathlib.Core.Logic.{inl, inr}
use mathlib.Core.Option.{none, some}
use mathlib.Core.Path.{ap, refl, subst, sym, ◌∙◌, ◌≡◌}
use native.Mathlib.Omega.{arith}

module _ {K V : Type 0} ⦃e : Eq K⦄ (P : K × V → Type 0) where
  pub All-insert : (k : K) (v : V) (m : Map K V) → P (k, v) → All P m → All P (insert k v m)
  All-insert k v [] p h = (p, tt)
  All-insert k v ((j, w) ∷ m) p h = elim (Bool-cases (e.beq j k)) [
    | inl hit ↦ rw hit (subst (λ i. P (i, v)) (sym ((e.beq_iff j k).0 hit)) p, h.1)
    | inr miss ↦ rw miss (h.0, All-insert k v m p h.1)
  ]

  pub All-retain : (p : K → Bool) (m : Map K V) → All P m → All P (retain p m)
  All-retain p [] h = tt
  All-retain p ((j, w) ∷ m) h = elim (Bool-cases (p j)) [
    | inl kept ↦ rw kept (h.0, All-retain p m h.1)
    | inr dropped ↦ rw dropped (All-retain p m h.1)
  ]

  pub All-lookup : (k : K) (v : V) (m : Map K V) → All P m → lookup k m ≡ some v → P (k, v)
  All-lookup k v [] h found = absurd (nothing found)
    where
      nothing : none ≡ some v → ⊥
      nothing found = cc
  All-lookup k v ((j, w) ∷ m) h found = elim (Bool-cases (e.beq j k)) [
    | inl hit ↦ subst (λ x. P (k, x)) (same hit) (subst (λ i. P (i, w)) ((e.beq_iff j k).0 hit) h.0)
    | inr miss ↦ All-lookup k v m h.1 (sym (rw miss refl) ∙ found)
  ]
    where
      same : e.beq j k ≡ true → w ≡ v
      same hit = ground (arith, hit, found)

  pub All-lookup_or : (k : K) (d : V) (m : Map K V) → P (k, d) → All P m → P (k, lookup_or k d m)
  All-lookup_or k d m p h = elim (Option-cases (lookup k m)) [
    | inl nothing ↦ rw (nothing, lookup_or) p
    | inr (v, found) ↦ rw (found, lookup_or) (All-lookup k v m h found)
  ]

module _ {V : Type 0} where
  -- A key of the map is found.
  pub lookup-contains :
      (k : ℕ) (m : Map ℕ V) → contains (keys m) k ≡ true → (v : V) × (lookup k m ≡ some v)
  lookup-contains k [] h = cc
  lookup-contains k ((j, w) ∷ m) h = elim (Bool-cases (j == k)) [
    | inl hit ↦ (w, rw hit refl)
    | inr miss ↦
        let (v, found) = lookup-contains k m (ground (arith, h, miss)) in (v, rw miss found)
  ]

  pub contains-lookup :
      (k : ℕ) (v : V) (m : Map ℕ V) → lookup k m ≡ some v → contains (keys m) k ≡ true
  contains-lookup k v [] h = cc
  contains-lookup k v ((j, w) ∷ m) h = ground (arith, h, contains-lookup k v m)

  pub keys-insert_old :
      (k : ℕ) (v : V) (m : Map ℕ V) → contains (keys m) k ≡ true → keys (insert k v m) ≡ keys m
  keys-insert_old k v [] h = cc
  keys-insert_old k v ((j, w) ∷ m) h = elim (Bool-cases (j == k)) [
    | inl hit ↦ rw hit refl
    | inr miss ↦ rw miss (ap (λ l. j ∷ l) (keys-insert_old k v m (ground (arith, h, miss))))
  ]

-- Neither an insertion nor a retention of another key loses a key.
pub contains_key-kept {ℓ κ} :
    {K : Type ℓ} {V : Type κ} ⦃e : Eq K⦄ (k j : K) (v : V) (m : Map K V)
    → contains_key j m ≡ true
    → contains_key j (insert k v m) ≡ true
contains_key-kept k j v m h = ground (arith, h, contains_key-insert k j v m)

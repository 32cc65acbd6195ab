-- ===== src/Prelude/Maps.antt =====
-- `std::collections::HashMap` as an association list in the order of its iteration. A map has one
-- entry for each key: `insert` overwrites in place.
use Prim.Native.Nat.{ℕ, ◌≤◌, ◌<◌}
use hotstuff_dag.Prelude.Lists.{contains, keep, length}
use native.Mathlib.Omega.{arith}
use mathlib.Core.Bool.{Bool, true, false, not, ◌&&◌}
use mathlib.Core.List.{List, [], ◌∷◌, map}
use mathlib.Core.Option.{Option, none, some}
use hotstuff_dag.Prelude.Tests.{Eq, Bool-cases, if◌then◌else◌, ◌==◌}
use mathlib.Core.Path.{ap, ◌≡◌, refl, ◌∙◌}
use mathlib.Core.Logic.{inl, inr}

abbrev pub Map {ℓ κ} : Type ℓ → Type κ → Type (ℓ ⊔ κ)
Map K V = List (K × V)

module _ {ℓ κ} {K : Type ℓ} {V : Type κ} ⦃e : Eq K⦄ where
  abbrev pub lookup : K → Map K V → Option V
  lookup k [] = none
  lookup k ((j, v) ∷ m) = if e.beq j k then some v else lookup k m

  abbrev pub insert : K → V → Map K V → Map K V
  insert k v [] = (k, v) ∷ []
  insert k v ((j, w) ∷ m) =
      let rest = insert k v m in if e.beq j k then (j, v) ∷ m else (j, w) ∷ rest

  abbrev pub remove : K → Map K V → Map K V
  remove k [] = []
  remove k ((j, v) ∷ m) = let rest = remove k m in if e.beq j k then m else (j, v) ∷ rest

abbrev pub contains_key {ℓ κ} : {K : Type ℓ} {V : Type κ} ⦃e : Eq K⦄ → K → Map K V → Bool
contains_key k m = elim (lookup k m) [ none ↦ false | some v ↦ true ]

abbrev pub keys {ℓ κ} : {K : Type ℓ} {V : Type κ} → Map K V → List K
keys m = map (λ p. p.0) m

abbrev pub values {ℓ κ} : {K : Type ℓ} {V : Type κ} → Map K V → List V
values m = map (λ p. p.1) m

-- `retain` by a test on the key.
abbrev pub retain {ℓ κ} : {K : Type ℓ} {V : Type κ} → (K → Bool) → Map K V → Map K V
retain p [] = []
retain p ((j, v) ∷ m) = let rest = retain p m in if p j then (j, v) ∷ rest else rest

-- `HashSet::insert`, without its result.
abbrev pub set_insert : ℕ → List ℕ → List ℕ
set_insert v xs = if contains xs v then xs else v ∷ xs

-- `HashSet::remove`
abbrev pub set_remove : ℕ → List ℕ → List ℕ
set_remove d ds = keep (λ x. not (x == d)) ds

-- `entry(k).or_insert(d)`, read.
abbrev pub lookup_or {ℓ κ} : {K : Type ℓ} {V : Type κ} ⦃e : Eq K⦄ → K → V → Map K V → V
lookup_or k d m = elim (lookup k m) [ none ↦ d | some v ↦ v ]

module _ {ℓ κ} {K : Type ℓ} {V : Type κ} ⦃e : Eq K⦄ where
  pub lookup-insert_self : (k : K) (v : V) (m : Map K V) → lookup k (insert k v m) ≡ some v
  lookup-insert_self k v [] = rw ((e.beq_iff k k).1 refl)
  lookup-insert_self k v ((j, w) ∷ m) = elim (Bool-cases (e.beq j k)) [
    | inl hit ↦ rw hit (rw hit)
    | inr miss ↦ rw miss (rw miss (lookup-insert_self k v m))
  ]

  -- What `retain` drops is not found any more.
  pub lookup-retain_dropped :
      (p : K → Bool) (k : K) (m : Map K V) → p k ≡ false → lookup k (retain p m) ≡ none
  lookup-retain_dropped p k [] h = refl
  lookup-retain_dropped p k ((j, w) ∷ m) h = elim (Bool-cases (p j)) [
    | inl kept ↦ elim (Bool-cases (e.beq j k)) [
      | inl hit ↦ absurd (differ (ap p ((e.beq_iff j k).0 hit)) kept)
      | inr miss ↦ rw kept (rw miss (lookup-retain_dropped p k m h))
    ]
    | inr dropped ↦ rw dropped (lookup-retain_dropped p k m h)
  ]
    where
      differ : p j ≡ p k → p j ≡ true → ⊥
      differ a b = cc

module _ {ℓ κ} {K : Type ℓ} {V : Type κ} ⦃e : Eq K⦄ where
  pub lookup-insert :
      (k j : K) (v : V) (m : Map K V)
      → lookup j (insert k v m) ≡ (if e.beq k j then some v else lookup j m)
  lookup-insert k j v [] = refl
  lookup-insert k j v ((i, w) ∷ m) =
      ground (arith, e.beq_iff k j, e.beq_iff i k, e.beq_iff i j, lookup-insert k j v m)

  pub lookup-remove_ne :
      (k j : K) (m : Map K V) → e.beq k j ≡ false → lookup j (remove k m) ≡ lookup j m
  lookup-remove_ne k j [] h = refl
  lookup-remove_ne k j ((i, w) ∷ m) h =
      ground (arith, e.beq_iff k j, e.beq_iff i k, e.beq_iff i j, lookup-remove_ne k j m h)

  -- Each key has one entry.
  abbrev pub Unique : Map K V → Type 0
  Unique [] = Unit
  Unique ((k, v) ∷ m) = (contains_key k m ≡ false) × Unique m

  pub contains_key-insert :
      (k j : K) (v : V) (m : Map K V)
      → contains_key j (insert k v m) ≡ (if e.beq k j then true else contains_key j m)
  contains_key-insert k j v m = ground (arith, lookup-insert k j v m)

  pub contains_key-remove :
      (k j : K) (m : Map K V) → contains_key j m ≡ false → contains_key j (remove k m) ≡ false
  contains_key-remove k j [] h = refl
  contains_key-remove k j ((i, w) ∷ m) h = ground (arith, contains_key-remove k j m)

  pub insert-Unique : (k : K) (v : V) (m : Map K V) → Unique m → Unique (insert k v m)
  insert-Unique k v [] u = (refl, tt)
  insert-Unique k v ((i, w) ∷ m) u = elim (Bool-cases (e.beq i k)) [
    | inl hit ↦ rw hit u
    | inr miss ↦ rw miss (
      ground (arith, e.beq_iff i k, e.beq_iff k i, contains_key-insert k i v m),
      insert-Unique k v m u.1,
    )
  ]

  pub remove-Unique : (k : K) (m : Map K V) → Unique m → Unique (remove k m)
  remove-Unique k [] u = tt
  remove-Unique k ((i, w) ∷ m) u = elim (Bool-cases (e.beq i k)) [
    | inl hit ↦ rw hit u.1
    | inr miss ↦ rw miss (contains_key-remove k i m u.0, remove-Unique k m u.1)
  ]

  pub contains_key-remove_self :
      (k : K) (m : Map K V) → Unique m → contains_key k (remove k m) ≡ false
  contains_key-remove_self k [] u = refl
  contains_key-remove_self k ((i, w) ∷ m) u =
      ground (arith, e.beq_iff i k, contains_key-remove_self k m u.1, u.0)

  pub lookup_or-some : (k : K) (d v : V) (m : Map K V) → lookup k m ≡ some v → lookup_or k d m ≡ v
  lookup_or-some k d v m h = rw (h, lookup_or) refl

  pub lookup_or_fresh :
      (k : K) (d : V) (m : Map K V) → contains_key k m ≡ false → lookup_or k d m ≡ d
  lookup_or_fresh k d m h = ground (arith, h)

pub contains-set_remove_all :
    (d e : ℕ) (ds : List ℕ) → contains (set_remove d ds) e ≡ (not (d == e) && contains ds e)
contains-set_remove_all d e [] = ground arith
contains-set_remove_all d e (x ∷ ds) = ground (arith, contains-set_remove_all d e ds)

module _ {ℓ κ} {K : Type ℓ} {V : Type κ} ⦃e : Eq K⦄ where
  pub length-insert_old :
      (k : K) (v : V) (m : Map K V) → contains_key k m ≡ true → length (insert k v m) ≡ length m
  length-insert_old k v [] h = cc
  length-insert_old k v ((j, w) ∷ m) h = ground (arith, h, length-insert_old k v m)

  pub length-retain : (p : K → Bool) (m : Map K V) → length (retain p m) ≤ length m
  length-retain p [] = omega arith
  length-retain p ((j, w) ∷ m) = ground (arith, length-retain p m)

  -- Where a key that is there is not kept, an entry goes.
  pub length-retain_lt :
      (p : K → Bool) (k : K) (m : Map K V)
      → p k ≡ false
      → contains_key k m ≡ true
      → length (retain p m) < length m
  length-retain_lt p k [] h there = cc
  length-retain_lt p k ((j, w) ∷ m) h there = elim (Bool-cases (e.beq j k)) [
    | inl hit ↦
        let dropped : p j ≡ false = ap p ((e.beq_iff j k).0 hit) ∙ h in
        rw dropped (omega (arith, length-retain p m))
    | inr miss ↦ ground (arith, there, miss, length-retain_lt p k m h, length-retain p m)
  ]

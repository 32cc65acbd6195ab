-- ===== src/Leader/Rotation.antt =====
-- The turns of consensus/src/leader.rs.
use hotstuff_dag.Config.{Committee, size}
use hotstuff_dag.Crypto.{PublicKey}
use hotstuff_dag.Error.{Result, ok, panic, unwrap}
use hotstuff_dag.Leader.{get_leader, insert_sorted, sort}
use hotstuff_dag.Prelude.{
  Bool-cases, List, Map, [], ap, arith, contains, false, get_elem?, if◌then◌else◌, inl, inr, keys,
  leb, length, ltb, refl, some, suc, sym, true, zero, ℕ, ◌%◌, ◌*◌, ◌+◌, ◌<◌, ◌==◌, ◌||◌, ◌∙◌, ◌∷◌,
  ◌≡◌, ◌≤◌,
}
use native.Mathlib.Nat.{mod-eq_of_lt, mod-lt, mul-add-mod_self_right}

contains-insert_sorted :
    (k a : ℕ) (xs : List ℕ) → contains (insert_sorted k xs) a ≡ (k == a || contains xs a)
unfolding insert_sorted
contains-insert_sorted k a [] = refl
contains-insert_sorted k a (x ∷ xs) = ground (arith, contains-insert_sorted k a xs)

contains-sort : (a : ℕ) (xs : List ℕ) → contains (sort xs) a ≡ contains xs a
unfolding sort
contains-sort a [] = refl
contains-sort a (x ∷ xs) = contains-insert_sorted x a (sort xs) ∙ rw (contains-sort a xs) refl

length-insert_sorted : (k : ℕ) (xs : List ℕ) → length (insert_sorted k xs) ≡ suc (length xs)
unfolding insert_sorted
length-insert_sorted k [] = refl
length-insert_sorted k (x ∷ xs) = ground (arith, length-insert_sorted k xs)

length-sort : (xs : List ℕ) → length (sort xs) ≡ length xs
unfolding sort
length-sort [] = refl
length-sort (x ∷ xs) = length-insert_sorted x (sort xs) ∙ rw (length-sort xs) refl

-- How many of the keys are smaller: the place of a key in their order.
abbrev pub place_of : ℕ → List ℕ → ℕ
place_of a [] = 0
place_of a (x ∷ xs) = let rest = place_of a xs in if ltb x a then suc rest else rest

place_of-insert_sorted :
    (k a : ℕ) (xs : List ℕ) → place_of a (insert_sorted k xs) ≡ place_of a (k ∷ xs)
unfolding insert_sorted
place_of-insert_sorted k a [] = refl
place_of-insert_sorted k a (x ∷ xs) = ground (arith, place_of-insert_sorted k a xs)

place_of-sort : (a : ℕ) (xs : List ℕ) → place_of a (sort xs) ≡ place_of a xs
unfolding sort
place_of-sort a [] = refl
place_of-sort a (x ∷ xs) = place_of-insert_sorted x a (sort xs) ∙ rw (place_of-sort a xs) refl

-- Every key is at most those behind it.
abbrev IsSorted : List ℕ → Type 0
IsSorted [] = Unit {0}
IsSorted (x ∷ xs) = ((b : ℕ) → contains xs b ≡ true → x ≤ b) × IsSorted xs

insert_sorted-IsSorted : (k : ℕ) (xs : List ℕ) → IsSorted xs → IsSorted (insert_sorted k xs)
unfolding insert_sorted
insert_sorted-IsSorted k [] h = (λ b there. absurd (nothing there), tt)
  where
    nothing : false ≡ true → ⊥
    nothing e = cc
insert_sorted-IsSorted k (x ∷ xs) h = elim (Bool-cases (leb k x)) [
  | inl first ↦ rw first (λ b there. ground (arith, first, there, h.0 b), (h.0, h.1))
  | inr later ↦ rw later (
    λ b there. ground (arith, later, there, contains-insert_sorted k b xs, h.0 b),
    insert_sorted-IsSorted k xs h.1,
  )
]

sort-IsSorted : (xs : List ℕ) → IsSorted (sort xs)
unfolding sort
sort-IsSorted [] = tt
sort-IsSorted (x ∷ xs) = insert_sorted-IsSorted x (sort xs) (sort-IsSorted xs)

none_below : (a : ℕ) (xs : List ℕ) → ((b : ℕ) → contains xs b ≡ true → a ≤ b) → place_of a xs ≡ 0
none_below a [] h = refl
none_below a (x ∷ xs) h =
    ground (arith, h x, none_below a xs (λ b there. h b (ground (arith, there))))

get_elem?-place_of :
    (a : ℕ) (xs : List ℕ)
    → IsSorted xs
    → contains xs a ≡ true
    → (place_of a xs < length xs) × (get_elem? xs (place_of a xs) ≡ some a)
get_elem?-place_of a [] sorted h = cc
get_elem?-place_of a (x ∷ xs) sorted h = elim (Bool-cases (ltb x a)) [
  | inl smaller ↦
      let (below, at) = get_elem?-place_of a xs sorted.1 (ground (arith, h, smaller)) in
      rw smaller (omega (arith, below), at)
  | inr reached ↦
      let here : x ≡ a = ground (arith, h, reached, sorted.0 a) in
      let zero_place : place_of a xs ≡ 0 =
        none_below a xs (λ b there. omega (arith, here, sorted.0 b there)) in
      rw (reached, zero_place) (omega arith, ap some here)
]

get_elem?-within :
    (xs : List ℕ) (i : ℕ)
    → i < length xs
    → (a : ℕ) × (get_elem? xs i ≡ some a) × (contains xs a ≡ true)
get_elem?-within [] i h = absurd (omega arith)
get_elem?-within (x ∷ xs) zero h = (x, refl, ground arith)
get_elem?-within (x ∷ xs) (suc i) h =
    let (a, at, there) = get_elem?-within xs i (omega (arith, h)) in (a, at, ground (arith, there))

length-keys : {V : Type 0} (m : Map ℕ V) → length (keys m) ≡ length m
length-keys [] = refl
length-keys (x ∷ m) = rw (length-keys m) refl

-- With an authority in the committee every epoch has a leader, and it is an authority.
pub get_leader-IsMember :
    (c : Committee) (e : ℕ)
    → 0 < size c
    → (pk : PublicKey) × (get_leader c e ≡ ok pk) × (contains (keys c.authorities) pk ≡ true)
unfolding get_leader size
get_leader-IsMember c e h = in_turn (length c.authorities) refl h
  where
    order : List ℕ
    order = sort (keys c.authorities)

    in_turn :
        (n : ℕ)
        → n ≡ length c.authorities
        → 0 < n
        → (pk : PublicKey) × ((elim n as (λ _. Result PublicKey) [
          | zero ↦ panic
          | suc m ↦ unwrap (get_elem? order (e % suc m))
        ])
            ≡ ok pk)
          × (contains (keys c.authorities) pk ≡ true)
    in_turn zero same some_there = absurd (omega arith)
    in_turn (suc m) same some_there =
        let full : length order ≡ suc m =
          length-sort (keys c.authorities) ∙ length-keys c.authorities ∙ sym same in
        let (pk, at, there) =
          get_elem?-within order (e % suc m)
            (omega (arith, full, mod-lt e {m = suc m} (omega arith))) in
        (pk, ap unwrap at, sym (contains-sort pk (keys c.authorities)) ∙ there)

-- Every authority leads every epoch that is the number of the authorities with smaller keys and a
-- multiple of the size of the committee, and that number is below the size: the turns go round in
-- the order of the keys.
pub rotation :
    (c : Committee) (pk : PublicKey)
    → contains (keys c.authorities) pk ≡ true
    → (place_of pk (keys c.authorities) < size c)
      × ((r : ℕ) → get_leader c (r * size c + place_of pk (keys c.authorities)) ≡ ok pk)
unfolding get_leader size
rotation c pk h =
    let order = sort (keys c.authorities) in
    let (below, at) =
      get_elem?-place_of pk order (sort-IsSorted (keys c.authorities))
        (contains-sort pk (keys c.authorities) ∙ h) in
    let full : length order ≡ length c.authorities =
      length-sort (keys c.authorities) ∙ length-keys c.authorities in
    let place = place_of-sort pk (keys c.authorities) in
    let small : place_of pk (keys c.authorities) < length c.authorities =
      omega (arith, below, full, place) in
    (
      small,
      λ r.
          turn r (place_of pk (keys c.authorities)) (ap (get_elem? order) (sym place) ∙ at)
            (length c.authorities) small,
    )
  where
    turn :
        (r i : ℕ)
        → get_elem? (sort (keys c.authorities)) i ≡ some pk
        → (n : ℕ) → i < n
        → (elim n as (λ _. Result PublicKey) [
          | zero ↦ panic
          | suc m ↦ unwrap (get_elem? (sort (keys c.authorities)) ((r * n + i) % suc m))
        ])
          ≡ ok pk
    turn r i at zero small = absurd (omega arith)
    turn r i at (suc m) small =
        rw (mul-add-mod_self_right r (suc m) i, mod-eq_of_lt {n = i} {m = suc m} small)
          (ap unwrap at)

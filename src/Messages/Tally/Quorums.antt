-- ===== src/Messages/Tally/Quorums.antt =====
-- What the tally of a certificate (consensus/src/messages.rs) shows about the stake behind it.
-- The stake of the authorities, counted without wrap-around, that a test selects.
use hotstuff_dag.Config.{Authority, Committee, stake, stake_of, sum_stakes}
use hotstuff_dag.Crypto.{PublicKey}
use hotstuff_dag.Error.{ConsensusError, ok}
use hotstuff_dag.Messages.Tally.{tally}
use hotstuff_dag.Prelude.{
  Bool, Bool-cases, List, Map, [], add32, ap, arith, contains, distinct, false, if◌then◌else◌, inl,
  inr, lookup, nat_eq, pair_eq, quad_eq, refl, true, u32_mod, ℕ, ◌&&◌, ◌++◌, ◌+◌, ◌<◌, ◌==◌, ◌||◌,
  ◌∷◌, ◌≡◌, ◌≤◌,
}

unfoldable pub held : (PublicKey → Bool) → Map PublicKey Authority → ℕ
held p [] = 0
held p ((k, a) ∷ m) = let rest = held p m in if p k then a.stake + rest else rest

abbrev pub everyone : PublicKey → Bool
everyone k = true

unfoldable pub stake_sum : Map PublicKey Authority → List ℕ → ℕ
stake_sum m [] = 0
stake_sum m (x ∷ xs) = stake_of (lookup x m) + stake_sum m xs

without : ℕ → List ℕ → List ℕ
without k [] = []
without k (x ∷ xs) = let rest = without k xs in if x == k then rest else x ∷ rest

contains-without : (k x : ℕ) (xs : List ℕ) → contains (without k xs) x ≡ true → contains xs x ≡ true
unfolding without
contains-without k x [] h = h
contains-without k x (y ∷ xs) h = ground (arith, contains-without k x xs)

distinct-without : (k : ℕ) (xs : List ℕ) → distinct xs ≡ true → distinct (without k xs) ≡ true
unfolding without
distinct-without k [] h = refl
distinct-without k (x ∷ xs) h = ground (arith, distinct-without k xs, contains-without k x xs)

without_absent : (k : ℕ) (xs : List ℕ) → contains xs k ≡ false → without k xs ≡ xs
unfolding without
without_absent k [] h = refl
without_absent k (x ∷ xs) h = ground (arith, without_absent k xs)

pub contains-snoc : (xs : List ℕ) (k j : ℕ) → contains (xs ++ k ∷ []) j ≡ (k == j || contains xs j)
contains-snoc [] k j = ground arith
contains-snoc (x ∷ xs) k j = ground (arith, contains-snoc xs k j)

-- One entry of the map adds its stake for the first name that is its key.
stake_sum_cons :
    (k : ℕ) (a : Authority) (m : Map PublicKey Authority) (xs : List ℕ)
    → distinct xs ≡ true
    → stake_sum ((k, a) ∷ m) xs
      ≡ (if contains xs k then a.stake + stake_sum m (without k xs) else stake_sum m xs)
unfolding stake_sum without
stake_sum_cons k a m [] h = refl
stake_sum_cons k a m (x ∷ xs) h = ground (arith, stake_sum_cons k a m xs, without_absent k xs)

held_mono :
    (p q : PublicKey → Bool) (m : Map PublicKey Authority)
    → ((k : ℕ) → p k ≡ true → q k ≡ true)
    → held p m ≤ held q m
unfolding held
held_mono p q [] h = omega arith
held_mono p q ((k, a) ∷ m) h = ground (arith, held_mono p q m h, h k)

pub stake_sum-le-held :
    (m : Map PublicKey Authority) (xs : List ℕ)
    → distinct xs ≡ true
    → stake_sum m xs ≤ held (contains xs) m
unfolding held stake_sum
stake_sum-le-held [] xs h = zeros xs
  where
    zeros : (ys : List ℕ) → stake_sum [] ys ≤ 0
    zeros [] = omega arith
    zeros (y ∷ ys) = omega (arith, zeros ys)
stake_sum-le-held ((k, a) ∷ m) xs h = ground (
  arith,
  stake_sum_cons k a m xs h,
  stake_sum-le-held m xs h,
  stake_sum-le-held m (without k xs) (distinct-without k xs h),
  held_mono (contains (without k xs)) (contains xs) m (λ j. contains-without k j xs),
)

-- Two sets of authorities overlap in what their stakes exceed the total by.
pub held_overlap :
    (p q : PublicKey → Bool) (m : Map PublicKey Authority)
    → held p m + held q m ≤ held everyone m + held (λ k. p k && q k) m
unfolding held
held_overlap p q [] = omega arith
held_overlap p q ((k, a) ∷ m) = ground (arith, held_overlap p q m)

pub sum_stakes-held :
    (m : Map PublicKey Authority) → held everyone m < u32_mod → sum_stakes m ≡ held everyone m
unfolding held sum_stakes
sum_stakes-held [] h = refl
sum_stakes-held ((k, a) ∷ m) h = ground (arith, sum_stakes-held m)

abbrev Unseen : List ℕ → List ℕ → Type 0
Unseen used xs = (y : ℕ) → contains used y ≡ true → contains xs y ≡ false

-- A tally succeeds only on names that are distinct and were not seen before, and its weight is at
-- most the sum of their stakes, also where the `u32` sum wraps around.
pub tally_sound :
    (reuse : ℕ → ConsensusError) (cm : Committee) (used : List ℕ) (w : ℕ) (xs : List ℕ) (t : ℕ)
    → tally reuse cm used w xs ≡ ok t
    → (distinct xs ≡ true) × Unseen used xs × (t ≤ w + stake_sum cm.authorities xs)
unfolding tally stake_sum stake
tally_sound reuse cm used w [] t h = (refl, λ y _. refl, ground arith)
tally_sound reuse cm used w (x ∷ xs) t h = elim (Bool-cases (contains used x)) [
  | inl seen ↦ absurd (unfold tally stake in ground arith)
  | inr fresh ↦ elim (Bool-cases (stake cm x == 0)) [
    | inl none_held ↦ absurd (unfold tally stake in ground arith)
    | inr held ↦
        let ih =
          tally_sound reuse cm (x ∷ used) (add32 w (stake cm x)) xs t
            (unfold tally stake in ground arith) in
        (
          unfold tally stake in ground (arith, ih.1 x),
          λ y seen. unfold tally stake in ground (arith, ih.1 y),
          unfold tally stake in ground (arith, ih.2),
        )
  ]
]

-- Every name has stake.
abbrev pub AllHeld : Committee → List ℕ → Type 0
AllHeld cm [] = Unit {0}
AllHeld cm (x ∷ xs) = (0 < stake cm x) × AllHeld cm xs

-- A tally of distinct names that were not seen before and all have stake succeeds, with the exact
-- sum of their stakes, if that sum fits a `u32`.
pub tally_complete :
    (reuse : ℕ → ConsensusError) (cm : Committee) (used : List ℕ) (w : ℕ) (xs : List ℕ)
    → distinct xs ≡ true
    → Unseen used xs
    → AllHeld cm xs
    → w + stake_sum cm.authorities xs < u32_mod
    → tally reuse cm used w xs ≡ ok (w + stake_sum cm.authorities xs)
unfolding tally stake_sum stake
tally_complete reuse cm used w [] d n a fits = ap ok (omega arith)
tally_complete reuse cm used w (x ∷ xs) d n a fits = ground (
  arith,
  n x,
  tally_complete reuse cm (x ∷ used) (add32 w (stake_of (lookup x cm.authorities))) xs
      (ground arith) (λ y seen. ground (arith, n y)) a.1 (ground arith),
)

-- Distinct authorities hold no more than the committee does.
pub stake_sum-le-total :
    (m : Map PublicKey Authority) (xs : List ℕ)
    → distinct xs ≡ true
    → stake_sum m xs ≤ held everyone m
stake_sum-le-total m xs h =
    omega (arith, stake_sum-le-held m xs h, held_mono (contains xs) everyone m (λ k _. refl))

-- One more name at the end.
pub distinct-snoc :
    (xs : List ℕ) (k : ℕ)
    → distinct xs ≡ true
    → contains xs k ≡ false
    → distinct (xs ++ k ∷ []) ≡ true
distinct-snoc [] k d n = refl
distinct-snoc (x ∷ xs) k d n =
    ground (arith, distinct-snoc xs k (ground arith) (ground arith), contains-snoc xs k x)

pub AllHeld-snoc :
    (cm : Committee) (xs : List ℕ) (k : ℕ)
    → AllHeld cm xs
    → 0 < stake cm k
    → AllHeld cm (xs ++ k ∷ [])
AllHeld-snoc cm [] k a h = (h, tt)
AllHeld-snoc cm (x ∷ xs) k a h = (a.0, AllHeld-snoc cm xs k a.1 h)

pub stake_sum-snoc :
    (cm : Committee) (xs : List ℕ) (k : ℕ)
    → stake_sum cm.authorities (xs ++ k ∷ []) ≡ stake_sum cm.authorities xs + stake cm k
unfolding stake_sum stake
stake_sum-snoc cm [] k = omega arith
stake_sum-snoc cm (x ∷ xs) k = omega (arith, stake_sum-snoc cm xs k)

pub stake_sum-nil : (cm : Committee) → stake_sum cm.authorities [] ≡ 0
unfolding stake_sum
stake_sum-nil cm = refl

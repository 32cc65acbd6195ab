-- ===== src/Node/Client/Numbers.antt =====
-- What the transactions of the benchmark client (node/src/client.rs) say, and that one more is new.
use hotstuff_dag.Node.Client.{Client, Sending, Transaction, resize, sample, standard}
use hotstuff_dag.Prelude.{
  All, List, [], add64, ap, arith, be_bytes, from_be_bytes, from_be_bytes-be_bytes, inl, inr,
  length, length-be_bytes, refl, suc, sym, take, u64_mod, zero, ℕ, ◌+◌, ◌<◌, ◌∙◌, ◌∷◌, ◌≡◌, ◌≢◌,
  ◌≤◌, ◌⊎◌,
}
use mathlib.Core.Path.{subst}

take-resize : (size : ℕ) (xs : List ℕ) → length xs ≤ size → take (length xs) (resize size xs) ≡ xs
unfolding resize
take-resize size [] h = refl
take-resize zero (x ∷ xs) h = absurd (too_long h)
  where
    too_long : suc (length xs) ≤ 0 → ⊥
    too_long h = omega (arith, h)
take-resize (suc n) (x ∷ xs) h = ap (λ l. x ∷ l) (take-resize n xs (omega (arith, h)))

-- What a transaction says: its kind and its number.
pub kind_of : Transaction → ℕ
kind_of [] = 2
kind_of (k ∷ bytes) = k

pub number_of : Transaction → ℕ
number_of [] = 0
number_of (k ∷ bytes) = from_be_bytes (take 8 bytes)

number-resize :
    (size k n : ℕ)
    → 9 ≤ size
    → n < u64_mod
    → (kind_of (resize size (k ∷ be_bytes 8 n)) ≡ k)
      × (number_of (resize size (k ∷ be_bytes 8 n)) ≡ n)
unfolding resize kind_of number_of
number-resize zero k n big fits = absurd (small big)
  where
    small : 9 ≤ 0 → ⊥
    small big = omega (arith, big)
number-resize (suc size) k n big fits = (
  refl,
  ap from_be_bytes (
        subst (λ m. take m (resize size (be_bytes 8 n)) ≡ be_bytes 8 n) (length-be_bytes 8 n)
          (take-resize size (be_bytes 8 n)
            (subst (λ m. m ≤ size) (sym (length-be_bytes 8 n)) (omega (arith, big)))))
      ∙ from_be_bytes-be_bytes 8 n fits,
)

length-resize : (size : ℕ) (xs : List ℕ) → length (resize size xs) ≡ size
unfolding resize
length-resize zero xs = refl
length-resize (suc n) [] = ap suc (length-resize n [])
length-resize (suc n) (x ∷ xs) = ap suc (length-resize n xs)

All-mono :
    {A : Type 0} (P Q : A → Type 0) (xs : List A) → ((x : A) → P x → Q x) → All P xs → All Q xs
All-mono P Q [] f h = tt
All-mono P Q (x ∷ xs) f h = (f x h.0, All-mono P Q xs f h.1)

-- A sample below the bound, or a standard transaction with a number that has been drawn.
abbrev pub IsSent : ℕ → ℕ → ℕ → Transaction → Type 0
IsSent seed r bound t =
    ((kind_of t ≡ 0) × (number_of t < bound))
    ⊎ ((kind_of t ≡ 1) × (seed < number_of t) × (number_of t ≤ r))

-- No two are the same.
abbrev pub AllDiffer : List Transaction → Type 0
AllDiffer [] = Unit {0}
AllDiffer (t ∷ ts) = All (λ u. u ≢ t) ts × AllDiffer ts

module _ (client : Client) (seed : ℕ) where
  abbrev pub IsOrderly : ℕ → Sending → Type 0
  IsOrderly bound s =
      All (IsSent seed s.r bound) s.sent
      × AllDiffer s.sent
      × All (λ t. length t ≡ client.size) s.sent
      × (seed ≤ s.r)

  pub raise_bound : (b b' : ℕ) (s : Sending) → b ≤ b' → IsOrderly b s → IsOrderly b' s
  raise_bound b b' s le h =
      (All-mono (IsSent seed s.r b) (IsSent seed s.r b') s.sent raised h.0, h.1, h.2, h.3)
    where
      raised : (t : Transaction) → IsSent seed s.r b t → IsSent seed s.r b' t
      raised t (inl (k, n)) = inl (k, omega (arith, n, le))
      raised t (inr o) = inr o

  pub add_sample :
      (counter : ℕ) (s : Sending)
      → 9 ≤ client.size
      → counter < u64_mod
      → IsOrderly counter s
      → IsOrderly (suc counter) (record s { sent = sample client.size counter ∷ s.sent })
  unfolding sample
  add_sample counter s big fits h =
      let said = number-resize client.size 0 counter big fits in
      (
        (
          inl (said.0, omega (arith, said.1)),
          All-mono (IsSent seed s.r counter) (IsSent seed s.r (suc counter)) s.sent raised h.0,
        ),
        (
          All-mono (IsSent seed s.r counter) (λ u. u ≢ sample client.size counter) s.sent new_one
              h.0,
          h.1,
        ),
        (length-resize client.size (0 ∷ be_bytes 8 counter), h.2),
        h.3,
      )
    where
      raised : (t : Transaction) → IsSent seed s.r counter t → IsSent seed s.r (suc counter) t
      raised t (inl (k, n)) = inl (k, omega (arith, n))
      raised t (inr o) = inr o

      new_one : (u : Transaction) → IsSent seed s.r counter u → u ≢ sample client.size counter
      new_one u (inl (k, n)) e =
          omega (arith, n, ap number_of e, (number-resize client.size 0 counter big fits).1)
      new_one u (inr o) e =
          omega (arith, o.0, ap kind_of e, (number-resize client.size 0 counter big fits).0)

  pub add_standard :
      (bound : ℕ) (s : Sending)
      → 9 ≤ client.size
      → s.r + 1 < u64_mod
      → IsOrderly bound s
      → IsOrderly bound
          (record { r = add64 s.r 1; sent = standard client.size (add64 s.r 1) ∷ s.sent })
  unfolding standard
  add_standard bound s big fits h = (
    (
      inr (said.0, omega (arith, said.1, h.3, next), omega (arith, said.1)),
      All-mono (IsSent seed s.r bound) (IsSent seed (add64 s.r 1) bound) s.sent raised h.0,
    ),
    (
      All-mono (IsSent seed s.r bound) (λ u. u ≢ standard client.size (add64 s.r 1)) s.sent new_one
          h.0,
      h.1,
    ),
    (length-resize client.size (1 ∷ be_bytes 8 (add64 s.r 1)), h.2),
    omega (arith, h.3, next),
  )
    where
      next : add64 s.r 1 ≡ s.r + 1
      next = omega (arith, fits)

      said :
          (kind_of (resize client.size (1 ∷ be_bytes 8 (add64 s.r 1))) ≡ 1)
          × (number_of (resize client.size (1 ∷ be_bytes 8 (add64 s.r 1))) ≡ add64 s.r 1)
      said = number-resize client.size 1 (add64 s.r 1) big (omega (arith, next, fits))

      raised : (t : Transaction) → IsSent seed s.r bound t → IsSent seed (add64 s.r 1) bound t
      raised t (inl o) = inl o
      raised t (inr (k, low, high)) = inr (k, low, omega (arith, high, next))

      new_one : (u : Transaction) → IsSent seed s.r bound u → u ≢ standard client.size (add64 s.r 1)
      new_one u (inl (k, n)) e = omega (arith, k, ap kind_of e, said.0)
      new_one u (inr (k, low, high)) e = omega (arith, high, next, ap number_of e, said.1)

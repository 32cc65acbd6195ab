-- ===== src/Core/Commit/Ends.antt =====
-- Rules for methods that do not run out of fuel, for the walk of commit (consensus/src/core.rs).
use hotstuff_dag.Error
use hotstuff_dag.Error.{ConsensusError, Result, ensure, err, ok, out_of_fuel, panic, unwrap}
use hotstuff_dag.Exec.{Exec, continue, lift, modify, pure, ◌>>=◌}
use hotstuff_dag.Prelude.{Bool, Option, false, if◌then◌else◌, none, refl, some, true, ◌≡◌}

abbrev pub Returns {ℓ} : {A : Type ℓ} → (A → Type 0) → Result A → Type 0
Returns Q (ok a) = Q a
Returns Q (err e) = Unit {0}
Returns Q panic = Unit {0}
Returns Q out_of_fuel = ⊥

abbrev pub Always {ℓ} : {A : Type ℓ} → A → Type 0
Always a = Unit {0}

pub Returns-halts : {A : Type 0} (r : Result A) → Returns Always r → ¬ (r ≡ out_of_fuel)
Returns-halts (ok a) h e = cc
Returns-halts (err x) h e = cc
Returns-halts panic h e = cc
Returns-halts out_of_fuel h e = h

-- `m` keeps `P` on every path, does not run out of fuel, and an answer that it gives has `Q`.
pub record Ends {S A : Type 0} (P : S → Type 0) (Q : A → Type 0) (m : Exec S A) : Type 0 where
  pub ends : (s : S) → P s → P (m s).1 × Returns Q (m s).0

module _ {S A B : Type 0} (P : S → Type 0) (Q : A → Type 0) (R : B → Type 0) where
  continue-Returns :
      (f : A → Exec S B) (r : Result A) (s : S)
      → P s
      → Returns Q r
      → ((a : A) → Q a → Ends P R (f a))
      → P (continue r f s).1 × Returns R (continue r f s).0
  continue-Returns f (ok a) s h q hf = (hf a q).ends s h
  continue-Returns f (err e) s h q hf = (h, tt)
  continue-Returns f panic s h q hf = (h, tt)
  continue-Returns f out_of_fuel s h q hf = absurd q

module _ {S A : Type 0} {P : S → Type 0} {Q : A → Type 0} where
  pub Ends-bind :
      {B : Type 0} {R : B → Type 0} {m : Exec S A} {f : A → Exec S B}
      → Ends P Q m
      → ((a : A) → Q a → Ends P R (f a))
      → Ends P R (m >>= f)
  Ends-bind {B} {R} {m} {f} hm hf = record {
    ends = λ s h. continue-Returns P Q R f (m s).0 (m s).1 (hm.ends s h).0 (hm.ends s h).1 hf;
  }

  pub Ends-if :
      {m n : Exec S A} (b : Bool)
      → (b ≡ true → Ends P Q m)
      → (b ≡ false → Ends P Q n)
      → Ends P Q (if b then m else n)
  Ends-if true hm hn = hm refl
  Ends-if false hm hn = hn refl

module _ {S A : Type 0} (P : S → Type 0) (Q : A → Type 0) where
  pub Ends-lift : (r : Result A) → Returns Q r → Ends P Q (lift r)
  Ends-lift r q = record { ends = λ s h. (h, q) }

  pub Ends-pure : (a : A) → Q a → Ends P Q (pure a)
  Ends-pure a q = record { ends = λ s h. (h, q) }

pub Ends-modify :
    {S : Type 0} (P : S → Type 0) (f : S → S) → ((s : S) → P s → P (f s)) → Ends P Always (modify f)
Ends-modify P f k = record { ends = λ s h. (k s h, tt) }

-- `Option::unwrap` panics where there is nothing.
pub unwrap-Returns :
    {A : Type 0} (Q : A → Type 0) (found : Option A)
    → ((a : A) → found ≡ some a → Q a)
    → Returns Q (unwrap found)
unwrap-Returns Q none h = tt
unwrap-Returns Q (some a) h = h a refl

-- From a state with `P` the method `m` does not run out of fuel, whatever it does to the state.
pub record Halts {S A : Type 0} (P : S → Type 0) (m : Exec S A) : Type 0 where
  pub halts : (s : S) → P s → Returns Always (m s).0

module _ {S A : Type 0} {P : S → Type 0} where
  pub Halts-bind :
      {B : Type 0} {Q : A → Type 0} {m : Exec S A} {f : A → Exec S B}
      → Ends P Q m
      → ((a : A) → Q a → Halts P (f a))
      → Halts P (m >>= f)
  Halts-bind {B} {Q} {m} {f} hm hf = record {
    halts = λ s h. go (m s).0 (m s).1 (hm.ends s h).0 (hm.ends s h).1;
  }
    where
      go : (r : Result A) (t : S) → P t → Returns Q r → Returns (Always {A = B}) (continue r f t).0
      go (ok a) t p q = (hf a q).halts t p
      go (err e) t p q = tt
      go panic t p q = tt
      go out_of_fuel t p q = absurd q

  pub Halts-if :
      {m n : Exec S A} (b : Bool)
      → (b ≡ true → Halts P m)
      → (b ≡ false → Halts P n)
      → Halts P (if b then m else n)
  Halts-if true hm hn = hm refl
  Halts-if false hm hn = hn refl

  pub Ends-Halts : {Q : A → Type 0} {m : Exec S A} → Ends P Q m → Halts P m
  Ends-Halts {Q} {m} hm = record { halts = λ s h. forget (m s).0 (hm.ends s h).1 }
    where
      forget : (r : Result A) → Returns Q r → Returns Always r
      forget (ok a) q = tt
      forget (err e) q = tt
      forget panic q = tt
      forget out_of_fuel q = q

module _ {A B : Type 0} where
  pub Returns-bind :
      (r : Result A) (f : A → Result B)
      → Returns Always r
      → ((a : A) → Returns (Always {A = B}) (f a))
      → Returns (Always {A = B}) (Error.◌>>=◌ r f)
  Returns-bind (ok a) f q h = h a
  Returns-bind (err e) f q h = tt
  Returns-bind panic f q h = tt
  Returns-bind out_of_fuel f q h = absurd q

pub ensure-Returns : (b : Bool) (e : ConsensusError) → Returns Always (ensure b e)
ensure-Returns true e = tt
ensure-Returns false e = tt

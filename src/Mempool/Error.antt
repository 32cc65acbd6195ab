-- ===== src/Mempool/Error.antt =====
-- mempool/src/error.rs: the errors of the crate and its results, and methods that mutate a state and
-- may fail: what was written before an early return stays written.
use hotstuff_dag.Crypto.{PublicKey}
use hotstuff_dag.Prelude.{Bool, Option, false, none, some, true}

pub data MempoolError : Type 0 where
  store_error : MempoolError
  unknown_authority : PublicKey → MempoolError
  invalid_signature : MempoolError
  serialization_error : MempoolError
  payload_too_big : MempoolError
  mempool_full : MempoolError
  not_in_committee : PublicKey → MempoolError

pub data MempoolResult {ℓ} (A : Type ℓ) : Type ℓ where
  ok : A → MempoolResult A
  err : MempoolError → MempoolResult A

abbrev pub Method {ℓ} : Type ℓ → Type ℓ → Type ℓ
Method S A = S → MempoolResult A × S

module _ {ℓ} {S A : Type ℓ} where
  abbrev pub pure : A → Method S A
  pure a s = (ok a, s)

  abbrev pub lift : MempoolResult A → Method S A
  lift r s = (r, s)

module _ {ℓ} {S A B : Type ℓ} where
  abbrev pub continue : MempoolResult A → (A → Method S B) → Method S B
  continue (ok a) f s = f a s
  continue (err e) f s = (err e, s)

  infixl 5 ◌>>=◌ ◌>>◌
  abbrev pub ◌>>=◌ : Method S A → (A → Method S B) → Method S B
  ◌>>=◌ m f s = let (r, s') = m s in continue r f s'

  abbrev pub ◌>>◌ : Method S A → Method S B → Method S B
  m >> n = m >>= λ _. n

abbrev pub modify : {S : Type 0} → (S → S) → Method S (Unit {0})
modify f s = (ok tt, f s)

-- The macro `ensure!`.
abbrev pub ensure : {S : Type 0} → Bool → MempoolError → Method S (Unit {0})
ensure true e s = (ok tt, s)
ensure false e s = (err e, s)

-- `Option::ok_or_else`.
abbrev pub ok_or {ℓ} : {A : Type ℓ} → Option A → MempoolError → MempoolResult A
ok_or none e = err e
ok_or (some a) e = ok a

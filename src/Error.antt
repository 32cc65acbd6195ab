-- ===== src/Error.antt =====
-- consensus/src/error.rs: the errors of the consensus crate, and its results. A third outcome
-- stands for a Rust panic, which ends the task, and a fourth for a call that has not returned
-- within the fuel that it was given.
use hotstuff_dag.Prelude.{Bool, List, Option, false, none, some, true, ℕ}

pub data ConsensusError : Type 0 where
  epoch_end : ℕ → ConsensusError
  network_error : ConsensusError
  serialization_error : ConsensusError
  store_error : ConsensusError
  not_in_committee : ℕ → ConsensusError
  spb_phase_wrong : ℕ → ℕ → ConsensusError
  invalid_fin_proof : ConsensusError
  invalid_signature : ConsensusError
  invalid_threshold_signature : ℕ → ConsensusError
  invalid_prepare_tag : ℕ → ConsensusError
  time_out_message : ℕ → ℕ → ConsensusError
  random_coin_with_wrong_leader : ConsensusError
  random_coin_with_wrong_shares : ConsensusError
  authority_reuse_in_qc : ℕ → ConsensusError
  authority_reuse_in_proof : ℕ → List ℕ → ConsensusError
  authority_reuse_in_aba : ℕ → ℕ → ConsensusError
  authority_reuse_in_aba_out : ℕ → ConsensusError
  authority_reuse_in_prepare : ℕ → ConsensusError
  authority_reuse_in_tc : ℕ → ConsensusError
  authority_reuse_in_coin : ℕ → ConsensusError
  authority_reuse_in_spb : ℕ → ConsensusError
  unknown_authority : ℕ → ConsensusError
  qc_requires_quorum : ConsensusError
  tc_requires_quorum : ConsensusError
  random_coin_requires_quorum : ConsensusError
  spb_requires_quorum : ConsensusError
  malformed_block : ℕ → ConsensusError
  wrong_author : ℕ → ℕ → ℕ → ConsensusError
  invalid_payload : ConsensusError
  non_consecutive_rounds : ℕ → ℕ → ℕ → ConsensusError
  invalid_phase : ℕ → ConsensusError

pub data Result {ℓ} (A : Type ℓ) : Type ℓ where
  ok : A → Result A
  err : ConsensusError → Result A
  panic : Result A
  out_of_fuel : Result A

infixl 5 ◌>>=◌ ◌>>◌
abbrev pub ◌>>=◌ {ℓ κ} : {A : Type ℓ} {B : Type κ} → Result A → (A → Result B) → Result B
ok a >>= f = f a
err e >>= f = err e
panic >>= f = panic
out_of_fuel >>= f = out_of_fuel

abbrev pub ◌>>◌ {ℓ} : {B : Type ℓ} → Result (Unit {0}) → Result B → Result B
m >> k = m >>= λ _. k

-- The macro `ensure!`.
abbrev pub ensure : Bool → ConsensusError → Result (Unit {0})
ensure true e = ok tt
ensure false e = err e

-- `Option::unwrap`.
abbrev pub unwrap {ℓ} : {A : Type ℓ} → Option A → Result A
unwrap none = panic
unwrap (some a) = ok a

-- `Option::ok_or_else`.
abbrev pub ok_or {ℓ} : {A : Type ℓ} → Option A → ConsensusError → Result A
ok_or none e = err e
ok_or (some a) e = ok a

abbrev pub map_ok {ℓ κ} : {A : Type ℓ} {B : Type κ} → (A → B) → Result A → Result B
map_ok f (ok a) = ok (f a)
map_ok f (err e) = err e
map_ok f panic = panic
map_ok f out_of_fuel = out_of_fuel

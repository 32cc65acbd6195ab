-- ===== src/Crypto/Keys.antt =====
-- crypto/src/lib.rs: keys as text. The base64 library is a parameter: its `encode`, and its `decode`
-- that may fail. A text is the list of its characters.
pub mod Texts
use hotstuff_dag.Crypto.{PublicKey}
use hotstuff_dag.Error.{Result, ok, panic}
use hotstuff_dag.Prelude.{
  List, Option, be_bytes, from_be_bytes, if◌then◌else◌, length, ltb, none, some, take, ℕ,
}

abbrev pub Text : Type 0
Text = List ℕ

pub record Base64 : Type 0 where
  pub encode : List ℕ → Text
  pub decode : Text → Option (List ℕ)

-- A secret key has 64 bytes.
abbrev pub SecretKey : Type 0
SecretKey = ℕ

-- `bytes[..n]`, which panics where there are fewer, as an array of that length.
array_of : ℕ → List ℕ → Result (Option ℕ)
array_of n bytes = if ltb (length bytes) n then panic else ok (some (from_be_bytes (take n bytes)))

module _ (b : Base64) where
  -- Decoding and cutting to the length; `ok none` is a `DecodeError`.
  from_text : ℕ → Text → Result (Option ℕ)
  unfolding array_of
  from_text n s = elim (b.decode s) [ none ↦ ok none | some bytes ↦ array_of n bytes ]

  -- PublicKey::to_base64 and PublicKey::from_base64
  pub to_base64 : PublicKey → Text
  to_base64 key = b.encode (be_bytes 32 key)

  pub from_base64 : Text → Result (Option PublicKey)
  unfolding from_text
  from_base64 s = from_text 32 s

  -- SecretKey::to_base64 and SecretKey::from_base64
  pub secret_to_base64 : SecretKey → Text
  secret_to_base64 key = b.encode (be_bytes 64 key)

  pub secret_from_base64 : Text → Result (Option SecretKey)
  unfolding from_text
  secret_from_base64 s = from_text 64 s

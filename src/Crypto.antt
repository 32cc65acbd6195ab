-- ===== src/Crypto.antt =====
-- crypto/src/lib.rs: digests, keys and signatures. A byte array is the number that its bytes write
-- in big-endian order, so the derived `Ord` of keys is the order of numbers and the default is 0.
-- The primitives of ed25519_dalek, sha2 and threshold_crypto are the parameters in `Primitives`.
pub mod Keys
pub mod Service
use hotstuff_dag.Error.{Result, ensure, invalid_signature, ◌>>◌}
use hotstuff_dag.Prelude.{
  Bool, List, Option, [], be_bytes, from_be_bytes, le_bytes, take, true, ℕ, ◌&&◌, ◌∷◌,
}

abbrev pub Digest : Type 0
Digest = ℕ

abbrev pub PublicKey : Type 0
PublicKey = ℕ

abbrev pub Signature : Type 0
Signature = ℕ

abbrev pub SignatureShare : Type 0
SignatureShare = ℕ

-- `sign` and `tss_sign` are the node's own signature service, which holds its secrets; `tss_sign`
-- is `none` for a node without a threshold secret.
pub record Primitives : Type 0 where
  pub sha512 : List ℕ → List ℕ
  pub signature_from_bytes : Signature → Bool
  pub key_from_bytes : PublicKey → Bool
  pub verify_strict : PublicKey → Digest → Signature → Bool
  pub dalek_verify_batch : Digest → List (PublicKey × Signature) → Bool
  pub sign : Digest → Signature
  pub tss_sign : Digest → Option SignatureShare
  pub tss_verify : ℕ → SignatureShare → Digest → Bool
  pub combine_signatures : List (ℕ × SignatureShare) → Option (List ℕ)

-- A 32-byte array as the hasher reads it, and a `u64` and a `u8`.
abbrev pub array_bytes : ℕ → List ℕ
array_bytes x = be_bytes 32 x

abbrev pub u64_bytes : ℕ → List ℕ
u64_bytes x = le_bytes 8 x

module _ (c : Primitives) where
  -- `Digest(hasher.finalize().as_slice()[..32])`
  unfoldable pub finalize : List ℕ → Digest
  finalize bytes = from_be_bytes (take 32 (c.sha512 bytes))

  -- Signature::verify
  unfoldable pub verify_signature : Signature → Digest → PublicKey → Result (Unit {0})
  verify_signature signature digest key = do
    ensure (c.signature_from_bytes signature) invalid_signature
    ensure (c.key_from_bytes key) invalid_signature
    ensure (c.verify_strict key digest signature) invalid_signature

  -- The loop of `Signature::verify_batch`, which parses every entry before the batch is checked.
  pub parse_votes : List (PublicKey × Signature) → Bool
  parse_votes [] = true
  parse_votes ((key, signature) ∷ votes) =
      c.signature_from_bytes signature && c.key_from_bytes key && parse_votes votes

  -- Signature::verify_batch
  unfoldable pub verify_batch : Digest → List (PublicKey × Signature) → Result (Unit {0})
  unfolding parse_votes
  verify_batch digest votes = do
    ensure (parse_votes votes) invalid_signature
    ensure (c.dalek_verify_batch digest votes) invalid_signature

-- ===== src/Crypto/Keys/Texts.antt =====
-- Which texts crypto/src/lib.rs reads as a key.
use hotstuff_dag.Crypto.Keys.{
  Base64, Text, array_of, from_base64, from_text, secret_from_base64, secret_to_base64, to_base64,
}
use hotstuff_dag.Error.{ok, panic}
use hotstuff_dag.Prelude.{
  List, [], ap, arith, be_bytes, byte_limit, false, from_be_bytes-be_bytes, length, length-append,
  length-be_bytes, ltb, refl, some, take_all, ℕ, ◌++◌, ◌<◌, ◌∙◌, ◌∷◌, ◌≡◌,
}

append_nil : (xs : List ℕ) → xs ≡ xs ++ []
append_nil [] = refl
append_nil (x ∷ xs) = ap (λ l. x ∷ l) (append_nil xs)

module _ (b : Base64) where
  from_text-key :
      (n key : ℕ) (more : List ℕ) (s : Text)
      → key < byte_limit n
      → b.decode s ≡ some (be_bytes n key ++ more)
      → from_text b n s ≡ ok (some key)
  unfolding from_text array_of
  from_text-key n key more s small read =
      let long : ltb (length (be_bytes n key ++ more)) n ≡ false =
        ground (arith, length-append (be_bytes n key) more, length-be_bytes n key) in
      rw
        (
          from_text,
          array_of,
          read,
          long,
          take_all (be_bytes n key) more n (length-be_bytes n key),
          from_be_bytes-be_bytes n key small,
        )
        refl

  from_text-short :
      (n : ℕ) (bytes : List ℕ) (s : Text)
      → length bytes < n
      → b.decode s ≡ some bytes
      → from_text b n s ≡ panic
  unfolding from_text array_of
  from_text-short n bytes s short read = ground (arith, short, read)

  -- If base64 decodes what it encodes, then both kinds of key are read back from their texts; a
  -- text with more bytes after those of a public key is read as that key too, so a key has many
  -- texts; and a text of fewer than 32 bytes is a panic, not an error.
  pub base64_texts :
      (key secret : ℕ) (more short : List ℕ)
      → ((bytes : List ℕ) → b.decode (b.encode bytes) ≡ some bytes)
      → key < byte_limit 32
      → secret < byte_limit 64
      → length short < 32
      → (from_base64 b (to_base64 b key) ≡ ok (some key))
        × (secret_from_base64 b (secret_to_base64 b secret) ≡ ok (some secret))
        × (from_base64 b (b.encode (be_bytes 32 key ++ more)) ≡ ok (some key))
        × (from_base64 b (b.encode short) ≡ panic)
  unfolding from_base64 to_base64 secret_from_base64 secret_to_base64
  base64_texts key secret more short decodes small secret_small is_short = (
    from_text-key 32 key [] (to_base64 b key) small
        (decodes (be_bytes 32 key) ∙ ap some (append_nil (be_bytes 32 key))),
    from_text-key 64 secret [] (secret_to_base64 b secret) secret_small
        (decodes (be_bytes 64 secret) ∙ ap some (append_nil (be_bytes 64 secret))),
    from_text-key 32 key more (b.encode (be_bytes 32 key ++ more)) small
        (decodes (be_bytes 32 key ++ more)),
    from_text-short 32 short (b.encode short) is_short (decodes short),
  )

-- ===== src/Examples/Keys.antt =====
-- Keys as texts, with a base64 that leaves the bytes as they are.
use hotstuff_dag.Crypto.Keys.Texts.{base64_texts}
use hotstuff_dag.Crypto.Keys.{Base64, from_base64, secret_from_base64, secret_to_base64, to_base64}
use hotstuff_dag.Error.{ok, panic}
use hotstuff_dag.Prelude.{[], arith, be_bytes, refl, some, ◌++◌, ◌∷◌, ◌≡◌}

abbrev plain : Base64
plain = record { encode = λ bytes. bytes; decode = λ text. some text }

base64_texts_example :
    (from_base64 plain (to_base64 plain 5) ≡ ok (some 5))
    × (secret_from_base64 plain (secret_to_base64 plain 6) ≡ ok (some 6))
    × (from_base64 plain (be_bytes 32 5 ++ 9 ∷ []) ≡ ok (some 5))
    × (from_base64 plain (1 ∷ 2 ∷ []) ≡ panic)
base64_texts_example =
    base64_texts plain 5 6 (9 ∷ []) (1 ∷ 2 ∷ []) (λ bytes. refl) (omega arith) (omega arith)
      (omega arith)

-- ===== src/Mempool/Messages.antt =====
-- mempool/src/messages.rs: payloads, and the messages of mempool/src/core.rs.
-- A transaction is its bytes.
use hotstuff_dag.Crypto.{Digest, Primitives, PublicKey, Signature, array_bytes, finalize}
use hotstuff_dag.Prelude.{List, [], length, ℕ, ◌++◌, ◌+◌, ◌∷◌}

abbrev pub Transaction : Type 0
Transaction = List ℕ

pub record Payload : Type 0 where
  pub transactions : List Transaction
  pub author : PublicKey
  pub signature : Signature

-- `transactions.iter().map(|x| x.len()).sum()`. The bytes lie in memory, so a `usize` counts them.
abbrev pub total_len : List Transaction → ℕ
total_len [] = 0
total_len (tx ∷ txs) = length tx + total_len txs

abbrev pub size : Payload → ℕ
size payload = total_len payload.transactions

concat : List Transaction → List ℕ
concat [] = []
concat (tx ∷ txs) = tx ++ concat txs

module _ (c : Primitives) where
  pub digest : Payload → Digest
  unfolding concat
  digest payload = finalize c (array_bytes payload.author ++ concat payload.transactions)

  -- Payload::new signs the payload that it has built.
  unfoldable pub new : List Transaction → PublicKey → Payload
  new transactions author = record unsigned { signature = c.sign (digest unsigned) }
    where
      unsigned : Payload
      unsigned = record { transactions = transactions; author = author; signature = 0 }

pub data MempoolMessage : Type 0 where
  own_payload : Payload → MempoolMessage
  payload : Payload → MempoolMessage
  payload_request : List Digest → PublicKey → MempoolMessage

-- ===== src/Messages/Block.antt =====
-- consensus/src/messages.rs: blocks.
use hotstuff_dag.Config.{Committee, stake}
use hotstuff_dag.Crypto.{
  Digest, Primitives, PublicKey, Signature, array_bytes, finalize, u64_bytes, verify_signature,
}
use hotstuff_dag.Error.{Result, ensure, ok, unknown_authority, ◌>>◌}
use hotstuff_dag.Messages.Qc
use hotstuff_dag.Messages.Qc.{Qc}
use hotstuff_dag.Prelude.{List, [], if◌then◌else◌, ltb, ℕ, ◌++◌, ◌∷◌}

pub record Block : Type 0 where
  pub qc : Qc
  pub author : PublicKey
  pub height : ℕ
  pub epoch : ℕ
  pub payload : List Digest
  pub references : List (PublicKey × Digest)
  pub signature : Signature

-- Block::genesis, the default block.
abbrev pub genesis : Block
genesis = record {
  qc = Qc.genesis;
  author = 0;
  height = 0;
  epoch = 0;
  payload = [];
  references = [];
  signature = 0;
}

abbrev pub parent : Block → Digest
parent block = block.qc.hash

pub payload_bytes : List Digest → List ℕ
payload_bytes [] = []
payload_bytes (x ∷ xs) = array_bytes x ++ payload_bytes xs

pub reference_bytes : List (PublicKey × Digest) → List ℕ
reference_bytes [] = []
reference_bytes ((name, d) ∷ xs) = array_bytes name ++ (array_bytes d ++ reference_bytes xs)

module _ (c : Primitives) where
  unfoldable pub digest : Block → Digest
  digest b = finalize c (
      array_bytes b.author
      ++ (u64_bytes b.height
          ++ (u64_bytes b.epoch
              ++ (payload_bytes b.payload
                  ++ (reference_bytes b.references ++ array_bytes b.qc.hash)))))

  -- Block::new signs the block that it has built.
  unfoldable pub new : Qc → PublicKey → ℕ → ℕ → List Digest → List (PublicKey × Digest) → Block
  new qc author height epoch payload references = record unsigned {
    signature = c.sign (digest unsigned);
  }
    where
      unsigned : Block
      unsigned = record {
        qc = qc;
        author = author;
        height = height;
        epoch = epoch;
        payload = payload;
        references = references;
        signature = 0;
      }

  unfoldable pub verify : Block → Committee → Result (Unit {0})
  verify block committee = do
    ensure (ltb 0 (stake committee block.author)) (unknown_authority block.author)
    verify_signature c block.signature (digest block) block.author
    if Qc.eq block.qc Qc.genesis then ok tt else Qc.verify c block.qc committee

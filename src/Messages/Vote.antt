-- ===== src/Messages/Vote.antt =====
-- consensus/src/messages.rs: votes for a block.
use hotstuff_dag.Config.{Committee, stake}
use hotstuff_dag.Crypto.{
  Digest, Primitives, PublicKey, Signature, array_bytes, finalize, u64_bytes, verify_signature,
}
use hotstuff_dag.Error.{Result, ensure, unknown_authority, ◌>>◌}
use hotstuff_dag.Messages.Block
use hotstuff_dag.Messages.Block.{Block}
use hotstuff_dag.Prelude.{ltb, ℕ, ◌++◌}

pub record Vote : Type 0 where
  pub hash : Digest
  pub epoch : ℕ
  pub height : ℕ
  pub author : PublicKey
  pub proposer : PublicKey
  pub signature : Signature

module _ (c : Primitives) where
  unfoldable pub digest : Vote → Digest
  digest v =
      finalize c (
        array_bytes v.hash ++ (u64_bytes v.epoch ++ (u64_bytes v.height ++ array_bytes v.proposer)))

  unfoldable pub new : Block → PublicKey → Vote
  new block author = record unsigned { signature = c.sign (digest unsigned) }
    where
      unsigned : Vote
      unsigned = record {
        hash = Block.digest c block;
        epoch = block.epoch;
        height = block.height;
        author = author;
        proposer = block.author;
        signature = 0;
      }

  unfoldable pub verify : Vote → Committee → Result (Unit {0})
  verify v committee = do
    ensure (ltb 0 (stake committee v.author)) (unknown_authority v.author)
    verify_signature c v.signature (digest v) v.author

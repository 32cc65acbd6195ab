-- ===== src/Messages/Aba.antt =====
-- consensus/src/messages.rs: the values and the proofs of the binary agreement.
use hotstuff_dag.Config.{Committee, quorum_threshold}
use hotstuff_dag.Crypto.{
  Digest, Primitives, PublicKey, Signature, finalize, u64_bytes, verify_batch, verify_signature,
}
use hotstuff_dag.Error.{Result, authority_reuse_in_aba, ensure, qc_requires_quorum, ◌>>=◌, ◌>>◌}
use hotstuff_dag.Messages.Tally.{tally}
use hotstuff_dag.Prelude.{Bool, List, [], keys, le_bytes, leb, ℕ, ◌++◌}

pub record AbaVal : Type 0 where
  pub author : PublicKey
  pub epoch : ℕ
  pub round : ℕ
  pub phase : ℕ
  pub val : ℕ
  pub signature : Signature

-- `tag` is true for a proof of f + 1 values.
pub record AbaProof : Type 0 where
  pub epoch : ℕ
  pub round : ℕ
  pub val : ℕ
  pub phase : ℕ
  pub votes : List (PublicKey × Signature)
  pub tag : Bool

module _ (c : Primitives) where
  -- ABAVal::digest and ABAProof::digest hash the same fields.
  abbrev fields_digest : ℕ → ℕ → ℕ → ℕ → Digest
  fields_digest epoch round val phase =
      finalize c (u64_bytes epoch ++ (u64_bytes round ++ (u64_bytes val ++ le_bytes 1 phase)))

  pub val_digest : AbaVal → Digest
  val_digest v = fields_digest v.epoch v.round v.val v.phase

  pub proof_digest : AbaProof → Digest
  proof_digest p = fields_digest p.epoch p.round p.val p.phase

  -- ABAVal::new
  pub new_val : PublicKey → ℕ → ℕ → ℕ → ℕ → AbaVal
  new_val author epoch round val phase = record unsigned {
    signature = c.sign (val_digest unsigned);
  }
    where
      unsigned : AbaVal
      unsigned = record {
        author = author;
        epoch = epoch;
        round = round;
        phase = phase;
        val = val;
        signature = 0;
      }

  -- ABAVal::verify checks the signature, and not that the author has stake.
  unfoldable pub verify_val : AbaVal → Result (Unit {0})
  verify_val v = verify_signature c v.signature (val_digest v) v.author

  -- ABAProof::verify
  unfoldable pub verify_proof : AbaProof → Committee → Result (Unit {0})
  verify_proof p committee = do
    weight ← tally (λ name. authority_reuse_in_aba name p.phase) committee [] 0 (keys p.votes)
    ensure (leb (quorum_threshold committee) weight) qc_requires_quorum
    verify_batch c (proof_digest p) p.votes

-- ===== src/Messages/Timeout.antt =====
-- consensus/src/messages.rs: timeouts.
use hotstuff_dag.Config.{Committee, stake}
use hotstuff_dag.Crypto.{
  Digest, Primitives, PublicKey, Signature, finalize, u64_bytes, verify_signature,
}
use hotstuff_dag.Error.{Result, ensure, ok, unknown_authority, ◌>>◌}
use hotstuff_dag.Messages.Qc
use hotstuff_dag.Messages.Qc.{Qc}
use hotstuff_dag.Prelude.{if◌then◌else◌, ltb, ℕ, ◌++◌}

pub record Timeout : Type 0 where
  pub high_qc : Qc
  pub epoch : ℕ
  pub author : PublicKey
  pub signature : Signature

module _ (c : Primitives) where
  pub digest : Timeout → Digest
  digest t = finalize c (u64_bytes t.epoch ++ u64_bytes t.high_qc.height)

  unfoldable pub new : Qc → ℕ → PublicKey → Timeout
  new high_qc epoch author = record unsigned { signature = c.sign (digest unsigned) }
    where
      unsigned : Timeout
      unsigned = record { high_qc = high_qc; epoch = epoch; author = author; signature = 0 }

  unfoldable pub verify : Timeout → Committee → Result (Unit {0})
  verify t committee = do
    ensure (ltb 0 (stake committee t.author)) (unknown_authority t.author)
    verify_signature c t.signature (digest t) t.author
    if Qc.eq t.high_qc Qc.genesis then ok tt else Qc.verify c t.high_qc committee

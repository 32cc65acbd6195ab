-- ===== src/Messages/Qc.antt =====
-- consensus/src/messages.rs: quorum certificates.
pub mod Intersection
use hotstuff_dag.Config.{Committee, quorum_threshold}
use hotstuff_dag.Crypto.{
  Digest, Primitives, PublicKey, Signature, array_bytes, finalize, u64_bytes, verify_batch,
}
use hotstuff_dag.Error.{Result, authority_reuse_in_qc, ensure, qc_requires_quorum, ◌>>=◌, ◌>>◌}
use hotstuff_dag.Messages.Tally.{tally}
use hotstuff_dag.Prelude.{Bool, List, [], keys, leb, not, ℕ, ◌&&◌, ◌++◌, ◌==◌}

pub record Qc : Type 0 where
  pub hash : Digest
  pub epoch : ℕ
  pub height : ℕ
  pub proposer : PublicKey
  pub votes : List (PublicKey × Signature)

abbrev pub genesis : Qc
genesis = record { hash = 0; epoch = 0; height = 0; proposer = 0; votes = [] }

-- `PartialEq for QC` looks at the hash and the height alone.
abbrev pub eq : Qc → Qc → Bool
eq a b = a.hash == b.hash && a.height == b.height

-- QC::timeout
pub timeout : Qc → Bool
timeout qc = qc.hash == 0 && not (qc.height == 0)

module _ (c : Primitives) where
  unfoldable pub digest : Qc → Digest
  digest qc = finalize c (
      array_bytes qc.hash
      ++ (u64_bytes qc.epoch ++ (u64_bytes qc.height ++ array_bytes qc.proposer)))

  unfoldable pub verify : Qc → Committee → Result (Unit {0})
  verify qc committee = do
    weight ← tally authority_reuse_in_qc committee [] 0 (keys qc.votes)
    ensure (leb (quorum_threshold committee) weight) qc_requires_quorum
    verify_batch c (digest qc) qc.votes

-- ===== src/Messages/Tc.antt =====
-- consensus/src/messages.rs: timeout certificates.
use hotstuff_dag.Config.{Committee, quorum_threshold}
use hotstuff_dag.Crypto.{
  Digest, Primitives, PublicKey, Signature, finalize, u64_bytes, verify_signature,
}
use hotstuff_dag.Error.{Result, authority_reuse_in_tc, ensure, ok, tc_requires_quorum, ◌>>=◌, ◌>>◌}
use hotstuff_dag.Messages.Tally.{tally}
use hotstuff_dag.Prelude.{List, [], leb, map, ℕ, ◌++◌, ◌∷◌}

pub record Tc : Type 0 where
  pub epoch : ℕ
  pub votes : List (PublicKey × Signature × ℕ)

abbrev pub authors : List (PublicKey × Signature × ℕ) → List PublicKey
authors votes = map (λ v. v.0) votes

unfoldable pub high_qc_rounds : Tc → List ℕ
high_qc_rounds tc = map (λ v. v.2) tc.votes

module _ (c : Primitives) where
  -- What a timeout of the epoch with that high round has signed.
  pub vote_digest : ℕ → ℕ → Digest
  vote_digest epoch high_qc_round = finalize c (u64_bytes epoch ++ u64_bytes high_qc_round)

  unfoldable pub verify_signatures : ℕ → List (PublicKey × Signature × ℕ) → Result (Unit {0})
  verify_signatures epoch [] = ok tt
  verify_signatures epoch ((author, signature, high_qc_round) ∷ votes) = do
    verify_signature c signature (vote_digest epoch high_qc_round) author
    verify_signatures epoch votes

  unfoldable pub verify : Tc → Committee → Result (Unit {0})
  verify tc committee = do
    weight ← tally authority_reuse_in_tc committee [] 0 (authors tc.votes)
    ensure (leb (quorum_threshold committee) weight) tc_requires_quorum
    verify_signatures tc.epoch tc.votes

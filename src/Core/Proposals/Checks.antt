-- ===== src/Core/Proposals/Checks.antt =====
-- The checks of votes and blocks (consensus/src/messages.rs) come to an end.
use hotstuff_dag.Config.{Committee, quorum_threshold, stake}
use hotstuff_dag.Core.Commit.Ends.{Always, Returns, Returns-bind, ensure-Returns}
use hotstuff_dag.Crypto.Service.{names}
use hotstuff_dag.Crypto.{
  Digest, Primitives, PublicKey, Signature, parse_votes, verify_batch, verify_signature,
}
use hotstuff_dag.Error.{
  ConsensusError, authority_reuse_in_qc, ensure, err, invalid_signature, ok, qc_requires_quorum,
  unknown_authority,
}
use hotstuff_dag.Messages.Block
use hotstuff_dag.Messages.Block.{Block}
use hotstuff_dag.Messages.Qc
use hotstuff_dag.Messages.Qc.{Qc}
use hotstuff_dag.Messages.Tally.{tally}
use hotstuff_dag.Messages.Vote
use hotstuff_dag.Messages.Vote.{Vote}
use hotstuff_dag.Prelude.{
  Bool, List, [], add32, contains, false, if◌then◌else◌, keys, leb, ltb, true, ℕ, ◌==◌, ◌∷◌,
}

tally-Returns :
    (reuse : ℕ → ConsensusError) (cm : Committee) (used : List ℕ) (weight : ℕ) (names : List ℕ)
    → Returns Always (tally reuse cm used weight names)
unfolding tally
tally-Returns reuse cm used weight [] = tt
tally-Returns reuse cm used weight (name ∷ names) =
    go (contains used name) (stake cm name == 0)
      (tally-Returns reuse cm (name ∷ used) (add32 weight (stake cm name)) names)
  where
    go :
        (again idle : Bool)
        → Returns Always (tally reuse cm (name ∷ used) (add32 weight (stake cm name)) names)
        → Returns Always (
            if again
            then err (reuse name)
            else if idle
            then err (unknown_authority name)
            else tally reuse cm (name ∷ used) (add32 weight (stake cm name)) names)
    go true idle ih = tt
    go false true ih = tt
    go false false ih = ih

module _ (c : Primitives) where
  verify_signature-Returns :
      (s : Signature) (d : Digest) (k : PublicKey) → Returns Always (verify_signature c s d k)
  unfolding verify_signature
  verify_signature-Returns s d k =
      Returns-bind (ensure (c.signature_from_bytes s) invalid_signature) _ (ensure-Returns _ _)
        (λ _.
          Returns-bind (ensure (c.key_from_bytes k) invalid_signature) _ (ensure-Returns _ _)
            (λ _. ensure-Returns (c.verify_strict k d s) invalid_signature))

  verify_batch-Returns :
      (d : Digest) (votes : List (PublicKey × Signature)) → Returns Always (verify_batch c d votes)
  unfolding verify_batch
  verify_batch-Returns d votes =
      Returns-bind (ensure (parse_votes c votes) invalid_signature) _
        (ensure-Returns _ invalid_signature)
        (λ _. ensure-Returns (c.dalek_verify_batch d votes) invalid_signature)

  qc_verify-Returns : (qc : Qc) (cm : Committee) → Returns Always (Qc.verify c qc cm)
  unfolding Qc.verify
  qc_verify-Returns qc cm =
      Returns-bind (tally authority_reuse_in_qc cm [] 0 (keys qc.votes)) _
        (tally-Returns authority_reuse_in_qc cm [] 0 (keys qc.votes))
        (λ weight.
          Returns-bind (ensure (leb (quorum_threshold cm) weight) qc_requires_quorum) _
            (ensure-Returns _ qc_requires_quorum)
            (λ _. verify_batch-Returns (Qc.digest c qc) qc.votes))

  genesis_or_verify-Returns :
      (b : Bool) (qc : Qc) (cm : Committee)
      → Returns Always (if b then ok tt else Qc.verify c qc cm)
  genesis_or_verify-Returns true qc cm = tt
  genesis_or_verify-Returns false qc cm = qc_verify-Returns qc cm

  pub vote_verify-Returns : (v : Vote) (cm : Committee) → Returns Always (Vote.verify c v cm)
  unfolding Vote.verify
  vote_verify-Returns v cm =
      Returns-bind (ensure (ltb 0 (stake cm v.author)) (unknown_authority v.author)) _
        (ensure-Returns _ (unknown_authority v.author))
        (λ _. verify_signature-Returns v.signature (Vote.digest c v) v.author)

  pub block_verify-Returns : (b : Block) (cm : Committee) → Returns Always (Block.verify c b cm)
  unfolding Block.verify
  block_verify-Returns b cm =
      Returns-bind (ensure (ltb 0 (stake cm b.author)) (unknown_authority b.author)) _
        (ensure-Returns _ (unknown_authority b.author))
        (λ _.
          Returns-bind (verify_signature c b.signature (Block.digest c b) b.author) _
            (verify_signature-Returns b.signature (Block.digest c b) b.author)
            (λ _. genesis_or_verify-Returns (Qc.eq b.qc Qc.genesis) b.qc cm))

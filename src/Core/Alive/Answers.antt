-- ===== src/Core/Alive/Answers.antt =====
-- The checks of consensus/src/messages.rs give an answer or an error, and what they have checked.
use hotstuff_dag.Config.{Committee, quorum_threshold, stake, total_votes}
use hotstuff_dag.Core.Alive.{Any, Gives, Gives-bind, ensure-Any}
use hotstuff_dag.Crypto.{
  Digest, Primitives, PublicKey, Signature, parse_votes, verify_batch, verify_signature,
}
use hotstuff_dag.Error.{
  ConsensusError, Result, authority_reuse_in_aba, authority_reuse_in_qc, authority_reuse_in_tc,
  ensure, err, invalid_signature, ok, out_of_fuel, panic, qc_requires_quorum, tc_requires_quorum,
  unknown_authority, ◌>>=◌, ◌>>◌,
}
use hotstuff_dag.Messages
use hotstuff_dag.Messages.Aba.{AbaProof}
use hotstuff_dag.Messages.Block
use hotstuff_dag.Messages.Block.{Block}
use hotstuff_dag.Messages.Qc
use hotstuff_dag.Messages.Qc.{Qc}
use hotstuff_dag.Messages.Tally.{tally}
use hotstuff_dag.Messages.Tc
use hotstuff_dag.Messages.Tc.{Tc}
use hotstuff_dag.Messages.Timeout
use hotstuff_dag.Messages.Timeout.{Timeout}
use hotstuff_dag.Messages.Vote
use hotstuff_dag.Messages.Vote.{Vote}
use hotstuff_dag.Prelude.{
  Bool, List, [], add32, arith, contains, false, if◌then◌else◌, is_empty, keys, leb, ltb, refl,
  sub32, sym, true, ℕ, ◌*◌, ◌+◌, ◌/◌, ◌==◌, ◌∷◌, ◌≡◌,
}

pub tally-Gives :
    (reuse : ℕ → ConsensusError) (cm : Committee) (used : List ℕ) (weight : ℕ) (names : List ℕ)
    → Gives Any (tally reuse cm used weight names)
unfolding tally
tally-Gives reuse cm used weight [] = tt
tally-Gives reuse cm used weight (name ∷ names) =
    go (contains used name) (stake cm name == 0)
      (tally-Gives reuse cm (name ∷ used) (add32 weight (stake cm name)) names)
  where
    go :
        (again idle : Bool)
        → Gives Any (tally reuse cm (name ∷ used) (add32 weight (stake cm name)) names)
        → Gives Any (
            if again
            then err (reuse name)
            else if idle
            then err (unknown_authority name)
            else tally reuse cm (name ∷ used) (add32 weight (stake cm name)) names)
    go true idle ih = tt
    go false true ih = tt
    go false false ih = ih

no_quorum : (n : ℕ) → leb (2 * n + 1) 0 ≡ false
no_quorum n = ground arith

-- A tally below the quorum is an error, so what is counted up to a quorum is not empty.
tally_quorum-Gives :
    (reuse : ℕ → ConsensusError) (cm : Committee) (names : List ℕ) (e : ConsensusError)
    (rest : Result (Unit {0}))
    → Gives Any rest
    → Gives
        (λ _. is_empty names ≡ false)
        (tally reuse cm [] 0 names >>= λ weight.
          ensure (leb (quorum_threshold cm) weight) e >> rest)
unfolding tally quorum_threshold
tally_quorum-Gives reuse cm [] e rest h = rw (no_quorum (sub32 (total_votes cm) 1 / 3)) tt
tally_quorum-Gives reuse cm (name ∷ names) e rest h =
    Gives-bind Any (λ _. false ≡ false) (tally reuse cm [] 0 (name ∷ names)) _
      (tally-Gives reuse cm [] 0 (name ∷ names))
      (λ weight _.
        Gives-bind Any (λ _. false ≡ false) (ensure (leb (quorum_threshold cm) weight) e) _
          (ensure-Any _ e) (λ _ _. some_answer rest h))
  where
    some_answer : (r : Result (Unit {0})) → Gives Any r → Gives (λ _. false ≡ false) r
    some_answer (ok a) g = refl
    some_answer (err x) g = tt
    some_answer panic g = g
    some_answer out_of_fuel g = tt

module _ (c : Primitives) where
  pub verify_signature-Gives :
      (s : Signature) (d : Digest) (k : PublicKey) → Gives Any (verify_signature c s d k)
  unfolding verify_signature
  verify_signature-Gives s d k =
      Gives-bind Any Any (ensure (c.signature_from_bytes s) invalid_signature) _ (ensure-Any _ _)
        (λ _ _.
          Gives-bind Any Any (ensure (c.key_from_bytes k) invalid_signature) _ (ensure-Any _ _)
            (λ _ _. ensure-Any (c.verify_strict k d s) invalid_signature))

  verify_batch-Gives :
      (d : Digest) (votes : List (PublicKey × Signature)) → Gives Any (verify_batch c d votes)
  unfolding verify_batch
  verify_batch-Gives d votes =
      Gives-bind Any Any (ensure (parse_votes c votes) invalid_signature) _
        (ensure-Any _ invalid_signature)
        (λ _ _. ensure-Any (c.dalek_verify_batch d votes) invalid_signature)

  qc_verify-Gives : (qc : Qc) (cm : Committee) → Gives Any (Qc.verify c qc cm)
  unfolding Qc.verify
  qc_verify-Gives qc cm =
      Gives-bind Any Any (tally authority_reuse_in_qc cm [] 0 (keys qc.votes)) _
        (tally-Gives authority_reuse_in_qc cm [] 0 (keys qc.votes))
        (λ weight _.
          Gives-bind Any Any (ensure (leb (quorum_threshold cm) weight) qc_requires_quorum) _
            (ensure-Any _ qc_requires_quorum) (λ _ _. verify_batch-Gives (Qc.digest c qc) qc.votes))

  genesis_or_verify-Gives :
      (b : Bool) (qc : Qc) (cm : Committee) → Gives Any (if b then ok tt else Qc.verify c qc cm)
  genesis_or_verify-Gives true qc cm = tt
  genesis_or_verify-Gives false qc cm = qc_verify-Gives qc cm

  pub block_verify-Gives : (b : Block) (cm : Committee) → Gives Any (Block.verify c b cm)
  unfolding Block.verify
  block_verify-Gives b cm =
      Gives-bind Any Any (ensure (ltb 0 (stake cm b.author)) (unknown_authority b.author)) _
        (ensure-Any _ _)
        (λ _ _.
          Gives-bind Any Any (verify_signature c b.signature (Block.digest c b) b.author) _
            (verify_signature-Gives b.signature (Block.digest c b) b.author)
            (λ _ _. genesis_or_verify-Gives (Qc.eq b.qc Qc.genesis) b.qc cm))

  pub vote_verify-Gives : (v : Vote) (cm : Committee) → Gives Any (Vote.verify c v cm)
  unfolding Vote.verify
  vote_verify-Gives v cm =
      Gives-bind Any Any (ensure (ltb 0 (stake cm v.author)) (unknown_authority v.author)) _
        (ensure-Any _ _) (λ _ _. verify_signature-Gives v.signature (Vote.digest c v) v.author)

  pub timeout_verify-Gives : (t : Timeout) (cm : Committee) → Gives Any (Timeout.verify c t cm)
  unfolding Timeout.verify
  timeout_verify-Gives t cm =
      Gives-bind Any Any (ensure (ltb 0 (stake cm t.author)) (unknown_authority t.author)) _
        (ensure-Any _ _)
        (λ _ _.
          Gives-bind Any Any (verify_signature c t.signature (Timeout.digest c t) t.author) _
            (verify_signature-Gives t.signature (Timeout.digest c t) t.author)
            (λ _ _. genesis_or_verify-Gives (Qc.eq t.high_qc Qc.genesis) t.high_qc cm))

  tc_signatures-Gives :
      (epoch : ℕ) (votes : List (PublicKey × Signature × ℕ))
      → Gives Any (Tc.verify_signatures c epoch votes)
  unfolding Tc.verify_signatures
  tc_signatures-Gives epoch [] = tt
  tc_signatures-Gives epoch ((author, s, high) ∷ votes) =
      Gives-bind Any Any (verify_signature c s (Tc.vote_digest c epoch high) author) _
        (verify_signature-Gives s (Tc.vote_digest c epoch high) author)
        (λ _ _. tc_signatures-Gives epoch votes)

  authors-is_empty :
      (votes : List (PublicKey × Signature × ℕ)) → is_empty (Tc.authors votes) ≡ is_empty votes
  authors-is_empty [] = refl
  authors-is_empty (v ∷ votes) = refl

  -- A timeout certificate that verifies has votes.
  pub tc_verify-Gives :
      (t : Tc) (cm : Committee) → Gives (λ _. is_empty t.votes ≡ false) (Tc.verify c t cm)
  unfolding Tc.verify
  tc_verify-Gives t cm = rw (sym (authors-is_empty t.votes)) (
      tally_quorum-Gives authority_reuse_in_tc cm (Tc.authors t.votes) tc_requires_quorum
        (Tc.verify_signatures c t.epoch t.votes) (tc_signatures-Gives t.epoch t.votes))

  pub aba_proof_verify-Gives :
      (p : AbaProof) (cm : Committee) → Gives Any (Messages.Aba.verify_proof c p cm)
  unfolding Messages.Aba.verify_proof
  aba_proof_verify-Gives p cm =
      Gives-bind Any Any
        (tally (λ name. authority_reuse_in_aba name p.phase) cm [] 0 (keys p.votes)) _
        (tally-Gives (λ name. authority_reuse_in_aba name p.phase) cm [] 0 (keys p.votes))
        (λ weight _.
          Gives-bind Any Any (ensure (leb (quorum_threshold cm) weight) qc_requires_quorum) _
            (ensure-Any _ qc_requires_quorum)
            (λ _ _. verify_batch-Gives (Messages.Aba.proof_digest c p) p.votes))

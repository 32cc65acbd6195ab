-- ===== src/Aggregator/AbaVals.antt =====
-- consensus/src/aggregator.rs: `ABAProofMaker`, which gathers one value of one phase and round. It
-- gives a tagged proof at f + 1 values of `VAL_PHASE`, and a plain one at a quorum.
use hotstuff_dag.Config.{Committee, quorum_threshold, random_coin_threshold, stake}
use hotstuff_dag.Crypto.{PublicKey, Signature}
use hotstuff_dag.Error.{authority_reuse_in_aba, err, ok}
use hotstuff_dag.Exec.{Exec}
use hotstuff_dag.Messages.Aba.{AbaProof, AbaVal}
use hotstuff_dag.Prelude.{
  Bool, List, Option, [], add32, contains, false, if◌then◌else◌, leb, none, some, true, ℕ, ◌&&◌,
  ◌++◌, ◌==◌, ◌∷◌,
}

pub record AbaProofMaker : Type 0 where
  pub weight : ℕ
  pub votes : List (PublicKey × Signature)
  pub used : List PublicKey

abbrev pub new : AbaProofMaker
new = record { weight = 0; votes = []; used = [] }

-- core.rs: VAL_PHASE
abbrev val_phase : ℕ
val_phase = 1

abbrev pub proof_of : AbaVal → List (PublicKey × Signature) → Bool → AbaProof
proof_of v votes tag = record {
  epoch = v.epoch;
  round = v.round;
  val = v.val;
  phase = v.phase;
  votes = votes;
  tag = tag;
}

unfoldable pub append : AbaVal → Committee → Exec AbaProofMaker (Option AbaProof)
append v committee m =
    let weight = add32 m.weight (stake committee v.author) in
    let votes = m.votes ++ (v.author, v.signature) ∷ [] in
    let used = v.author ∷ m.used in
    if contains m.used v.author
    then (err (authority_reuse_in_aba v.author v.phase), m)
    else if leb (quorum_threshold committee) weight
    then (ok (some (proof_of v votes false)), record { weight = 0; votes = votes; used = used })
    else if weight == random_coin_threshold committee && v.phase == val_phase
    then (ok (some (proof_of v votes true)), record { weight = weight; votes = votes; used = used })
    else (ok none, record { weight = weight; votes = votes; used = used })

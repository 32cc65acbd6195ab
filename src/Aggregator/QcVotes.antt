-- ===== src/Aggregator/QcVotes.antt =====
-- consensus/src/aggregator.rs: `QCMaker`, which gathers the votes of one height.
pub mod Verifies
pub mod Assembly
pub mod Single
use hotstuff_dag.Config.{Committee, quorum_threshold, stake}
use hotstuff_dag.Crypto.{PublicKey, Signature}
use hotstuff_dag.Error.{authority_reuse_in_qc, err, ok}
use hotstuff_dag.Exec.{Exec}
use hotstuff_dag.Messages.Qc.{Qc}
use hotstuff_dag.Messages.Vote.{Vote}
use hotstuff_dag.Prelude.{
  List, Option, [], add32, contains, if◌then◌else◌, leb, none, some, ℕ, ◌++◌, ◌∷◌,
}

pub record QcMaker : Type 0 where
  pub weight : ℕ
  pub votes : List (PublicKey × Signature)
  pub used : List PublicKey

abbrev pub new : QcMaker
new = record { weight = 0; votes = []; used = [] }

unfoldable pub append : Vote → Committee → Exec QcMaker (Option Qc)
append vote committee m =
    let weight = add32 m.weight (stake committee vote.author) in
    let votes = m.votes ++ (vote.author, vote.signature) ∷ [] in
    let used = vote.author ∷ m.used in
    let qc : Qc = record {
      hash = vote.hash;
      epoch = vote.epoch;
      height = vote.height;
      proposer = vote.proposer;
      votes = votes;
    } in
    if contains m.used vote.author
    then (err (authority_reuse_in_qc vote.author), m)
    else if leb (quorum_threshold committee) weight
    then (ok (some qc), record { weight = 0; votes = votes; used = used })
    else (ok none, record { weight = weight; votes = votes; used = used })

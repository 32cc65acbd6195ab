-- ===== src/Aggregator/Timeouts.antt =====
-- consensus/src/aggregator.rs: `TCMaker`, which gathers the timeouts of one epoch.
use hotstuff_dag.Config.{Committee, quorum_threshold, stake}
use hotstuff_dag.Crypto.{PublicKey, Signature}
use hotstuff_dag.Error.{authority_reuse_in_tc, err, ok}
use hotstuff_dag.Exec.{Exec}
use hotstuff_dag.Messages.Qc.{timeout}
use hotstuff_dag.Messages.Tc.{Tc}
use hotstuff_dag.Messages.Timeout.{Timeout}
use hotstuff_dag.Prelude.{
  List, Option, [], add32, contains, if◌then◌else◌, leb, none, some, ℕ, ◌++◌, ◌∷◌,
}

pub record TcMaker : Type 0 where
  pub weight : ℕ
  pub votes : List (PublicKey × Signature × ℕ)
  pub used : List PublicKey

abbrev pub new : TcMaker
new = record { weight = 0; votes = []; used = [] }

unfoldable pub append : Timeout → Committee → Exec TcMaker (Option Tc)
append timeout committee m =
    let weight = add32 m.weight (stake committee timeout.author) in
    let votes = m.votes ++ (timeout.author, timeout.signature, timeout.high_qc.height) ∷ [] in
    let used = timeout.author ∷ m.used in
    let tc : Tc = record { epoch = timeout.epoch; votes = votes } in
    if contains m.used timeout.author
    then (err (authority_reuse_in_tc timeout.author), m)
    else if leb (quorum_threshold committee) weight
    then (ok (some tc), record { weight = 0; votes = votes; used = used })
    else (ok none, record { weight = weight; votes = votes; used = used })

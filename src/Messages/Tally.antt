-- ===== src/Messages/Tally.antt =====
-- consensus/src/messages.rs: the loop that `QC::verify`, `TC::verify` and `ABAProof::verify` share
-- but for the error on a repeated authority. `used` is the hash set, the newest entry first.
pub mod Quorums
use hotstuff_dag.Config.{Committee, stake}
use hotstuff_dag.Error.{ConsensusError, Result, err, ok, unknown_authority}
use hotstuff_dag.Prelude.{List, [], add32, contains, if◌then◌else◌, ℕ, ◌==◌, ◌∷◌}

unfoldable pub tally : (ℕ → ConsensusError) → Committee → List ℕ → ℕ → List ℕ → Result ℕ
tally reuse committee used weight [] = ok weight
tally reuse committee used weight (name ∷ names) =
    let voting_rights = stake committee name in
    let rest = tally reuse committee (name ∷ used) (add32 weight voting_rights) names in
    if contains used name
    then err (reuse name)
    else if voting_rights == 0
    then err (unknown_authority name)
    else rest

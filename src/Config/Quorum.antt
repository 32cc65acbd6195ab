-- ===== src/Config/Quorum.antt =====
-- The thresholds of consensus/src/config.rs against the number of faults they are meant for.
-- With a total stake of 3 f + 1 + k for k below 3, a quorum is 2 f + 1 and the coin needs f + 1.
use hotstuff_dag.Config.{Committee, quorum_threshold, random_coin_threshold, total_votes}
use hotstuff_dag.Prelude.{arith, u32_mod, ℕ, ◌*◌, ◌+◌, ◌<◌, ◌≡◌}

pub thresholds :
    (c : Committee) (f k : ℕ)
    → total_votes c ≡ 3 * f + 1 + k
    → k < 3
    → 3 * f + 1 + k < u32_mod
    → (quorum_threshold c ≡ 2 * f + 1) × (random_coin_threshold c ≡ f + 1)
unfolding quorum_threshold random_coin_threshold
thresholds c f k h small fits = (omega arith, omega arith)

-- ===== src/Examples/Turns.antt =====
-- The turns of the leaders of a committee of four.
use hotstuff_dag.Config.{size}
use hotstuff_dag.Error.{ok}
use hotstuff_dag.Examples.{four}
use hotstuff_dag.Leader.Rotation.{place_of, rotation}
use hotstuff_dag.Leader.{get_leader}
use hotstuff_dag.Prelude.{keys, refl, ℕ, ◌*◌, ◌+◌, ◌<◌, ◌≡◌}

rotation_example :
    (place_of 3 (keys four.authorities) < size four)
    × ((r : ℕ) → get_leader four (r * size four + place_of 3 (keys four.authorities)) ≡ ok 3)
rotation_example = rotation four 3 refl

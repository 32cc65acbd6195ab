-- ===== src/Leader.antt =====
-- consensus/src/leader.rs: leaders take turns by epoch, in the order of their keys.
pub mod Rotation
use hotstuff_dag.Config.{Committee, size}
use hotstuff_dag.Crypto.{PublicKey}
use hotstuff_dag.Error.{Result, panic, unwrap}
use hotstuff_dag.Prelude.{List, [], get_elem?, if◌then◌else◌, keys, leb, suc, zero, ℕ, ◌%◌, ◌∷◌}

unfoldable pub insert_sorted : PublicKey → List PublicKey → List PublicKey
insert_sorted k [] = k ∷ []
insert_sorted k (x ∷ xs) = let rest = insert_sorted k xs in if leb k x then k ∷ x ∷ xs else x ∷ rest

-- `keys.sort()`
unfoldable pub sort : List PublicKey → List PublicKey
unfolding insert_sorted
sort [] = []
sort (x ∷ xs) = insert_sorted x (sort xs)

-- `RandomLeaderElector::get_leader`. The index is in range unless the committee is empty, where the
-- remainder by 0 panics.
unfoldable pub get_leader : Committee → ℕ → Result PublicKey
get_leader c epoch = elim (size c) [
  | zero ↦ panic
  | suc n ↦ unwrap (get_elem? (sort (keys c.authorities)) (epoch % suc n))
]

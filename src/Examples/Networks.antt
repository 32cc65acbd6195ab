-- ===== src/Examples/Networks.antt =====
-- A proposal that is held back before it goes to the network, and an address whose worker has ended.
use hotstuff_dag.Examples.{child, four, parameters}
use hotstuff_dag.Filter
use hotstuff_dag.Filter.Conservation.{account, run_lem}
use hotstuff_dag.Filter.{ready, FilterInput, core}
use hotstuff_dag.Config.{Parameters, size}
use hotstuff_dag.Error.{ok}
use hotstuff_dag.Leader.{get_leader, insert_sorted, sort}
use hotstuff_dag.Network
use hotstuff_dag.Network.Delivery.{queued_in_order}
use hotstuff_dag.Network.Order.{queued}
use hotstuff_dag.Network.{received, worker_ended}
use hotstuff_dag.Prelude.{Bool, List, Option, [], false, refl, some, true, ℕ, ◌+◌, ◌∷◌, ◌≡◌}
use hotstuff_dag.World.{Bytes, ConsensusMessage, propose}

abbrev attacked : Parameters
attacked = record parameters { ddos = true }

abbrev to_serialize : ConsensusMessage → Option Bytes
to_serialize m = some (7 ∷ [])

abbrev by_follower : FilterInput
by_follower = (propose (record child { author = 2 }), 11 ∷ [])

abbrev inputs : List Filter.Input
inputs = core 5 false by_follower ∷ ready 104 0 ∷ ready 105 0 ∷ []

loop_runs : (Filter.run attacked four to_serialize inputs Filter.new).0 ≡ ok tt
unfolding Filter.run Filter.step Filter.sleeping Filter.delay Filter.ready_at Filter.forward
    Filter.transmit Filter.new get_leader sort insert_sorted size
loop_runs = refl

run_lem_example :
    account attacked four to_serialize
      (λ m. true)
      (Filter.run attacked four to_serialize inputs Filter.new).1
    ≡ account attacked four to_serialize (λ m. true) Filter.new + 1
run_lem_example = (run_lem attacked four to_serialize (λ m. true) inputs Filter.new loop_runs).0

abbrev accepts_all : ℕ → Bool
accepts_all n = false

abbrev with_a_cut : List Network.Input
with_a_cut =
    received (record { bytes = 7 ∷ []; addresses = 11 ∷ 12 ∷ [] })
    ∷ worker_ended 0
    ∷ received (record { bytes = 8 ∷ []; addresses = 11 ∷ [] })
    ∷ []

queued_in_order_example :
    queued 11 (Network.run accepts_all with_a_cut Network.new).workers ≡ (7 ∷ []) ∷ (8 ∷ []) ∷ []
queued_in_order_example = queued_in_order accepts_all with_a_cut 11 (λ n. refl)

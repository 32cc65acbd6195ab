-- ===== src/Filter.antt =====
-- consensus/src/filter.rs: the task between the core and the network, which may hold a message back.
-- The two channels from the core, with the networks that they lead to, are told apart as in World.
-- The draw of a random number and the clock are parameters, and so is bincode.
pub mod Conservation
use hotstuff_dag.Config.{Committee, Parameters, SocketAddr}
use hotstuff_dag.Core.State.{leader}
use hotstuff_dag.Error.{Result, err, ok, out_of_fuel, panic}
use hotstuff_dag.Exec.{Exec, gets, lift, modify, pure, ◌>>=◌, ◌>>◌}
use hotstuff_dag.Leader.{get_leader}
use hotstuff_dag.Messages.Block.{Block}
use hotstuff_dag.Network.{NetMessage}
use hotstuff_dag.Prelude.{
  Bool, List, Option, [], get_elem?, if◌then◌else◌, leb, none, remove_at, some, ℕ, ◌++◌, ◌+◌, ◌==◌,
  ◌∷◌,
}
use hotstuff_dag.World.{Bytes, ConsensusMessage}

abbrev pub FilterInput : Type 0
FilterInput = ConsensusMessage × List SocketAddr

-- `rand::thread_rng().gen_bool(chance / 100)`, which panics at a chance above one; `draw` is its
-- outcome otherwise.
gen_bool : ℕ → Bool → Result Bool
gen_bool chance draw = if leb chance 100 then ok draw else panic

-- What `ddos` alone says of the delay, in milliseconds.
delay_ddos : Parameters → Committee → Block → Result ℕ
delay_ddos p committee block =
    if p.ddos
    then elim (get_leader committee 0) [
      | ok leader ↦ ok (if block.author == leader then 0 else p.network_delay)
      | err e ↦ err e
      | panic ↦ panic
      | out_of_fuel ↦ out_of_fuel
    ]
    else ok 0

-- Filter::delay, as the time for which it sleeps; only a proposal is held back.
unfoldable pub delay : Parameters → Committee → Bool → ConsensusMessage → Result ℕ
unfolding gen_bool delay_ddos
delay p committee draw (ConsensusMessage.propose block) =
    if p.random_ddos
    then elim (gen_bool p.random_ddos_chance draw) [
      | ok drawn ↦ if drawn then ok p.network_delay else delay_ddos p committee block
      | err e ↦ err e
      | panic ↦ panic
      | out_of_fuel ↦ out_of_fuel
    ]
    else delay_ddos p committee block
delay p committee draw m = ok 0

-- A message that sleeps, with the time at which it may go on.
pub record Pending : Type 0 where
  pub due : ℕ
  pub input : FilterInput

-- The local state of Filter::run, and what it has put on the two channels to the network, the
-- newest first.
pub record Task : Type 0 where
  pub pending : List Pending
  pub pending_smvba : List Pending
  pub network : List NetMessage
  pub net_smvba : List NetMessage

unfoldable pub new : Task
new = record { pending = []; pending_smvba = []; network = []; net_smvba = [] }

-- What the loop takes next: a message from one of the channels of the core, with the clock and the
-- draw, or one of the futures that are ready at this time, by its place.
pub data Input : Type 0 where
  core core_smvba : ℕ → Bool → FilterInput → Input
  ready ready_smvba : ℕ → ℕ → Input

-- The future at this place, if its sleep is over.
unfoldable pub ready_at : ℕ → ℕ → List Pending → Option FilterInput
ready_at now i pending = elim (get_elem? pending i) [
  | none ↦ none
  | some p ↦ if leb p.due now then some p.input else none
]

module _ (p : Parameters) (committee : Committee)
    (serialize : ConsensusMessage → Option Bytes) where
  -- Filter::transmit up to the send: a message that does not serialize panics.
  unfoldable pub transmit : FilterInput → Result NetMessage
  transmit (m, to) = elim (serialize m) [
    | none ↦ panic
    | some bytes ↦ ok (record { bytes = bytes; addresses = to })
  ]

  -- The future of a message that has come, which starts to sleep.
  unfoldable pub sleeping : ℕ → Bool → FilterInput → Result Pending
  unfolding delay
  sleeping now draw (m, to) = elim (delay p committee draw m) [
    | ok time ↦ ok (record { due = now + time; input = (m, to) })
    | err e ↦ err e
    | panic ↦ panic
    | out_of_fuel ↦ out_of_fuel
  ]

  unfoldable pub forward : Option FilterInput → ℕ → Exec Task (Unit {0})
  unfolding transmit
  forward none i = pure tt
  forward (some input) i = do
    modify (λ t. record t { pending = remove_at i t.pending })
    m ← lift (transmit input)
    modify (λ t. record t { network = m ∷ t.network })

  pub forward_smvba : Option FilterInput → ℕ → Exec Task (Unit {0})
  unfolding transmit
  forward_smvba none i = pure tt
  forward_smvba (some input) i = do
    modify (λ t. record t { pending_smvba = remove_at i t.pending_smvba })
    m ← lift (transmit input)
    modify (λ t. record t { net_smvba = m ∷ t.net_smvba })

  -- One turn of the loop of Filter::run.
  unfoldable pub step : Input → Exec Task (Unit {0})
  unfolding sleeping forward forward_smvba ready_at
  step (core now draw input) = do
    future ← lift (sleeping now draw input)
    modify (λ t. record t { pending = t.pending ++ future ∷ [] })
  step (core_smvba now draw input) = do
    future ← lift (sleeping now draw input)
    modify (λ t. record t { pending_smvba = t.pending_smvba ++ future ∷ [] })
  step (ready now i) = do t ← gets (λ t. t); forward (ready_at now i t.pending) i
  step (ready_smvba now i) = do t ← gets (λ t. t); forward_smvba (ready_at now i t.pending_smvba) i

  -- Filter::run, which ends where a turn panics.
  unfoldable pub run : List Input → Exec Task (Unit {0})
  unfolding step
  run [] = pure tt
  run (i ∷ inputs) = let rest = run inputs in step i >> rest

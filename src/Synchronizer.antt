-- ===== src/Synchronizer.antt =====
-- consensus/src/synchronizer.rs: the background task, which asks other nodes for the blocks that are
-- not in the store, waits for them, and loops back a block once all it waits for has come.
-- `select!` may take a request, a future that is ready or the timer, so a run is a sequence of
-- inputs. The store's answers and the clock are functions of what the task has done so far.
pub mod Arrivals
pub mod Demands
pub mod LoopBack
pub mod Requests
pub mod Forgotten
use hotstuff_dag.Config.{Committee, SocketAddr}
use hotstuff_dag.Core.Outside.{addresses}
use hotstuff_dag.Core.State.{hotstuff}
use hotstuff_dag.Crypto.{Digest, Primitives, PublicKey}
use hotstuff_dag.Error.{Result, err, ok, out_of_fuel, panic, unwrap}
use hotstuff_dag.Exec.{Exec, gets, lift, modify, pure, ◌>>=◌, ◌>>◌}
use hotstuff_dag.Messages.Block
use hotstuff_dag.Messages.Block.{Block}
use hotstuff_dag.Prelude.{
  Bool, List, Map, Option, [], bytes_eq, contains_key, false, get_elem?, if◌then◌else◌, insert,
  lookup, lookup_or, ltb, nat_eq, none, pair_eq, quad_eq, remove, remove_at, set_insert, set_remove,
  some, true, ℕ, ◌+◌, ◌||◌, ◌∷◌,
}
use hotstuff_dag.Store.Obligations.{waiting}
use hotstuff_dag.Store.{StoreResult, failed, value}
use hotstuff_dag.World.{Bytes, ConsensusMessage, sync_request}

pub data Event : Type 0 where
  read : Digest → Event
  read_clock : Event
  sent : ConsensusMessage → List SocketAddr → Event
  looped_back : Block → Event

-- A future of `Self::waiter`: it waits on a digest for a block, or for nobody.
pub record Waiter : Type 0 where
  pub wait_on : Digest
  pub block : Option Block

pub record Task : Type 0 where
  pub pending : Map Digest (ℕ × Option Block)
  pub demands : Map Digest (List Digest)
  pub waiting : List Waiter
  pub trace : List Event

pub record Params : Type 0 where
  pub name : PublicKey
  pub committee : Committee
  pub sync_retry_delay : ℕ
  pub primitives : Primitives
  pub db_get : List Event → Digest → StoreResult (Option Bytes)
  pub clock : List Event → ℕ
  pub deserialize : Bytes → Option Block

pub data Input : Type 0 where
  requested : List (PublicKey × Digest) → Option Block → Input
  -- The future at this place of `waiting` has read what it waits on.
  ready : ℕ → StoreResult Bytes → Input
  timer : Input

unfoldable pub new : Task
new = record { pending = []; demands = []; waiting = []; trace = [] }

abbrev pub emit : Event → Task → Task
emit e t = record t { trace = e ∷ t.trace }

unfoldable pub is_stored : StoreResult (Option Bytes) → Bool
is_stored (value (some bytes)) = true
is_stored (value none) = false
is_stored failed = false

module _ (p : Params) where
  pub read_clock_now : Exec Task ℕ
  read_clock_now t = (ok (p.clock t.trace), emit read_clock t)

  pub send_to : ConsensusMessage → Result (List SocketAddr) → Exec Task (Unit {0})
  send_to message (ok to_addresses) t = (ok tt, emit (sent message to_addresses) t)
  send_to message (err e) t = (panic, t)
  send_to message panic t = (panic, t)
  send_to message out_of_fuel t = (out_of_fuel, t)

  -- Self::transmit, and `unwrap` of its result.
  pub transmit_or_panic : ConsensusMessage → Option PublicKey → Exec Task (Unit {0})
  unfolding send_to
  transmit_or_panic message to = send_to message (addresses p.name to p.committee hotstuff)

  pub demand : Digest → Option Block → Map Digest (List Digest) → Map Digest (List Digest)
  demand d none demands = demands
  demand d (some b) demands =
      let key = Block.digest p.primitives b in
      insert key (set_insert d (lookup_or key [] demands)) demands

  -- What is written down of a request before it is sent.
  pub register : Digest → Option Block → ℕ → Task → Task
  unfolding demand
  register d block now t = record t {
    pending = insert d (now, block) t.pending;
    demands = demand d block t.demands;
  }

  pub request_missing : Option Block → PublicKey × Digest → Exec Task (Unit {0})
  unfolding read_clock_now transmit_or_panic register
  request_missing block (author, d) = do
    modify (λ t. record t { waiting = record { wait_on = d; block = block } ∷ t.waiting })
    now ← read_clock_now
    modify (register d block now)
    transmit_or_panic (sync_request d p.name) (some author)

  -- One request: nothing is done for a block that is in the store, or that is waited for already.
  pub request : Option Block → PublicKey × Digest → Exec Task (Unit {0})
  unfolding request_missing is_stored
  request block (author, d) t =
      let t' = emit (read d) t in
      if is_stored (p.db_get t'.trace d) || contains_key d t'.pending
      then (ok tt, t')
      else request_missing block (author, d) t'

  pub requests : List (PublicKey × Digest) → Option Block → Exec Task (Unit {0})
  unfolding request
  requests [] block = pure tt
  requests (r ∷ rs) block = let rest = requests rs block in do request block r; rest

  -- What is still demanded for a block.
  pub settle : Block → List Digest → Exec Task (Unit {0})
  settle b [] t = (
    ok tt,
    emit (looped_back b) (record t { demands = remove (Block.digest p.primitives b) t.demands }),
  )
  settle b (d ∷ ds) t =
      (ok tt, record t { demands = insert (Block.digest p.primitives b) (d ∷ ds) t.demands })

  pub demand_met : Digest → Option Block → Exec Task (Unit {0})
  unfolding settle
  demand_met d none = pure tt
  demand_met d (some b) = do
    t ← gets (λ t. t)
    demands_set ← lift (unwrap (lookup (Block.digest p.primitives b) t.demands))
    settle b (set_remove d demands_set)

  pub arrived : Block → Option Block → Exec Task (Unit {0})
  unfolding demand_met
  arrived request_block block = do
    modify (λ t. record t { pending = remove (Block.digest p.primitives request_block) t.pending })
    demand_met (Block.digest p.primitives request_block) block

  -- Self::waiter: an error of the store or of the bytes is logged.
  unfoldable pub waiter_result : StoreResult Bytes → Option Block
  waiter_result failed = none
  waiter_result (value bytes) = p.deserialize bytes

  pub handle_ready : Option Waiter → Option Block → Exec Task (Unit {0})
  unfolding arrived
  handle_ready none found = pure tt
  handle_ready (some w) none = pure tt
  handle_ready (some w) (some request_block) = arrived request_block w.block

  -- The timer asks everyone for what is overdue.
  pub retry : Digest × (ℕ × Option Block) → Exec Task (Unit {0})
  unfolding read_clock_now transmit_or_panic
  retry (d, (timestamp, block)) = do
    now ← read_clock_now
    if ltb (timestamp + p.sync_retry_delay) now
        then transmit_or_panic (sync_request d p.name) none
        else pure tt

  pub retries : Map Digest (ℕ × Option Block) → Exec Task (Unit {0})
  unfolding retry
  retries [] = pure tt
  retries (entry ∷ entries) = let rest = retries entries in do retry entry; rest

  abbrev drop_waiter : ℕ → Task → Task
  drop_waiter i t = record t { waiting = remove_at i t.waiting }

  -- One turn of the loop.
  pub step : Input → Exec Task (Unit {0})
  unfolding requests waiter_result handle_ready retries
  step (requested rs block) t = requests rs block t
  step (ready i result) t =
      handle_ready (get_elem? t.waiting i) (waiter_result result) (drop_waiter i t)
  step timer t = retries t.pending t

  pub run : List Input → Exec Task (Unit {0})
  unfolding step
  run [] = pure tt
  run (input ∷ inputs) = let rest = run inputs in do step input; rest

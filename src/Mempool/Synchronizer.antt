-- ===== src/Mempool/Synchronizer.antt =====
-- mempool/src/synchronizer.rs: the task that asks other nodes for payloads that are missing, and
-- loops back the block that waits for them. `select!` may take a message, a future that is ready or
-- the timer, so a run is a sequence of inputs. The clock is a function of what the task has done.
pub mod Cleaning
use hotstuff_dag.Config.{SocketAddr}
use hotstuff_dag.Crypto.{Digest, Primitives, PublicKey}
use hotstuff_dag.Mempool.Config.{Committee, broadcast_addresses, mempool_address}
use hotstuff_dag.Mempool.Error.{MempoolResult, err, ok}
use hotstuff_dag.Mempool.Messages.{MempoolMessage, payload_request}
use hotstuff_dag.Messages.Block
use hotstuff_dag.Messages.Block.{Block}
use hotstuff_dag.Prelude.{
  Bool, List, Map, Option, [], bytes_eq, contains_key, false, get_elem?, if◌then◌else◌, insert,
  keep, leb, lookup, ltb, nat_eq, none, not, pair_eq, quad_eq, remove, remove_at, some, true, ℕ,
  ◌+◌, ◌∷◌,
}
use hotstuff_dag.Store.Obligations.{waiting}
use hotstuff_dag.Synchronizer.{requests}

pub data Event : Type 0 where
  read_clock : Event
  sent : MempoolMessage → List SocketAddr → Event
  looped_back : Block → Event

-- A future of `Self::waiter`, which waits for all that is missing or to be cancelled.
pub record Waiter : Type 0 where
  pub missing : List Digest
  pub deliver : Block
  pub cancelled : Bool

-- `pending` has the round of each block that waits; its handler is the waiter with that block.
pub record Task : Type 0 where
  pub pending : Map Digest ℕ
  pub requests : Map Digest (ℕ × ℕ)
  pub waiting : List Waiter
  pub trace : List Event

pub record Params : Type 0 where
  pub name : PublicKey
  pub committee : Committee
  pub sync_retry_delay : ℕ
  pub primitives : Primitives
  pub clock : List Event → ℕ

pub data SynchronizerMessage : Type 0 where
  sync : List Digest → Block → SynchronizerMessage
  clean : ℕ → SynchronizerMessage

-- How a waiter ends: it has read everything, the store has failed, or it was cancelled.
pub data Wake : Type 0 where
  all_read store_failed was_cancelled : Wake

pub data Input : Type 0 where
  message : SynchronizerMessage → Input
  ready : ℕ → Wake → Input
  timer : Input

-- A task goes on, or has panicked in `expect`.
abbrev pub Turn : Type 0
Turn = Option Task

pub new : Task
new = record { pending = []; requests = []; waiting = []; trace = [] }

abbrev pub emit : Event → Task → Task
emit e t = record t { trace = e ∷ t.trace }

unfoldable pub one_address : MempoolResult SocketAddr → MempoolResult (List SocketAddr)
one_address (ok a) = ok (a ∷ [])
one_address (err e) = err e

-- The addresses of `Self::transmit`: one node, or all others.
unfoldable pub addresses :
    PublicKey → Option PublicKey → Committee → MempoolResult (List SocketAddr)
unfolding one_address
addresses from (some to) committee = one_address (mempool_address committee to)
addresses from none committee = ok (broadcast_addresses committee from)

send_to : MempoolMessage → MempoolResult (List SocketAddr) → Task → Turn
send_to m (ok to_addresses) t = some (emit (sent m to_addresses) t)
send_to m (err e) t = none

-- `requests.insert` for each digest that nobody has been asked for.
note_requests : ℕ × ℕ → List Digest → Map Digest (ℕ × ℕ) → Map Digest (ℕ × ℕ)
note_requests entry [] requests = requests
note_requests entry (x ∷ xs) requests = note_requests entry xs (insert x entry requests)

-- `requests.remove` for each digest of a payload.
forget_requests : List Digest → Map Digest (ℕ × ℕ) → Map Digest (ℕ × ℕ)
forget_requests [] requests = requests
forget_requests (x ∷ xs) requests = forget_requests xs (remove x requests)

-- `retain` by a test on the round.
retain_rounds : ℕ → Map Digest ℕ → Map Digest ℕ
retain_rounds round [] = []
retain_rounds round ((d, r) ∷ m) =
    let rest = retain_rounds round m in if ltb round r then (d, r) ∷ rest else rest

retain_requests : ℕ → Map Digest (ℕ × ℕ) → Map Digest (ℕ × ℕ)
retain_requests round [] = []
retain_requests round ((d, (r, timestamp)) ∷ m) =
    let rest = retain_requests round m in if ltb round r then (d, (r, timestamp)) ∷ rest else rest

-- What is overdue at `now`.
overdue : ℕ → ℕ → Map Digest (ℕ × ℕ) → List Digest
overdue delay now [] = []
overdue delay now ((d, (r, timestamp)) ∷ m) =
    let rest = overdue delay now m in if ltb (timestamp + delay) now then d ∷ rest else rest

-- The rounds that are cleaned.
abbrev is_past : ℕ → Option ℕ → Bool
is_past round none = false
is_past round (some r) = leb r round

module _ (p : Params) where
  abbrev block_digest : Block → Digest
  block_digest b = Block.digest p.primitives b

  -- `handler.send(())` to each pending block that is cleaned.
  cancel_pending : Map Digest ℕ → ℕ → List Waiter → List Waiter
  cancel_pending pending round [] = []
  cancel_pending pending round (w ∷ ws) =
      let rest = cancel_pending pending round ws in
      if is_past round (lookup (block_digest w.deliver) pending)
      then record w { cancelled = true } ∷ rest
      else w ∷ rest

  -- Asks the author of the block for what has not been asked for yet.
  ask : Block → List Digest → Task → Turn
  unfolding send_to note_requests addresses
  ask block [] t = some t
  ask block (x ∷ xs) t =
      send_to (payload_request (x ∷ xs) p.name) (addresses p.name (some block.author) p.committee)
        (record t {
          requests = note_requests (block.height, p.clock t.trace) (x ∷ xs) t.requests;
          trace = read_clock ∷ t.trace;
        })

  abbrev unasked : List Digest → Task → List Digest
  unasked missing t = keep (λ x. not (contains_key x t.requests)) missing

  abbrev start_waiting : List Digest → Block → Task → Task
  start_waiting missing block t = record t {
    pending = insert (block_digest block) block.height t.pending;
    waiting = record { missing = missing; deliver = block; cancelled = false } ∷ t.waiting;
  }

  handle_message : SynchronizerMessage → Task → Turn
  unfolding ask cancel_pending retain_rounds retain_requests
  handle_message (sync missing block) t =
      if contains_key (block_digest block) t.pending
      then some t
      else ask block (unasked missing t) (start_waiting missing block t)
  handle_message (clean round) t = some (record t {
    waiting = cancel_pending t.pending round t.waiting;
    pending = retain_rounds round t.pending;
    requests = retain_requests round t.requests;
  })

  finish : Wake → Option Waiter → Task → Task
  unfolding forget_requests
  finish all_read (some w) t = record t {
    pending = remove (block_digest w.deliver) t.pending;
    requests = forget_requests w.deliver.payload t.requests;
    trace = looped_back w.deliver ∷ t.trace;
  }
  finish all_read none t = t
  finish store_failed w t = t
  finish was_cancelled w t = t

  retransmit : List Digest → Task → Turn
  unfolding send_to addresses
  retransmit [] t = some t
  retransmit (x ∷ xs) t =
      send_to (payload_request (x ∷ xs) p.name) (addresses p.name none p.committee) t

  -- One turn of the loop.
  pub step : Input → Task → Turn
  unfolding handle_message finish retransmit overdue
  step (message m) t = handle_message m t
  step (ready i wake) t =
      some (finish wake (get_elem? t.waiting i) (record t { waiting = remove_at i t.waiting }))
  step timer t =
      retransmit (overdue p.sync_retry_delay (p.clock t.trace) t.requests) (emit read_clock t)

  pub run : List Input → Task → Turn
  unfolding step
  run [] t = some t
  run (input ∷ inputs) t = elim (step input t) [ none ↦ none | some t' ↦ run inputs t' ]

-- ===== src/Network.antt =====
-- network/src/lib.rs: the sender, which keeps a worker for each address, and the tasks of the workers
-- on both sides of a connection. Sockets, their framing and bincode are parameters: what they answer
-- is an argument. A send on a full channel waits, so a queue has no bound here.
pub mod Queues
pub mod Order
pub mod Delivery
use hotstuff_dag.Config.{SocketAddr, address, id}
use hotstuff_dag.Core.Outside.{addresses}
use hotstuff_dag.Prelude.{
  Bool, List, Map, Option, [], bytes_eq, false, if◌then◌else◌, insert, lookup, nat_eq, none, not,
  pair_eq, quad_eq, some, suc, true, ℕ, ◌++◌, ◌∷◌,
}
use hotstuff_dag.World.{Bytes}

pub record NetMessage : Type 0 where
  pub bytes : Bytes
  pub addresses : List SocketAddr

-- The channel of a worker with all that was ever put into it, oldest first, and whether the worker
-- still holds its receiving end.
pub record Worker : Type 0 where
  pub address : SocketAddr
  pub queue : List Bytes
  pub is_open : Bool

-- The local state of `NetSender::run`; workers have numbers in the order in which they are spawned.
pub record NetSender : Type 0 where
  pub senders : Map SocketAddr ℕ
  pub workers : Map ℕ Worker
  pub spawned : ℕ

pub new : NetSender
new = record { senders = []; workers = []; spawned = 0 }

-- `tx.send(bytes).await.is_err()`, and the channel afterwards.
pub send : ℕ → Bytes → NetSender → Bool × NetSender
send id bytes s = elim (lookup id s.workers) [
  | none ↦ (true, s)
  | some w ↦
      if w.is_open
      then (
        false,
        record s { workers = insert id (record w { queue = w.queue ++ bytes ∷ [] }) s.workers },
      )
      else (true, s)
]

-- What happens next: a message comes, or a worker returns and drops its receiving end.
pub data Input : Type 0 where
  received : NetMessage → Input
  worker_ended : ℕ → Input

pub end_worker : ℕ → NetSender → NetSender
end_worker id s = elim (lookup id s.workers) [
  | none ↦ s
  | some w ↦ record s { workers = insert id (record w { is_open = false }) s.workers }
]

-- `refuses` says of which workers the connection fails before they are given a message.
module _ (refuses : ℕ → Bool) where
  -- NetSender::spawn_worker
  pub spawn_worker : SocketAddr → NetSender → NetSender
  spawn_worker address s = record s {
    workers =
        insert s.spawned
          (record { address = address; queue = []; is_open = not (refuses s.spawned) }) s.workers;
    spawned = suc s.spawned;
  }

  pub spawn_and_send : SocketAddr → Bytes → NetSender → NetSender
  unfolding spawn_worker send
  spawn_and_send address bytes s =
      let (is_err, s') = send s.spawned bytes (spawn_worker address s) in
      if is_err then s' else record s' { senders = insert address s.spawned s'.senders }

  -- The body of the loop over the addresses.
  pub send_to : SocketAddr → Bytes → NetSender → NetSender
  unfolding spawn_and_send send
  send_to address bytes s = elim (lookup address s.senders) [
    | none ↦ spawn_and_send address bytes s
    | some id ↦
        let (is_err, s') = send id bytes s in if is_err then spawn_and_send address bytes s' else s'
  ]

  pub send_all : Bytes → List SocketAddr → NetSender → NetSender
  unfolding send_to
  send_all bytes [] s = s
  send_all bytes (address ∷ addresses) s = send_all bytes addresses (send_to address bytes s)

  pub step : Input → NetSender → NetSender
  unfolding send_all end_worker
  step (received m) s = send_all m.bytes m.addresses s
  step (worker_ended id) s = end_worker id s

  -- NetSender::run
  pub run : List Input → NetSender → NetSender
  unfolding step
  run [] s = s
  run (i ∷ inputs) s = run inputs (step i s)

-- The task of NetSender::spawn_worker: whether the connection is made, and whether each send on it
-- succeeds. It gives what was sent.
pub transmit_all : List Bool → List Bytes → List Bytes
transmit_all [] queue = []
transmit_all (sends ∷ results) [] = []
transmit_all (sends ∷ results) (bytes ∷ queue) =
    let rest = transmit_all results queue in if sends then bytes ∷ rest else []

pub sender_worker : Bool → List Bool → List Bytes → List Bytes
unfolding transmit_all
sender_worker connected results queue = if connected then transmit_all results queue else []

-- A frame of the transport, or its error.
pub data Frame : Type 0 where
  frame : Bytes → Frame
  broken : Frame

module _ {Message : Type 0} (deserialize : Bytes → Option Message) where
  pub read_frame : Frame → Option Message
  read_frame (frame bytes) = deserialize bytes
  read_frame broken = none

  -- The task of NetReceiver::spawn_worker: what it delivers. The first frame that is broken or does
  -- not parse ends it.
  pub receiver_worker : List Frame → List Message
  unfolding read_frame
  receiver_worker [] = []
  receiver_worker (f ∷ frames) =
      let rest = receiver_worker frames in elim (read_frame f) [ none ↦ [] | some m ↦ m ∷ rest ]

-- ===== src/Mempool/State.antt =====
-- mempool/src/core.rs: the core of the mempool, with the queue of its own payloads and that of the
-- payloads of others. A HashSet is a list without duplicates; the order in which it is iterated and
-- the capacity it has are answers of the collection, which may depend on all that the core has
-- done. So are the answers of the store (a key is the digest that it spells) and of the runner
-- behind the payload maker. Logging is left out.
use hotstuff_dag.Config.{SocketAddr}
use hotstuff_dag.Crypto.{Digest, Primitives, PublicKey}
use hotstuff_dag.Mempool.Config.{Committee, Parameters}
use hotstuff_dag.Mempool.Messages.{MempoolMessage, Payload}
use hotstuff_dag.Messages.Block.{Block}
use hotstuff_dag.Prelude.{List, Option, [], set_remove, ℕ, ◌∷◌}
use hotstuff_dag.Store.{StoreResult}
use hotstuff_dag.World.{Bytes, PayloadStatus}

pub data Event : Type 0 where
  sent : MempoolMessage → List SocketAddr → Event
  wrote : Digest → Bytes → Event
  read : Digest → Event
  asked_runner : Event
  synced : List Digest → Block → Event
  cleaned : ℕ → Event
  replied_get : List Digest → Event
  replied_verify : PayloadStatus → Event

pub record Core : Type 0 where
  pub name : PublicKey
  pub committee : Committee
  pub parameters : Parameters
  pub opt_queue : List Digest
  pub pes_queue : List Digest
  pub trace : List Event

-- What the core does not implement itself.
pub record Env : Type 0 where
  pub primitives : Primitives
  pub db_get : List Event → Digest → StoreResult (Option Bytes)
  pub serialize : Payload → Bytes
  pub deserialize : Bytes → Option Payload
  pub runner_make : List Event → Payload
  pub opt_capacity : List Event → ℕ
  pub pes_capacity : List Event → ℕ
  pub iterate : List Event → List Digest → List Digest

-- consensus/src/mempool.rs: ConsensusMempoolMessage, without the channels of the answers.
pub data ConsensusMempoolMessage : Type 0 where
  get : ℕ → ConsensusMempoolMessage
  verify : Block → ConsensusMempoolMessage
  cleanup_blocks : List Digest → ℕ → ConsensusMempoolMessage

pub data Input : Type 0 where
  core_channel : MempoolMessage → Input
  consensus_channel : ConsensusMempoolMessage → Input

-- Core::new
pub new : PublicKey → Committee → Parameters → Core
new name committee parameters = record {
  name = name;
  committee = committee;
  parameters = parameters;
  opt_queue = [];
  pes_queue = [];
  trace = [];
}

abbrev pub emit : Event → Core → Core
emit e c = record c { trace = e ∷ c.trace }

-- `HashSet::remove` for each digest of a list.
unfoldable pub remove_all : List Digest → List Digest → List Digest
remove_all [] queue = queue
remove_all (x ∷ xs) queue = remove_all xs (set_remove x queue)

-- `Digest::default().size()`
abbrev pub digest_len : ℕ
digest_len = 32

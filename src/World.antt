-- ===== src/World.antt =====
-- What the consensus core exchanges with its surroundings: the messages (consensus/src/core.rs),
-- and the trace of all that the core has done to or asked of the network, the store, the
-- synchronizer, the mempool and the application. Every answer from outside is a function of the
-- trace so far, the question included, so two equal questions may be answered differently.
use hotstuff_dag.Config.{SocketAddr}
use hotstuff_dag.Crypto.{Digest, Primitives, PublicKey}
use hotstuff_dag.Messages.Aba.{AbaProof, AbaVal}
use hotstuff_dag.Messages.Block.{Block}
use hotstuff_dag.Messages.Coin.{RandomnessShare}
use hotstuff_dag.Messages.Tc.{Tc}
use hotstuff_dag.Messages.Timeout.{Timeout}
use hotstuff_dag.Messages.Vote.{Vote}
use hotstuff_dag.Prelude.{List, Option, ℕ}
use hotstuff_dag.Store.{StoreResult}

pub data ConsensusMessage : Type 0 where
  propose : Block → ConsensusMessage
  vote : Vote → ConsensusMessage
  loop_back : Block → ConsensusMessage
  sync_request : Digest → PublicKey → ConsensusMessage
  sync_reply : Block → ConsensusMessage
  timeout : Timeout → ConsensusMessage
  tc : Tc → ConsensusMessage
  aba_val : AbaVal → ConsensusMessage
  aba_proof : AbaProof → ConsensusMessage
  aba_coin_share : RandomnessShare → ConsensusMessage

-- The two filters of outgoing messages, `network_filter` and `network_filter_smvba`.
pub data Network : Type 0 where
  network_filter network_filter_smvba : Network

abbrev pub Bytes : Type 0
Bytes = List ℕ

pub data Event : Type 0 where
  sent : Network → ConsensusMessage → List SocketAddr → Event
  wrote : Digest → Bytes → Event
  read : Digest → Event
  requested : List (PublicKey × Digest) → Option Block → Event
  asked_payload : ℕ → Event
  asked_verify : Block → Event
  cleaned_up : List Digest → ℕ → Event
  committed : Block → Event

-- The newest event first.
abbrev pub Trace : Type 0
Trace = List Event

-- consensus/src/mempool.rs: PayloadStatus
pub data PayloadStatus : Type 0 where
  accept reject wait : PayloadStatus

-- The code that is not the repository's (signatures, the database behind the store, bincode), and
-- the answers of the mempool's task.
pub record Env : Type 0 where
  pub primitives : Primitives
  pub db_get : Trace → Digest → StoreResult (Option Bytes)
  pub serialize : Block → Bytes
  pub deserialize : Bytes → Option Block
  pub mempool_get : Trace → ℕ → List Digest
  pub mempool_verify : Trace → Block → PayloadStatus

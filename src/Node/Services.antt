-- ===== src/Node/Services.antt =====
-- The tasks that the start of a node spawns, each with what it is told. The channels between them are
-- left out.
use hotstuff_dag.Config
use hotstuff_dag.Config.{SocketAddr}
use hotstuff_dag.Crypto.Keys.{SecretKey}
use hotstuff_dag.Crypto.{PublicKey}
use hotstuff_dag.Mempool
use hotstuff_dag.Node.Files.{FilePath}
use hotstuff_dag.Prelude.{List, ℕ}

pub data Service : Type 0 where
  store : FilePath → Service
  signatures : SecretKey → Service
  threshold_signatures : ℕ → Service
  front : SocketAddr → Service
  mempool_receiver : SocketAddr → Service
  mempool_sender : Service
  mempool_synchronizer : PublicKey → ℕ → Service
  payload_maker : PublicKey → ℕ → ℕ → Service
  mempool_core : PublicKey → Mempool.Config.Committee → Mempool.Config.Parameters → Service
  consensus_receiver : SocketAddr → Service
  smvba_receiver : SocketAddr → Service
  consensus_sender : Service
  smvba_sender : Service
  filter : Config.Parameters → Config.Committee → Service
  consensus_synchronizer : PublicKey → Config.Committee → ℕ → Service
  consensus_core : PublicKey → Config.Committee → Config.Parameters → Service

-- What runs, the newest first.
abbrev pub Running : Type 0
Running = List Service

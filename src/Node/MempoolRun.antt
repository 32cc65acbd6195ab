-- ===== src/Node/MempoolRun.antt =====
-- mempool/src/mempool.rs: the start of the mempool's tasks. `any_ip` is `set_ip("0.0.0.0")`.
use hotstuff_dag.Config.{SocketAddr}
use hotstuff_dag.Crypto.{PublicKey}
use hotstuff_dag.Mempool
use hotstuff_dag.Mempool.Error.{MempoolError, MempoolResult, err, ok}
use hotstuff_dag.Node.Services.{
  Running, front, mempool_core, mempool_receiver, mempool_sender, mempool_synchronizer,
  payload_maker,
}
use hotstuff_dag.Prelude.{Option, none, some, ◌∷◌}

module _ (any_ip : SocketAddr → SocketAddr) where
  -- The tasks that Mempool::run spawns after the front end and the receiver.
  unfoldable pub mempool_tasks :
      PublicKey → Mempool.Config.Committee → Mempool.Config.Parameters → Running → Running
  mempool_tasks name committee parameters running =
      mempool_core name committee parameters
      ∷ payload_maker name parameters.max_payload_size parameters.min_block_delay
      ∷ mempool_synchronizer name parameters.sync_retry_delay
      ∷ mempool_sender
      ∷ running

  unfoldable pub start_mempool_receiver :
      PublicKey
      → Mempool.Config.Committee
      → Mempool.Config.Parameters
      → MempoolResult SocketAddr
      → Running
      → MempoolResult (Unit {0}) × Running
  unfolding mempool_tasks
  start_mempool_receiver name committee parameters (err e) running = (err e, running)
  start_mempool_receiver name committee parameters (ok a) running =
      (ok tt, mempool_tasks name committee parameters (mempool_receiver (any_ip a) ∷ running))

  unfoldable pub start_front :
      PublicKey
      → Mempool.Config.Committee
      → Mempool.Config.Parameters
      → MempoolResult SocketAddr
      → Running
      → MempoolResult (Unit {0}) × Running
  unfolding start_mempool_receiver
  start_front name committee parameters (err e) running = (err e, running)
  start_front name committee parameters (ok a) running =
      start_mempool_receiver name committee parameters
        (Mempool.Config.mempool_address committee name) (front (any_ip a) ∷ running)

  -- Mempool::run
  unfoldable pub mempool_run :
      PublicKey
      → Mempool.Config.Committee
      → Mempool.Config.Parameters
      → Running
      → MempoolResult (Unit {0}) × Running
  unfolding start_front
  mempool_run name committee parameters running =
      start_front name committee parameters (Mempool.Config.front_address committee name) running

-- What `?` passes on.
unfoldable pub error_of : {A : Type 0} → MempoolResult A → Option MempoolError
error_of (ok a) = none
error_of (err e) = some e

-- ===== src/Node/ConsensusRun.antt =====
-- consensus/src/consensus.rs: the start of the consensus tasks; the sleep is left out. `any_ip` is
-- `set_ip("0.0.0.0")`.
use hotstuff_dag.Config
use hotstuff_dag.Config.{SocketAddr, address, smvba_address}
use hotstuff_dag.Crypto.{PublicKey}
use hotstuff_dag.Error.{Result, err, ok, out_of_fuel, panic}
use hotstuff_dag.Node.Services.{
  Running, consensus_core, consensus_receiver, consensus_sender, consensus_synchronizer, filter,
  smvba_receiver, smvba_sender,
}
use hotstuff_dag.Prelude.{◌∷◌}

module _ (any_ip : SocketAddr → SocketAddr) where
  -- The tasks that Consensus::run spawns after the two receivers.
  unfoldable pub consensus_tasks :
      PublicKey → Config.Committee → Config.Parameters → Running → Running
  consensus_tasks name committee parameters running =
      consensus_core name committee parameters
      ∷ consensus_synchronizer name committee parameters.sync_retry_delay
      ∷ filter parameters committee
      ∷ smvba_sender
      ∷ consensus_sender
      ∷ running

  unfoldable pub start_smvba_receiver :
      PublicKey
      → Config.Committee
      → Config.Parameters
      → Result SocketAddr
      → Running
      → Result (Unit {0}) × Running
  unfolding consensus_tasks
  start_smvba_receiver name committee parameters (err e) running = (err e, running)
  start_smvba_receiver name committee parameters panic running = (panic, running)
  start_smvba_receiver name committee parameters out_of_fuel running = (out_of_fuel, running)
  start_smvba_receiver name committee parameters (ok a) running =
      (ok tt, consensus_tasks name committee parameters (smvba_receiver (any_ip a) ∷ running))

  unfoldable pub start_consensus_receiver :
      PublicKey
      → Config.Committee
      → Config.Parameters
      → Result SocketAddr
      → Running
      → Result (Unit {0}) × Running
  unfolding start_smvba_receiver
  start_consensus_receiver name committee parameters (err e) running = (err e, running)
  start_consensus_receiver name committee parameters panic running = (panic, running)
  start_consensus_receiver name committee parameters out_of_fuel running = (out_of_fuel, running)
  start_consensus_receiver name committee parameters (ok a) running =
      start_smvba_receiver name committee parameters (smvba_address committee name)
        (consensus_receiver (any_ip a) ∷ running)

  -- Consensus::run
  unfoldable pub consensus_run :
      PublicKey → Config.Committee → Config.Parameters → Running → Result (Unit {0}) × Running
  unfolding start_consensus_receiver
  consensus_run name committee parameters running =
      start_consensus_receiver name committee parameters (address committee name) running

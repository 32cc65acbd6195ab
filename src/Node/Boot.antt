-- ===== src/Node/Boot.antt =====
-- node/src/node.rs: Node::new, the start of a node from its files.
use hotstuff_dag.Config
use hotstuff_dag.Config.{SocketAddr}
use hotstuff_dag.Error.{err, ok, out_of_fuel, panic}
use hotstuff_dag.Mempool
use hotstuff_dag.Mempool.Error.{MempoolError}
use hotstuff_dag.Node.ConsensusRun.{consensus_run}
use hotstuff_dag.Node.Files.{
  Committee, Disk, Json, NodeError, NodeResult, Parameters, FilePath, Secret, SecretShare,
  consensus_error, content, fault, mempool_error, read, store_error,
}
use hotstuff_dag.Node.MempoolRun.{error_of, mempool_run}
use hotstuff_dag.Node.Services.{Running, Service, signatures, threshold_signatures}
use hotstuff_dag.Prelude.{Bool, Option, [], if◌then◌else◌, none, some, ◌∷◌}

-- What the start of a node gives: it is booted, or it has failed by an error or a panic.
pub data BootResult : Type 0 where
  booted : BootResult
  failed : NodeError → BootResult
  panicked : BootResult

-- The formats of the files, the default parameters and the outcome of opening the database.
pub record Surroundings : Type 0 where
  pub committee_format : Json Committee
  pub secret_format : Json Secret
  pub share_format : Json SecretShare
  pub parameters_format : Json Parameters
  pub opens : FilePath → Bool
  pub any_ip : SocketAddr → SocketAddr

abbrev pub default_node_parameters : Parameters
default_node_parameters = record {
  consensus = Config.default_parameters;
  mempool = Mempool.Config.default;
  protocol = 0;
}

-- `?` on a file: the rest runs on what was read.
abbrev pub with_file :
    {A : Type 0} → NodeResult A → (A → BootResult × Running) → BootResult × Running
with_file (content a) next = next a
with_file (fault e) next = (failed e, [])

module _ (s : Surroundings) where
  unfoldable pub start_consensus :
      Committee → Secret → Parameters → Option MempoolError → Running → BootResult × Running
  start_consensus committee secret parameters (some e) running = (failed (mempool_error e), running)
  start_consensus committee secret parameters none running =
      let (r, running') =
        consensus_run s.any_ip secret.name committee.consensus parameters.consensus running in
      elim r [
        | ok u ↦ (booted, running')
        | err e ↦ (failed (consensus_error e), running')
        | panic ↦ (panicked, running')
        | out_of_fuel ↦ (panicked, running')
      ]

  -- Node::new after the files have been read.
  unfoldable pub start_tasks :
      Committee → Secret → SecretShare → FilePath → Parameters → BootResult × Running
  unfolding start_consensus
  start_tasks committee secret share store_path parameters =
      if s.opens store_path
      then (let (r, running) =
            mempool_run s.any_ip secret.name committee.mempool parameters.mempool (
              threshold_signatures share.secret
              ∷ signatures secret.secret
              ∷ Service.store store_path
              ∷ []) in
          start_consensus committee secret parameters (error_of r) running)
      else (failed store_error, [])

  unfoldable pub read_parameters : Option FilePath → Disk → NodeResult Parameters
  read_parameters none disk = content default_node_parameters
  read_parameters (some path) disk = read s.parameters_format path disk

  -- Node::new
  unfoldable pub new :
      FilePath → FilePath → FilePath → FilePath → Option FilePath → Disk → BootResult × Running
  unfolding read_parameters
  new committee_file key_file tss_file store_path parameters_file disk =
      with_file (read s.committee_format committee_file disk) (λ committee.
        with_file (read s.secret_format key_file disk) (λ secret.
          with_file (read s.share_format tss_file disk) (λ share.
            with_file (read_parameters parameters_file disk)
              (λ parameters. start_tasks committee secret share store_path parameters))))

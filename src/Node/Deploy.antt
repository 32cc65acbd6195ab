-- ===== src/Node/Deploy.antt =====
-- node/src/main.rs: `deploy_testbed`, a network of nodes on one machine; and the files of the
-- threshold keys (node/src/node.rs). `local` is the address of a port of 127.0.0.1, and the fresh
-- key pairs are given.
pub mod Testbed
use hotstuff_dag.Config
use hotstuff_dag.Config.{SocketAddr, address, id, smvba_address, stake}
use hotstuff_dag.Crypto.{PublicKey}
use hotstuff_dag.Error.{Result, err, ok, out_of_fuel, panic}
use hotstuff_dag.Mempool
use hotstuff_dag.Node.Boot
use hotstuff_dag.Node.Boot.{BootResult, Surroundings}
use hotstuff_dag.Node.Files.{
  Committee, Disk, NodeResult, FilePath, Secret, SecretShare, committee_json, content, db_path,
  fault, node_json, remove_file, write,
}
use hotstuff_dag.Node.Services.{Running}
use hotstuff_dag.Prelude.{List, [], length, none, suc, zero, ℕ, ◌+◌, ◌/◌, ◌∷◌}

mempool_info : (ℕ → SocketAddr) → ℕ → List Secret → List (PublicKey × SocketAddr × SocketAddr)
mempool_info local i [] = []
mempool_info local i (key ∷ keys') =
    (key.name, local (7000 + i), local (7100 + i)) ∷ mempool_info local (suc i) keys'

-- The id for the threshold signatures is 0 for every node.
consensus_info : (ℕ → SocketAddr) → ℕ → List Secret → List Config.Authority
consensus_info local i [] = []
consensus_info local i (key ∷ keys') =
    record {
      name = key.name;
      id = 0;
      stake = 1;
      address = local (7200 + i);
      smvba_address = local (7300 + i);
    }
    ∷ consensus_info local (suc i) keys'

testbed_committee : (ℕ → SocketAddr) → List Secret → Committee
unfolding mempool_info consensus_info
testbed_committee local keys' = record {
  consensus = Config.new (consensus_info local 0 keys') 1;
  mempool = Mempool.Config.new (mempool_info local 0 keys') 1;
}

module _ (s : Surroundings) where
  -- The files of one node; it is spawned where they have been written.
  unfoldable pub deploy_node : ℕ → Secret → Disk → NodeResult (Unit {0}) × Disk
  deploy_node i key disk = write s.secret_format key (node_json i) (remove_file (node_json i) disk)

  -- Node::new as the testbed calls it: the file of the keys is also given as that of the threshold
  -- keys.
  unfoldable pub boot_node : ℕ → Disk → BootResult × Running
  boot_node i disk = Boot.new s committee_json (node_json i) (node_json i) (db_path i) none disk

  -- The nodes that are spawned, each with how its start ends.
  unfoldable pub deploy_nodes : ℕ → List Secret → Disk → NodeResult (List BootResult) × Disk
  unfolding deploy_node boot_node
  deploy_nodes i [] disk = (content [], disk)
  deploy_nodes i (key ∷ keys') disk =
      let (r, disk') = deploy_node i key disk in
      let (rest, disk'') = deploy_nodes (suc i) keys' disk' in
      elim r [
        | fault e ↦ (fault e, disk')
        | content u ↦ elim rest [
          | fault e ↦ (fault e, disk'')
          | content others ↦ (content ((boot_node i disk').0 ∷ others), disk'')
        ]
      ]

  -- deploy_testbed
  unfoldable pub deploy_testbed :
      (ℕ → SocketAddr) → List Secret → Disk → NodeResult (List BootResult) × Disk
  unfolding testbed_committee deploy_nodes
  deploy_testbed local keys' disk =
      let (r, disk') =
        write s.committee_format (testbed_committee local keys') committee_json
          (remove_file committee_json disk) in
      elim r [ fault e ↦ (fault e, disk') | content u ↦ deploy_nodes 0 keys' disk' ]

-- Node::print_key_file, with the fresh keys of Secret::new.
unfoldable print_key_file : Surroundings → Secret → FilePath → Disk → NodeResult (Unit {0}) × Disk
print_key_file s key filename disk = write s.secret_format key filename disk

-- Node::print_threshold_key_file: the threshold of the secret that is shared among `size` nodes, and
-- where the subtraction underflows.
unfoldable pub share_threshold : ℕ → Result ℕ
share_threshold zero = panic
share_threshold (suc n) = ok (n / 3)

module _ (s : Surroundings) (share_of : ℕ → ℕ → SecretShare) where
  write_shares : ℕ → ℕ → List FilePath → Disk → NodeResult (Unit {0}) × Disk
  write_shares threshold id [] disk = (content tt, disk)
  write_shares threshold id (filename ∷ filenames) disk =
      let (r, disk') = write s.share_format (share_of threshold id) filename disk in
      let rest = write_shares threshold (suc id) filenames disk' in
      elim r [ fault e ↦ (fault e, disk') | content u ↦ rest ]

  -- Node::print_threshold_key_file; `share_of t id` is the share of that id of a fresh secret of the
  -- threshold t.
  print_threshold_key_file : List FilePath → Disk → Result (NodeResult (Unit {0}) × Disk)
  unfolding share_threshold write_shares
  print_threshold_key_file filenames disk = elim (share_threshold (length filenames)) [
    | ok threshold ↦ ok (write_shares threshold 0 filenames disk)
    | err e ↦ err e
    | panic ↦ panic
    | out_of_fuel ↦ out_of_fuel
  ]

-- ===== src/Node/Files.antt =====
-- node/src/config.rs: what a node keeps in files, and the trait `Export` that reads and writes it.
-- serde_json is a parameter for each type. A path is a pair of numbers: what kind of name it is and
-- which one.
pub mod Leftovers
use hotstuff_dag.Config
use hotstuff_dag.Config.{id}
use hotstuff_dag.Crypto.Keys.{SecretKey}
use hotstuff_dag.Crypto.{PublicKey}
use hotstuff_dag.Error.{ConsensusError}
use hotstuff_dag.Mempool
use hotstuff_dag.Mempool.Error.{MempoolError}
use hotstuff_dag.Prelude.{
  Bool, List, Map, Option, [], bytes_eq, drop, if◌then◌else◌, insert, length, lookup, lookup_or,
  nat_eq, none, pair_eq, quad_eq, remove, some, ℕ, ◌++◌, ◌∷◌,
}

abbrev pub FilePath : Type 0
FilePath = ℕ × ℕ

abbrev pub committee_json : FilePath
committee_json = (1, 0)

-- `format!("node_{}.json", i)`
abbrev pub node_json : ℕ → FilePath
node_json i = (2, i)

-- `format!("db_{}", i)`
abbrev pub db_path : ℕ → FilePath
db_path i = (3, i)

-- Without the texts of the messages.
pub data NodeError : Type 0 where
  read_error : FilePath → NodeError
  write_error : FilePath → NodeError
  store_error : NodeError
  consensus_error : ConsensusError → NodeError
  mempool_error : MempoolError → NodeError

pub data NodeResult (A : Type 0) : Type 0 where
  content : A → NodeResult A
  fault : NodeError → NodeResult A

-- The files that are there, and what the operating system lets the process do.
pub record Disk : Type 0 where
  pub files : Map FilePath (List ℕ)
  pub readable : FilePath → Bool
  pub writable : FilePath → Bool
  pub removable : FilePath → Bool

-- `serde_json::from_slice` and `serde_json::to_string_pretty`, which does not fail on these types.
pub record Json (A : Type 0) : Type 0 where
  pub from_slice : List ℕ → Option A
  pub to_string_pretty : A → List ℕ

pub record Parameters : Type 0 where
  pub consensus : Config.Parameters
  pub mempool : Mempool.Config.Parameters
  pub protocol : ℕ

pub record Secret : Type 0 where
  pub name : PublicKey
  pub secret : SecretKey

pub record Committee : Type 0 where
  pub consensus : Config.Committee
  pub mempool : Mempool.Config.Committee

-- `SecretShare` of crypto/src/lib.rs: the node's share of the threshold secret; what the share and
-- the set of public keys hold is not looked at.
pub record SecretShare : Type 0 where
  pub id : ℕ
  pub name : ℕ
  pub secret : ℕ
  pub pkset : ℕ

pub newline : List ℕ
newline = 10 ∷ []

-- A file that is opened without `truncate` keeps what stands behind what is written.
abbrev pub overwrite : List ℕ → List ℕ → List ℕ
overwrite data' old = data' ++ drop (length data') old

module _ {A : Type 0} (json : Json A) where
  unfoldable pub parsed : FilePath → Option (List ℕ) → NodeResult A
  parsed path none = fault (read_error path)
  parsed path (some bytes) = elim (json.from_slice bytes) [
    | none ↦ fault (read_error path)
    | some a ↦ content a
  ]

  -- Export::read
  unfoldable pub read : FilePath → Disk → NodeResult A
  unfolding parsed
  read path disk =
      if disk.readable path then parsed path (lookup path disk.files) else fault (read_error path)

  -- What Export::write puts into the file.
  unfoldable pub text_of : A → List ℕ
  unfolding newline
  text_of a = json.to_string_pretty a ++ newline

  -- Export::write
  unfoldable pub write : A → FilePath → Disk → NodeResult (Unit {0}) × Disk
  unfolding text_of
  write a path disk =
      let written = record disk {
        files = insert path (overwrite (text_of a) (lookup_or path [] disk.files)) disk.files;
      } in
      if disk.writable path then (content tt, written) else (fault (write_error path), disk)

-- std::fs::remove_file, whose result is ignored.
unfoldable pub remove_file : FilePath → Disk → Disk
remove_file path disk =
    if disk.removable path then record disk { files = remove path disk.files } else disk

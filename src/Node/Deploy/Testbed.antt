-- ===== src/Node/Deploy/Testbed.antt =====
-- What becomes of the nodes of the testbed of node/src/main.rs, and how many shares the threshold
-- keys of node/src/node.rs ask for.
use hotstuff_dag.Config
use hotstuff_dag.Config.{random_coin_threshold, total_votes}
use hotstuff_dag.Error.{ok}
use hotstuff_dag.Node.Boot
use hotstuff_dag.Node.Boot.{Surroundings, failed}
use hotstuff_dag.Node.Deploy.{boot_node, deploy_node, share_threshold}
use hotstuff_dag.Node.Files.{
  Committee, Disk, Json, NodeResult, Secret, committee_json, content, fault, node_json, overwrite,
  parsed, read, read_error, remove_file, text_of, write,
}
use hotstuff_dag.Prelude.{
  List, Unique, [], ap, arith, bytes_eq, contains_key-remove_self, drop, insert, length,
  lookup-insert, lookup-insert_self, lookup-remove_ne, lookup_or_fresh, nat_eq, none, pair_eq,
  quad_eq, refl, remove, some, suc, true, u32_mod, zero, ℕ, ◌++◌, ◌+◌, ◌/◌, ◌<◌, ◌∙◌, ◌≡◌,
}
use mathlib.Core.List.{append-nil}

overwrite_nothing : (text : List ℕ) → overwrite text [] ≡ text
overwrite_nothing text = ap (λ rest. text ++ rest) (drop_nothing (length text)) ∙ append-nil text
  where
    drop_nothing : (n : ℕ) → drop {A = ℕ} n [] ≡ []
    drop_nothing zero = refl
    drop_nothing (suc n) = refl

module _ (s : Surroundings) (i : ℕ) (key : Secret) (disk : Disk) where
  after : Disk
  after = record disk {
    files = insert (node_json i) (text_of s.secret_format key) (remove (node_json i) disk.files);
  }

  -- The old file is gone before the new one is written.
  deploy_node_lem :
      disk.removable (node_json i) ≡ true
      → disk.writable (node_json i) ≡ true
      → Unique disk.files
      → deploy_node s i key disk ≡ (content tt, after)
  unfolding deploy_node write remove_file after
  deploy_node_lem may_remove may_write once = rw may_remove (
      rw may_write (
        ap {A = List ℕ} {B = NodeResult (Unit {0}) × Disk}
          (λ x. (
            content tt,
            record disk { files = insert (node_json i) x (remove (node_json i) disk.files) },
          ))
          (rw
            (lookup_or_fresh (node_json i) [] (remove (node_json i) disk.files)
              (contains_key-remove_self (node_json i) disk.files once))
            (overwrite_nothing (text_of s.secret_format key)))))

  committee_stays :
      (c : Committee)
      → read s.committee_format committee_json disk ≡ content c
      → read s.committee_format committee_json after ≡ content c
  unfolding read after
  committee_stays c h =
      rw
        (lookup-insert (node_json i) committee_json (text_of s.secret_format key)
          (remove (node_json i) disk.files))
        (rw (lookup-remove_ne (node_json i) committee_json disk.files refl) h)

  key_file :
      {A : Type 0} (json : Json A)
      → disk.readable (node_json i) ≡ true
      → read json (node_json i) after
        ≡ elim (json.from_slice (text_of s.secret_format key)) as (λ _. NodeResult A) [
          | none ↦ fault (read_error (node_json i))
          | some a ↦ content a
        ]
  unfolding read parsed after
  key_file json may_read = rw may_read (
      rw
        (lookup-insert_self (node_json i) (text_of s.secret_format key)
          (remove (node_json i) disk.files))
        refl)

  -- Where the committee has been written, no path stands twice on the disk, the key file of the node
  -- can be removed, written and read, and its keys are read back but not read as a threshold share, the node that
  -- the testbed spawns fails to start, and nothing of it runs: it takes the file of its keys for the
  -- one of its share.
  pub testbed_node_fails :
      (c : Committee)
      → read s.committee_format committee_json disk ≡ content c
      → Unique disk.files
      → disk.readable (node_json i) ≡ true
      → disk.removable (node_json i) ≡ true
      → disk.writable (node_json i) ≡ true
      → s.secret_format.from_slice (text_of s.secret_format key) ≡ some key
      → s.share_format.from_slice (text_of s.secret_format key) ≡ none
      → boot_node s i (deploy_node s i key disk).1 ≡ (failed (read_error (node_json i)), [])
  unfolding boot_node Boot.new
  testbed_node_fails c there once may_read may_remove may_write back other =
      rw (deploy_node_lem may_remove may_write once) (
        rw (committee_stays c there) (
          rw (key_file s.secret_format may_read)
            (rw back (rw (key_file s.share_format may_read) (rw other refl)))))

-- For a committee whose stakes sum to the number of the nodes, not zero and below 2 ^ 32, the shares
-- that make a signature under the threshold keys, one more than their threshold, are as many as the
-- random coin waits for.
pub share_threshold_lem :
    (cm : Config.Committee) (n : ℕ)
    → total_votes cm ≡ suc n
    → suc n < u32_mod
    → (t : ℕ) × (share_threshold (suc n) ≡ ok t) × (t + 1 ≡ random_coin_threshold cm)
unfolding share_threshold random_coin_threshold
share_threshold_lem cm n total fits = (n / 3, refl, ground (arith, total, fits))

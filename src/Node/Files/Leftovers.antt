-- ===== src/Node/Files/Leftovers.antt =====
-- Writing a file and reading it back with node/src/config.rs.
use hotstuff_dag.Node.Files.{
  Disk, FilePath, Json, NodeResult, content, fault, overwrite, parsed, read, read_error, text_of,
  write,
}
use hotstuff_dag.Prelude.{
  Bool, List, [], bytes_eq, drop, false, if◌then◌else◌, length, lookup-insert_self, lookup_or,
  nat_eq, none, pair_eq, quad_eq, refl, some, true, ℕ, ◌&&◌, ◌++◌, ◌==◌, ◌||◌, ◌∷◌, ◌≡◌,
}

-- What serde_json passes over: space, tab, newline and carriage return.
abbrev pub is_blank : List ℕ → Bool
is_blank [] = true
is_blank (x ∷ xs) = (x == 32 || x == 9 || x == 10 || x == 13) && is_blank xs

module _ {A : Type 0} (json : Json A) (a : A) (path : FilePath) (disk : Disk) where
  -- Where reading and writing are allowed, a value that is written over a file that is there, or is
  -- not, is read back exactly if what the old file holds beyond the length of the new text is blank,
  -- given that serde_json reads the text of the value back when only blanks follow it and refuses it
  -- otherwise. Else the file cannot be read any more.
  pub write-read :
      disk.readable path ≡ true
      → disk.writable path ≡ true
      → ((rest : List ℕ)
          → json.from_slice (text_of json a ++ rest) ≡ (if is_blank rest then some a else none))
      → read json path (write json a path disk).1 ≡ (
          if is_blank (drop (length (text_of json a)) (lookup_or path [] disk.files))
          then content a
          else fault (read_error path))
  unfolding read write parsed
  write-read may_read may_write formats =
      rw (may_write, write)
        (rw (may_read, read)
          (rw (lookup-insert_self path (overwrite text old) disk.files) (
            rw (formats (drop (length text) old), parsed)
              (go (is_blank (drop (length text) old))))))
    where
      text : List ℕ
      text = text_of json a

      old : List ℕ
      old = lookup_or path [] disk.files

      go :
          (b : Bool)
          → elim (if b then some a else none) as (λ _. NodeResult A) [
            | none ↦ fault (read_error path)
            | some x ↦ content x
          ]
            ≡ (if b then content a else fault (read_error path))
      go true = refl
      go false = refl

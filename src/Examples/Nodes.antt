-- ===== src/Examples/Nodes.antt =====
-- A node of the committee of four that is started, the testbed, and a client of two ticks.
-- A format that reads back one value when only blanks follow its text.
use hotstuff_dag.Examples.{four}
use hotstuff_dag.Mempool
use hotstuff_dag.Mempool.Config.{front_address, mempool_address}
use hotstuff_dag.Node.Boot.{Surroundings, default_node_parameters, failed}
use hotstuff_dag.Node.Client.Bursts.{send-AllDiffer}
use hotstuff_dag.Node.Client.Numbers.{AllDiffer}
use hotstuff_dag.Node.Client.{Client, Sending, send}
use hotstuff_dag.Node.Deploy.Testbed.{testbed_node_fails}
use hotstuff_dag.Node.Deploy.{boot_node, deploy_node}
use hotstuff_dag.Node.Files.Leftovers.{is_blank, write-read}
use hotstuff_dag.Node.Files.{
  Committee, Disk, Json, Secret, SecretShare, committee_json, content, fault, node_json, parsed,
  read, read_error, text_of, write,
}
use hotstuff_dag.Prelude.{
  All, [], arith, false, if◌then◌else◌, length, none, refl, some, true, ℕ, ◌<◌, ◌==◌, ◌∷◌, ◌≡◌, ◌≤◌,
  ◌⊎◌,
}

abbrev digit : Json ℕ
digit = record {
  from_slice = λ bytes. elim bytes [
    | [] ↦ none
    | x ∷ xs ↦ elim xs [ [] ↦ none | y ∷ rest ↦ if is_blank rest then some 1 else none ]
  ];
  to_string_pretty = λ n. 49 ∷ [];
}

-- The old file has two characters more than the new text.
abbrev old_file : Disk
old_file = record {
  files = ((0, 5), 50 ∷ 51 ∷ 52 ∷ 10 ∷ []) ∷ [];
  readable = λ _. true;
  writable = λ _. true;
  removable = λ _. true;
}

write-read_example :
    read digit (0, 5) (write digit 1 (0, 5) old_file).1
    ≡ (if is_blank (52 ∷ 10 ∷ []) then content 1 else fault (read_error (0, 5)))
unfolding text_of
write-read_example = write-read digit 1 (0, 5) old_file refl refl (λ rest. refl)

abbrev mempool_four : Mempool.Config.Committee
mempool_four = record {
  authorities = (1, record { name = 1; front_address = 31; mempool_address = 41 }) ∷ [];
  epoch = 1;
}

abbrev both : Committee
both = record { consensus = four; mempool = mempool_four }

abbrev own_keys : Secret
own_keys = record { name = 1; secret = 99 }

abbrev own_share : SecretShare
own_share = record { id = 0; name = 5; secret = 6; pkset = 7 }

-- Every file is read as one value, but a file of keys is not read as a share.
abbrev one_format : {A : Type 0} → A → Json A
one_format a = record { from_slice = λ bytes. some a; to_string_pretty = λ x. 123 ∷ [] }

abbrev machine : Surroundings
machine = record {
  committee_format = one_format both;
  secret_format = one_format own_keys;
  share_format = record {
    from_slice =
        λ bytes. elim bytes [ [] ↦ none | x ∷ xs ↦ if x == 123 then none else some own_share ];
    to_string_pretty = λ x. 91 ∷ [];
  };
  parameters_format = one_format default_node_parameters;
  opens = λ _. true;
  any_ip = λ a. a;
}

abbrev disk_of_four : Disk
disk_of_four = record {
  files =
      (committee_json, 123 ∷ []) ∷ ((0, 1), 123 ∷ []) ∷ ((0, 2), 91 ∷ []) ∷ ((0, 3), 123 ∷ []) ∷ [];
  readable = λ _. true;
  writable = λ _. true;
  removable = λ _. true;
}

testbed_node_fails_example :
    boot_node machine 2 (deploy_node machine 2 own_keys disk_of_four).1
    ≡ (failed (read_error (node_json 2)), [])
unfolding read parsed text_of
testbed_node_fails_example =
    testbed_node_fails machine 2 own_keys disk_of_four both refl (refl, (refl, (refl, (refl, tt))))
      refl refl refl refl refl

abbrev small_client : Client
small_client = record { size = 16; rate = 60 }

send-AllDiffer_example :
    ((send small_client (λ _. true) true 5 2 ≡ none) × ((small_client.size < 9) ⊎ (true ≡ false)))
    ⊎ ((s : Sending) × (send small_client (λ _. true) true 5 2 ≡ some s)
        × (9 ≤ small_client.size)
        × AllDiffer s.sent
        × All (λ t. length t ≡ small_client.size) s.sent)
send-AllDiffer_example =
    send-AllDiffer small_client (λ _. true) 5 true 2 (omega arith) (omega arith)

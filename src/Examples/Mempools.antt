-- ===== src/Examples/Mempools.antt =====
-- The theorems about the core of the mempool and its synchronizer.
use hotstuff_dag.Crypto.{Digest}
use hotstuff_dag.Examples.{child, trusting}
use hotstuff_dag.Mempool.Config.{Authority, Committee, Parameters, mempool_address}
use hotstuff_dag.Mempool.Core.Acceptance.{Outcome, handle_others_payload_lem}
use hotstuff_dag.Mempool.Core.Availability.{HasStored, all_stored, verify_payload_lem}
use hotstuff_dag.Mempool.Core.Queues.{IsHandedOut, IsOrder, cleanup_lem, get_payload_lem}
use hotstuff_dag.Mempool.Core.Serving.{IsFaithful, last_written, own_payload_served, with_own}
use hotstuff_dag.Mempool.Core.{
  cleanup, get_payload, handle_own_payload, handle_request, verify_payload,
}
use hotstuff_dag.Mempool.Error.{ok}
use hotstuff_dag.Mempool.Messages
use hotstuff_dag.Mempool.Messages.{MempoolMessage, Payload, payload}
use hotstuff_dag.Mempool.State.{Core, Env, Event, read, sent, synced}
use hotstuff_dag.Messages.Block.{Block}
use hotstuff_dag.Prelude.{
  List, [], ap, arith, contains, false, refl, some, true, ℕ, ◌&&◌, ◌+◌, ◌∷◌, ◌≡◌, ◌⊎◌,
}
use hotstuff_dag.Store.{value}

abbrev peer : ℕ → Authority
peer k = record { name = k; front_address = 30 + k; mempool_address = 40 + k }

abbrev peers : Committee
peers = record {
  authorities = (1, peer 1) ∷ (2, peer 2) ∷ (3, peer 3) ∷ (4, peer 4) ∷ [];
  epoch = 1;
}

abbrev limits : Parameters
limits = record {
  queue_capacity = 100;
  sync_retry_delay = 10000;
  max_payload_size = 1000;
  min_block_delay = 100;
}

abbrev made : Payload
made = record { transactions = (1 ∷ 2 ∷ []) ∷ []; author = 1; signature = 0 }

-- The store has every digest, with the payload above, and iteration is in the order of the list.
abbrev env : Env
env = record {
  primitives = trusting;
  db_get = λ _ _. value (some []);
  serialize = λ _. [];
  deserialize = λ _. some made;
  runner_make = λ _. made;
  opt_capacity = λ _. 100;
  pes_capacity = λ _. 100;
  iterate = λ _ queue. queue;
}

abbrev core : Core
core = record {
  name = 2;
  committee = peers;
  parameters = limits;
  opt_queue = 11 ∷ 12 ∷ [];
  pes_queue = 13 ∷ [];
  trace = [];
}

env-IsOrder : IsOrder env
env-IsOrder = record { same = λ _ _ _. refl }

get_payload_lem_example :
    (digests : List Digest) × ((get_payload env 64 core).0 ≡ ok digests)
    × IsHandedOut env 64 digests core (get_payload env 64 core).1
get_payload_lem_example = get_payload_lem env 64 core env-IsOrder (omega arith) refl

known : mempool_address peers 3 ≡ ok 43
unfolding mempool_address
known = refl

cleanup_lem_example : contains (cleanup env (11 ∷ 13 ∷ []) 5 core).opt_queue 12 ≡ true
cleanup_lem_example = (cleanup_lem env (11 ∷ 13 ∷ []) 5 core 12).0

all_there : HasStored env (λ _. true)
all_there = record { bytes = λ _. []; reads = λ _ _. refl }

abbrev loaded : Block
loaded = record child { payload = 11 ∷ [] }

verify_payload_lem_example :
    ((all_stored (λ _. true) (11 ∷ []) ≡ true) × ((verify_payload env loaded core).0 ≡ ok true))
    ⊎ ((all_stored (λ _. true) (11 ∷ []) ≡ false)
        × ((verify_payload env loaded core).0 ≡ ok false)
        × ((missing : List Digest) × (trace : List Event) × ((verify_payload env loaded
                core).1.trace
              ≡ synced missing loaded ∷ trace)
            × ((d : Digest) → contains missing d ≡ (contains (11 ∷ []) d && false))))
verify_payload_lem_example = verify_payload_lem env (λ _. true) all_there loaded core

handle_others_payload_lem_example : Outcome env made core
handle_others_payload_lem_example = handle_others_payload_lem env made core

-- A store that gives back what was last written.
abbrev faithful_env : Env
faithful_env = record env { db_get = λ trace d. value (last_written d trace) }

faithful : IsFaithful faithful_env
faithful = record { reads = λ trace d bytes written. ap value written }

taken : (handle_own_payload faithful_env made core).0 ≡ ok tt
unfolding handle_own_payload
taken = refl

own_payload_served_example :
    (handle_request faithful_env
      (Messages.digest trusting made ∷ [])
      3
      (handle_own_payload faithful_env made core).1).1.trace
    ≡ sent (MempoolMessage.payload made) (43 ∷ [])
      ∷ read (Messages.digest trusting made)
      ∷ (with_own faithful_env made core).trace
own_payload_served_example =
    own_payload_served faithful_env made core 3 43 faithful refl taken known

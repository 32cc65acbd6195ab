-- ===== src/Examples/Payloads.antt =====
-- The theorems about the payload maker, at payloads of at most four bytes.
use hotstuff_dag.Examples.{trusting}
use hotstuff_dag.Mempool.Messages
use hotstuff_dag.Mempool.Messages.{Transaction}
use hotstuff_dag.Mempool.Payload.Sizes.{IsWithin, add_oversize, run-size}
use hotstuff_dag.Mempool.Payload.Transactions.{given_out, payload_of, run-transactions}
use hotstuff_dag.Mempool.Payload.{Input, Runner, add, client, make, request, run}
use hotstuff_dag.Prelude.{All, List, [], arith, refl, some, ◌++◌, ◌<◌, ◌∷◌, ◌≡◌, ◌≤◌}

abbrev small : Runner
small = record {
  transactions = (1 ∷ 2 ∷ []) ∷ [];
  size = 2;
  max_size = 4;
  min_block_delay = 100;
  name = 2;
}

abbrev inputs : List Input
inputs = client (3 ∷ 4 ∷ []) ∷ client (5 ∷ []) ∷ request ∷ []

run-transactions_example :
    given_out (run trusting inputs small).0 ++ (run trusting inputs small).1.transactions
    ≡ (1 ∷ 2 ∷ []) ∷ (3 ∷ 4 ∷ []) ∷ (5 ∷ []) ∷ []
run-transactions_example = run-transactions trusting inputs small

small-IsWithin : IsWithin 4 small
small-IsWithin = record { limit = refl; counted = refl; bounded = omega arith }

run-size_example :
    All (λ o. Messages.size (payload_of o) ≤ 4) (run trusting inputs small).0
    × IsWithin 4 (run trusting inputs small).1
run-size_example = run-size trusting 4 inputs small (omega arith) small-IsWithin

abbrev large : Transaction
large = 1 ∷ 2 ∷ 3 ∷ 4 ∷ 5 ∷ []

add_oversize_example :
    ((add trusting large small).0 ≡ some (make trusting small).0)
    × (4 < Messages.size (make trusting (add trusting large small).1).0)
add_oversize_example = add_oversize trusting large small (omega arith)

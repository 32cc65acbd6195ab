-- ===== src/Examples/Synchronizing.antt =====
-- The theorems about the two synchronizers at a committee of four nodes, with a clock that stands
-- still and a store that has nothing.
use hotstuff_dag.Crypto.{Digest}
use hotstuff_dag.Error.{ok}
use hotstuff_dag.Examples.{child, four, trusting}
use hotstuff_dag.Messages.Block
use hotstuff_dag.Messages.Block.{Block}
use hotstuff_dag.Prelude.{Option, [], ap, arith, none, refl, some, ℕ, ◌∷◌, ◌≡◌}
use hotstuff_dag.Store.{value}
use hotstuff_dag.Synchronizer
use hotstuff_dag.Synchronizer.Demands.{IsTracked}
use hotstuff_dag.Synchronizer.Forgotten.{IsForgotten, request_forgets}
use hotstuff_dag.Synchronizer.LoopBack.{IsSettled, ready_lem, step-IsTracked}
use hotstuff_dag.Synchronizer.{Params, Task, ready, requested, step, waiter_result}

abbrev params : Params
params = record {
  name = 2;
  committee = four;
  sync_retry_delay = 100;
  primitives = trusting;
  db_get = λ _ _. value none;
  clock = λ _. 5;
  deserialize = λ _. some child;
}

abbrev parent_digest : Digest
parent_digest = Block.digest trusting child

-- A block waits for its parent, which is `child`.
abbrev waits : Block
waits = record child { height = 4; author = 3 }

abbrev waits_digest : Digest
waits_digest = Block.digest trusting waits

abbrev tracking : Task
tracking = record {
  pending = (parent_digest, (5, some waits)) ∷ [];
  demands = (waits_digest, parent_digest ∷ []) ∷ [];
  waiting = record { wait_on = parent_digest; block = some waits } ∷ [];
  trace = [];
}

tracking-IsTracked : IsTracked params tracking
tracking-IsTracked = record {
  once = refl;
  is_pending = λ d h. ground (arith, h);
  demanded = (ground arith, tt);
}

ready_lem_example :
    ((step params (ready 0 (value [])) tracking).0 ≡ ok tt)
    × IsSettled params [] (step params (ready 0 (value [])) tracking).1
unfolding waiter_result
ready_lem_example =
    ready_lem params 0 (value []) (record { wait_on = parent_digest; block = some waits }) child
      tracking tracking-IsTracked refl refl refl

step-IsTracked_example : IsTracked params (step params (requested ((1, 3) ∷ []) none) tracking).1
step-IsTracked_example =
    step-IsTracked params (requested ((1, 3) ∷ []) none) tracking tt tracking-IsTracked

-- A second block that misses the same parent.
abbrev late : Block
late = record child { height = 9 }

late-IsForgotten : IsForgotten late tracking
late-IsForgotten = ((λ e. nine (ap height_of e), tt), tt)
  where
    height_of : Option Block → ℕ
    height_of none = 0
    height_of (some b) = b.height

    nine : Path ℕ 4 9 → ⊥
    nine h = omega (arith, h)

request_forgets_example :
    IsForgotten late
      (Synchronizer.run params
        (requested ((1, parent_digest) ∷ []) (some late) ∷ ready 0 (value []) ∷ [])
        tracking).1
request_forgets_example =
    request_forgets params late 1 parent_digest tracking (ready 0 (value []) ∷ []) (ground arith)
      late-IsForgotten (tt, tt)

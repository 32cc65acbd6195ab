-- ===== src/Examples/Cleanings.antt =====
-- The theorems about the synchronizer of the mempool, with a clock that stands still.
use hotstuff_dag.Examples.{child, trusting}
use hotstuff_dag.Mempool.Synchronizer.Cleaning.{clean_forgets}
use hotstuff_dag.Mempool.Synchronizer.{Params, Task, clean, message, run, sync}
use hotstuff_dag.Messages.Block
use hotstuff_dag.Messages.Block.{Block}
use hotstuff_dag.Prelude.{
  [], arith, bytes_eq, contains_key, false, lookup, nat_eq, pair_eq, quad_eq, refl, some, ◌∷◌, ◌≡◌,
}

abbrev params : Params
params = record {
  name = 2;
  committee = record { authorities = []; epoch = 1 };
  sync_retry_delay = 100;
  primitives = trusting;
  clock = λ _. 5;
}

abbrev asking : Task
asking = record {
  pending = (3, 6) ∷ (4, 9) ∷ [];
  requests = (71, (6, 5)) ∷ [];
  waiting = [];
  trace = [];
}

abbrev later : Block
later = record child { height = 8 }

abbrev idle : Task
idle = record asking { pending = [] }

clean_forgets_example :
    (t' : Task) × (run params (message (sync (71 ∷ []) later) ∷ message (clean 7) ∷ []) idle
      ≡ some t')
    × (lookup (Block.digest trusting later) t'.pending ≡ some 8)
    × (contains_key 71 t'.requests ≡ false)
    × (t'.trace ≡ [])
clean_forgets_example =
    clean_forgets params 71 6 5 7 later idle (refl, tt) refl refl (omega arith) (omega arith)

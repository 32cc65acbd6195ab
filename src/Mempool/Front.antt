-- ===== src/Mempool/Front.antt =====
-- mempool/src/front.rs: the task of a client's connection, which hands every frame on as a
-- transaction. The first broken frame ends it.
use hotstuff_dag.Mempool.Messages.{Transaction}
use hotstuff_dag.Network.{Frame, broken, frame}
use hotstuff_dag.Prelude.{List, [], ◌∷◌}

-- Front::spawn_worker: what it delivers.
spawn_worker : List Frame → List Transaction
spawn_worker [] = []
spawn_worker (frame x ∷ frames) = x ∷ spawn_worker frames
spawn_worker (broken ∷ frames) = []

-- ===== src/Mempool/Synchronizer/Cleaning.antt =====
-- What a clean-up leaves in the task of mempool/src/synchronizer.rs.
use hotstuff_dag.Aggregator.{entry}
use hotstuff_dag.Crypto.{Digest}
use hotstuff_dag.Mempool.Synchronizer.{
  Params, Task, ask, block_digest, cancel_pending, clean, handle_message, message, retain_requests,
  retain_rounds, run, start_waiting, step, sync, unasked,
}
use hotstuff_dag.Messages.Block.{Block}
use hotstuff_dag.Prelude.{
  ==_iff, Map, Unique, [], ap, arith, bytes_eq, contains_key, false, insert, lookup,
  lookup-insert_self, nat_eq, pair_eq, quad_eq, refl, some, ℕ, ◌<◌, ◌∷◌, ◌≡◌, ◌≤◌,
}

retain_rounds_above :
    (round d r : ℕ) (m : Map Digest ℕ) → lookup d (retain_rounds round m) ≡ some r → round < r
unfolding retain_rounds
retain_rounds_above round d r [] h = cc
retain_rounds_above round d r ((e, s) ∷ m) h = ground (arith, h, retain_rounds_above round d r m)

retain_rounds_kept :
    (round d r : ℕ) (m : Map Digest ℕ)
    → lookup d m ≡ some r
    → round < r
    → lookup d (retain_rounds round m) ≡ some r
unfolding retain_rounds
retain_rounds_kept round d r [] h above = h
retain_rounds_kept round d r ((e, s) ∷ m) h above =
    ground (arith, h, above, retain_rounds_kept round d r m)

retain_requests_above :
    (round d r time : ℕ) (m : Map Digest (ℕ × ℕ))
    → lookup d (retain_requests round m) ≡ some (r, time)
    → round < r
unfolding retain_requests
retain_requests_above round d r time [] h = cc
retain_requests_above round d r time ((e, (s, u)) ∷ m) h =
    ground (arith, h, retain_requests_above round d r time m)

retain_requests_kept :
    (round d r time : ℕ) (m : Map Digest (ℕ × ℕ))
    → lookup d m ≡ some (r, time)
    → round < r
    → lookup d (retain_requests round m) ≡ some (r, time)
unfolding retain_requests
retain_requests_kept round d r time [] h above = h
retain_requests_kept round d r time ((e, (s, u)) ∷ m) h above =
    ground (arith, h, above, retain_requests_kept round d r time m)

retain_requests_absent :
    (round d : ℕ) (m : Map Digest (ℕ × ℕ))
    → contains_key d m ≡ false
    → contains_key d (retain_requests round m) ≡ false
unfolding retain_requests
retain_requests_absent round d [] h = h
retain_requests_absent round d ((e, (s, u)) ∷ m) h =
    ground (arith, h, retain_requests_absent round d m)

retain_requests_past :
    (round d r time : ℕ) (m : Map Digest (ℕ × ℕ))
    → Unique m
    → lookup d m ≡ some (r, time)
    → r ≤ round
    → contains_key d (retain_requests round m) ≡ false
unfolding retain_requests
retain_requests_past round d r time [] u h past = refl
retain_requests_past round d r time ((e, (s, v)) ∷ m) u h past = ground (
  arith,
  h,
  past,
  ==_iff e d,
  u.0,
  retain_requests_absent round d m,
  retain_requests_past round d r time m u.1,
)

module _ (p : Params) where
  -- After a clean-up at a round, every block that waits and every digest asked for is of a later
  -- round; those of a later round stay as they were.
  record IsCleaned (round : ℕ) (t t' : Task) : Type 0 where
    pub pending_above : (d r : ℕ) → lookup d t'.pending ≡ some r → round < r
    pub pending_kept :
        (d r : ℕ) → lookup d t.pending ≡ some r → round < r → lookup d t'.pending ≡ some r
    pub requests_above : (d r time : ℕ) → lookup d t'.requests ≡ some (r, time) → round < r
    pub requests_kept :
        (d r time : ℕ)
        → lookup d t.requests ≡ some (r, time)
        → round < r
        → lookup d t'.requests ≡ some (r, time)
    pub quiet : t'.trace ≡ t.trace

  abbrev cleaned : ℕ → Task → Task
  cleaned round t = record t {
    waiting = cancel_pending p t.pending round t.waiting;
    pending = retain_rounds round t.pending;
    requests = retain_requests round t.requests;
  }

  -- A clean-up goes on, says nothing to anyone, drops the blocks and the requests up to its round,
  -- and keeps the others with their rounds and times.
  clean_lem :
      (round : ℕ) (t : Task)
      → (t' : Task) × (step p (message (clean round)) t ≡ some t') × IsCleaned round t t'
  unfolding step handle_message
  clean_lem round t = (
    cleaned round t,
    refl,
    record {
      pending_above = λ d r h. retain_rounds_above round d r t.pending h;
      pending_kept = λ d r h above. retain_rounds_kept round d r t.pending h above;
      requests_above = λ d r time h. retain_requests_above round d r time t.requests h;
      requests_kept = λ d r time h above. retain_requests_kept round d r time t.requests h above;
      quiet = refl;
    },
  )

  sync_asked :
      (x : Digest) (entry : ℕ × ℕ) (b : Block) (t : Task)
      → lookup x t.requests ≡ some entry
      → contains_key (block_digest p b) t.pending ≡ false
      → step p (message (sync (x ∷ []) b)) t ≡ some (start_waiting p (x ∷ []) b t)
  unfolding step handle_message ask
  sync_asked x entry b t found fresh =
      let nothing : unasked p (x ∷ []) t ≡ [] = ground (arith, found) in
      rw fresh (ap (λ xs. ask p b xs (start_waiting p (x ∷ []) b t)) nothing)

  clean_step : (round : ℕ) (t : Task) → step p (message (clean round)) t ≡ some (cleaned round t)
  unfolding step handle_message
  clean_step round t = refl

  -- A block of a later round whose one missing payload has been asked for in an earlier round is not
  -- asked for again, and a clean-up between the two rounds drops the request: the block waits on,
  -- and the timer has nothing to send for it.
  pub clean_forgets :
      (x r time round : ℕ) (b : Block) (t : Task)
      → Unique t.requests
      → lookup x t.requests ≡ some (r, time)
      → contains_key (block_digest p b) t.pending ≡ false
      → r ≤ round
      → round < b.height
      → (t' : Task) × (run p (message (sync (x ∷ []) b) ∷ message (clean round) ∷ []) t ≡ some t')
        × (lookup (block_digest p b) t'.pending ≡ some b.height)
        × (contains_key x t'.requests ≡ false)
        × (t'.trace ≡ t.trace)
  unfolding run
  clean_forgets x r time round b t unique found fresh past later = (
    cleaned round (start_waiting p (x ∷ []) b t),
    rw (sync_asked x (r, time) b t found fresh, run)
        (rw (clean_step round (start_waiting p (x ∷ []) b t), run) refl),
    retain_rounds_kept round (block_digest p b) b.height
        (insert (block_digest p b) b.height t.pending)
        (lookup-insert_self (block_digest p b) b.height t.pending) later,
    retain_requests_past round x r time t.requests unique found past,
    refl,
  )

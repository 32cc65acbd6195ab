-- ===== src/Synchronizer/Forgotten.antt =====
-- A block that is passed over by the background task of consensus/src/synchronizer.rs.
use hotstuff_dag.Config.{SocketAddr}
use hotstuff_dag.Core.Outside.{addresses}
use hotstuff_dag.Core.State.{hotstuff}
use hotstuff_dag.Crypto.{Digest, PublicKey}
use hotstuff_dag.Error.{Result, err, ok, out_of_fuel, panic, unwrap}
use hotstuff_dag.Exec.{Exec, continue, lift, modify, pure, ◌>>=◌}
use hotstuff_dag.Messages.Block
use hotstuff_dag.Messages.Block.{Block}
use hotstuff_dag.Prelude.{
  All, Bool, List, Map, Option, [], ap, bytes_eq, contains_key, false, get_elem?, if◌then◌else◌,
  inl, lookup, ltb, nat_eq, none, pair_eq, quad_eq, refl, remove, remove_at, set_remove, some, suc,
  sym, true, zero, ℕ, ◌+◌, ◌||◌, ◌∷◌, ◌≡◌, ◌≢◌,
}
use hotstuff_dag.Synchronizer.Requests.{request_repeated}
use hotstuff_dag.Synchronizer.{
  Event, Input, Params, Task, Waiter, arrived, demand_met, emit, handle_ready, is_stored,
  looped_back, read, read_clock, read_clock_now, ready, register, request, request_missing,
  requested, requests, retries, retry, run, send_to, sent, settle, step, timer, transmit_or_panic,
  waiter_result,
}
use hotstuff_dag.World.{ConsensusMessage, sync_request}
use mathlib.Core.Option.{some-injective}
use mathlib.Core.Path.{subst}

-- `m` keeps `P`, also where it panics.
record Keeps {A : Type 0} (P : Task → Type 0) (m : Exec Task A) : Type 0 where
  keeps : (t : Task) → P t → P (m t).1

Keeps-bind :
    {A B : Type 0} {P : Task → Type 0} {m : Exec Task A} {f : A → Exec Task B}
    → Keeps P m
    → ((a : A) → Keeps P (f a))
    → Keeps P (m >>= f)
Keeps-bind {A} {B} {P} {m} {f} km kf = record { keeps = λ t h. go (m t).0 (m t).1 (km.keeps t h) }
  where
    go : (r : Result A) (u : Task) → P u → P (continue r f u).1
    go (ok a) u h = (kf a).keeps u h
    go (err x) u h = h
    go panic u h = h
    go out_of_fuel u h = h

Keeps-modify :
    (P : Task → Type 0) (f : Task → Task) → ((t : Task) → P t → P (f t)) → Keeps P (modify f)
Keeps-modify P f k = record { keeps = k }

Keeps-lift : {A : Type 0} (P : Task → Type 0) (r : Result A) → Keeps P (lift r)
Keeps-lift P r = record { keeps = λ t h. h }

Keeps-pure : {A : Type 0} (P : Task → Type 0) (a : A) → Keeps P (pure a)
Keeps-pure P a = record { keeps = λ t h. h }

All-remove_at :
    {A : Type 0} (P : A → Type 0) (i : ℕ) (xs : List A) → All P xs → All P (remove_at i xs)
All-remove_at P i [] h = tt
All-remove_at P zero (x ∷ xs) h = h.1
All-remove_at P (suc i) (x ∷ xs) h = (h.0, All-remove_at P i xs h.1)

-- No future waits for the block, and it has not been looped back.
abbrev pub IsForgotten : Block → Task → Type 0
IsForgotten b t = All (λ w. w.block ≢ some b) t.waiting × All (λ e. e ≢ looped_back b) t.trace

-- The input is no request for the block.
abbrev pub IsForOthers : Block → Input → Type 0
IsForOthers b (requested rs block) = block ≢ some b
IsForOthers b (ready i result) = Unit {0}
IsForOthers b timer = Unit {0}

module _ (p : Params) (b : Block) where
  abbrev Kept : {A : Type 0} → Exec Task A → Type 0
  Kept m = Keeps (IsForgotten b) m

  read_clock_now-Kept : Kept (read_clock_now p)
  unfolding read_clock_now
  read_clock_now-Kept = record { keeps = λ t h. (h.0, (λ e. cc, h.1)) }

  transmit-Kept : (m : ConsensusMessage) (to : Option PublicKey) → Kept (transmit_or_panic p m to)
  unfolding transmit_or_panic send_to
  transmit-Kept m to = record { keeps = λ t h. go t h (addresses p.name to p.committee hotstuff) }
    where
      go :
          (t : Task)
          → IsForgotten b t
          → (r : Result (List SocketAddr)) → IsForgotten b (send_to p m r t).1
      go t h (ok a) = (h.0, (λ e. cc, h.1))
      go t h (err x) = h
      go t h panic = h
      go t h out_of_fuel = h

  request_missing-Kept :
      (block : Option Block) (r : PublicKey × Digest)
      → block ≢ some b
      → Kept (request_missing p block r)
  unfolding request_missing register
  request_missing-Kept block (author, d) other =
      Keeps-bind
        (Keeps-modify (IsForgotten b)
          (λ t. record t { waiting = record { wait_on = d; block = block } ∷ t.waiting })
          (λ t h. ((other, h.0), h.1)))
        (λ _. Keeps-bind read_clock_now-Kept (λ now.
          Keeps-bind (Keeps-modify (IsForgotten b) (register p d block now) (λ t h. h))
            (λ _. transmit-Kept (sync_request d p.name) (some author))))

  request-Kept :
      (block : Option Block) (r : PublicKey × Digest) → block ≢ some b → Kept (request p block r)
  unfolding request
  request-Kept block (author, d) other = record {
    keeps = λ t h.
        go (emit (read d) t) (h.0, (λ e. cc, h.1))
          (is_stored (p.db_get (read d ∷ t.trace) d) || contains_key d t.pending);
  }
    where
      go :
          (after : Task)
          → IsForgotten b after
          → (known : Bool)
          → IsForgotten b
              (if known then (ok tt, after) else request_missing p block (author, d) after).1
      go after kept true = kept
      go after kept false = (request_missing-Kept block (author, d) other).keeps after kept

  requests-Kept :
      (rs : List (PublicKey × Digest)) (block : Option Block)
      → block ≢ some b
      → Kept (requests p rs block)
  unfolding requests
  requests-Kept [] block other = Keeps-pure (IsForgotten b) tt
  requests-Kept (r ∷ rs) block other =
      Keeps-bind (request-Kept block r other) (λ _. requests-Kept rs block other)

  settle-Kept : (x : Block) (ds : List Digest) → some x ≢ some b → Kept (settle p x ds)
  unfolding settle
  settle-Kept x [] other = record {
    keeps = λ t h. (h.0, (λ e. other (ap (λ v. some (block_of x v)) e), h.1));
  }
    where
      block_of : Block → Event → Block
      block_of d (read e) = d
      block_of d read_clock = d
      block_of d (sent m a) = d
      block_of d (looped_back y) = y
  settle-Kept x (d ∷ ds) other = record { keeps = λ t h. h }

  demand_met-Kept :
      (d : Digest) (block : Option Block) → block ≢ some b → Kept (demand_met p d block)
  unfolding demand_met
  demand_met-Kept d none other = Keeps-pure (IsForgotten b) tt
  demand_met-Kept d (some x) other = record {
    keeps = λ t h.
        (Keeps-bind
            (Keeps-lift (IsForgotten b) (unwrap (lookup (Block.digest p.primitives x) t.demands)))
            (λ demands_set. settle-Kept x (set_remove d demands_set) other)).keeps
          t h;
  }

  handle_ready-Kept :
      (w : Option Waiter) (found : Option Block)
      → ((x : Waiter) → w ≡ some x → x.block ≢ some b)
      → Kept (handle_ready p w found)
  unfolding handle_ready arrived
  handle_ready-Kept none found other = Keeps-pure (IsForgotten b) tt
  handle_ready-Kept (some w) none other = Keeps-pure (IsForgotten b) tt
  handle_ready-Kept (some w) (some request_block) other =
      Keeps-bind
        (Keeps-modify (IsForgotten b)
          (λ t. record t { pending = remove (Block.digest p.primitives request_block) t.pending })
          (λ t h. h))
        (λ _. demand_met-Kept (Block.digest p.primitives request_block) w.block (other w refl))

  retries-Kept : (m : Map Digest (ℕ × Option Block)) → Kept (retries p m)
  unfolding retries retry
  retries-Kept [] = Keeps-pure (IsForgotten b) tt
  retries-Kept ((d, (timestamp, block)) ∷ m) =
      Keeps-bind
        (Keeps-bind read_clock_now-Kept (λ now. asked (ltb (timestamp + p.sync_retry_delay) now)))
        (λ _. retries-Kept m)
    where
      asked :
          (late : Bool)
          → Kept (if late then transmit_or_panic p (sync_request d p.name) none else pure tt)
      asked true = transmit-Kept (sync_request d p.name) none
      asked false = Keeps-pure (IsForgotten b) tt

  waiter_at :
      (i : ℕ) (ws : List Waiter) (w : Waiter)
      → All (λ w. w.block ≢ some b) ws
      → get_elem? ws i ≡ some w
      → w.block ≢ some b
  waiter_at i [] w h at = cc
  waiter_at zero (x ∷ ws) w h at = subst (λ x. x.block ≢ some b) (some-injective x w at) h.0
  waiter_at (suc i) (x ∷ ws) w h at = waiter_at i ws w h.1 at

  step-Kept : (i : Input) → IsForOthers b i → Kept (step p i)
  unfolding step
  step-Kept (requested rs block) other = requests-Kept rs block other
  step-Kept (ready i result) other = record {
    keeps = λ t h.
        (handle_ready-Kept (get_elem? t.waiting i) (waiter_result p result)
            (λ w at. waiter_at i t.waiting w h.0 at)).keeps
          (record t { waiting = remove_at i t.waiting })
          (All-remove_at (λ w. w.block ≢ some b) i t.waiting h.0, h.1);
  }
  step-Kept timer other = record { keeps = λ t. (retries-Kept t.pending).keeps t }

  run-Kept : (inputs : List Input) → All (IsForOthers b) inputs → Kept (run p inputs)
  unfolding run
  run-Kept [] others = Keeps-pure (IsForgotten b) tt
  run-Kept (i ∷ inputs) others = Keeps-bind (step-Kept i others.0) (λ _. run-Kept inputs others.1)

  -- A block that nothing waits for, whose missing digest is already pending for another block or for
  -- none, is requested; then, whatever comes, that digest or others, it is never looped back and
  -- nothing waits for it, unless it is requested once more.
  pub request_forgets :
      (author : PublicKey) (d : Digest) (t : Task) (inputs : List Input)
      → contains_key d t.pending ≡ true
      → IsForgotten b t
      → All (IsForOthers b) inputs
      → IsForgotten b (run p (requested ((author, d) ∷ []) (some b) ∷ inputs) t).1
  unfolding run step requests
  request_forgets author d t inputs pending h others =
      subst (λ r. IsForgotten b (continue r.0 (λ _. run p inputs) r.1).1) (sym once)
        ((run-Kept inputs others).keeps (emit (read d) t) (h.0, (λ e. cc, h.1)))
    where
      once : requests p ((author, d) ∷ []) (some b) t ≡ (ok tt, emit (read d) t)
      once = rw (request_repeated p author d (some b) t (inl pending)) refl

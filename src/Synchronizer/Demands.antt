-- ===== src/Synchronizer/Demands.antt =====
-- What the background task of consensus/src/synchronizer.rs keeps of the blocks that wait: every
-- waiter is pending and demanded, so no arrival makes the task panic.
use hotstuff_dag.Config.{SocketAddr}
use hotstuff_dag.Core.Outside.{addresses}
use hotstuff_dag.Core.State.{hotstuff}
use hotstuff_dag.Crypto.{Digest, PublicKey}
use hotstuff_dag.Error.{Result, err, ok, out_of_fuel, panic}
use hotstuff_dag.Exec.{Exec, continue, ◌>>=◌}
use hotstuff_dag.Messages.Block
use hotstuff_dag.Messages.Block.{Block}
use hotstuff_dag.Prelude.{
  Bool-cases, List, Map, Option, [], arith, bytes_eq, contains, contains_key, contains_key-insert,
  distinct, false, inl, inr, lookup-insert, lookup-insert_self, lookup_or, ltb, map, nat_eq, none,
  pair_eq, quad_eq, set_insert, some, true, ℕ, ◌+◌, ◌||◌, ◌∷◌, ◌≡◌,
}
use hotstuff_dag.Synchronizer.{
  Event, Params, Task, Waiter, demand, emit, is_stored, new, read, read_clock, read_clock_now,
  register, request, request_missing, requests, retries, retry, send_to, sent, transmit_or_panic,
}
use hotstuff_dag.World.{ConsensusMessage, sync_request}

module _ (p : Params) where
  -- The set of demands of a waiter's block has what it waits on.
  abbrev pub Demanded : Map Digest (List Digest) → Digest → Option Block → Type 0
  Demanded demands d none = Unit {0}
  Demanded demands d (some b) =
      contains (lookup_or (Block.digest p.primitives b) [] demands) d ≡ true

  abbrev pub AllDemanded : Map Digest (List Digest) → List Waiter → Type 0
  AllDemanded demands [] = Unit {0}
  AllDemanded demands (w ∷ ws) = Demanded demands w.wait_on w.block × AllDemanded demands ws

  abbrev pub awaited : List Waiter → List Digest
  awaited ws = map (λ (w : Waiter). w.wait_on) ws

  pub record IsTracked (t : Task) : Type 0 where
    pub once : distinct (awaited t.waiting) ≡ true
    pub is_pending :
        (d : Digest) → contains (awaited t.waiting) d ≡ true → contains_key d t.pending ≡ true
    pub demanded : AllDemanded t.demands t.waiting

  -- Demands that keep what a set had keep every waiter demanded.
  demand_mono :
      (d e : Digest) (block : Option Block) (b' : Option Block) (demands : Map Digest (List Digest))
      → Demanded demands e b'
      → Demanded (demand p d block demands) e b'
  unfolding demand
  demand_mono d e none b' demands h = h
  demand_mono d e (some b) none demands h = tt
  demand_mono d e (some b) (some c) demands h = ground (
    arith,
    lookup-insert (Block.digest p.primitives b) (Block.digest p.primitives c)
        (set_insert d (lookup_or (Block.digest p.primitives b) [] demands)) demands,
  )

  pub demand_self :
      (d : Digest) (block : Option Block) (demands : Map Digest (List Digest))
      → Demanded (demand p d block demands) d block
  unfolding demand
  demand_self d none demands = tt
  demand_self d (some b) demands = ground (
    arith,
    lookup-insert_self (Block.digest p.primitives b)
        (set_insert d (lookup_or (Block.digest p.primitives b) [] demands)) demands,
  )

  all_mono :
      (d : Digest) (block : Option Block) (demands : Map Digest (List Digest)) (ws : List Waiter)
      → AllDemanded demands ws
      → AllDemanded (demand p d block demands) ws
  all_mono d block demands [] h = tt
  all_mono d block demands (w ∷ ws) h =
      (demand_mono d w.wait_on block w.block demands h.0, all_mono d block demands ws h.1)

  emit-IsTracked : (e : Event) (t : Task) → IsTracked t → IsTracked (emit e t)
  emit-IsTracked e t h = record { once = h.once; is_pending = h.is_pending; demanded = h.demanded }

  send_to-IsTracked :
      (m : ConsensusMessage) (to : Result (List SocketAddr)) (t : Task)
      → IsTracked t
      → IsTracked (send_to p m to t).1
  unfolding send_to
  send_to-IsTracked m (ok a) t h = emit-IsTracked (sent m a) t h
  send_to-IsTracked m (err e) t h = h
  send_to-IsTracked m panic t h = h
  send_to-IsTracked m out_of_fuel t h = h

  register-IsTracked :
      (d : Digest) (block : Option Block) (now : ℕ) (t : Task)
      → contains_key d t.pending ≡ false
      → IsTracked t
      → IsTracked (
          register p d block now
            (record t { waiting = record { wait_on = d; block = block } ∷ t.waiting }))
  unfolding register
  register-IsTracked d block now t new h = record {
    once = ground (arith, h.once, h.is_pending d, new);
    is_pending =
        λ e he. ground (arith, he, h.is_pending e, contains_key-insert d e (now, block) t.pending);
    demanded = (demand_self d block t.demands, all_mono d block t.demands t.waiting h.demanded);
  }

  request_missing-IsTracked :
      (block : Option Block) (author : PublicKey) (d : Digest) (t : Task)
      → contains_key d t.pending ≡ false
      → IsTracked t
      → IsTracked (request_missing p block (author, d) t).1
  unfolding request_missing transmit_or_panic read_clock_now
  request_missing-IsTracked block author d t new h =
      send_to-IsTracked (sync_request d p.name)
        (addresses p.name (some author) p.committee hotstuff) _
        (register-IsTracked d block (p.clock t.trace) (emit read_clock t) new
          (emit-IsTracked read_clock t h))

  pub request-IsTracked :
      (block : Option Block) (r : PublicKey × Digest) (t : Task)
      → IsTracked t
      → IsTracked (request p block r t).1
  unfolding request
  request-IsTracked block (author, d) t h =
      elim (Bool-cases (is_stored (p.db_get (read d ∷ t.trace) d) || contains_key d t.pending)) [
        | inl known ↦ rw known (emit-IsTracked (read d) t h)
        | inr missing ↦ rw missing (
            request_missing-IsTracked block author d (emit (read d) t) (ground (arith, missing))
              (emit-IsTracked (read d) t h))
      ]

  abbrev pub Keeps : {A : Type 0} → Exec Task A → Type 0
  Keeps m = (t : Task) → IsTracked t → IsTracked (m t).1

  pub then-Keeps : (m n : Exec Task (Unit {0})) → Keeps m → Keeps n → Keeps (m >>= λ _. n)
  then-Keeps m n km kn t h = go (m t).0
    where
      go : (r : Result (Unit {0})) → IsTracked (continue r (λ _. n) (m t).1).1
      go (ok u) = kn (m t).1 (km t h)
      go (err e) = km t h
      go panic = km t h
      go out_of_fuel = km t h

  -- The loop over requests stops where one panics.
  pub requests-IsTracked :
      (rs : List (PublicKey × Digest)) (block : Option Block) → Keeps (requests p rs block)
  unfolding requests
  requests-IsTracked [] block = λ t h. h
  requests-IsTracked (r ∷ rs) block =
      then-Keeps (request p block r) (requests p rs block) (request-IsTracked block r)
        (requests-IsTracked rs block)

  retry-IsTracked : (entry : Digest × (ℕ × Option Block)) → Keeps (retry p entry)
  unfolding retry read_clock_now transmit_or_panic
  retry-IsTracked (d, (timestamp, block)) t h =
      elim (Bool-cases (ltb (timestamp + p.sync_retry_delay) (p.clock t.trace))) [
        | inl due ↦ rw due (
            send_to-IsTracked (sync_request d p.name) (addresses p.name none p.committee hotstuff)
              (emit read_clock t) (emit-IsTracked read_clock t h))
        | inr early ↦ rw early (emit-IsTracked read_clock t h)
      ]

  pub retries-IsTracked : (entries : Map Digest (ℕ × Option Block)) → Keeps (retries p entries)
  unfolding retries
  retries-IsTracked [] = λ t h. h
  retries-IsTracked (entry ∷ entries) =
      then-Keeps (retry p entry) (retries p entries) (retry-IsTracked entry)
        (retries-IsTracked entries)

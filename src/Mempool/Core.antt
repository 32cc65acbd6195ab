-- ===== src/Mempool/Core.antt =====
-- mempool/src/core.rs: the handlers of the core of the mempool, and its loop. `select!` takes a
-- message from either channel, so a run is a sequence of inputs; an error is logged and the loop goes
-- on.
pub mod Acceptance
pub mod Availability
pub mod Queues
pub mod Serving
use hotstuff_dag.Config.{SocketAddr}
use hotstuff_dag.Crypto.{Digest, PublicKey, verify_signature}
use hotstuff_dag.Error.{Result}
use hotstuff_dag.Mempool.Config.{exists}
use hotstuff_dag.Mempool.Error.{
  MempoolResult, Method, ensure, err, invalid_signature, lift, mempool_full, modify, ok, ok_or,
  payload_too_big, pure, serialization_error, store_error, unknown_authority, ◌>>=◌, ◌>>◌,
}
use hotstuff_dag.Mempool.Messages
use hotstuff_dag.Mempool.Messages.{MempoolMessage, Payload, digest, own_payload, payload_request}
use hotstuff_dag.Mempool.Payload.{nonempty}
use hotstuff_dag.Mempool.State.{
  ConsensusMempoolMessage, Core, Env, Event, Input, asked_runner, cleaned, cleanup_blocks,
  consensus_channel, core_channel, digest_len, emit, get, read, remove_all, replied_get,
  replied_verify, sent, synced, wrote,
}
use hotstuff_dag.Mempool.Synchronizer.{addresses}
use hotstuff_dag.Messages.Block.{Block}
use hotstuff_dag.Prelude.{
  Bool, List, Option, [], false, if◌then◌else◌, is_empty, leb, length, ltb, none, set_insert, some,
  sub64, take, true, ℕ, ◌&&◌, ◌++◌, ◌/◌, ◌∷◌,
}
use hotstuff_dag.Store.{failed, value}
use hotstuff_dag.World.{Bytes, PayloadStatus, accept, reject, wait}

send_all : MempoolMessage → MempoolResult (List SocketAddr) → Method Core (Unit {0})
send_all m (ok to_addresses) c = (ok tt, emit (sent m to_addresses) c)
send_all m (err e) c = (err e, c)

-- Synchronizer::transmit
pub transmit : MempoolMessage → Option PublicKey → Method Core (Unit {0})
unfolding send_all addresses
transmit m to c = send_all m (addresses c.name to c.committee) c

module _ (env : Env) where
  pub store_payload : Digest → Payload → Core → Core
  store_payload key made c = emit (wrote key (env.serialize made)) c

  -- Store::read, and the conversion of its error by `?`.
  pub read_store : Digest → Method Core (Option Bytes)
  read_store d c =
      let c' = emit (read d) c in
      (elim (env.db_get c'.trace d) [ failed ↦ err store_error | value v ↦ ok v ], c')

  has_room : Core → Bool
  has_room c =
      ltb (length c.opt_queue) (env.opt_capacity c.trace)
      && ltb (length c.pes_queue) (env.pes_capacity c.trace)

  pub process_own_payload : Digest → Payload → Method Core (Unit {0})
  unfolding has_room store_payload transmit
  process_own_payload digest made c =
      if has_room c
      then transmit (MempoolMessage.payload made) none (store_payload digest made c)
      else (err mempool_full, c)

  unfoldable pub handle_own_payload : Payload → Method Core (Unit {0})
  unfolding process_own_payload
  handle_own_payload made c =
      let digest = Messages.digest env.primitives made in
      let processed = process_own_payload digest made in
      (do
        ensure (ltb (length c.opt_queue) c.parameters.queue_capacity) mempool_full
        processed
        modify (λ c. record c { opt_queue = set_insert digest c.opt_queue }))
        c

  verified : Result (Unit {0}) → MempoolResult (Unit {0})
  verified (Result.ok u) = ok tt
  verified (Result.err e) = err invalid_signature
  verified Result.panic = err invalid_signature
  verified Result.out_of_fuel = err invalid_signature

  pub handle_others_payload : Payload → Method Core (Unit {0})
  unfolding verified store_payload
  handle_others_payload made c =
      let digest = Messages.digest env.primitives made in
      (do
        ensure (exists c.committee made.author) (unknown_authority made.author)
        ensure (leb (Messages.size made) c.parameters.max_payload_size) payload_too_big
        lift (verified (verify_signature env.primitives made.signature digest made.author))
        modify (store_payload digest made)
        modify (λ c. record c { pes_queue = set_insert digest c.pes_queue }))
        c

  answer_request : PublicKey → Option Bytes → Method Core (Unit {0})
  unfolding transmit
  answer_request requestor none = pure tt
  answer_request requestor (some bytes) = do
    made ← lift (ok_or (env.deserialize bytes) serialization_error)
    transmit (MempoolMessage.payload made) (some requestor)

  pub handle_request : List Digest → PublicKey → Method Core (Unit {0})
  unfolding read_store answer_request
  handle_request [] requestor = pure tt
  handle_request (digest ∷ digests) requestor =
      let rest = handle_request digests requestor in
      do found ← read_store digest; answer_request requestor found; rest

  -- PayloadMaker::make
  pub make : Core → Option Payload × Core
  unfolding nonempty
  make c = let c' = emit asked_runner c in (nonempty (env.runner_make c'.trace), c')

  get_made : Option Payload → Method Core (List Digest)
  unfolding process_own_payload
  get_made none = pure []
  get_made (some made) = do
    process_own_payload (Messages.digest env.primitives made) made
    pure (Messages.digest env.primitives made ∷ [])

  -- The digests that are taken from a queue.
  abbrev pub taken : ℕ → List Event → List Digest → List Digest
  taken n trace queue = take n (env.iterate trace queue)

  get_queued : ℕ → Core → List Digest × Core
  unfolding remove_all
  get_queued payload_len c =
      let opt_digests : List Digest =
        if is_empty c.opt_queue then [] else taken payload_len c.trace c.opt_queue in
      let pes_digests = taken (sub64 payload_len (length opt_digests)) c.trace c.pes_queue in
      (
        opt_digests ++ pes_digests,
        record c {
          opt_queue = remove_all opt_digests c.opt_queue;
          pes_queue = remove_all pes_digests c.pes_queue;
        },
      )

  pub get_payload : ℕ → Method Core (List Digest)
  unfolding make get_made get_queued
  get_payload most c =
      let (digests, queued) = get_queued (most / digest_len) c in
      let (made, c') = make c in
      if is_empty c.opt_queue && is_empty c.pes_queue
      then get_made made c'
      else (ok digests, queued)

  missing_of : List Digest → List Digest → Method Core (List Digest)
  unfolding read_store
  missing_of [] missing = pure missing
  missing_of (d ∷ ds) missing = do
    found ← read_store d
    missing_of ds (elim found [ none ↦ set_insert d missing | some bytes ↦ missing ])

  -- Core::verify_payload and Synchronizer::verify_payload
  pub verify_payload : Block → Method Core Bool
  unfolding missing_of
  verify_payload block = do
    missing ← missing_of block.payload []
    if is_empty missing then pure true else (modify (emit (synced missing block)) >> pure false)

  -- Core::cleanup and Synchronizer::cleanup
  pub cleanup : List Digest → ℕ → Core → Core
  unfolding remove_all
  cleanup digests round c =
      let c' = emit (cleaned round) c in
      record c' {
        opt_queue = remove_all digests c'.opt_queue;
        pes_queue = remove_all digests c'.pes_queue;
      }

  -- `result.unwrap_or_default()`, and the status that stands for a result.
  default_digests : MempoolResult (List Digest) → List Digest
  default_digests (ok digests) = digests
  default_digests (err e) = []

  pub status_of : MempoolResult Bool → PayloadStatus
  status_of (ok true) = accept
  status_of (ok false) = wait
  status_of (err e) = reject

  handle_core_message : MempoolMessage → Core → Core
  unfolding handle_own_payload handle_others_payload handle_request
  handle_core_message (own_payload made) c = (handle_own_payload made c).1
  handle_core_message (MempoolMessage.payload made) c = (handle_others_payload made c).1
  handle_core_message (payload_request digests sender) c = (handle_request digests sender c).1

  handle_consensus_message : ConsensusMempoolMessage → Core → Core
  unfolding get_payload verify_payload cleanup default_digests status_of
  handle_consensus_message (get most) c =
      let (r, c') = get_payload most c in emit (replied_get (default_digests r)) c'
  handle_consensus_message (ConsensusMempoolMessage.verify block) c =
      let (r, c') = verify_payload block c in emit (replied_verify (status_of r)) c'
  handle_consensus_message (cleanup_blocks digests round) c = cleanup digests round c

  -- One turn of the loop; an error is logged.
  pub step : Input → Core → Core
  unfolding handle_core_message handle_consensus_message
  step (core_channel m) c = handle_core_message m c
  step (consensus_channel m) c = handle_consensus_message m c

  pub run : List Input → Core → Core
  unfolding step
  run [] c = c
  run (input ∷ inputs) c = run inputs (step input c)

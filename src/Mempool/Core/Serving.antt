-- ===== src/Mempool/Core/Serving.antt =====
-- A payload of its own that mempool/src/core.rs has taken is what it sends to a node that asks for it.
-- What was last written under a digest.
use hotstuff_dag.Config.{SocketAddr}
use hotstuff_dag.Crypto.{Digest, PublicKey}
use hotstuff_dag.Mempool.Config.{broadcast_addresses, mempool_address}
use hotstuff_dag.Mempool.Core.{
  answer_request, handle_own_payload, handle_request, has_room, process_own_payload, read_store,
  taken, transmit,
}
use hotstuff_dag.Mempool.Error.{err, mempool_full, ok}
use hotstuff_dag.Mempool.Messages
use hotstuff_dag.Mempool.Messages.{MempoolMessage, Payload}
use hotstuff_dag.Mempool.State.{Core, Env, Event, emit, read, sent, wrote}
use hotstuff_dag.Mempool.Synchronizer.{addresses, one_address}
use hotstuff_dag.Prelude.{
  Bool-cases, List, Option, [], ap, arith, if◌then◌else◌, inl, inr, length, ltb, none, refl,
  set_insert, some, sym, ◌==◌, ◌∙◌, ◌∷◌, ◌≡◌, ◌⊎◌,
}
use hotstuff_dag.Store.{value}
use hotstuff_dag.World.{Bytes}

abbrev pub last_written : Digest → List Event → Option Bytes
last_written d [] = none
last_written d (wrote k bytes ∷ trace) = if k == d then some bytes else last_written d trace
last_written d (_ ∷ trace) = last_written d trace

-- The store reads back what was last written.
pub record IsFaithful (env : Env) : Type 0 where
  pub reads :
      (trace : List Event) (d : Digest) (bytes : Bytes)
      → last_written d trace ≡ some bytes
      → env.db_get trace d ≡ value (some bytes)

module _ (env : Env) where
  -- The core once it has taken a payload of its own.
  abbrev pub with_own : Payload → Core → Core
  with_own made c =
      let d = Messages.digest env.primitives made in
      record c {
        opt_queue = set_insert d c.opt_queue;
        trace =
            sent (MempoolMessage.payload made) (broadcast_addresses c.committee c.name)
            ∷ wrote d (env.serialize made)
            ∷ c.trace;
      }

  -- A payload of its own is taken, written, sent to all others and queued, if both queues have room;
  -- otherwise it is dropped as `mempool_full`, and nothing changes.
  pub handle_own_payload_lem :
      (made : Payload) (c : Core)
      → (handle_own_payload env made c ≡ (ok tt, with_own made c))
        ⊎ (handle_own_payload env made c ≡ (err mempool_full, c))
  unfolding handle_own_payload process_own_payload transmit addresses
  handle_own_payload_lem made c =
      elim (Bool-cases (ltb (length c.opt_queue) c.parameters.queue_capacity)) [
        | inr full ↦ inr (rw full refl)
        | inl low ↦ elim (Bool-cases (has_room env c)) [
          | inr full ↦ inr (rw low (rw full refl))
          | inl room ↦ inl (rw low (rw room refl))
        ]
      ]

  transmit_one :
      (m : MempoolMessage) (c : Core) (to : PublicKey) (a : SocketAddr)
      → mempool_address c.committee to ≡ ok a
      → transmit m (some to) c ≡ (ok tt, emit (sent m (a ∷ [])) c)
  unfolding transmit addresses one_address
  transmit_one m c to a known = rw known refl

  request_served :
      (made : Payload) (c : Core) (requestor : PublicKey) (a : SocketAddr) (d : Digest)
      → env.db_get (read d ∷ c.trace) d ≡ value (some (env.serialize made))
      → env.deserialize (env.serialize made) ≡ some made
      → mempool_address c.committee requestor ≡ ok a
      → (handle_request env (d ∷ []) requestor c).1.trace
        ≡ sent (MempoolMessage.payload made) (a ∷ []) ∷ read d ∷ c.trace
  unfolding handle_request read_store answer_request
  request_served made c requestor a d found decoded known = rw found (
      rw decoded
        (rw (transmit_one (MempoolMessage.payload made) (emit (read d) c) requestor a known) refl))

  -- If the store reads back what was written, and bincode this payload, a node of the committee that asks for a
  -- payload which the core has just taken gets that payload.
  pub own_payload_served :
      (made : Payload) (c : Core) (requestor : PublicKey) (a : SocketAddr)
      → IsFaithful env
      → env.deserialize (env.serialize made) ≡ some made
      → (handle_own_payload env made c).0 ≡ ok tt
      → mempool_address c.committee requestor ≡ ok a
      → (handle_request env
          (Messages.digest env.primitives made ∷ [])
          requestor
          (handle_own_payload env made c).1).1.trace
        ≡ sent (MempoolMessage.payload made) (a ∷ [])
          ∷ read (Messages.digest env.primitives made)
          ∷ (with_own made c).trace
  own_payload_served made c requestor a faithful decoded taken known =
      elim (handle_own_payload_lem made c) [
        | inl done ↦ rw done (
            request_served made (with_own made c) requestor a (Messages.digest env.primitives made)
              (faithful.reads _ (Messages.digest env.primitives made) (env.serialize made)
                (ground arith))
              decoded known)
        | inr full ↦ let bad : err mempool_full ≡ ok tt = sym (ap (λ q. q.0) full) ∙ taken in cc
      ]

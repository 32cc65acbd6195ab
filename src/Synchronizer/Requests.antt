-- ===== src/Synchronizer/Requests.antt =====
-- The requests that the background task of consensus/src/synchronizer.rs takes up, and those that it
-- passes over.
use hotstuff_dag.Config.{Authority, address}
use hotstuff_dag.Core.Outside.{addresses}
use hotstuff_dag.Crypto.{Digest, PublicKey}
use hotstuff_dag.Error.{ok}
use hotstuff_dag.Messages.Block
use hotstuff_dag.Messages.Block.{Block}
use hotstuff_dag.Prelude.{
  Option, [], arith, bytes_eq, contains, contains_key, false, inl, inr, lookup, lookup-insert_self,
  lookup_or, nat_eq, pair_eq, quad_eq, refl, some, true, ◌∷◌, ◌≡◌, ◌⊎◌,
}
use hotstuff_dag.Synchronizer.Demands.{demand_self}
use hotstuff_dag.Synchronizer.{
  Params, Task, emit, is_stored, new, read, read_clock, read_clock_now, register, request,
  request_missing, sent, transmit_or_panic,
}
use hotstuff_dag.World.{sync_request}

module _ (p : Params) where
  -- A request for a block that is pending already, or in the store, is passed over: nobody is asked,
  -- no future is made, and the demands stay as they are, so the block that now needs it is not
  -- noted down.
  pub request_repeated :
      (author : PublicKey) (d : Digest) (block : Option Block) (t : Task)
      → (contains_key d t.pending ≡ true) ⊎ (is_stored (p.db_get (read d ∷ t.trace) d) ≡ true)
      → request p block (author, d) t ≡ (ok tt, emit (read d) t)
  unfolding request
  request_repeated author d block t (inl pending) = ground (arith, pending)
  request_repeated author d block t (inr stored) = ground (arith, stored)

  -- A request for a block that is neither pending nor stored, from a node of the committee, asks
  -- that node for the digest, makes it pending from now on, and notes the demand of the block.
  pub request_new :
      (author : PublicKey) (d : Digest) (b : Block) (a : Authority) (t : Task)
      → contains_key d t.pending ≡ false
      → is_stored (p.db_get (read d ∷ t.trace) d) ≡ false
      → lookup author p.committee.authorities ≡ some a
      → ((request p (some b) (author, d) t).0 ≡ ok tt)
        × ((request p (some b) (author, d) t).1.trace
            ≡ sent (sync_request d p.name) (a.address ∷ []) ∷ read_clock ∷ read d ∷ t.trace)
        × (lookup d (request p (some b) (author, d) t).1.pending
            ≡ some (p.clock (read d ∷ t.trace), some b))
        × (contains
              (lookup_or
                (Block.digest p.primitives b)
                []
                (request p (some b) (author, d) t).1.demands)
              d
            ≡ true)
  unfolding request request_missing transmit_or_panic register read_clock_now addresses address
  request_new author d b a t new absent known = rw absent (
      rw new (
        rw known (
          refl,
          refl,
          lookup-insert_self d (p.clock (read d ∷ t.trace), some b) t.pending,
          demand_self p d (some b) t.demands,
        )))

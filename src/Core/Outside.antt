-- ===== src/Core/Outside.antt =====
-- What the core asks of its surroundings: `store_block` (consensus/src/core.rs), the methods of the
-- synchronizer that the core calls (consensus/src/synchronizer.rs) and the mempool driver
-- (consensus/src/mempool.rs).
use hotstuff_dag.Config.{
  Committee, SocketAddr, address, broadcast_addresses, size, smvba_address,
  smvba_broadcast_addresses,
}
use hotstuff_dag.Core.State.{Core, emit, hotstuff}
use hotstuff_dag.Crypto.{Digest, PublicKey}
use hotstuff_dag.Error.{
  Result, err, invalid_payload, map_ok, ok, ok_or, out_of_fuel, panic, serialization_error,
  store_error,
}
use hotstuff_dag.Exec.{Exec, lift, modify, pure, ◌>>=◌, ◌>>◌}
use hotstuff_dag.Messages.Block
use hotstuff_dag.Messages.Block.{Block, parent}
use hotstuff_dag.Messages.Qc
use hotstuff_dag.Messages.Qc.{Qc}
use hotstuff_dag.Prelude.{
  Bool, List, Option, [], false, if◌then◌else◌, none, some, true, ℕ, ◌==◌, ◌∷◌,
}
use hotstuff_dag.Store.{failed, value}
use hotstuff_dag.World.{
  Bytes, ConsensusMessage, Env, Network, accept, asked_payload, asked_verify, cleaned_up, read,
  reject, requested, sent, wait, wrote,
}

module _ (env : Env) where
  -- Core::store_block
  unfoldable pub store_block : Block → Core → Core
  store_block block c = emit (wrote (Block.digest env.primitives block) (env.serialize block)) c

  -- Store::read, and the conversion of its error by `?`.
  unfoldable pub read_store : Digest → Exec Core (Option Bytes)
  read_store d c =
      let c' = emit (read d) c in
      (elim (env.db_get c'.trace d) [ failed ↦ err store_error | value v ↦ ok v ], c')

  unfoldable pub decode : Bytes → Result Block
  decode bytes = ok_or (env.deserialize bytes) serialization_error

  unfoldable pub found_block :
      PublicKey → Digest → Option Block → Option Bytes → Exec Core (Option Block)
  unfolding decode
  found_block author d block (some bytes) = do b ← lift (decode bytes); pure (some b)
  found_block author d block none = do modify (emit (requested ((author, d) ∷ []) block)); pure none

  -- Synchronizer::get_block: a block that is not in the store is requested from the network.
  unfoldable pub get_block : PublicKey → Digest → Option Block → Exec Core (Option Block)
  unfolding read_store found_block
  get_block author d block =
      if d == Qc.genesis.hash
      then pure (some Block.genesis)
      else do stored ← read_store d; found_block author d block stored

  -- Synchronizer::get_parent_block
  unfoldable pub get_parent_block : Block → Exec Core (Option Block)
  unfolding get_block
  get_parent_block block = get_block block.author (Block.parent block) (some block)

  unfoldable pub grandparent : Option Block → Exec Core (Option (Block × Block))
  unfolding get_parent_block
  grandparent none = pure none
  grandparent (some b1) = do
    found ← get_parent_block b1
    pure (elim found [ none ↦ none | some b0 ↦ some (b0, b1) ])

  -- Synchronizer::get_ancestors: the grandparent and the parent.
  unfoldable pub get_ancestors : Block → Exec Core (Option (Block × Block))
  unfolding grandparent
  get_ancestors block = do parent ← get_parent_block block; grandparent parent

  -- MempoolDriver::get
  unfoldable pub mempool_get : ℕ → Exec Core (List Digest)
  mempool_get size c =
      let c' = emit (asked_payload size) c in (ok (env.mempool_get c'.trace size), c')

  -- MempoolDriver::verify
  unfoldable pub mempool_verify : Block → Exec Core Bool
  mempool_verify block c =
      let c' = emit (asked_verify block) c in
      (
        elim (env.mempool_verify c'.trace block) [
          | accept ↦ ok true
          | reject ↦ err invalid_payload
          | wait ↦ ok false
        ],
        c',
      )

-- MempoolDriver::cleanup
unfoldable pub mempool_cleanup : Block → Core → Core
mempool_cleanup b0 c = emit (cleaned_up b0.payload b0.height) c

unfoldable pub addresses : PublicKey → Option PublicKey → Committee → ℕ → Result (List SocketAddr)
addresses from (some to) committee tag =
    if tag == hotstuff
    then map_ok (λ a. a ∷ []) (address committee to)
    else map_ok (λ a. a ∷ []) (smvba_address committee to)
addresses from none committee tag =
    if tag == hotstuff
    then ok (broadcast_addresses committee from)
    else ok (smvba_broadcast_addresses committee from)

-- Synchronizer::transmit: to one node, or to all others.
unfoldable pub transmit : ConsensusMessage → Option PublicKey → Network → ℕ → Exec Core (Unit {0})
unfolding addresses
transmit message to network tag c = elim (addresses c.name to c.committee tag) [
  | ok to_addresses ↦ (ok tt, emit (sent network message to_addresses) c)
  | err e ↦ (err e, c)
  | panic ↦ (panic, c)
  | out_of_fuel ↦ (out_of_fuel, c)
]

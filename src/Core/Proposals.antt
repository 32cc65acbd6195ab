-- ===== src/Core/Proposals.antt =====
-- consensus/src/core.rs: the handlers of proposals, votes, timeouts and timeout certificates. A
-- node that votes for its own block handles the vote at once, and a quorum makes it propose again,
-- so these handlers call one another: `handle_vote` recurs on fuel, and the others take it as an
-- argument. `depth` is the fuel of `commit`.
pub mod Agreement
pub mod Fuel
pub mod Checks
pub mod Halting
pub mod Termination
use hotstuff_dag.Aggregator
use hotstuff_dag.Aggregator.{Aggregator}
use hotstuff_dag.Core.Commit.{commit}
use hotstuff_dag.Core.Outside.{
  decode, get_ancestors, mempool_get, mempool_verify, read_store, store_block, transmit,
}
use hotstuff_dag.Core.State.{Chain, Core, Work, hotstuff, leader, on_core, tcvba}
use hotstuff_dag.Core.Voting.{increase_last_voted_round, make_vote, process_qc}
use hotstuff_dag.Crypto.{Digest, PublicKey}
use hotstuff_dag.Error.{ensure, ok, out_of_fuel, wrong_author}
use hotstuff_dag.Exec.{Exec, gets, lift, modify, pure, ◌>>=◌, ◌>>◌}
use hotstuff_dag.Messages.Block
use hotstuff_dag.Messages.Block.{Block}
use hotstuff_dag.Messages.Qc
use hotstuff_dag.Messages.Qc.{Qc}
use hotstuff_dag.Messages.Tc
use hotstuff_dag.Messages.Tc.{Tc}
use hotstuff_dag.Messages.Timeout
use hotstuff_dag.Messages.Timeout.{Timeout}
use hotstuff_dag.Messages.Vote
use hotstuff_dag.Messages.Vote.{Vote}
use hotstuff_dag.Prelude.{
  Bool, List, Map, Option, [], add64, bytes_eq, false, if◌then◌else◌, insert, keys, leb, lookup,
  ltb, nat_eq, none, not, pair_eq, quad_eq, some, suc, zero, ℕ, ◌&&◌, ◌==◌, ◌||◌, ◌∷◌,
}
use hotstuff_dag.World.{
  ConsensusMessage, Env, network_filter, network_filter_smvba, propose, sync_reply,
}

abbrev pub HandleVote : Type 0
HandleVote = Vote → Exec Work (Unit {0})

-- What `chain.aggregator` does to the chain.
abbrev pub aggregate : {A : Type 0} → Exec Aggregator A → Exec Work A
aggregate m w =
    let (r, a) = m w.chain.aggregator in (r, record w { chain = record w.chain { aggregator = a } })

abbrev pub core_of : Exec Work Core
core_of w = (ok w.core, w)

abbrev pub chain_of : Exec Work Chain
chain_of w = (ok w.chain, w)

-- The references of a proposal: the highest certified block of every other chain that has one.
unfoldable pub references_from :
    Map PublicKey Chain → PublicKey → List PublicKey → List (PublicKey × Digest)
references_from chains own [] = []
references_from chains own (name ∷ names) =
    let rest = references_from chains own names in
    if name == own then rest else elim (lookup name chains) [
      | none ↦ rest
      | some other ↦
          if Qc.eq other.high_qc Qc.genesis then rest else (name, other.high_qc.hash) ∷ rest
    ]

module _ (env : Env) where
  -- Core::generate_proposal
  unfoldable pub generate_proposal : Chain → Bool → Exec Core Block
  unfolding references_from mempool_get
  generate_proposal chain tag = do
    core ← gets (λ c. c)
    payload ← mempool_get env core.parameters.max_payload_size
    pure (
        Block.new env.primitives (if tag then Qc.genesis else chain.high_qc) core.name chain.height
          chain.epoch payload
          (references_from core.pubkey_to_chain chain.name (keys core.committee.authorities)))

  -- Core::process_block_prepare
  unfoldable pub process_block_prepare : Block → Exec Core (Option (Block × Block))
  unfolding get_ancestors
  process_block_prepare block = get_ancestors env block

  module _ (depth : ℕ) where
    -- Core::process_block_commit: the head of a 2-chain.
    unfoldable pub process_block_commit : Block → Block → Exec Work (Unit {0})
    process_block_commit b0 b1 = do
      leading ← on_core leader
      if leading == b0.author && add64 b0.height 1 == b1.height
          then commit env depth b0
          else pure tt

    module _ (handle_vote : HandleVote) where
      unfoldable pub cast_vote : Option Vote → Exec Work (Unit {0})
      cast_vote none = pure tt
      cast_vote (some v) = do
        core ← core_of
        if v.proposer == core.name
            then handle_vote v
            else on_core
                (transmit (ConsensusMessage.vote v) (some v.proposer) network_filter hotstuff)

      -- Core::process_block_vote
      unfoldable pub process_block_vote : Block → Exec Work (Unit {0})
      unfolding cast_vote
      process_block_vote block = do
        chain ← chain_of
        if block.height == chain.height || Qc.eq block.qc Qc.genesis
            then (do voted ← make_vote env block; cast_vote voted)
            else pure tt

      unfoldable pub commit_ancestors : Block → Option (Block × Block) → Exec Work (Unit {0})
      unfolding process_block_commit
      commit_ancestors block none = pure tt
      commit_ancestors block (some (b0, b1)) = do
        core ← core_of
        chain ← chain_of
        if not core.is_view_change && leb block.epoch chain.epoch
            then process_block_commit b0 b1
            else pure tt

      -- Core::process_block
      unfoldable pub process_block : Block → Exec Work (Unit {0})
      unfolding commit_ancestors
      process_block block = do
        on_core (modify (store_block env block))
        leading ← on_core leader
        ancestors ← on_core (process_block_prepare block)
        (if block.author == leading then commit_ancestors block ancestors else pure tt)
        process_block_vote block

      -- Core::broadcast_propose
      unfoldable pub broadcast_propose : Block → Exec Work (Unit {0})
      unfolding process_block
      broadcast_propose block = do
        on_core (transmit (propose block) none network_filter hotstuff)
        process_block block

      unfoldable pub certified : Option Qc → Exec Work (Unit {0})
      unfolding broadcast_propose
      certified none = pure tt
      certified (some qc) = do
        modify (process_qc qc)
        chain ← chain_of
        block ← on_core (generate_proposal chain false)
        broadcast_propose block

      -- Core::handle_vote, but for the recursion.
      unfoldable pub handle_vote_with : Vote → Exec Work (Unit {0})
      unfolding certified
      handle_vote_with v = do
        core ← core_of
        chain ← chain_of
        if ltb v.height chain.height then pure tt else (do
          lift (Vote.verify env.primitives v core.committee)
          made ← aggregate (Aggregator.add_vote v)
          certified made)

    -- Core::handle_vote
    unfoldable pub handle_vote : ℕ → Vote → Exec Work (Unit {0})
    unfolding handle_vote_with
    handle_vote zero v w = (out_of_fuel, w)
    handle_vote (suc fuel) v w = let recur = handle_vote fuel in handle_vote_with recur v w

    -- Core::handle_proposal
    unfoldable pub handle_proposal : ℕ → Block → Exec Work (Unit {0})
    unfolding process_block handle_vote
    handle_proposal fuel block = do
      core ← core_of
      chain ← chain_of
      lift (
          ensure (block.author == chain.name)
            (wrong_author (Block.digest env.primitives block) block.author block.height))
      lift (Block.verify env.primitives block core.committee)
      modify (process_qc block.qc)
      available ← on_core (mempool_verify env block)
      if available then process_block (handle_vote fuel) block else pure tt

  unfoldable pub save_tc : Option Tc → Exec Work (Unit {0})
  save_tc none w = (ok tt, w)
  save_tc (some tc') w =
      (ok tt, record w { core = record w.core { tc_cache = insert tc'.epoch tc' w.core.tc_cache } })

  -- Core::handle_timeout
  unfoldable pub handle_timeout : Timeout → Exec Work (Unit {0})
  unfolding save_tc
  handle_timeout t = do
    core ← core_of
    if ltb t.epoch core.epoch then pure tt else (do
      lift (Timeout.verify env.primitives t core.committee)
      modify (process_qc t.high_qc)
      made ← aggregate (Aggregator.add_timeout t)
      save_tc made)

  -- Core::local_timeout_round
  unfoldable pub local_timeout_round : Exec Work (Unit {0})
  unfolding handle_timeout
  local_timeout_round = do
    modify (λ w. record w { chain = increase_last_voted_round w.chain.height w.chain })
    core ← core_of
    chain ← chain_of
    let own = Timeout.new env.primitives chain.high_qc core.epoch core.name
    on_core (transmit (ConsensusMessage.timeout own) none network_filter_smvba tcvba)
    handle_timeout own

  -- Core::handle_tc
  unfoldable pub handle_tc : Tc → Exec Core (Unit {0})
  handle_tc t = do
    core ← gets (λ c. c)
    if ltb t.epoch core.epoch then pure tt else (do
      lift (Tc.verify env.primitives t core.committee)
      modify (λ c. record c { tc_cache = insert t.epoch t c.tc_cache }))

  -- Core::handle_sync_request: the block goes back if the store has it.
  unfoldable pub handle_sync_request : Digest → PublicKey → Exec Core (Unit {0})
  handle_sync_request d sender = do
    stored ← read_store env d
    elim stored [
      | none ↦ pure tt
      | some bytes ↦ do
        block ← lift (decode env bytes)
        transmit (sync_reply block) (some sender) network_filter hotstuff
    ]

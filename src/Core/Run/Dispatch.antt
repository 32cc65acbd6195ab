-- ===== src/Core/Run/Dispatch.antt =====
-- What the loop of consensus/src/core.rs does with a message of a stranger.
use hotstuff_dag.Core.Proposals.{handle_proposal, handle_vote, process_block}
use hotstuff_dag.Core.Run.{core_channel, handle_input, with_chain}
use hotstuff_dag.Core.State.{Core, Work}
use hotstuff_dag.Crypto.{PublicKey}
use hotstuff_dag.Error.{panic}
use hotstuff_dag.Exec.{Exec}
use hotstuff_dag.Messages.Block.{Block}
use hotstuff_dag.Messages.Vote.{Vote}
use hotstuff_dag.Prelude.{bytes_eq, lookup, nat_eq, none, pair_eq, quad_eq, ℕ, ◌≡◌}
use hotstuff_dag.World.{ConsensusMessage, Env, loop_back, propose, sync_reply}

module _ (env : Env) (depth fuel : ℕ) where
  -- A handler of a chain that the core does not have panics before it runs.
  with_chain_unknown :
      (key : PublicKey) (handler : Exec Work (Unit {0})) (c : Core)
      → lookup key c.pubkey_to_chain ≡ none
      → with_chain key handler c ≡ (panic, c)
  unfolding with_chain
  with_chain_unknown key handler c h = rw (h, with_chain)

  -- The messages of the core channel that name the chain they are about.
  pub data Names : PublicKey → ConsensusMessage → Type 0 where
    by_proposal : (b : Block) → Names b.author (propose b)
    by_vote : (v : Vote) → Names v.proposer (ConsensusMessage.vote v)
    by_loop_back : (b : Block) → Names b.author (loop_back b)
    by_sync_reply : (b : Block) → Names b.author (sync_reply b)

  -- Any message of the core channel that names a chain outside the committee, a proposal, a vote, a
  -- loop-back or a sync reply, makes the handler panic before it checks a signature.
  pub stranger_panics :
      (key : PublicKey) (m : ConsensusMessage) (c : Core)
      → Names key m
      → lookup key c.pubkey_to_chain ≡ none
      → handle_input env depth fuel (core_channel m) c ≡ (panic, c)
  unfolding handle_input
  stranger_panics key m c (by_proposal b) h =
      with_chain_unknown b.author (handle_proposal env depth fuel b) c h
  stranger_panics key m c (by_vote v) h =
      with_chain_unknown v.proposer (handle_vote env depth fuel v) c h
  stranger_panics key m c (by_loop_back b) h =
      with_chain_unknown b.author (process_block env depth (handle_vote env depth fuel) b) c h
  stranger_panics key m c (by_sync_reply b) h =
      with_chain_unknown b.author (handle_proposal env depth fuel b) c h

-- ===== src/Core/Run.antt =====
-- consensus/src/core.rs: the loop of the core. `select!` may take a message from either channel, so
-- a run of the loop is a sequence of inputs. An error of a handler is logged and the loop goes on;
-- a panic ends the task.
pub mod Dispatch
use hotstuff_dag.Core.Aba.{handle_aba_proof, handle_aba_val, handle_coin_share, this_core}
use hotstuff_dag.Core.Proposals.{
  broadcast_propose, chain_of, generate_proposal, handle_proposal, handle_sync_request, handle_tc,
  handle_timeout, handle_vote, process_block,
}
use hotstuff_dag.Core.State.{Core, Work, leader, on_core}
use hotstuff_dag.Core.ViewChange.{check_timeout, update_aba_phase}
use hotstuff_dag.Crypto.{PublicKey}
use hotstuff_dag.Error.{err, ok, out_of_fuel, panic}
use hotstuff_dag.Exec.{Exec, lift, modify, pure, ◌>>=◌, ◌>>◌}
use hotstuff_dag.Leader.{get_leader}
use hotstuff_dag.Prelude.{
  List, [], add64, false, insert, lookup, nat_eq, none, pair_eq, quad_eq, some, ℕ, ◌∷◌,
}
use hotstuff_dag.World.{
  ConsensusMessage, Env, aba_coin_share, loop_back, propose, sync_reply, sync_request,
}

pub data Input : Type 0 where
  core_channel : ConsensusMessage → Input
  smvba_channel : ConsensusMessage → Input

-- A handler works on a clone of the chain of `key`, which it cannot find for an unknown key, and
-- the clone is put back whatever the handler has returned.
unfoldable pub with_chain : PublicKey → Exec Work (Unit {0}) → Exec Core (Unit {0})
with_chain key handler c = elim (lookup key c.pubkey_to_chain) [
  | none ↦ (panic, c)
  | some chain ↦
      let (r, w) = handler (record { core = c; chain = chain }) in
      (r, record w.core { pubkey_to_chain = insert key w.chain w.core.pubkey_to_chain })
]

-- `match result`: an error is logged, a panic passes.
unfoldable pub logged : Exec Core (Unit {0}) → Exec Core (Unit {0})
logged m c =
    let (r, c') = m c in
    elim r [
      | ok u ↦ (ok tt, c')
      | err e ↦ (ok tt, c')
      | panic ↦ (panic, c')
      | out_of_fuel ↦ (out_of_fuel, c')
    ]

module _ (env : Env) (depth fuel : ℕ) where
  unfoldable pub handle_core_message : ConsensusMessage → Exec Core (Unit {0})
  unfolding with_chain
  handle_core_message (propose block) =
      with_chain block.author (handle_proposal env depth fuel block)
  handle_core_message (ConsensusMessage.vote v) =
      with_chain v.proposer (handle_vote env depth fuel v)
  handle_core_message (loop_back block) =
      with_chain block.author (process_block env depth (handle_vote env depth fuel) block)
  handle_core_message (sync_request d sender) = handle_sync_request env d sender
  handle_core_message (sync_reply block) =
      with_chain block.author (handle_proposal env depth fuel block)
  handle_core_message _ = lift panic

  unfoldable pub handle_smvba_message : ConsensusMessage → Exec Core (Unit {0})
  unfolding with_chain
  handle_smvba_message (ConsensusMessage.timeout t) = do
    core ← this_core
    leading ← lift (get_leader core.committee t.epoch)
    with_chain leading (handle_timeout env t)
  handle_smvba_message (ConsensusMessage.tc t) = handle_tc env t
  handle_smvba_message (ConsensusMessage.aba_val v) = handle_aba_val env v
  handle_smvba_message (ConsensusMessage.aba_proof p) = handle_aba_proof env p
  handle_smvba_message (aba_coin_share s) = handle_coin_share env s
  handle_smvba_message _ = lift panic

  unfoldable pub handle_input : Input → Exec Core (Unit {0})
  unfolding handle_core_message handle_smvba_message
  handle_input (core_channel m) = handle_core_message m
  handle_input (smvba_channel m) = handle_smvba_message m

  -- A handler of the leader's chain, which need not be the same one after the handler before it.
  unfoldable pub on_leader_chain : Exec Work (Unit {0}) → Exec Core (Unit {0})
  unfolding with_chain
  on_leader_chain handler = do leading ← leader; with_chain leading handler

  -- One round of the loop.
  unfoldable pub step : Input → Exec Core (Unit {0})
  unfolding handle_input on_leader_chain logged
  step input = do
    modify (λ c. record c { total_epoch = add64 c.total_epoch 1 })
    leader
    logged (handle_input input)
    logged (on_leader_chain (update_aba_phase env depth fuel))
    logged (on_leader_chain (check_timeout env))

  -- The first proposal, before the loop.
  unfoldable pub start : Exec Core (Unit {0})
  unfolding with_chain logged
  start = do
    core ← this_core
    logged (
        with_chain core.name (do
          chain ← chain_of
          block ← on_core (generate_proposal env chain false)
          broadcast_propose env depth (handle_vote env depth fuel) block))

  unfoldable pub rounds : List Input → Exec Core (Unit {0})
  unfolding step
  rounds [] = pure tt
  rounds (input ∷ inputs) = let rest = rounds inputs in do step input; rest

  -- Core::run, over the messages that arrive.
  unfoldable pub run : List Input → Exec Core (Unit {0})
  unfolding start rounds
  run inputs = do start; rounds inputs

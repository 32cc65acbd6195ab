-- ===== src/Core/ViewChange.antt =====
-- consensus/src/core.rs: the change of view, from the timeout certificate to the next epoch.
pub mod Epochs
use Prim.Native.Nat.{max}
use hotstuff_dag.Aggregator
use hotstuff_dag.Aggregator.{Aggregator}
use hotstuff_dag.Config.{quorum_threshold}
use hotstuff_dag.Core.Aba.{
  announce, broadcast, own_val, process_aba_proof, process_aux_phase, process_coin_share,
  process_val_phase_1, process_val_phase_2, this_core,
}
use hotstuff_dag.Core.Commit.{commit}
use hotstuff_dag.Core.Outside.{get_block}
use hotstuff_dag.Core.Proposals.{
  broadcast_propose, chain_of, core_of, generate_proposal, handle_vote, local_timeout_round,
}
use hotstuff_dag.Core.State.{
  Chain, Core, Work, aux_phase, coin_phase, init_phase, lambda_val, next_epoch_height, on_core,
  val_phase,
}
use hotstuff_dag.Crypto.{PublicKey}
use hotstuff_dag.Error.{unwrap}
use hotstuff_dag.Exec.{Exec, lift, modify, pure, ◌>>=◌, ◌>>◌}
use hotstuff_dag.Messages.Block.{Block}
use hotstuff_dag.Messages.Qc
use hotstuff_dag.Messages.Qc.{Qc}
use hotstuff_dag.Messages.Tc
use hotstuff_dag.Messages.Tc.{Tc}
use hotstuff_dag.Prelude.{
  Bool, List, Map, Option, [], add64, contains_key, false, if◌then◌else◌, insert, is_empty, leb,
  length, lookup, lookup_or, ltb, nat_eq, none, not, pair_eq, quad_eq, retain, some, sub64, true, ℕ,
  ◌&&◌, ◌==◌, ◌||◌, ◌∷◌,
}
use hotstuff_dag.World.{ConsensusMessage, Env}

unfoldable pub maximum : List ℕ → Option ℕ
maximum [] = none
maximum (x ∷ xs) = elim (maximum xs) [ none ↦ some x | some m ↦ some (max x m) ]

abbrev pub when : Bool → Exec Core (Unit {0}) → Exec Core (Unit {0})
when true m = m
when false m = pure tt

module _ (env : Env) where
  -- Core::process_tc
  unfoldable pub process_tc : Tc → Exec Core (Unit {0})
  unfolding maximum
  process_tc t = do
    broadcast (ConsensusMessage.tc t)
    input_val ← lift (unwrap (maximum (Tc.high_qc_rounds t)))
    modify (λ c. record c { aba_input_val = insert 1 input_val c.aba_input_val })
    core ← this_core
    announce env (own_val env core core.epoch 1 input_val val_phase)

  -- The stages of `process_aba_phase`, in order. A stage reads the state that the one before left.
  unfoldable pub tc_stage : Exec Core (Unit {0})
  unfolding process_tc
  tc_stage = do
    core ← this_core
    when (not core.tc_processed) (elim (lookup core.epoch core.tc_cache) [
      | none ↦ pure tt
      | some t ↦ do process_tc t; modify (λ c. record c { tc_processed = true })
    ])

  unfoldable pub val_stage_1 : Exec Core (Unit {0})
  val_stage_1 = do
    core ← this_core
    elim (lookup (core.epoch, core.aba_round) core.aba_val_phase_cache1) [
      | none ↦ pure tt
      | some p ↦ process_val_phase_1 env p
    ]

  unfoldable pub val_stage_2 : Exec Core (Unit {0})
  val_stage_2 = do
    core ← this_core
    elim (lookup (core.epoch, core.aba_round) core.aba_val_phase_cache2) [
      | none ↦ pure tt
      | some p ↦ process_val_phase_2 env p
    ]

  unfoldable pub val_stage : Exec Core (Unit {0})
  unfolding val_stage_1 val_stage_2
  val_stage = do core ← this_core; when (leb val_phase core.phase) (do val_stage_1; val_stage_2)

  unfoldable pub aux_stage : Exec Core (Unit {0})
  aux_stage = do
    core ← this_core
    when (leb aux_phase core.phase)
        (elim (lookup (core.epoch, core.aba_round) core.aba_aux_phase_cache) [
          | none ↦ pure tt
          | some p ↦ process_aux_phase env p.epoch p.round
        ])

  unfoldable pub coin_stage : Exec Core (Unit {0})
  coin_stage = do
    core ← this_core
    when (leb coin_phase core.phase)
        (elim (lookup (core.epoch, core.aba_round) core.aba_coin_cache) [
          | none ↦ pure tt
          | some coin ↦ process_coin_share env core.epoch core.aba_round coin
        ])

  unfoldable pub proof_stage : Exec Core (Unit {0})
  proof_stage = do
    core ← this_core
    when core.is_view_change (elim (lookup (core.epoch, core.aba_round) core.aba_proof_cache) [
      | none ↦ pure tt
      | some p ↦ modify (process_aba_proof p)
    ])

  -- Core::process_aba_phase
  unfoldable pub process_aba_phase : Exec Core (Unit {0})
  unfolding tc_stage val_stage aux_stage coin_stage proof_stage
  process_aba_phase = do tc_stage; val_stage; aux_stage; coin_stage; proof_stage

-- The transitions between the phases at the head of `update_aba_phase`, in order.
unfoldable pub enter_val : Core → Core
enter_val c = if c.phase == init_phase && c.tc_processed then record c { phase = val_phase } else c

unfoldable pub enter_aux : Core → Core
enter_aux c =
    if c.phase == val_phase && not (is_empty c.bin_values)
    then record c { phase = aux_phase }
    else c

-- The count is read by `entry(…).or_insert(0)`, which adds a missing entry.
unfoldable pub count_aux_values : Core → Core
count_aux_values c = record c {
  aux_value_nums =
      insert (c.epoch, c.aba_round) (lookup_or (c.epoch, c.aba_round) 0 c.aux_value_nums)
        c.aux_value_nums;
}

unfoldable pub coin_is_due : Core → Bool
coin_is_due c =
    leb (quorum_threshold c.committee) (lookup_or (c.epoch, c.aba_round) 0 c.aux_value_nums)
    && (length c.bin_values == 2 || contains_key (c.epoch, c.aba_round) c.aba_aux_phase_cache)

unfoldable pub enter_coin : Core → Core
unfolding count_aux_values coin_is_due
enter_coin c =
    let counted = count_aux_values c in
    let next = if coin_is_due c then record counted { phase = coin_phase } else counted in
    if c.phase == aux_phase && contains_key (c.epoch, c.aba_round) c.aba_coin_cache then next else c

unfoldable pub advance_phase : Core → Core
unfolding enter_val enter_aux enter_coin
advance_phase c = enter_coin (enter_aux (enter_val c))

-- The leader's chain and the core after the output has been committed.
unfoldable pub reset_chain : ℕ → Chain → Chain
reset_chain output_height chain =
    let height = add64 output_height next_epoch_height in
    record chain {
      height_to_digest = retain (λ k. ltb output_height k) chain.height_to_digest;
      high_qc = Qc.genesis;
      epoch = add64 chain.epoch 1;
      height = height;
      last_committed_height = sub64 height 1;
    }

unfoldable pub reset_core : Core → Core
reset_core c =
    let epoch = add64 c.epoch 1 in
    let later = λ (k : ℕ × ℕ). leb epoch k.0 in
    record c {
      epoch = epoch;
      is_view_change = false;
      tc_processed = false;
      val_value_broadcasted = false;
      aux_value_broadcasted = false;
      coin_share_broadcasted = false;
      aux_proof_broadcasted = false;
      aggregator = Aggregator.cleanup_aba epoch c.aggregator;
      bin_values = [];
      aba_round = 1;
      phase = init_phase;
      aba_output_val = none;
      aba_input_val = [];
      tc_cache = retain (λ k. leb epoch k) c.tc_cache;
      aba_val_phase_cache1 = retain later c.aba_val_phase_cache1;
      aba_val_phase_cache2 = retain later c.aba_val_phase_cache2;
      aba_aux_phase_cache = retain later c.aba_aux_phase_cache;
      aba_coin_cache = retain later c.aba_coin_cache;
      aux_value_nums = retain later c.aux_value_nums;
      aba_proof_cache = retain later c.aba_proof_cache;
    }

module _ (env : Env) (depth fuel : ℕ) where
  -- A new block of our own, if we lead the chain.
  unfoldable pub propose_again : Exec Work (Unit {0})
  propose_again = do
    core ← core_of
    chain ← chain_of
    if chain.name == core.name
        then (do
          block ← on_core (generate_proposal env chain true)
          broadcast_propose env depth (handle_vote env depth fuel) block)
        else pure tt

  unfoldable pub output_block : ℕ → Option Block → Exec Work (Unit {0})
  unfolding reset_chain reset_core propose_again
  output_block output_height none = pure tt
  output_block output_height (some block) = do
    commit env depth block
    modify (λ w. record { core = reset_core w.core; chain = reset_chain output_height w.chain })
    propose_again

  -- The end of an epoch: the block at the output height is committed, if it is known.
  unfoldable pub finish_epoch : ℕ → Exec Work (Unit {0})
  unfolding output_block
  finish_epoch output_height = do
    core ← core_of
    chain ← chain_of
    elim (lookup output_height chain.height_to_digest) [
      | none ↦ pure tt
      | some d ↦ do
        block ← on_core (get_block env core.name d none)
        output_block output_height block
    ]

  -- Core::update_aba_phase
  unfoldable pub update_aba_phase : Exec Work (Unit {0})
  unfolding advance_phase finish_epoch process_aba_phase
  update_aba_phase = do
    before ← core_of
    if before.is_view_change
        then (do
          on_core (modify advance_phase)
          core ← core_of
          elim core.aba_output_val [
            | none ↦ on_core (process_aba_phase env)
            | some output_height ↦ finish_epoch output_height
          ])
        else pure tt

-- Some other chain has left this one behind.
unfoldable pub falls_behind : ℕ → Map PublicKey Chain → Bool
falls_behind height [] = false
falls_behind height ((k, other) ∷ chains) =
    ltb (add64 height lambda_val) other.height || falls_behind height chains

module _ (env : Env) where
  -- Core::check_timeout
  unfoldable pub check_timeout : Exec Work (Unit {0})
  unfolding falls_behind
  check_timeout = do
    on_core (
        modify
          (λ c. if contains_key c.epoch c.tc_cache then record c { is_view_change = true } else c))
    core ← core_of
    chain ← chain_of
    if core.is_view_change || not (falls_behind chain.height core.pubkey_to_chain)
        then pure tt
        else (do
          on_core (modify (λ c. record c { is_view_change = true }))
          local_timeout_round env)

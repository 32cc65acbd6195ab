-- ===== src/Core/ViewChange/Epochs.antt =====
-- The phases and the epochs of consensus/src/core.rs (`update_aba_phase`).
-- The phase never goes back while an epoch lasts, it moves past `init_phase` only with a processed
-- timeout certificate, and past `val_phase` only with a value.
use hotstuff_dag.Core.Aba.{is_expired_aba_message}
use hotstuff_dag.Core.State.{Chain, Core, init_phase}
use hotstuff_dag.Core.ViewChange.{
  advance_phase, count_aux_values, enter_aux, enter_coin, enter_val, reset_chain, reset_core,
}
use hotstuff_dag.Core.Voting.{make_vote}
use hotstuff_dag.Error.{ok}
use hotstuff_dag.Messages.Block.{Block}
use hotstuff_dag.Prelude.{
  arith, lookup, lookup-retain_dropped, nat_eq, none, pair_eq, quad_eq, true, u64_mod, ℕ, ◌+◌, ◌<◌,
  ◌≡◌, ◌≢◌, ◌≤◌,
}
use hotstuff_dag.World.{Env}

pub advance_phase_lem :
    (c : Core)
    → (c.phase ≤ (advance_phase c).phase)
      × ((c.phase ≡ init_phase) → (advance_phase c).phase ≢ init_phase → c.tc_processed ≡ true)
      × ((advance_phase c).epoch ≡ c.epoch)
      × ((advance_phase c).aba_round ≡ c.aba_round)
      × ((advance_phase c).bin_values ≡ c.bin_values)
unfolding advance_phase enter_val enter_aux enter_coin count_aux_values
advance_phase_lem c = ground arith

-- After the end of an epoch, every agreement message of that epoch or an earlier one is expired, and
-- no timeout certificate and no proof of such an epoch is left in a cache.
pub reset_core_lem :
    (c : Core) (epoch round : ℕ)
    → c.epoch + 1 < u64_mod
    → epoch ≤ c.epoch
    → (is_expired_aba_message epoch round (reset_core c) ≡ true)
      × (lookup epoch (reset_core c).tc_cache ≡ none)
      × (lookup (epoch, round) (reset_core c).aba_val_phase_cache1 ≡ none)
      × (lookup (epoch, round) (reset_core c).aba_val_phase_cache2 ≡ none)
      × (lookup (epoch, round) (reset_core c).aba_aux_phase_cache ≡ none)
      × (lookup (epoch, round) (reset_core c).aba_coin_cache ≡ none)
      × (lookup (epoch, round) (reset_core c).aba_proof_cache ≡ none)
unfolding reset_core is_expired_aba_message
reset_core_lem c epoch round fits old = (
  ground arith,
  lookup-retain_dropped _ epoch c.tc_cache (ground arith),
  lookup-retain_dropped _ (epoch, round) c.aba_val_phase_cache1 (ground arith),
  lookup-retain_dropped _ (epoch, round) c.aba_val_phase_cache2 (ground arith),
  lookup-retain_dropped _ (epoch, round) c.aba_aux_phase_cache (ground arith),
  lookup-retain_dropped _ (epoch, round) c.aba_coin_cache (ground arith),
  lookup-retain_dropped _ (epoch, round) c.aba_proof_cache (ground arith),
)

-- Once the leader's chain has been reset at an output height, no vote is cast for a block of the
-- epoch that has ended or of an earlier one, and the chain is left as the reset left it.
pub reset_chain-make_vote :
    (env : Env) (b : Block) (c : Core) (chain : Chain) (output_height : ℕ)
    → chain.epoch + 1 < u64_mod
    → b.epoch ≤ chain.epoch
    → make_vote env b (record { core = c; chain = reset_chain output_height chain })
      ≡ (ok none, record { core = c; chain = reset_chain output_height chain })
unfolding reset_chain make_vote
reset_chain-make_vote env b c chain output_height fits old = ground arith

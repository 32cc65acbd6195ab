-- ===== src/Core/Alive/Views.antt =====
-- The change of view in consensus/src/core.rs, from phase to phase and from epoch to epoch, keeps
-- the core valid and does not panic.
use hotstuff_dag.Aggregator
use hotstuff_dag.Aggregator.{Aggregator}
use hotstuff_dag.Config.{Committee}
use hotstuff_dag.Core.Alive.Commit.{commit-Safe}
use hotstuff_dag.Core.Alive.Outside.{get_block-Safe}
use hotstuff_dag.Core.Alive.Proposals.{
  broadcast_propose-Safe, handle_vote-Safe, local_timeout_round-Safe,
}
use hotstuff_dag.Core.Alive.Stages.{process_aba_phase-Safe}
use hotstuff_dag.Core.Alive.Voting.{chain_of-Safe, core_of-Safe, generate_proposal-Safe}
use hotstuff_dag.Core.Alive.{
  Any, HasMembers, IsValid, IsValidWork, Safe, Safe-bind, Safe-if, Safe-modify, Safe-on_core,
  Safe-pure, Safe-then, Trust,
}
use hotstuff_dag.Core.Outside.{get_block}
use hotstuff_dag.Core.Proposals.{handle_vote}
use hotstuff_dag.Core.State.{Core, Work, aux_phase, coin_phase, init_phase, on_core, val_phase}
use hotstuff_dag.Core.ViewChange.{
  advance_phase, check_timeout, coin_is_due, count_aux_values, enter_aux, enter_coin, enter_val,
  falls_behind, finish_epoch, output_block, process_aba_phase, propose_again, reset_chain,
  reset_core, update_aba_phase,
}
use hotstuff_dag.Crypto.{Digest}
use hotstuff_dag.Exec.{Exec, pure, ◌>>=◌}
use hotstuff_dag.Messages.Block.{Block}
use hotstuff_dag.Prelude.{
  All-retain, Bool, Bool-cases, Option, arith, bytes_eq, contains_key, false, if◌then◌else◌, inl,
  inr, is_empty, length, lookup, nat_eq, none, not, pair_eq, quad_eq, refl, some, sym, true, ℕ,
  ◌&&◌, ◌==◌, ◌||◌, ◌≡◌, ◌≤◌, ◌⊎◌,
}
use hotstuff_dag.World.{Env}
use mathlib.Core.Path.{subst}

module _ (env : Env) (cm : Committee) where
  abbrev KeptCore : Core → Type 0
  KeptCore = IsValid env cm false

  enter_val-IsValid : (c : Core) → KeptCore c → KeptCore (enter_val c)
  unfolding enter_val
  enter_val-IsValid c h = go (c.phase == init_phase && c.tc_processed) refl
    where
      first : (c.phase == init_phase && c.tc_processed) ≡ true → c.aba_round ≡ 1
      first e = h.0.3.1 (ground (arith, e))

      input :
          (c.phase == init_phase && c.tc_processed) ≡ true → contains_key 1 c.aba_input_val ≡ true
      input e = h.0.3.0 (ground (arith, e))

      go :
          (b : Bool)
          → (c.phase == init_phase && c.tc_processed) ≡ b
          → KeptCore (if b then record c { phase = val_phase } else c)
      go false e = h
      go true e = (
        (
          h.0.0,
          h.0.1,
          h.0.2,
          (
            h.0.3.0,
            (λ x. absurd (apart x)),
            (λ _. subst (λ k. contains_key k c.aba_input_val ≡ true) (sym (first e)) (input e)),
            λ late. absurd (early late),
          ),
        ),
        h.1,
      )
        where
          apart : val_phase ≡ init_phase → ⊥
          apart x = omega (arith, x)

          early : coin_phase ≤ val_phase → ⊥
          early late = omega (arith, late)

  enter_aux-IsValid : (c : Core) → KeptCore c → KeptCore (enter_aux c)
  unfolding enter_aux
  enter_aux-IsValid c h = go (c.phase == val_phase && not (is_empty c.bin_values)) refl
    where
      late : (c.phase == val_phase && not (is_empty c.bin_values)) ≡ true → val_phase ≤ c.phase
      late e = ground (arith, e)

      go :
          (b : Bool)
          → (c.phase == val_phase && not (is_empty c.bin_values)) ≡ b
          → KeptCore (if b then record c { phase = aux_phase } else c)
      go false e = h
      go true e = (
        (
          h.0.0,
          h.0.1,
          h.0.2,
          (h.0.3.0, (λ x. absurd (apart x)), (λ _. h.0.3.2 (late e)), λ l. absurd (early l)),
        ),
        h.1,
      )
        where
          apart : aux_phase ≡ init_phase → ⊥
          apart x = omega (arith, x)

          early : coin_phase ≤ aux_phase → ⊥
          early l = omega (arith, l)

  -- The phase of the coin is entered with two values or with the auxiliary proof.
  enter_coin-IsValid : (c : Core) → KeptCore c → KeptCore (enter_coin c)
  unfolding enter_coin count_aux_values coin_is_due
  enter_coin-IsValid c h =
      go (c.phase == aux_phase && contains_key (c.epoch, c.aba_round) c.aba_coin_cache)
        (coin_is_due c) refl refl
    where
      late :
          (c.phase == aux_phase && contains_key (c.epoch, c.aba_round) c.aba_coin_cache) ≡ true
          → val_phase ≤ c.phase
      late e = ground (arith, e)

      due :
          coin_is_due c ≡ true
          → (2 ≤ length c.bin_values)
            ⊎ (contains_key (c.epoch, c.aba_round) c.aba_aux_phase_cache ≡ true)
      due e = elim (Bool-cases (contains_key (c.epoch, c.aba_round) c.aba_aux_phase_cache)) [
        | inl there ↦ inr there
        | inr missing ↦ inl (ground (arith, e, missing))
      ]

      go :
          (b d : Bool)
          → (c.phase == aux_phase && contains_key (c.epoch, c.aba_round) c.aba_coin_cache) ≡ b
          → coin_is_due c ≡ d
          → let counted = count_aux_values c in
            KeptCore (if b then if d then record counted { phase = coin_phase } else counted else c)
      go false d e f = h
      go true false e f = h
      go true true e f = (
        (
          h.0.0,
          h.0.1,
          h.0.2,
          (h.0.3.0, (λ x. absurd (apart x)), (λ _. h.0.3.2 (late e)), λ _. due f),
        ),
        h.1,
      )
        where
          apart : coin_phase ≡ init_phase → ⊥
          apart x = omega (arith, x)

  advance_phase-IsValid : (c : Core) → KeptCore c → KeptCore (advance_phase c)
  unfolding advance_phase
  advance_phase-IsValid c h =
      enter_coin-IsValid (enter_aux (enter_val c))
        (enter_aux-IsValid (enter_val c) (enter_val-IsValid c h))

  reset_core-IsValid : (c : Core) → KeptCore c → KeptCore (reset_core c)
  unfolding reset_core Aggregator.cleanup_aba
  reset_core-IsValid c h = (
    (
      h.0.0,
      (
        h.0.1.0,
        All-retain (λ e. HasMembers c.aggregator.committee e.1.shares) _
            c.aggregator.aba_randomcoin_aggregators h.0.1.1,
      ),
      (
        All-retain (λ e. is_empty e.1.votes ≡ false) _ c.tc_cache h.0.2.0,
        All-retain (λ e. e.1.round ≡ e.0.1) _ c.aba_val_phase_cache1 h.0.2.1,
      ),
      (
        (λ x. absurd (differ x)),
        (λ _. refl),
        (λ late. absurd (early late)),
        λ late. absurd (earlier late),
      ),
    ),
    h.1,
  )
    where
      differ : false ≡ true → ⊥
      differ x = cc

      early : val_phase ≤ init_phase → ⊥
      early late = omega (arith, late)

      earlier : coin_phase ≤ init_phase → ⊥
      earlier late = omega (arith, late)

module _ (env : Env) (cm : Committee) (trust : Trust env cm) (depth fuel : ℕ) where
  abbrev Kept : Work → Type 0
  Kept = IsValidWork env cm

  propose_again-Safe : Safe Kept Any (propose_again env depth fuel)
  unfolding propose_again
  propose_again-Safe = Safe-bind (core_of-Safe env cm trust) (λ core _.
      Safe-bind (chain_of-Safe env cm trust) (λ chain _.
        Safe-if (chain.name == core.name)
          (λ _.
            Safe-bind (Safe-on_core env cm (generate_proposal-Safe env cm trust chain true))
              (λ b sound.
                broadcast_propose-Safe env cm trust depth (handle_vote env depth fuel)
                  (handle_vote-Safe env cm trust depth fuel) b sound))
          (λ _. Safe-pure Kept Any tt tt)))

  output_block-Safe :
      (output_height : ℕ) (o : Option Block)
      → Safe Kept Any (output_block env depth fuel output_height o)
  unfolding output_block reset_chain
  output_block-Safe output_height none = Safe-pure Kept Any tt tt
  output_block-Safe output_height (some b) = Safe-then (commit-Safe env cm trust depth b) (
      Safe-then
        (Safe-modify Kept
          (λ w. record { core = reset_core w.core; chain = reset_chain output_height w.chain })
          (λ w h. (reset_core-IsValid env cm w.core h.0, λ _. refl)))
        propose_again-Safe)

  finish_epoch-Safe :
      (output_height : ℕ) → Safe Kept Any (finish_epoch env depth fuel output_height)
  unfolding finish_epoch
  finish_epoch-Safe output_height = Safe-bind (core_of-Safe env cm trust) (λ core _.
      Safe-bind (chain_of-Safe env cm trust)
        (λ chain _. go core (lookup output_height chain.height_to_digest)))
    where
      go :
          (core : Core) (o : Option Digest)
          → Safe Kept Any (elim o as (λ _. Exec Work (Unit {0})) [
            | none ↦ pure tt
            | some d ↦ do
              block ← on_core (get_block env core.name d none)
              output_block env depth fuel output_height block
          ])
      go core none = Safe-pure Kept Any tt tt
      go core (some d) =
          Safe-bind (Safe-on_core env cm (get_block-Safe env cm trust false core.name d none))
            (λ b _. output_block-Safe output_height b)

  pub update_aba_phase-Safe : Safe Kept Any (update_aba_phase env depth fuel)
  unfolding update_aba_phase
  update_aba_phase-Safe = Safe-bind (core_of-Safe env cm trust) (λ before _.
      Safe-if before.is_view_change
        (λ _.
          Safe-then
            (Safe-on_core env cm
              (Safe-modify (IsValid env cm false) advance_phase (advance_phase-IsValid env cm)))
            (Safe-bind (core_of-Safe env cm trust) (λ core _. go core.aba_output_val)))
        (λ _. Safe-pure Kept Any tt tt))
    where
      go :
          (o : Option ℕ)
          → Safe Kept Any (elim o as (λ _. Exec Work (Unit {0})) [
            | none ↦ on_core (process_aba_phase env)
            | some output_height ↦ finish_epoch env depth fuel output_height
          ])
      go none = Safe-on_core env cm (process_aba_phase-Safe env cm trust)
      go (some output_height) = finish_epoch-Safe output_height

module _ (env : Env) (cm : Committee) (trust : Trust env cm) where
  start_view-IsValid :
      (b : Bool) (c : Core)
      → IsValid env cm false c
      → IsValid env cm false (if b then record c { is_view_change = true } else c)
  start_view-IsValid true c h = h
  start_view-IsValid false c h = h

  pub check_timeout-Safe : Safe (IsValidWork env cm) Any (check_timeout env)
  unfolding check_timeout
  check_timeout-Safe =
      Safe-then
        (Safe-on_core env cm (
          Safe-modify (IsValid env cm false)
            (λ c. if contains_key c.epoch c.tc_cache then record c { is_view_change = true } else c)
            (λ c h. start_view-IsValid (contains_key c.epoch c.tc_cache) c h)))
        (Safe-bind (core_of-Safe env cm trust) (λ core _.
          Safe-bind (chain_of-Safe env cm trust) (λ chain _.
            Safe-if (core.is_view_change || not (falls_behind chain.height core.pubkey_to_chain))
              (λ _. Safe-pure (IsValidWork env cm) Any tt tt)
              (λ _.
                Safe-then
                  (Safe-on_core env cm (
                    Safe-modify (IsValid env cm false) (λ c. record c { is_view_change = true })
                      (λ c h. h)))
                  (local_timeout_round-Safe env cm trust)))))

-- ===== src/Core/Aba.antt =====
-- consensus/src/core.rs: the binary agreement on the height at which a leader's chain is cut.
-- A value is a height; two values of different parity stand for the two sides of the coin.
pub mod Output
pub mod Auxiliary
use hotstuff_dag.Aggregator
use hotstuff_dag.Aggregator.{Aggregator}
use hotstuff_dag.Core.Outside.{transmit}
use hotstuff_dag.Core.State.{Core, aux_phase, tcvba, val_phase}
use hotstuff_dag.Error.{invalid_phase, ok, unwrap}
use hotstuff_dag.Exec.{Exec, lift, modify, pure, raise, ◌>>=◌, ◌>>◌}
use hotstuff_dag.Messages
use hotstuff_dag.Messages.Aba.{AbaProof, AbaVal}
use hotstuff_dag.Messages.Coin
use hotstuff_dag.Messages.Coin.{RandomnessShare}
use hotstuff_dag.Prelude.{
  Bool, Option, [], add64, bytes_eq, false, if◌then◌else◌, insert, is_empty, leb, lookup, lookup_or,
  ltb, nat_eq, none, pair_eq, quad_eq, retain, set_insert, some, true, ℕ, ◌%◌, ◌&&◌, ◌==◌, ◌||◌,
  ◌∷◌,
}
use hotstuff_dag.World.{ConsensusMessage, Env, aba_coin_share, network_filter_smvba}

-- Core::is_expired_aba_message
unfoldable pub is_expired_aba_message : ℕ → ℕ → Core → Bool
is_expired_aba_message epoch round c = elim c.aba_output_val [
  | some v ↦ true
  | none ↦ ltb epoch c.epoch || epoch == c.epoch && ltb round c.aba_round
]

abbrev pub this_core : Exec Core Core
this_core c = (ok c, c)

-- What `self.aggregator` does to the core.
abbrev pub aggregate : {A : Type 0} → Exec Aggregator A → Exec Core A
aggregate m c = let (r, a) = m c.aggregator in (r, record c { aggregator = a })

abbrev pub broadcast : ConsensusMessage → Exec Core (Unit {0})
broadcast message = transmit message none network_filter_smvba tcvba

-- The state that `advance_aba_round` leaves before it announces the input of the new round.
unfoldable pub next_round : ℕ → Core → Core
next_round input_val c =
    let round = add64 c.aba_round 1 in
    let current = λ (k : ℕ × ℕ). k.0 == c.epoch && leb round k.1 in
    record c {
      aba_round = round;
      phase = val_phase;
      aba_input_val = insert round input_val c.aba_input_val;
      val_value_broadcasted = false;
      aux_value_broadcasted = false;
      coin_share_broadcasted = false;
      aux_proof_broadcasted = false;
      bin_values = [];
      aba_val_phase_cache1 = retain current c.aba_val_phase_cache1;
      aba_val_phase_cache2 = retain current c.aba_val_phase_cache2;
      aba_aux_phase_cache = retain current c.aba_aux_phase_cache;
      aux_value_nums = retain current c.aux_value_nums;
      aba_proof_cache = retain current c.aba_proof_cache;
    }

module _ (env : Env) where
  unfoldable pub cache_val_proof : Option AbaProof → Exec Core (Unit {0})
  cache_val_proof none = pure tt
  cache_val_proof (some p) = modify (λ c.
      if p.tag
      then record c { aba_val_phase_cache1 = insert (p.epoch, p.round) p c.aba_val_phase_cache1 }
      else record c { aba_val_phase_cache2 = insert (p.epoch, p.round) p c.aba_val_phase_cache2 })

  -- Core::handle_val_phase
  unfoldable pub handle_val_phase : AbaVal → Exec Core (Unit {0})
  unfolding cache_val_proof
  handle_val_phase v = do
    lift (Messages.Aba.verify_val env.primitives v)
    made ← aggregate (Aggregator.add_aba_val v)
    cache_val_proof made

  unfoldable pub cache_aux_proof : Option AbaProof → Exec Core (Unit {0})
  cache_aux_proof none = pure tt
  cache_aux_proof (some p) =
      modify
        (λ c. record c { aba_aux_phase_cache = insert (p.epoch, p.round) p c.aba_aux_phase_cache })

  -- Core::handle_aux_phase: the value is counted before the aggregator can refuse it.
  unfoldable pub handle_aux_phase : AbaVal → Exec Core (Unit {0})
  unfolding cache_aux_proof
  handle_aux_phase v = do
    lift (Messages.Aba.verify_val env.primitives v)
    modify (λ c. record c {
      aux_value_nums =
          insert (v.epoch, v.round) (add64 (lookup_or (v.epoch, v.round) 0 c.aux_value_nums) 1)
            c.aux_value_nums;
    })
    made ← aggregate (Aggregator.add_aba_val v)
    cache_aux_proof made

  -- Core::handle_aba_val
  unfoldable pub handle_aba_val : AbaVal → Exec Core (Unit {0})
  unfolding handle_val_phase handle_aux_phase is_expired_aba_message
  handle_aba_val v = do
    core ← this_core
    if is_expired_aba_message v.epoch v.round core
        then pure tt
        else if v.phase == val_phase
        then handle_val_phase v
        else if v.phase == aux_phase
        then handle_aux_phase v
        else raise (invalid_phase v.phase)

  -- A value of our own goes to all others and to ourselves.
  unfoldable pub announce : AbaVal → Exec Core (Unit {0})
  unfolding handle_aba_val
  announce v = do broadcast (ConsensusMessage.aba_val v); handle_aba_val v

  pub own_val : Core → ℕ → ℕ → ℕ → ℕ → AbaVal
  own_val c epoch round val phase = Messages.Aba.new_val env.primitives c.name epoch round val phase

  -- Core::process_val_phase_1; `self.aba_input_val[&proof.round]` panics on a missing round.
  unfoldable pub process_val_phase_1 : AbaProof → Exec Core (Unit {0})
  unfolding announce own_val
  process_val_phase_1 p = do
    core ← this_core
    input ← lift (unwrap (lookup p.round core.aba_input_val))
    if input == p.val then pure tt else if core.val_value_broadcasted then pure tt else (do
      modify (λ c. record c { val_value_broadcasted = true })
      announce (own_val core p.epoch p.round p.val p.phase))

  -- Core::process_val_phase_2
  unfoldable pub process_val_phase_2 : AbaProof → Exec Core (Unit {0})
  unfolding announce own_val
  process_val_phase_2 p = do
    core ← this_core
    (if is_empty core.bin_values || core.aux_value_broadcasted then pure tt else (do
      modify (λ c. record c { aux_value_broadcasted = true })
      announce (own_val core p.epoch p.round p.val aux_phase)))
    modify (λ c. record c { bin_values = set_insert p.val c.bin_values })

  unfoldable pub cache_coin : RandomnessShare → Option ℕ → Exec Core (Unit {0})
  cache_coin s none = pure tt
  cache_coin s (some coin) =
      modify (λ c. record c { aba_coin_cache = insert (s.epoch, s.round) coin c.aba_coin_cache })

  -- Core::handle_coin_share
  unfoldable pub handle_coin_share : RandomnessShare → Exec Core (Unit {0})
  unfolding cache_coin is_expired_aba_message
  handle_coin_share s = do
    core ← this_core
    if is_expired_aba_message s.epoch s.round core then pure tt else (do
      lift (Coin.verify env.primitives s core.committee)
      made ← aggregate (Aggregator.add_aba_random env.primitives s)
      cache_coin s made)

  -- Core::process_aux_phase
  unfoldable pub process_aux_phase : ℕ → ℕ → Exec Core (Unit {0})
  unfolding handle_coin_share
  process_aux_phase epoch round = do
    core ← this_core
    share ← lift (Coin.new env.primitives epoch round core.name)
    if core.coin_share_broadcasted then pure tt else (do
      modify (λ c. record c { coin_share_broadcasted = true })
      broadcast (aba_coin_share share)
      handle_coin_share share)

  -- Core::advance_aba_round
  unfoldable pub advance_aba_round : ℕ → Exec Core (Unit {0})
  unfolding next_round announce own_val
  advance_aba_round input_val = do
    modify (next_round input_val)
    core ← this_core
    announce (own_val core core.epoch core.aba_round input_val val_phase)

  -- The value becomes the output, and its proof is sent once.
  unfoldable pub output : ℕ → AbaProof → Exec Core (Unit {0})
  output v p = do
    modify (λ c. record c { aba_output_val = some v })
    core ← this_core
    if core.aux_proof_broadcasted then pure tt else (do
      modify (λ c. record c { aux_proof_broadcasted = true })
      broadcast (ConsensusMessage.aba_proof p))

  -- The branch of `process_coin_share` for one value in `bin_values`; the proof must be there.
  unfoldable pub coin_one_value : ℕ → ℕ → ℕ → ℕ → Exec Core (Unit {0})
  unfolding output advance_aba_round
  coin_one_value epoch round coin v = do
    core ← this_core
    if v % 2 == coin
        then (do
          modify (λ c. record c { aba_output_val = some v })
          p ← lift (unwrap (lookup (epoch, round) core.aba_aux_phase_cache))
          output v p)
        else advance_aba_round v

  unfoldable pub coin_many_values : Option AbaProof → ℕ → Exec Core (Unit {0})
  unfolding output advance_aba_round
  coin_many_values none coin = advance_aba_round coin
  coin_many_values (some p) coin =
      if p.val % 2 == coin then output p.val p else advance_aba_round coin

  -- Core::process_coin_share
  unfoldable pub process_coin_share : ℕ → ℕ → ℕ → Exec Core (Unit {0})
  unfolding coin_one_value coin_many_values
  process_coin_share epoch round coin = do
    core ← this_core
    elim core.bin_values [
      | [] ↦ coin_many_values (lookup (epoch, round) core.aba_aux_phase_cache) coin
      | v ∷ vs ↦
          if is_empty vs
          then coin_one_value epoch round coin v
          else coin_many_values (lookup (epoch, round) core.aba_aux_phase_cache) coin
    ]

  -- Core::handle_aba_proof
  unfoldable pub handle_aba_proof : AbaProof → Exec Core (Unit {0})
  unfolding is_expired_aba_message
  handle_aba_proof p = do
    core ← this_core
    if is_expired_aba_message p.epoch p.round core then pure tt else (do
      lift (Messages.Aba.verify_proof env.primitives p core.committee)
      modify (λ c. record c { aba_proof_cache = insert (p.epoch, p.round) p c.aba_proof_cache }))

-- Core::process_aba_proof: a proof counts only once the coin of its round is known.
unfoldable pub process_aba_proof : AbaProof → Core → Core
process_aba_proof p c = elim (lookup (p.epoch, p.round) c.aba_coin_cache) [
  | none ↦ c
  | some coin ↦ if p.val % 2 == coin then record c { aba_output_val = some p.val } else c
]

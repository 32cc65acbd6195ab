-- ===== src/Core/Alive/Rounds.antt =====
-- The coin and the rounds of the binary agreement of consensus/src/core.rs keep the core valid and
-- do not panic.
use hotstuff_dag.Config.{Committee}
use hotstuff_dag.Core.Aba.{
  advance_aba_round, broadcast, cache_coin, coin_many_values, coin_one_value, handle_aba_proof,
  handle_coin_share, is_expired_aba_message, next_round, output, own_val, process_aba_proof,
  process_aux_phase, process_coin_share,
}
use hotstuff_dag.Core.Alive.Aba.{
  aggregate-Safe, announce-Safe, broadcast-Safe, this_core-Safe, unwrap-Gives,
}
use hotstuff_dag.Core.Alive.Answers.{aba_proof_verify-Gives}
use hotstuff_dag.Core.Alive.Makers.{add_aba_random-Safe, coin_verify-Gives}
use hotstuff_dag.Core.Alive.{
  Any, Gives, IsMember, IsValid, Safe, Safe-bind, Safe-if, Safe-lift, Safe-modify, Safe-pure,
  Safe-then, Trust,
}
use hotstuff_dag.Core.State.{Core, coin_phase, init_phase, val_phase}
use hotstuff_dag.Crypto.{PublicKey}
use hotstuff_dag.Error.{unwrap}
use hotstuff_dag.Exec.{Exec, modify, ◌>>◌}
use hotstuff_dag.Messages
use hotstuff_dag.Messages.Aba.{AbaProof}
use hotstuff_dag.Messages.Coin
use hotstuff_dag.Messages.Coin.{RandomnessShare}
use hotstuff_dag.Prelude.{
  All-retain, Bool, List, Map, Option, Option-cases, [], add64, arith, bytes_eq, contains_key,
  contains_key-kept, false, if◌then◌else◌, inl, inr, insert, is_empty, length, lookup,
  lookup-insert_self, nat_eq, none, pair_eq, quad_eq, refl, some, true, ℕ, ◌%◌, ◌==◌, ◌∷◌, ◌≡◌, ◌≤◌,
  ◌⊎◌,
}
use hotstuff_dag.World.{ConsensusMessage, Env, aba_coin_share}
use mathlib.Core.Path.{subst}

module _ (env : Env) (cm : Committee) (trust : Trust env cm) (begun : Bool) where
  abbrev Kept : Core → Type 0
  Kept = IsValid env cm begun

  cache_coin-Safe : (s : RandomnessShare) (o : Option ℕ) → Safe Kept Any (cache_coin env s o)
  unfolding cache_coin
  cache_coin-Safe s none = Safe-pure Kept Any tt tt
  cache_coin-Safe s (some coin) = Safe-modify Kept _ (λ c h. h)

  pub handle_coin_share-Safe : (s : RandomnessShare) → Safe Kept Any (handle_coin_share env s)
  unfolding handle_coin_share
  handle_coin_share-Safe s = Safe-bind (this_core-Safe env cm trust begun) (λ core h.
      Safe-if (is_expired_aba_message s.epoch s.round core) (λ _. Safe-pure Kept Any tt tt)
        (λ _.
          Safe-bind
            (Safe-lift Kept (λ _. IsMember core.committee s.author)
              (Coin.verify env.primitives s core.committee)
              (coin_verify-Gives env.primitives s core.committee))
            (λ _ member.
              Safe-bind
                (aggregate-Safe env cm trust begun (
                  add_aba_random-Safe env.primitives s cm
                    (subst (λ x. IsMember x s.author) h.0.0.0 member)))
                (λ made _. cache_coin-Safe s made))))

  share-Gives :
      (epoch round : ℕ) (name : PublicKey) → Gives Any (Coin.new env.primitives epoch round name)
  unfolding Coin.new
  share-Gives epoch round name =
      elim (Option-cases (env.primitives.tss_sign (Coin.round_digest env.primitives epoch round))) [
        | inl nothing ↦ absurd (trust.secret (Coin.round_digest env.primitives epoch round) nothing)
        | inr (share, found) ↦ rw found tt
      ]

  send_share-Safe :
      (share : RandomnessShare)
      → Safe Kept Any (do
        modify (λ c. record c { coin_share_broadcasted = true })
        broadcast (aba_coin_share share)
        handle_coin_share env share)
  send_share-Safe share =
      Safe-then
        (Safe-then (Safe-modify Kept _ (λ c h. h))
          (broadcast-Safe env cm trust begun (aba_coin_share share)))
        (handle_coin_share-Safe share)

  pub process_aux_phase-Safe : (epoch round : ℕ) → Safe Kept Any (process_aux_phase env epoch round)
  unfolding process_aux_phase
  process_aux_phase-Safe epoch round = Safe-bind (this_core-Safe env cm trust begun) (λ core _.
      Safe-bind
        (Safe-lift Kept Any (Coin.new env.primitives epoch round core.name)
          (share-Gives epoch round core.name))
        (λ share _.
          Safe-if core.coin_share_broadcasted (λ _. Safe-pure Kept Any tt tt)
            (λ _. send_share-Safe share)))

  -- The next round has its input.
  next_round-IsValid : (v : ℕ) (c : Core) → Kept c → Kept (next_round v c)
  unfolding next_round
  next_round-IsValid v c h =
      let round = add64 c.aba_round 1 in
      (
        (
          h.0.0,
          h.0.1,
          (h.0.2.0, All-retain (λ e. e.1.round ≡ e.0.1) _ c.aba_val_phase_cache1 h.0.2.1),
          (
            λ b. contains_key-kept round 1 v c.aba_input_val (h.0.3.0 b),
            λ e. absurd (apart e),
            λ _. there round c.aba_input_val,
            λ late. absurd (before late),
          ),
        ),
        h.1,
      )
    where
      apart : val_phase ≡ init_phase → ⊥
      apart e = omega (arith, e)

      before : coin_phase ≤ val_phase → ⊥
      before late = omega (arith, late)

      there : (k : ℕ) (m : Map ℕ ℕ) → contains_key k (insert k v m) ≡ true
      there k m = rw (lookup-insert_self k v m, contains_key) refl

  advance_aba_round-Safe : (v : ℕ) → Safe Kept Any (advance_aba_round env v)
  unfolding advance_aba_round
  advance_aba_round-Safe v = Safe-then (Safe-modify Kept (next_round v) (next_round-IsValid v)) (
      Safe-bind (this_core-Safe env cm trust begun) (λ core _.
        announce-Safe env cm trust begun (own_val env core core.epoch core.aba_round v val_phase)))

  output-Safe : (v : ℕ) (p : AbaProof) → Safe Kept Any (output env v p)
  unfolding output
  output-Safe v p =
      Safe-then (Safe-modify Kept (λ c. record c { aba_output_val = some v }) (λ c h. h)) (
        Safe-bind (this_core-Safe env cm trust begun) (λ core _.
          Safe-if core.aux_proof_broadcasted (λ _. Safe-pure Kept Any tt tt)
            (λ _.
              Safe-then
                (Safe-modify Kept (λ c. record c { aux_proof_broadcasted = true }) (λ c h. h))
                (broadcast-Safe env cm trust begun (ConsensusMessage.aba_proof p)))))

  -- With one value the auxiliary proof must be there.
  coin_one_value-keeps :
      (epoch round coin v : ℕ) (c : Core)
      → Kept c
      → contains_key (epoch, round) c.aba_aux_phase_cache ≡ true
      → Kept (coin_one_value env epoch round coin v c).1
        × Gives Any (coin_one_value env epoch round coin v c).0
  unfolding coin_one_value
  coin_one_value-keeps epoch round coin v c h there =
      (Safe-if (v % 2 == coin)
          (λ _.
            Safe-then (Safe-modify Kept (λ c. record c { aba_output_val = some v }) (λ c h. h)) (
              Safe-bind
                (Safe-lift Kept Any (unwrap (lookup (epoch, round) c.aba_aux_phase_cache))
                  (unwrap-Gives (epoch, round) c.aba_aux_phase_cache there))
                (λ p _. output-Safe v p)))
          (λ _. advance_aba_round-Safe v)).keeps
        c h

  coin_many_values-Safe :
      (o : Option AbaProof) (coin : ℕ) → Safe Kept Any (coin_many_values env o coin)
  unfolding coin_many_values
  coin_many_values-Safe none coin = advance_aba_round-Safe coin
  coin_many_values-Safe (some p) coin =
      Safe-if (p.val % 2 == coin) (λ _. output-Safe p.val p) (λ _. advance_aba_round-Safe coin)

  -- In the phase of the coin, a set of one value has its auxiliary proof.
  pub process_coin_share-keeps :
      (coin : ℕ) (c : Core)
      → Kept c
      → coin_phase ≤ c.phase
      → Kept (process_coin_share env c.epoch c.aba_round coin c).1
        × Gives Any (process_coin_share env c.epoch c.aba_round coin c).0
  unfolding process_coin_share
  process_coin_share-keeps coin c h late = go c.bin_values (h.0.3.3 late)
    where
      many :
          Safe Kept Any
            (coin_many_values env (lookup (c.epoch, c.aba_round) c.aba_aux_phase_cache) coin)
      many = coin_many_values-Safe (lookup (c.epoch, c.aba_round) c.aba_aux_phase_cache) coin

      go :
          (bins : List ℕ)
          → (2 ≤ length bins) ⊎ (contains_key (c.epoch, c.aba_round) c.aba_aux_phase_cache ≡ true)
          → let out =
              (elim bins as (λ _. Exec Core (Unit {0})) [
                | [] ↦
                    coin_many_values env (lookup (c.epoch, c.aba_round) c.aba_aux_phase_cache) coin
                | v ∷ vs ↦
                    if is_empty vs
                    then coin_one_value env c.epoch c.aba_round coin v
                    else coin_many_values env
                        (lookup (c.epoch, c.aba_round) c.aba_aux_phase_cache)
                        coin
              ])
                c in
            Kept out.1 × Gives Any out.0
      go [] due = many.keeps c h
      go (v ∷ []) (inl two) = absurd (few two)
        where
          few : 2 ≤ 1 → ⊥
          few two = omega (arith, two)
      go (v ∷ []) (inr there) = coin_one_value-keeps c.epoch c.aba_round coin v c h there
      go (v ∷ w ∷ vs) due = many.keeps c h

  pub handle_aba_proof-Safe : (p : AbaProof) → Safe Kept Any (handle_aba_proof env p)
  unfolding handle_aba_proof
  handle_aba_proof-Safe p = Safe-bind (this_core-Safe env cm trust begun) (λ core _.
      Safe-if (is_expired_aba_message p.epoch p.round core) (λ _. Safe-pure Kept Any tt tt)
        (λ _.
          Safe-then
            (Safe-lift Kept Any (Messages.Aba.verify_proof env.primitives p core.committee)
              (aba_proof_verify-Gives env.primitives p core.committee))
            (Safe-modify Kept
              (λ c. record c { aba_proof_cache = insert (p.epoch, p.round) p c.aba_proof_cache })
              (λ c h. h))))

  pub process_aba_proof-IsValid : (p : AbaProof) (c : Core) → Kept c → Kept (process_aba_proof p c)
  unfolding process_aba_proof
  process_aba_proof-IsValid p c h = go (lookup (p.epoch, p.round) c.aba_coin_cache)
    where
      matches : (b : Bool) → Kept (if b then record c { aba_output_val = some p.val } else c)
      matches true = h
      matches false = h

      go :
          (o : Option ℕ)
          → Kept (elim o as (λ _. Core) [
            | none ↦ c
            | some coin ↦ if p.val % 2 == coin then record c { aba_output_val = some p.val } else c
          ])
      go none = h
      go (some coin) = matches (p.val % 2 == coin)

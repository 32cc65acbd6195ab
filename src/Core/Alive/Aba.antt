-- ===== src/Core/Alive/Aba.antt =====
-- The binary agreement of consensus/src/core.rs keeps the core valid and does not panic.
use hotstuff_dag.Aggregator.{Aggregator}
use hotstuff_dag.Config.{Committee}
use hotstuff_dag.Core.Aba.{
  aggregate, announce, broadcast, cache_aux_proof, cache_val_proof, handle_aba_val,
  handle_aux_phase, handle_val_phase, is_expired_aba_message, own_val, process_val_phase_1,
  process_val_phase_2, this_core,
}
use hotstuff_dag.Core.Alive.Answers.{verify_signature-Gives}
use hotstuff_dag.Core.Alive.Makers.{add_aba_val-Safe}
use hotstuff_dag.Core.Alive.Outside.{transmit-Safe}
use hotstuff_dag.Core.Alive.{
  Any, Gives, IsGathered, IsMember, IsValid, Safe, Safe-bind, Safe-if, Safe-lift, Safe-modify,
  Safe-pure, Safe-then, Trust,
}
use hotstuff_dag.Core.State.{Core, aux_phase, leader, tcvba, val_phase}
use hotstuff_dag.Error.{err, invalid_phase, unwrap}
use hotstuff_dag.Exec.{Exec, modify, ◌>>◌}
use hotstuff_dag.Leader.Rotation.{get_leader-IsMember}
use hotstuff_dag.Leader.{get_leader}
use hotstuff_dag.Messages
use hotstuff_dag.Messages.Aba.{AbaProof, AbaVal}
use hotstuff_dag.Prelude.{
  All-insert, Bool, Eq, List, Map, Option, Option-cases, arith, bytes_eq, contains_key,
  contains_key-kept, false, if◌then◌else◌, inl, inr, insert, is_empty, length, lookup, nat_eq, none,
  pair_eq, quad_eq, refl, set_insert, some, sym, true, ℕ, ◌==◌, ◌||◌, ◌≡◌, ◌≤◌, ◌⊎◌,
}
use hotstuff_dag.World.{ConsensusMessage, Env, network_filter_smvba}
use mathlib.Core.Path.{subst}

pub unwrap-Gives {ℓ} :
    {K : Type ℓ} {V : Type 0} ⦃e : Eq K⦄ (k : K) (m : Map K V)
    → contains_key k m ≡ true
    → Gives Any (unwrap (lookup k m))
unwrap-Gives k m there = elim (Option-cases (lookup k m)) [
  | inl nothing ↦ absurd (missing nothing)
  | inr (v, found) ↦ rw found tt
]
  where
    missing : lookup k m ≡ none → ⊥
    missing nothing = ground (arith, nothing, there)

module _ (env : Env) (cm : Committee) (trust : Trust env cm) (begun : Bool) where
  abbrev Kept : Core → Type 0
  Kept = IsValid env cm begun

  pub this_core-Safe : Safe Kept Kept this_core
  this_core-Safe = record { keeps = λ c h. (h, h) }

  pub leader_of-Gives : (e : ℕ) → Gives (IsMember cm) (get_leader cm e)
  leader_of-Gives e =
      let (k, turn, member) = get_leader-IsMember cm e trust.not_empty in rw turn member

  pub aggregate-Safe :
      {A : Type 0} {Q : A → Type 0} {m : Exec Aggregator A}
      → Safe (IsGathered cm) Q m
      → Safe Kept Q (aggregate m)
  aggregate-Safe safe = record {
    keeps = λ c h.
        let out = safe.keeps c.aggregator h.0.1 in (((h.0.0, out.0, h.0.2, h.0.3), h.1), out.1);
  }

  pub broadcast-Safe : (m : ConsensusMessage) → Safe Kept Any (broadcast m)
  broadcast-Safe m = transmit-Safe env cm trust begun m none network_filter_smvba tcvba

  cache_val_proof-Safe : (o : Option AbaProof) → Safe Kept Any (cache_val_proof env o)
  unfolding cache_val_proof
  cache_val_proof-Safe none = Safe-pure Kept Any tt tt
  cache_val_proof-Safe (some p) = Safe-modify Kept _ (λ c h. go p.tag c h)
    where
      go :
          (tag : Bool) (c : Core)
          → Kept c
          → Kept (
              if tag
              then record c {
                aba_val_phase_cache1 = insert (p.epoch, p.round) p c.aba_val_phase_cache1;
              }
              else record c {
                aba_val_phase_cache2 = insert (p.epoch, p.round) p c.aba_val_phase_cache2;
              })
      go true c h = (
        (
          h.0.0,
          h.0.1,
          (
            h.0.2.0,
            All-insert (λ e. e.1.round ≡ e.0.1) (p.epoch, p.round) p c.aba_val_phase_cache1 refl
                h.0.2.1,
          ),
          h.0.3,
        ),
        h.1,
      )
      go false c h = h

  cache_aux_proof-Safe : (o : Option AbaProof) → Safe Kept Any (cache_aux_proof env o)
  unfolding cache_aux_proof
  cache_aux_proof-Safe none = Safe-pure Kept Any tt tt
  cache_aux_proof-Safe (some p) = Safe-modify Kept _ (λ c h.
      ((h.0.0, h.0.1, h.0.2, (h.0.3.0, h.0.3.1, h.0.3.2, λ late. still c (h.0.3.3 late))), h.1))
    where
      still :
          (c : Core)
          → (2 ≤ length c.bin_values)
            ⊎ (contains_key (c.epoch, c.aba_round) c.aba_aux_phase_cache ≡ true)
          → (2 ≤ length c.bin_values)
            ⊎ (contains_key
                  (c.epoch, c.aba_round)
                  (insert (p.epoch, p.round) p c.aba_aux_phase_cache)
                ≡ true)
      still c (inl two) = inl two
      still c (inr there) = inr (
          contains_key-kept (p.epoch, p.round) (c.epoch, c.aba_round) p c.aba_aux_phase_cache there)

  handle_val_phase-Safe : (v : AbaVal) → Safe Kept Any (handle_val_phase env v)
  unfolding handle_val_phase Messages.Aba.verify_val
  handle_val_phase-Safe v =
      Safe-bind
        (Safe-lift Kept Any _ (
          verify_signature-Gives env.primitives v.signature
            (Messages.Aba.val_digest env.primitives v) v.author))
        (λ _ _.
          Safe-bind (aggregate-Safe (add_aba_val-Safe v cm)) (λ made _. cache_val_proof-Safe made))

  handle_aux_phase-Safe : (v : AbaVal) → Safe Kept Any (handle_aux_phase env v)
  unfolding handle_aux_phase Messages.Aba.verify_val
  handle_aux_phase-Safe v =
      Safe-bind
        (Safe-lift Kept Any _ (
          verify_signature-Gives env.primitives v.signature
            (Messages.Aba.val_digest env.primitives v) v.author))
        (λ _ _. Safe-bind (Safe-modify Kept _ (λ c h. h)) (λ _ _.
          Safe-bind (aggregate-Safe (add_aba_val-Safe v cm)) (λ made _. cache_aux_proof-Safe made)))

  pub handle_aba_val-Safe : (v : AbaVal) → Safe Kept Any (handle_aba_val env v)
  unfolding handle_aba_val
  handle_aba_val-Safe v = Safe-bind this_core-Safe (λ core _.
      Safe-if (is_expired_aba_message v.epoch v.round core) (λ _. Safe-pure Kept Any tt tt)
        (λ _.
          Safe-if (v.phase == val_phase) (λ _. handle_val_phase-Safe v)
            (λ _.
              Safe-if (v.phase == aux_phase) (λ _. handle_aux_phase-Safe v)
                (λ _. Safe-lift Kept Any (err (invalid_phase v.phase)) tt))))

  pub announce-Safe : (v : AbaVal) → Safe Kept Any (announce env v)
  unfolding announce
  announce-Safe v =
      Safe-bind (broadcast-Safe (ConsensusMessage.aba_val v)) (λ _ _. handle_aba_val-Safe v)

  -- The round of the proof must have its input.
  pub process_val_phase_1-keeps :
      (p : AbaProof) (c : Core)
      → Kept c
      → contains_key p.round c.aba_input_val ≡ true
      → Kept (process_val_phase_1 env p c).1 × Gives Any (process_val_phase_1 env p c).0
  unfolding process_val_phase_1
  process_val_phase_1-keeps p c h there =
      (Safe-bind
          (Safe-lift Kept Any (unwrap (lookup p.round c.aba_input_val))
            (unwrap-Gives p.round c.aba_input_val there))
          (λ input _.
            Safe-if (input == p.val) (λ _. Safe-pure Kept Any tt tt)
              (λ _.
                Safe-if c.val_value_broadcasted (λ _. Safe-pure Kept Any tt tt)
                  (λ _.
                    Safe-bind (Safe-modify Kept _ (λ c h. h))
                      (λ _ _. announce-Safe (own_val env c p.epoch p.round p.val p.phase)))))).keeps
        c h

  -- Another value does not make them fewer.
  add_value-Safe :
      (v : ℕ) → Safe Kept Any (modify (λ c. record c { bin_values = set_insert v c.bin_values }))
  add_value-Safe v = Safe-modify Kept _ (λ c h.
      ((h.0.0, h.0.1, h.0.2, (h.0.3.0, h.0.3.1, h.0.3.2, λ late. still c (h.0.3.3 late))), h.1))
    where
      grows : (xs : List ℕ) → 2 ≤ length xs → 2 ≤ length (set_insert v xs)
      grows xs two = ground (arith, two)

      still :
          (c : Core)
          → (2 ≤ length c.bin_values)
            ⊎ (contains_key (c.epoch, c.aba_round) c.aba_aux_phase_cache ≡ true)
          → (2 ≤ length (set_insert v c.bin_values))
            ⊎ (contains_key (c.epoch, c.aba_round) c.aba_aux_phase_cache ≡ true)
      still c (inl two) = inl (grows c.bin_values two)
      still c (inr there) = inr there

  first_value-Safe :
      (p : AbaProof) (core : Core)
      → Safe Kept Any (do
        modify (λ c. record c { aux_value_broadcasted = true })
        announce env (own_val env core p.epoch p.round p.val aux_phase))
  first_value-Safe p core =
      Safe-then (Safe-modify Kept _ (λ c h. h))
        (announce-Safe (own_val env core p.epoch p.round p.val aux_phase))

  pub process_val_phase_2-Safe : (p : AbaProof) → Safe Kept Any (process_val_phase_2 env p)
  unfolding process_val_phase_2
  process_val_phase_2-Safe p = Safe-bind this_core-Safe (λ core _.
      Safe-then
        (Safe-if (is_empty core.bin_values || core.aux_value_broadcasted)
          (λ _. Safe-pure Kept Any tt tt) (λ _. first_value-Safe p core))
        (add_value-Safe p.val))

  -- self.leader_elector.get_leader(self.epoch)
  pub leader-Safe : Safe Kept (IsMember cm) leader
  leader-Safe = record {
    keeps = λ c h. (
      h,
      subst (λ x. Gives (IsMember cm) (get_leader x c.epoch)) (sym h.0.0.0)
          (leader_of-Gives c.epoch),
    );
  }

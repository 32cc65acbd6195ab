-- ===== src/Core/Alive/Stages.antt =====
-- The stages of `process_aba_phase` in consensus/src/core.rs keep the core valid and do not panic: a
-- timeout certificate has a highest round, the round of a proof has its input, and in the phase of
-- the coin the proof that is unwrapped is there.
use Prim.Native.Nat.{max}
use hotstuff_dag.Config.{Committee}
use hotstuff_dag.Core.Aba.{
  own_val, process_aba_proof, process_aux_phase, process_coin_share, process_val_phase_1,
  process_val_phase_2,
}
use hotstuff_dag.Core.Alive.Aba.{
  announce-Safe, broadcast-Safe, process_val_phase_1-keeps, process_val_phase_2-Safe,
  this_core-Safe,
}
use hotstuff_dag.Core.Alive.Rounds.{
  process_aba_proof-IsValid, process_aux_phase-Safe, process_coin_share-keeps,
}
use hotstuff_dag.Core.Alive.{
  Any, Gives, IsValid, Safe, Safe-bind, Safe-lift, Safe-modify, Safe-pure, Safe-then, Trust,
  bind_at,
}
use hotstuff_dag.Core.State.{Core, aux_phase, coin_phase, val_phase}
use hotstuff_dag.Core.ViewChange.{
  aux_stage, coin_stage, maximum, process_aba_phase, process_tc, proof_stage, tc_stage, val_stage,
  val_stage_1, val_stage_2, when,
}
use hotstuff_dag.Crypto.{PublicKey, Signature}
use hotstuff_dag.Error.{Result, err, ok, out_of_fuel, panic, unwrap}
use hotstuff_dag.Exec.{Exec, continue, modify, pure, ◌>>=◌, ◌>>◌}
use hotstuff_dag.Messages.Aba.{AbaProof}
use hotstuff_dag.Messages.Tc
use hotstuff_dag.Messages.Tc.{Tc}
use hotstuff_dag.Prelude.{
  All-lookup, Bool, List, Option, [], bytes_eq, contains_key, contains_key-kept, false, insert,
  is_empty, leb, leb→le, lookup, lookup-insert_self, map, nat_eq, none, not, pair_eq, quad_eq, refl,
  some, sym, true, ℕ, ◌∙◌, ◌∷◌, ◌≡◌, ◌≤◌,
}
use hotstuff_dag.World.{ConsensusMessage, Env}
use mathlib.Core.Path.{subst}

maximum-Gives : (xs : List ℕ) → is_empty xs ≡ false → Gives Any (unwrap (maximum xs))
unfolding maximum
maximum-Gives [] h = cc
maximum-Gives (x ∷ xs) h = go (maximum xs)
  where
    go :
        (o : Option ℕ)
        → Gives Any (unwrap (elim o as (λ _. Option ℕ) [ none ↦ some x | some m ↦ some (max x m) ]))
    go none = tt
    go (some m) = tt

rounds-is_empty : (t : Tc) → is_empty (Tc.high_qc_rounds t) ≡ is_empty t.votes
unfolding Tc.high_qc_rounds
rounds-is_empty t = go t.votes
  where
    go :
        (votes : List (PublicKey × Signature × ℕ))
        → is_empty (map (λ v. v.2) votes) ≡ is_empty votes
    go [] = refl
    go (v ∷ votes) = refl

module _ (env : Env) (cm : Committee) (trust : Trust env cm) where
  abbrev Kept : Core → Type 0
  Kept = IsValid env cm false

  abbrev Begun : Core → Type 0
  Begun = IsValid env cm true

  Begun-Kept : (c : Core) → Begun c → Kept c
  Begun-Kept c h = ((h.0.0, h.0.1, h.0.2, ((λ _. h.0.3.0 refl), h.0.3.1, h.0.3.2, h.0.3.3)), h.1)

  set_input :
      (v : ℕ) (c : Core) → Kept c → Begun (record c { aba_input_val = insert 1 v c.aba_input_val })
  set_input v c h = (
    (
      h.0.0,
      h.0.1,
      h.0.2,
      (
        (λ _. rw (lookup-insert_self 1 v c.aba_input_val, contains_key) refl),
        h.0.3.1,
        (λ late. contains_key-kept 1 c.aba_round v c.aba_input_val (h.0.3.2 late)),
        h.0.3.3,
      ),
    ),
    h.1,
  )

  -- `m` is safe, and where it succeeds the first round has its input.
  record Begins (m : Exec Core (Unit {0})) : Type 0 where
    begins :
        (c : Core) → Kept c → Kept (m c).1 × Gives Any (m c).0 × ((m c).0 ≡ ok tt → Begun (m c).1)

  Begins-bind :
      {A : Type 0} {Q : A → Type 0} {m : Exec Core A} {f : A → Exec Core (Unit {0})}
      → Safe Kept Q m
      → ((a : A) → Q a → Begins (f a))
      → Begins (m >>= f)
  Begins-bind {A} {Q} {m} {f} hm hf = record {
    begins = λ c h. go (m c).0 (m c).1 (hm.keeps c h).0 (hm.keeps c h).1;
  }
    where
      go :
          (r : Result A) (c : Core)
          → Kept c
          → Gives Q r
          → let out = continue r f c in Kept out.1 × Gives Any out.0 × (out.0 ≡ ok tt → Begun out.1)
      go (ok a) c h q = (hf a q).begins c h
      go (err e) c h q = (h, tt, λ e. cc)
      go panic c h q = absurd q
      go out_of_fuel c h q = (h, tt, λ e. cc)

  Begins-input :
      {n : Exec Core (Unit {0})} (v : ℕ)
      → Safe Begun Any n
      → Begins (modify (λ c. record c { aba_input_val = insert 1 v c.aba_input_val }) >> n)
  Begins-input {n} v hn = record {
    begins = λ c h.
        let c' : Core = record c { aba_input_val = insert 1 v c.aba_input_val } in
        let out = hn.keeps c' (set_input v c h) in (Begun-Kept (n c').1 out.0, out.1, λ _. out.0);
  }

  process_tc-Begins : (t : Tc) → is_empty t.votes ≡ false → Begins (process_tc env t)
  unfolding process_tc
  process_tc-Begins t some_votes =
      Begins-bind (broadcast-Safe env cm trust false (ConsensusMessage.tc t)) (λ _ _.
        Begins-bind
          (Safe-lift Kept Any (unwrap (maximum (Tc.high_qc_rounds t)))
            (maximum-Gives (Tc.high_qc_rounds t) (rounds-is_empty t ∙ some_votes)))
          (λ input _. Begins-input input (
            Safe-bind (this_core-Safe env cm trust true) (λ core _.
              announce-Safe env cm trust true (own_val env core core.epoch 1 input val_phase)))))

  finish_tc-Safe :
      (m : Exec Core (Unit {0}))
      → Begins m
      → Safe Kept Any (m >> modify (λ c. record c { tc_processed = true }))
  finish_tc-Safe m b = record {
    keeps = λ c h. go (m c).0 (m c).1 (b.begins c h).0 (b.begins c h).1 (b.begins c h).2;
  }
    where
      go :
          (r : Result (Unit {0})) (c : Core)
          → Kept c
          → Gives Any r
          → (r ≡ ok tt → Begun c)
          → let out = continue r (λ _. modify (λ c. record c { tc_processed = true })) c in
            Kept out.1 × Gives Any out.0
      go (ok u) c h g begun =
          let k = begun refl in
          (((k.0.0, k.0.1, k.0.2, ((λ _. k.0.3.0 refl), k.0.3.1, k.0.3.2, k.0.3.3)), k.1), tt)
      go (err e) c h g begun = (h, tt)
      go panic c h g begun = absurd g
      go out_of_fuel c h g begun = (h, tt)

  Safe-when : {m : Exec Core (Unit {0})} (b : Bool) → Safe Kept Any m → Safe Kept Any (when b m)
  Safe-when true h = h
  Safe-when false h = Safe-pure Kept Any tt tt

  tc_stage-Safe : Safe Kept Any (tc_stage env)
  unfolding tc_stage
  tc_stage-Safe = Safe-bind (this_core-Safe env cm trust false) (λ core h.
      Safe-when (not core.tc_processed) (go core h (lookup core.epoch core.tc_cache) refl))
    where
      go :
          (core : Core)
          → Kept core
          → (o : Option Tc) → lookup core.epoch core.tc_cache ≡ o
          → Safe Kept Any (elim o as (λ _. Exec Core (Unit {0})) [
            | none ↦ pure tt
            | some t ↦ do process_tc env t; modify (λ c. record c { tc_processed = true })
          ])
      go core h none e = Safe-pure Kept Any tt tt
      go core h (some t) e = finish_tc-Safe (process_tc env t) (
          process_tc-Begins t
            (All-lookup (λ e. is_empty e.1.votes ≡ false) core.epoch t core.tc_cache h.0.2.0 e))

  val_stage_1-keeps :
      (c : Core)
      → Kept c
      → val_phase ≤ c.phase
      → Kept (val_stage_1 env c).1 × Gives Any (val_stage_1 env c).0
  unfolding val_stage_1
  val_stage_1-keeps c h late = go (lookup (c.epoch, c.aba_round) c.aba_val_phase_cache1) refl
    where
      go :
          (o : Option AbaProof)
          → lookup (c.epoch, c.aba_round) c.aba_val_phase_cache1 ≡ o
          → let out =
              (elim o as (λ _. Exec Core (Unit {0})) [
                | none ↦ pure tt
                | some p ↦ process_val_phase_1 env p
              ])
                c in
            Kept out.1 × Gives Any out.0
      go none e = (h, tt)
      go (some p) e = process_val_phase_1-keeps env cm trust false p c h (
          subst (λ k. contains_key k c.aba_input_val ≡ true)
            (sym (
              All-lookup (λ e. e.1.round ≡ e.0.1) (c.epoch, c.aba_round) p c.aba_val_phase_cache1
                h.0.2.1 e))
            (h.0.3.2 late))

  val_stage_2-Safe : Safe Kept Any (val_stage_2 env)
  unfolding val_stage_2
  val_stage_2-Safe =
      Safe-bind (this_core-Safe env cm trust false)
        (λ core _. go (lookup (core.epoch, core.aba_round) core.aba_val_phase_cache2))
    where
      go :
          (o : Option AbaProof)
          → Safe Kept Any (elim o as (λ _. Exec Core (Unit {0})) [
            | none ↦ pure tt
            | some p ↦ process_val_phase_2 env p
          ])
      go none = Safe-pure Kept Any tt tt
      go (some p) = process_val_phase_2-Safe env cm trust false p

  val_stage-Safe : Safe Kept Any (val_stage env)
  unfolding val_stage
  val_stage-Safe = record { keeps = λ c h. go c h (leb val_phase c.phase) refl }
    where
      go :
          (c : Core)
          → Kept c
          → (b : Bool) → leb val_phase c.phase ≡ b
          → let out = when b (val_stage_1 env >> val_stage_2 env) c in Kept out.1 × Gives Any out.0
      go c h false e = (h, tt)
      go c h true e =
          let first = val_stage_1-keeps c h (leb→le val_phase c.phase e) in
          bind_at Kept Any Any (λ _. val_stage_2 env) (val_stage_1 env c).0 (val_stage_1 env c).1
            first.0 first.1 (λ _ _. val_stage_2-Safe)

  aux_stage-Safe : Safe Kept Any (aux_stage env)
  unfolding aux_stage
  aux_stage-Safe = Safe-bind (this_core-Safe env cm trust false) (λ core _.
      Safe-when (leb aux_phase core.phase)
        (go (lookup (core.epoch, core.aba_round) core.aba_aux_phase_cache)))
    where
      go :
          (o : Option AbaProof)
          → Safe Kept Any (elim o as (λ _. Exec Core (Unit {0})) [
            | none ↦ pure tt
            | some p ↦ process_aux_phase env p.epoch p.round
          ])
      go none = Safe-pure Kept Any tt tt
      go (some p) = process_aux_phase-Safe env cm trust false p.epoch p.round

  coin_stage-Safe : Safe Kept Any (coin_stage env)
  unfolding coin_stage
  coin_stage-Safe = record {
    keeps = λ c h.
        go c h (lookup (c.epoch, c.aba_round) c.aba_coin_cache) (leb coin_phase c.phase) refl;
  }
    where
      go :
          (c : Core)
          → Kept c
          → (o : Option ℕ) (b : Bool) → leb coin_phase c.phase ≡ b
          → let out =
              when b
                (elim o as (λ _. Exec Core (Unit {0})) [
                  | none ↦ pure tt
                  | some coin ↦ process_coin_share env c.epoch c.aba_round coin
                ])
                c in
            Kept out.1 × Gives Any out.0
      go c h o false e = (h, tt)
      go c h none true e = (h, tt)
      go c h (some coin) true e =
          process_coin_share-keeps env cm trust false coin c h (leb→le coin_phase c.phase e)

  proof_stage-Safe : Safe Kept Any (proof_stage env)
  unfolding proof_stage
  proof_stage-Safe = Safe-bind (this_core-Safe env cm trust false) (λ core _.
      Safe-when core.is_view_change (go (lookup (core.epoch, core.aba_round) core.aba_proof_cache)))
    where
      go :
          (o : Option AbaProof)
          → Safe Kept Any (elim o as (λ _. Exec Core (Unit {0})) [
            | none ↦ pure tt
            | some p ↦ modify (process_aba_proof p)
          ])
      go none = Safe-pure Kept Any tt tt
      go (some p) =
          Safe-modify Kept (process_aba_proof p) (process_aba_proof-IsValid env cm trust false p)

  pub process_aba_phase-Safe : Safe Kept Any (process_aba_phase env)
  unfolding process_aba_phase
  process_aba_phase-Safe = Safe-then tc_stage-Safe (
      Safe-then val_stage-Safe
        (Safe-then aux_stage-Safe (Safe-then coin_stage-Safe proof_stage-Safe)))

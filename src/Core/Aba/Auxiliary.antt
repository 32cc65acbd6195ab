-- ===== src/Core/Aba/Auxiliary.antt =====
-- When the auxiliary value of an agreement round goes out: `process_val_phase_2` of
-- consensus/src/core.rs.
use hotstuff_dag.Aggregator
use hotstuff_dag.Aggregator.{Aggregator}
use hotstuff_dag.Config.{smvba_broadcast_addresses}
use hotstuff_dag.Core.Aba.{
  aggregate, announce, cache_aux_proof, cache_val_proof, handle_aba_val, handle_aux_phase,
  handle_val_phase, is_expired_aba_message, own_val, process_val_phase_2,
}
use hotstuff_dag.Core.Outside.{addresses, transmit}
use hotstuff_dag.Core.State.{Core, aux_phase, emit, val_phase}
use hotstuff_dag.Error.{Result, err, invalid_phase, ok, out_of_fuel, panic}
use hotstuff_dag.Exec.{Exec, continue, lift, modify, pure, raise, ◌>>=◌}
use hotstuff_dag.Messages
use hotstuff_dag.Messages.Aba.{AbaProof, AbaVal}
use hotstuff_dag.Prelude.{
  Bool, Option, [], add64, ap, arith, bytes_eq, false, if◌then◌else◌, insert, lookup_or, nat_eq,
  none, pair_eq, quad_eq, refl, set_insert, some, true, ◌==◌, ◌∙◌, ◌∷◌, ◌≡◌,
}
use hotstuff_dag.World.{ConsensusMessage, Env, Event, Trace, network_filter_smvba, sent}

-- What has been sent, and whether the auxiliary value has.
abbrev Record : Type 0
Record = Trace × Bool

abbrev record_of : Core → Record
record_of c = (c.trace, c.aux_value_broadcasted)

-- `m` sends nothing and leaves the flag.
abbrev Quiet : {A : Type 0} → Exec Core A → Type 0
Quiet m = (c : Core) → record_of (m c).1 ≡ record_of c

Quiet-bind :
    {A B : Type 0} (m : Exec Core A) (f : A → Exec Core B)
    → Quiet m
    → ((a : A) → Quiet (f a))
    → Quiet (m >>= f)
Quiet-bind {A} {B} m f km kf c = go (m c).0
  where
    go : (r : Result A) → record_of (continue r f (m c).1).1 ≡ record_of c
    go (ok a) = kf a (m c).1 ∙ km c
    go (err x) = km c
    go panic = km c
    go out_of_fuel = km c

Quiet-if :
    {A : Type 0} (b : Bool) (m n : Exec Core A) → Quiet m → Quiet n → Quiet (if b then m else n)
Quiet-if true m n km kn = km
Quiet-if false m n km kn = kn

module _ (env : Env) where
  cache_val_proof-Quiet : (o : Option AbaProof) → Quiet (cache_val_proof env o)
  unfolding cache_val_proof
  cache_val_proof-Quiet none c = refl
  cache_val_proof-Quiet (some p) c = ground arith

  cache_aux_proof-Quiet : (o : Option AbaProof) → Quiet (cache_aux_proof env o)
  unfolding cache_aux_proof
  cache_aux_proof-Quiet none c = refl
  cache_aux_proof-Quiet (some p) c = refl

  handle_val_phase-Quiet : (v : AbaVal) → Quiet (handle_val_phase env v)
  unfolding handle_val_phase
  handle_val_phase-Quiet v =
      Quiet-bind (lift (Messages.Aba.verify_val env.primitives v)) _ (λ c. refl)
        (λ _.
          Quiet-bind (aggregate (Aggregator.add_aba_val v)) (cache_val_proof env) (λ c. refl)
            cache_val_proof-Quiet)

  handle_aux_phase-Quiet : (v : AbaVal) → Quiet (handle_aux_phase env v)
  unfolding handle_aux_phase
  handle_aux_phase-Quiet v =
      Quiet-bind (lift (Messages.Aba.verify_val env.primitives v)) _ (λ c. refl)
        (λ _ c.
          Quiet-bind (aggregate (Aggregator.add_aba_val v)) (cache_aux_proof env) (λ c. refl)
            cache_aux_proof-Quiet
            (record c {
              aux_value_nums =
                  insert (v.epoch, v.round)
                    (add64 (lookup_or (v.epoch, v.round) 0 c.aux_value_nums) 1) c.aux_value_nums;
            }))

  handle_aba_val-Quiet : (v : AbaVal) → Quiet (handle_aba_val env v)
  unfolding handle_aba_val
  handle_aba_val-Quiet v c =
      Quiet-if (is_expired_aba_message v.epoch v.round c) (pure tt) _ (λ c. refl)
        (Quiet-if (v.phase == val_phase) (handle_val_phase env v) _ (handle_val_phase-Quiet v) (
          Quiet-if (v.phase == aux_phase) (handle_aux_phase env v) (raise (invalid_phase v.phase))
            (handle_aux_phase-Quiet v) (λ c. refl)))
        c

  -- What `announce` sends to all others.
  abbrev pub announcement : AbaVal → Core → Event
  announcement v c =
      sent network_filter_smvba (ConsensusMessage.aba_val v)
        (smvba_broadcast_addresses c.committee c.name)

  announce-record :
      (v : AbaVal) (c : Core)
      → record_of (announce env v c).1 ≡ (announcement v c ∷ c.trace, c.aux_value_broadcasted)
  unfolding announce transmit addresses
  announce-record v c = handle_aba_val-Quiet v (emit (announcement v c) c)

  -- With no value yet in the set and no auxiliary value sent, process_val_phase_2 on the proof of a
  -- round puts the value into the set, and sends nothing and changes nothing else. When it is called
  -- again, the auxiliary value of this proof, and nothing else, is sent to all others, and noted as
  -- sent, whatever comes of that call.
  pub process_val_phase_2_twice :
      (p : AbaProof) (c : Core)
      → let before = record c { bin_values = []; aux_value_broadcasted = false } in
        let first = process_val_phase_2 env p before in
        let second = process_val_phase_2 env p first.1 in
        (first ≡ (ok tt, record before { bin_values = p.val ∷ [] }))
        × (second.1.trace
            ≡ announcement (own_val env c p.epoch p.round p.val aux_phase) c ∷ c.trace)
        × (second.1.aux_value_broadcasted ≡ true)
  unfolding process_val_phase_2
  process_val_phase_2_twice p c = (refl, ap (λ r. r.0) after, ap (λ r. r.1) after)
    where
      v : AbaVal
      v = own_val env c p.epoch p.round p.val aux_phase

      flagged : Core
      flagged = record c { bin_values = p.val ∷ []; aux_value_broadcasted = true }

      finish : Exec Core (Unit {0})
      finish = modify (λ c. record c { bin_values = set_insert p.val c.bin_values })

      go :
          (r : Result (Unit {0})) (d : Core)
          → record_of (continue r (λ _. finish) d).1 ≡ record_of d
      go (ok u) d = refl
      go (err e) d = refl
      go panic d = refl
      go out_of_fuel d = refl

      after :
          record_of ((announce env v >>= λ _. finish) flagged).1
          ≡ (announcement v c ∷ c.trace, true)
      after = go (announce env v flagged).0 (announce env v flagged).1 ∙ announce-record v flagged

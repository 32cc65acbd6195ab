-- ===== src/Filter/Conservation.antt =====
-- What the loop of consensus/src/filter.rs sends on and what it holds back.
use hotstuff_dag.Config.{Committee, Parameters}
use hotstuff_dag.Error.{Result, err, ok, out_of_fuel, panic}
use hotstuff_dag.Exec.{Exec, continue, lift, ◌>>=◌}
use hotstuff_dag.Filter.{
  FilterInput, Input, Pending, Task, core, core_smvba, forward, forward_smvba, ready, ready_at,
  ready_smvba, run, sleeping, step, transmit,
}
use hotstuff_dag.Network.{NetMessage}
use hotstuff_dag.Prelude.{
  Bool, List, Option, [], ap, arith, if◌then◌else◌, none, refl, remove_at, some, suc, zero, ℕ, ◌++◌,
  ◌+◌, ◌∙◌, ◌∷◌, ◌≡◌,
}
use hotstuff_dag.World.{Bytes, ConsensusMessage}

-- How many of the messages are of the kind that `q` tells.
abbrev pub count : (NetMessage → Bool) → List NetMessage → ℕ
count q [] = 0
count q (m ∷ ms) = (if q m then 1 else 0) + count q ms

module _ (p : Parameters) (committee : Committee) (serialize : ConsensusMessage → Option Bytes)
    (q : NetMessage → Bool) where
  -- One if the network message made of the input is of this kind.
  abbrev pub weight : FilterInput → ℕ
  weight x = elim (serialize x.0) [
    | none ↦ 0
    | some bytes ↦ if q (record { bytes = bytes; addresses = x.1 }) then 1 else 0
  ]

  abbrev pub held_back : List Pending → ℕ
  held_back [] = 0
  held_back (f ∷ fs) = weight f.input + held_back fs

  -- Of this kind: what is held back and what has been sent, and what comes with an input.
  abbrev pub account : Task → ℕ
  account t = held_back t.pending + count q t.network

  abbrev pub account_smvba : Task → ℕ
  account_smvba t = held_back t.pending_smvba + count q t.net_smvba

  abbrev pub arriving : Input → ℕ
  arriving (core now draw x) = weight x
  arriving (core_smvba now draw x) = 0
  arriving (ready now i) = 0
  arriving (ready_smvba now i) = 0

  abbrev pub arriving_smvba : Input → ℕ
  arriving_smvba (core now draw x) = 0
  arriving_smvba (core_smvba now draw x) = weight x
  arriving_smvba (ready now i) = 0
  arriving_smvba (ready_smvba now i) = 0

  abbrev pub sum : (Input → ℕ) → List Input → ℕ
  sum f [] = 0
  sum f (i ∷ inputs) = f i + sum f inputs

  held_back-append :
      (fs : List Pending) (f : Pending) → held_back (fs ++ f ∷ []) ≡ held_back fs + weight f.input
  held_back-append [] f = omega arith
  held_back-append (g ∷ fs) f = omega (arith, held_back-append fs f)

  held_back-remove_at :
      (now i : ℕ) (fs : List Pending) (x : FilterInput)
      → ready_at now i fs ≡ some x
      → held_back fs ≡ weight x + held_back (remove_at i fs)
  unfolding ready_at
  held_back-remove_at now i [] x h = cc
  held_back-remove_at now zero (f ∷ fs) x h =
      let same : f.input ≡ x = ground (arith, h) in ap (λ y. weight y + held_back fs) same
  held_back-remove_at now (suc i) (f ∷ fs) x h = omega (arith, held_back-remove_at now i fs x h)

  sleeping-input :
      (now : ℕ) (draw : Bool) (x : FilterInput) (f : Pending)
      → sleeping p committee serialize now draw x ≡ ok f
      → f.input ≡ x
  unfolding sleeping
  sleeping-input now draw x f h = ground (arith, h)

  forward_lem :
      (now i : ℕ) (t : Task) (found : Option FilterInput)
      → ready_at now i t.pending ≡ found
      → (forward p committee serialize found i t).0 ≡ ok tt
      → let t' = (forward p committee serialize found i t).1 in
        (account t' ≡ account t) × (account_smvba t' ≡ account_smvba t)
  unfolding forward transmit
  forward_lem now i t none h run = (refl, refl)
  forward_lem now i t (some x) h run = ground (arith, held_back-remove_at now i t.pending x h, run)

  forward_smvba_lem :
      (now i : ℕ) (t : Task) (found : Option FilterInput)
      → ready_at now i t.pending_smvba ≡ found
      → (forward_smvba p committee serialize found i t).0 ≡ ok tt
      → let t' = (forward_smvba p committee serialize found i t).1 in
        (account t' ≡ account t) × (account_smvba t' ≡ account_smvba t)
  unfolding forward_smvba transmit
  forward_smvba_lem now i t none h run = (refl, refl)
  forward_smvba_lem now i t (some x) h run =
      ground (arith, held_back-remove_at now i t.pending_smvba x h, run)

  pushed :
      (now : ℕ) (draw : Bool) (x : FilterInput) (fs : List Pending) (f : Pending)
      → sleeping p committee serialize now draw x ≡ ok f
      → held_back (fs ++ f ∷ []) ≡ held_back fs + weight x
  pushed now draw x fs f h =
      held_back-append fs f ∙ ap (λ y. held_back fs + weight y) (sleeping-input now draw x f h)

  -- What the loop gets through, it has not panicked in.
  is_ok-bind :
      {A B : Type 0} (m : Exec Task A) (f : A → Exec Task B) (t : Task) (b : B)
      → ((m >>= f) t).0 ≡ ok b
      → (a : A) × ((m t).0 ≡ ok a) × ((f a (m t).1).0 ≡ ok b)
  is_ok-bind {A} {B} m f t b h = go (m t).0 refl h
    where
      go :
          (r : Result A)
          → (m t).0 ≡ r
          → (continue r f (m t).1).0 ≡ ok b
          → (a : A) × ((m t).0 ≡ ok a) × ((f a (m t).1).0 ≡ ok b)
      go (ok a) e h = (a, e, h)
      go (err x) e h = cc
      go panic e h = cc
      go out_of_fuel e h = cc

  step_lem :
      (i : Input) (t : Task)
      → (step p committee serialize i t).0 ≡ ok tt
      → let t' = (step p committee serialize i t).1 in
        (account t' ≡ account t + arriving i)
        × (account_smvba t' ≡ account_smvba t + arriving_smvba i)
  unfolding step
  step_lem (core now draw x) t run =
      let (f, slept, _) =
        is_ok-bind (lift (sleeping p committee serialize now draw x)) _ t tt run in
      rw slept (omega (arith, pushed now draw x t.pending f slept), omega arith)
  step_lem (core_smvba now draw x) t run =
      let (f, slept, _) =
        is_ok-bind (lift (sleeping p committee serialize now draw x)) _ t tt run in
      rw slept (omega arith, omega (arith, pushed now draw x t.pending_smvba f slept))
  step_lem (ready now i) t run =
      let (left, right) = forward_lem now i t (ready_at now i t.pending) refl run in
      (omega (arith, left), omega (arith, right))
  step_lem (ready_smvba now i) t run =
      let (left, right) = forward_smvba_lem now i t (ready_at now i t.pending_smvba) refl run in
      (omega (arith, left), omega (arith, right))

  -- After any inputs that the loop gets through, each kind of message counts for as much on either
  -- network, with what is held back for it, as it did before and as has come on its channel.
  pub run_lem :
      (inputs : List Input) (t : Task)
      → (run p committee serialize inputs t).0 ≡ ok tt
      → let t' = (run p committee serialize inputs t).1 in
        (account t' ≡ account t + sum arriving inputs)
        × (account_smvba t' ≡ account_smvba t + sum arriving_smvba inputs)
  unfolding run
  run_lem [] t done = (omega arith, omega arith)
  run_lem (i ∷ inputs) t done =
      let (u, went, rest) =
        is_ok-bind (step p committee serialize i) (λ _. run p committee serialize inputs) t tt
          done in
      let (left, right) = step_lem i t went in
      let (after, after_smvba) = run_lem inputs (step p committee serialize i t).1 rest in
      rw went (omega (arith, left, after), omega (arith, right, after_smvba))

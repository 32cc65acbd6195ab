-- ===== src/Network/Delivery.antt =====
-- The order in which the sender of network/src/lib.rs puts what it is given into channels, over a run.
use hotstuff_dag.Config.{SocketAddr}
use hotstuff_dag.Network.Order.{
  append_assoc, append_nil, is_last, is_last-insert_old, is_last_new, is_last_still, queued,
  queued_fresh, queued_grown, queued_same,
}
use hotstuff_dag.Network.Queues.{
  IsValid, begun, given, new-IsValid, replace-IsValid, send_closed, send_open, spawn_and_send_lem,
  spawned_with, spawned_with-IsValid,
}
use hotstuff_dag.Network.{
  Input, NetSender, Worker, end_worker, new, received, run, send, send_all, send_to, spawn_and_send,
  step, worker_ended,
}
use hotstuff_dag.Prelude.{
  ==_iff, Bool, Bool-cases, List, Map, Option, [], ap, arith, bytes_eq, false, if◌then◌else◌, inl,
  inr, insert, lookup, lookup-insert, lookup-insert_self, nat_eq, none, pair_eq, quad_eq, refl,
  some, sym, true, ℕ, ◌++◌, ◌==◌, ◌∙◌, ◌∷◌, ◌≡◌,
}
use hotstuff_dag.World.{Bytes}
use mathlib.Core.Path.{subst}

-- The worker kept for an address is the last one spawned for it.
record InOrder (s : NetSender) : Type 0 where
  pub valid : IsValid s
  pub last : (a : SocketAddr) (n : ℕ) → lookup a s.senders ≡ some n → is_last a n s.workers ≡ true

-- What a list of messages says to an address: a message as often as the address occurs.
abbrev pub for_address : SocketAddr → Bytes → List SocketAddr → List Bytes
for_address b bytes [] = []
for_address b bytes (a ∷ addresses) =
    (if a == b then bytes ∷ [] else []) ++ for_address b bytes addresses

abbrev pub given_for : SocketAddr → Input → List Bytes
given_for b (received m) = for_address b m.bytes m.addresses
given_for b (worker_ended n) = []

abbrev pub all_given_for : SocketAddr → List Input → List Bytes
all_given_for b [] = []
all_given_for b (i ∷ inputs) = given_for b i ++ all_given_for b inputs

new-InOrder : InOrder new
unfolding new
new-InOrder = record { valid = new-IsValid; last = λ a n is. cc }

-- A worker that is replaced by one with the same address and queue.
end_worker_lem :
    (b : SocketAddr) (n : ℕ) (s : NetSender)
    → InOrder s
    → InOrder (end_worker n s) × (queued b (end_worker n s).workers ≡ queued b s.workers)
unfolding end_worker
end_worker_lem b n s v = go (lookup n s.workers) refl
  where
    go :
        (found : Option Worker)
        → lookup n s.workers ≡ found
        → let s' = elim found as (λ _. NetSender) [
          | none ↦ s
          | some w ↦ record s { workers = insert n (record w { is_open = false }) s.workers }
        ] in
          InOrder s' × (queued b s'.workers ≡ queued b s.workers)
    go none h = (v, refl)
    go (some w) h =
        let w' : Worker = record w { is_open = false } in
        (
          record {
            valid = replace-IsValid n w w' s h refl v.valid;
            last = λ a i is. is_last-insert_old a i n w w' s.workers h refl ∙ v.last a i is;
          },
          queued_same b n w w' s.workers h refl refl,
        )

module _ (refuses : ℕ → Bool) where
  spawned_with_lem :
      (a b : SocketAddr) (bytes : Bytes) (s : NetSender)
      → InOrder s
      → let s' = spawned_with refuses a bytes s in
        InOrder s'
        × (queued b s'.workers ≡ queued b s.workers ++ (if a == b then bytes ∷ [] else []))
  spawned_with_lem a b bytes s v = (
    record {
      valid = spawned_with-IsValid refuses a bytes s v.valid;
      last = λ c i is.
          is_last-insert_old c i s.spawned (begun refuses a) (given refuses a bytes) between present
            refl
          ∙ elim (Bool-cases (a == c)) [
            | inl same ↦
                let it_is : s.spawned ≡ i =
                  ground (arith, lookup-insert a c s.spawned s.senders, same, is) in
                subst (λ n. is_last c n between ≡ true) it_is
                  (is_last_new c s.spawned (begun refuses a) s.workers fresh ((==_iff a c).0 same))
            | inr other ↦
                is_last_still c i s.spawned (begun refuses a) s.workers fresh other
                  (v.last c i (ground (arith, lookup-insert a c s.spawned s.senders, other, is)))
          ];
    },
    queued_grown a b s.spawned (begun refuses a) (given refuses a bytes) bytes between present
          (is_last_new a s.spawned (begun refuses a) s.workers fresh refl) refl refl
        ∙ ap (λ l. l ++ (if a == b then bytes ∷ [] else []))
            (queued_fresh b s.spawned (begun refuses a) s.workers fresh refl),
  )
    where
      between : Map ℕ Worker
      between = insert s.spawned (begun refuses a) s.workers

      present : lookup s.spawned between ≡ some (begun refuses a)
      present = lookup-insert_self s.spawned (begun refuses a) s.workers

      fresh : lookup s.spawned s.workers ≡ none
      fresh = v.valid.unused s.spawned (omega arith)

  -- What `s'` has more than `s`.
  abbrev Adds : (SocketAddr → List Bytes) → NetSender → NetSender → Type 0
  Adds more s s' =
      InOrder s' × ((b : SocketAddr) → queued b s'.workers ≡ queued b s.workers ++ more b)

  Adds-then :
      (f g : SocketAddr → List Bytes) (s t u : NetSender)
      → Adds f s t
      → Adds g t u
      → Adds (λ b. f b ++ g b) s u
  Adds-then f g s t u (_, first) (v, second) = (
    v,
    λ b.
        second b
        ∙ ap (λ l. l ++ g b) (first b)
        ∙ sym (append_assoc (queued b s.workers) (f b) (g b)),
  )

  module _ (accepts : (n : ℕ) → refuses n ≡ false) where
    send_to-Adds :
        (a : SocketAddr) (bytes : Bytes) (s : NetSender)
        → InOrder s
        → Adds (λ b. if a == b then bytes ∷ [] else []) s (send_to refuses a bytes s)
    unfolding send_to
    send_to-Adds a bytes s v = go (lookup a s.senders) refl
      where
        more : SocketAddr → List Bytes
        more b = if a == b then bytes ∷ [] else []

        spawns : Adds more s (spawn_and_send refuses a bytes s)
        spawns =
            rw (spawn_and_send_lem refuses a bytes s (accepts s.spawned))
              ((spawned_with_lem a a bytes s v).0, λ b. (spawned_with_lem a b bytes s v).1)

        go :
            (found : Option ℕ)
            → lookup a s.senders ≡ found
            → Adds more s (elim found as (λ _. NetSender) [
              | none ↦ spawn_and_send refuses a bytes s
              | some n ↦
                  if (send n bytes s).0
                  then spawn_and_send refuses a bytes (send n bytes s).1
                  else (send n bytes s).1
            ])
        go none h = spawns
        go (some n) h =
            let (w, there, right) = v.valid.known a n h in
            let w' : Worker = record w { queue = w.queue ++ bytes ∷ [] } in
            elim (Bool-cases w.is_open) [
              | inl alive ↦ rw (send_open n bytes s w there alive) (
                record {
                  valid = replace-IsValid n w w' s there refl v.valid;
                  last =
                      λ c i is. is_last-insert_old c i n w w' s.workers there refl ∙ v.last c i is;
                },
                λ b. queued_grown a b n w w' bytes s.workers there (v.last a n h) refl refl,
              )
              | inr ended ↦ rw (send_closed n bytes s w there ended) spawns
            ]

    send_all-Adds :
        (bytes : Bytes) (addresses : List SocketAddr) (s : NetSender)
        → InOrder s
        → Adds (λ b. for_address b bytes addresses) s (send_all refuses bytes addresses s)
    unfolding send_all
    send_all-Adds bytes [] s v = (v, λ b. sym (append_nil (queued b s.workers)))
    send_all-Adds bytes (a ∷ addresses) s v =
        let first = send_to-Adds a bytes s v in
        Adds-then (λ b. if a == b then bytes ∷ [] else []) (λ b. for_address b bytes addresses) s
          (send_to refuses a bytes s) (send_all refuses bytes (a ∷ addresses) s) first
          (send_all-Adds bytes addresses (send_to refuses a bytes s) first.0)

    step-Adds :
        (i : Input) (s : NetSender) → InOrder s → Adds (λ b. given_for b i) s (step refuses i s)
    unfolding step
    step-Adds (received m) s v = send_all-Adds m.bytes m.addresses s v
    step-Adds (worker_ended n) s v = (
      (end_worker_lem 0 n s v).0,
      λ b. (end_worker_lem b n s v).1 ∙ sym (append_nil (queued b s.workers)),
    )

    run-Adds :
        (inputs : List Input) (s : NetSender)
        → InOrder s
        → Adds (λ b. all_given_for b inputs) s (run refuses inputs s)
    unfolding run
    run-Adds [] s v = (v, λ b. sym (append_nil (queued b s.workers)))
    run-Adds (i ∷ inputs) s v =
        let first = step-Adds i s v in
        Adds-then (λ b. given_for b i) (λ b. all_given_for b inputs) s (step refuses i s)
          (run refuses (i ∷ inputs) s) first (run-Adds inputs (step refuses i s) first.0)

  -- If no worker is refused its connection before it is given a message, then whatever messages come
  -- and whichever workers end, what has been put into channels for an address is all that the
  -- messages say to it, in their order, once for each time that they name it.
  pub queued_in_order :
      (inputs : List Input) (b : SocketAddr)
      → ((n : ℕ) → refuses n ≡ false)
      → queued b (run refuses inputs new).workers ≡ all_given_for b inputs
  unfolding new
  queued_in_order inputs b accepts = (run-Adds accepts inputs new new-InOrder).1 b

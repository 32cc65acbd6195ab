-- ===== src/Crypto/Service/Served.antt =====
-- Whom the signature service of crypto/src/lib.rs answers, and with what.
-- What the inputs ask for, oldest first.
use hotstuff_dag.Crypto.Keys.{SecretKey}
use hotstuff_dag.Crypto.Service.{
  Input, Requester, Signing, Task, enqueue, fresh, names, new_signature, request, run, serve,
  serve_next, step, stop,
}
use hotstuff_dag.Crypto.{Digest, Signature}
use hotstuff_dag.Error.{Result, ok, panic}
use hotstuff_dag.Exec.{on}
use hotstuff_dag.Prelude.{
  Bool-cases, List, [], ap, drop, false, from_be_bytes, if◌then◌else◌, inl, inr, refl, sym, take,
  true, ◌++◌, ◌∙◌, ◌∷◌, ◌≡◌,
}
use mathlib.Core.List.{append_assoc, append-nil}
use mathlib.Core.Path.{subst}

abbrev pub requests : List Input → List (Digest × Requester)
requests [] = []
requests (request d who ∷ inputs) = (d, who) ∷ requests inputs
requests (serve ∷ inputs) = requests inputs

names-append : (xs ys : List (Digest × Requester)) → names (xs ++ ys) ≡ names xs ++ names ys
names-append [] ys = refl
names-append ((d, who) ∷ xs) ys = ap (λ l. who ∷ l) (names-append xs ys)

-- The signature of its own digest for each.
abbrev pub signed : {A : Type 0} → (Digest → A) → List (Digest × Requester) → List (Requester × A)
signed f [] = []
signed f ((d, who) ∷ queue) = (who, f d) ∷ signed f queue

signed-append :
    {A : Type 0} (f : Digest → A) (xs ys : List (Digest × Requester))
    → signed f (xs ++ ys) ≡ signed f xs ++ signed f ys
signed-append f [] ys = refl
signed-append f ((d, who) ∷ xs) ys = ap (λ l. (who, f d) ∷ l) (signed-append f xs ys)

enqueue_running :
    {A : Type 0} (d : Digest) (who : Requester) (t : Task A)
    → t.running ≡ true
    → enqueue d who t ≡ record t { queue = t.queue ++ (d, who) ∷ [] }
unfolding enqueue
enqueue_running d who t runs = rw runs refl

module _ {A : Type 0} (sign : Digest → Result A) where
  -- A task that signs goes on, and owes what it has not answered yet.
  module _ (f : Digest → A) (signs : (d : Digest) → sign d ≡ ok (f d)) where
    serve_next-signed :
        (queue : List (Digest × Requester)) (t : Task A)
        → t.queue ≡ queue
        → ((serve_next sign queue t).answered ++ signed f (serve_next sign queue t).queue
            ≡ t.answered ++ signed f queue)
          × ((serve_next sign queue t).refused ≡ t.refused)
          × ((serve_next sign queue t).running ≡ t.running)
    unfolding serve_next
    serve_next-signed [] t is = (ap (λ q. t.answered ++ signed f q) is, refl, refl)
    serve_next-signed ((d, who) ∷ queue) t is =
        rw (signs d, serve_next)
          (append_assoc t.answered ((who, f d) ∷ []) (signed f queue), refl, refl)

    run-signed :
        (inputs : List Input) (t : Task A)
        → t.running ≡ true
        → ((run sign inputs t).answered ++ signed f (run sign inputs t).queue
            ≡ (t.answered ++ signed f t.queue) ++ signed f (requests inputs))
          × ((run sign inputs t).refused ≡ t.refused)
    unfolding run step
    run-signed [] t runs = (sym (append-nil (t.answered ++ signed f t.queue)), refl)
    run-signed (request d who ∷ inputs) t runs =
        let t' : Task A = record t { queue = t.queue ++ (d, who) ∷ [] } in
        let ih = run-signed inputs t' runs in
        subst
          (λ u.
            ((run sign inputs u).answered ++ signed f (run sign inputs u).queue
              ≡ (t.answered ++ signed f t.queue) ++ (who, f d) ∷ signed f (requests inputs))
            × ((run sign inputs u).refused ≡ t.refused))
          (sym (enqueue_running d who t runs))
          (
            ih.0
                ∙ ap (λ l. (t.answered ++ l) ++ signed f (requests inputs))
                    (signed-append f t.queue ((d, who) ∷ []))
                ∙ ap (λ l. l ++ signed f (requests inputs))
                    (sym (append_assoc t.answered (signed f t.queue) ((who, f d) ∷ [])))
                ∙ append_assoc (t.answered ++ signed f t.queue) ((who, f d) ∷ [])
                    (signed f (requests inputs)),
            ih.1,
          )
    run-signed (serve ∷ inputs) t runs =
        let (kept, same, on) = serve_next-signed t.queue t refl in
        let ih = run-signed inputs (serve_next sign t.queue t) (on ∙ runs) in
        (ih.0 ∙ ap (λ l. l ++ signed f (requests inputs)) kept, ih.1 ∙ same)

  -- A task that cannot load its secret answers nobody.
  module _ (fails : (d : Digest) → sign d ≡ panic) where
    serve_next-refused :
        (queue : List (Digest × Requester)) (t : Task A)
        → t.queue ≡ queue
        → (t.running ≡ false → t.queue ≡ [])
        → ((serve_next sign queue t).refused ++ names (serve_next sign queue t).queue
            ≡ t.refused ++ names queue)
          × ((serve_next sign queue t).answered ≡ t.answered)
          × ((serve_next sign queue t).running ≡ false → (serve_next sign queue t).queue ≡ [])
    unfolding serve_next stop
    serve_next-refused [] t is empty = (ap (λ q. t.refused ++ names q) is, refl, empty)
    serve_next-refused ((d, who) ∷ queue) t is empty =
        rw (fails d, serve_next) (append-nil (t.refused ++ who ∷ names queue), refl, λ _. refl)

    enqueue-refused :
        (d : Digest) (who : Requester) (t : Task A)
        → (t.running ≡ false → t.queue ≡ [])
        → ((enqueue d who t).refused ++ names (enqueue d who t).queue
            ≡ (t.refused ++ names t.queue) ++ who ∷ [])
          × ((enqueue d who t).answered ≡ t.answered)
          × ((enqueue d who t).running ≡ false → (enqueue d who t).queue ≡ [])
    unfolding enqueue
    enqueue-refused d who t empty = elim (Bool-cases t.running) [
      | inl runs ↦ rw runs (
        ap (λ l. t.refused ++ l) (names-append t.queue ((d, who) ∷ []))
            ∙ sym (append_assoc t.refused (names t.queue) (who ∷ [])),
        refl,
        λ e. cc,
      )
      | inr stopped ↦ rw stopped (
        ap (λ q. (t.refused ++ who ∷ []) ++ names q) (empty stopped)
            ∙ append-nil (t.refused ++ who ∷ [])
            ∙ ap (λ l. l ++ who ∷ []) (sym (append-nil t.refused))
            ∙ ap (λ q. (t.refused ++ names q) ++ who ∷ []) (sym (empty stopped)),
        refl,
        λ _. empty stopped,
      )
    ]

    run-refused :
        (inputs : List Input) (t : Task A)
        → (t.running ≡ false → t.queue ≡ [])
        → ((run sign inputs t).refused ++ names (run sign inputs t).queue
            ≡ (t.refused ++ names t.queue) ++ names (requests inputs))
          × ((run sign inputs t).answered ≡ t.answered)
    unfolding run step
    run-refused [] t empty = (sym (append-nil (t.refused ++ names t.queue)), refl)
    run-refused (request d who ∷ inputs) t empty =
        let (more, same, still) = enqueue-refused d who t empty in
        let ih = run-refused inputs (enqueue d who t) still in
        (
          ih.0
              ∙ ap (λ l. l ++ names (requests inputs)) more
              ∙ append_assoc (t.refused ++ names t.queue) (who ∷ []) (names (requests inputs)),
          ih.1 ∙ same,
        )
    run-refused (serve ∷ inputs) t empty =
        let (kept, same, still) = serve_next-refused t.queue t refl empty in
        let ih = run-refused inputs (serve_next sign t.queue t) still in
        (ih.0 ∙ ap (λ l. l ++ names (requests inputs)) kept, ih.1 ∙ same)

module _ (c : Signing) (secret : SecretKey) where
  -- The number that the signature of a digest writes.
  signature_of : Digest → Signature
  signature_of d =
      let sig = c.dalek_sign secret d in from_be_bytes (take 32 sig ++ take 32 (drop 32 sig))

  -- With a secret that loads, or with none that does.
  pub answers_to : List (Digest × Requester) → List (Requester × Signature)
  unfolding signature_of
  answers_to queue = if c.keypair_from_bytes secret then signed signature_of queue else []

  pub refusals_to : List (Digest × Requester) → List Requester
  refusals_to queue = if c.keypair_from_bytes secret then [] else names queue

  -- Whenever requests come and the task gets on with them: if its secret makes a key pair, each
  -- requester has been answered, or will be, with the signature of its own digest, in the order of
  -- the requests, and nobody panics; if not, nobody is answered, and each requester has panicked, or
  -- is yet to.
  pub run-answers_to :
      (inputs : List Input)
      → ((run (new_signature c secret) inputs fresh).answered
            ++ answers_to (run (new_signature c secret) inputs fresh).queue
          ≡ answers_to (requests inputs))
        × ((run (new_signature c secret) inputs fresh).refused
              ++ refusals_to (run (new_signature c secret) inputs fresh).queue
            ≡ refusals_to (requests inputs))
  unfolding answers_to refusals_to signature_of new_signature
  run-answers_to inputs = elim (Bool-cases (c.keypair_from_bytes secret)) [
    | inl loads ↦
        let h =
          run-signed (new_signature c secret) signature_of (λ d. rw (loads, new_signature) refl)
            inputs fresh refl in
        rw loads (h.0, append-nil _ ∙ h.1)
    | inr bad ↦
        let h =
          run-refused (new_signature c secret) (λ d. rw (bad, new_signature) refl) inputs fresh
            (λ _. refl) in
        rw bad (append-nil _ ∙ h.1, h.0)
  ]

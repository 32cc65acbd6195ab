-- ===== src/Node/Client/Bursts.antt =====
-- No transaction of the benchmark client (node/src/client.rs) is sent twice.
use hotstuff_dag.Node.Client.Numbers.{AllDiffer, IsOrderly, add_sample, add_standard, raise_bound}
use hotstuff_dag.Node.Client.{Client, Sending, burst, bursts, place, places, send}
use hotstuff_dag.Prelude.{
  All, Bool, Bool-cases, [], add64, arith, false, if◌then◌else◌, inl, inr, length, ltb, none, refl,
  some, suc, sym, true, u64_mod, zero, ℕ, ◌%◌, ◌*◌, ◌+◌, ◌-◌, ◌<◌, ◌==◌, ◌≡◌, ◌≤◌, ◌⊎◌,
}
use mathlib.Core.Path.{subst}

module _ (client : Client) (accepts : ℕ → Bool) (seed : ℕ) where
  -- Where the sample of the burst stands, and whether it has been sent at place `x`.
  abbrev Awaits : ℕ → ℕ → ℕ → Type 0
  Awaits counter x bound =
      ((bound ≡ counter) × (x ≤ counter % burst client accepts))
      ⊎ ((bound ≡ suc counter) × (counter % burst client accepts < x))

  place-IsOrderly :
      (counter x bound : ℕ) (s : Sending)
      → 9 ≤ client.size
      → counter < u64_mod
      → s.r + 1 < u64_mod
      → Awaits counter x bound
      → IsOrderly client seed bound s
      → (bound' : ℕ) × Awaits counter (suc x) bound'
        × IsOrderly client seed bound' (place client accepts counter x s)
        × ((place client accepts counter x s).r ≤ s.r + 1)
  unfolding place
  place-IsOrderly counter x bound s big fits room (inl (b, le)) h =
      elim (Bool-cases (x == counter % burst client accepts)) [
        | inl here ↦ rw here (
          suc counter,
          inr (refl, ground (arith, here)),
          add_sample client seed counter s big fits (subst (λ b. IsOrderly client seed b s) b h),
          omega arith,
        )
        | inr there ↦ rw there (
          bound,
          inl (b, ground (arith, there, le)),
          add_standard client seed bound s big room h,
          omega (arith, room),
        )
      ]
  place-IsOrderly counter x bound s big fits room (inr (b, gt)) h =
      elim (Bool-cases (x == counter % burst client accepts)) [
        | inl here ↦ absurd (past here)
        | inr there ↦ rw there (
          bound,
          inr (b, omega (arith, gt)),
          add_standard client seed bound s big room h,
          omega (arith, room),
        )
      ]
    where
      past : (x == counter % burst client accepts) ≡ true → ⊥
      past here = ground (arith, here, gt)

  places-IsOrderly :
      (counter k bound : ℕ) (s : Sending)
      → 9 ≤ client.size
      → counter < u64_mod
      → k ≤ burst client accepts
      → s.r + k < u64_mod
      → Awaits counter (burst client accepts - k) bound
      → IsOrderly client seed bound s
      → IsOrderly client seed (suc counter) (places client accepts counter k s).1
        × ((places client accepts counter k s).1.r ≤ s.r + k)
  unfolding places
  places-IsOrderly counter zero bound s big fits le room a h =
      (raise_bound client seed bound (suc counter) s (at_most a) h, omega arith)
    where
      at_most : Awaits counter (burst client accepts - 0) bound → bound ≤ suc counter
      at_most (inl (b, x)) = omega (arith, b)
      at_most (inr (b, x)) = omega (arith, b)
  places-IsOrderly counter (suc k) bound s big fits le room a h =
      go (accepts (length s.sent)) (places-IsOrderly counter k)
    where
      x : ℕ
      x = burst client accepts - suc k

      s' : Sending
      s' = place client accepts counter x s

      go :
          (accepted : Bool)
          → ((bound : ℕ) (s : Sending)
              → 9 ≤ client.size
              → counter < u64_mod
              → k ≤ burst client accepts
              → s.r + k < u64_mod
              → Awaits counter (burst client accepts - k) bound
              → IsOrderly client seed bound s
              → IsOrderly client seed (suc counter) (places client accepts counter k s).1
                × ((places client accepts counter k s).1.r ≤ s.r + k))
          → let out = if accepted then places client accepts counter k s' else (false, s) in
            IsOrderly client seed (suc counter) out.1 × (out.1.r ≤ s.r + suc k)
      go false ih = (raise_bound client seed bound (suc counter) s (at_most a) h, omega arith)
        where
          at_most : Awaits counter x bound → bound ≤ suc counter
          at_most (inl (b, y)) = omega (arith, b)
          at_most (inr (b, y)) = omega (arith, b)
      go true ih =
          let (bound', a', h', small) =
            place-IsOrderly counter x bound s big fits (omega (arith, room)) a h in
          let out =
            ih bound' s' big fits (omega (arith, le)) (omega (arith, room, small))
              (subst (λ y. Awaits counter y bound') (omega (arith, le)) a') h' in
          (out.0, omega (arith, out.1, small))

  bursts-IsOrderly :
      (counter ticks : ℕ) (s : Sending)
      → 9 ≤ client.size
      → counter + ticks < u64_mod
      → s.r + ticks * burst client accepts < u64_mod
      → IsOrderly client seed counter s
      → IsOrderly client seed (counter + ticks) (bursts client accepts counter ticks s)
  unfolding bursts
  bursts-IsOrderly counter zero s big fits room h =
      raise_bound client seed counter (counter + 0) s (omega arith) h
  bursts-IsOrderly counter (suc ticks) s big fits room h =
      go (places client accepts counter (burst client accepts) s).0
        (places-IsOrderly counter (burst client accepts) counter s big (omega (arith, fits))
          (omega arith) (omega (arith, room)) (inl (refl, omega arith)) h)
        (bursts-IsOrderly (add64 counter 1) ticks
          (places client accepts counter (burst client accepts) s).1)
    where
      s' : Sending
      s' = (places client accepts counter (burst client accepts) s).1

      go :
          (goes_on : Bool)
          → IsOrderly client seed (suc counter) s' × (s'.r ≤ s.r + burst client accepts)
          → (9 ≤ client.size
              → add64 counter 1 + ticks < u64_mod
              → s'.r + ticks * burst client accepts < u64_mod
              → IsOrderly client seed (add64 counter 1) s'
              → IsOrderly client seed
                  (add64 counter 1 + ticks)
                  (bursts client accepts (add64 counter 1) ticks s'))
          → IsOrderly client seed
              (counter + suc ticks)
              (if goes_on then bursts client accepts (add64 counter 1) ticks s' else s')
      go false h ih =
          raise_bound client seed (suc counter) (counter + suc ticks) s' (omega arith) h.0
      go true h ih =
          let next : add64 counter 1 ≡ suc counter = omega (arith, fits) in
          raise_bound client seed (add64 counter 1 + ticks) (counter + suc ticks)
            (bursts client accepts (add64 counter 1) ticks s') (omega (arith, next))
            (ih big (omega (arith, next, fits)) (omega (arith, room, h.1))
              (subst (λ b. IsOrderly client seed b s') (sym next) h.0))

  -- If neither the number of ticks nor the numbers drawn pass 2 ^ 64, then with transactions of at
  -- least 9 bytes, however long the connection lasts, all that the client has sent differ from one
  -- another and have the size asked for; with smaller ones, or without a connection, it sends nothing.
  pub send-AllDiffer :
      (connects : Bool) (ticks : ℕ)
      → ticks < u64_mod
      → seed + ticks * burst client accepts < u64_mod
      → ((send client accepts connects seed ticks ≡ none)
          × ((client.size < 9) ⊎ (connects ≡ false)))
        ⊎ ((s : Sending) × (send client accepts connects seed ticks ≡ some s)
            × (9 ≤ client.size)
            × AllDiffer s.sent
            × All (λ t. length t ≡ client.size) s.sent)
  unfolding send
  send-AllDiffer connects ticks fits room = elim (Bool-cases (ltb client.size 9)) [
    | inl small ↦ inl (rw small refl, inl (ground (arith, small)))
    | inr large ↦ rw large (go connects (ground (arith, large)))
  ]
    where
      none_sent : Sending
      none_sent = record { r = seed; sent = [] }

      go :
          (c : Bool)
          → 9 ≤ client.size
          → (((if c then some (bursts client accepts 0 ticks none_sent) else none) ≡ none)
              × ((client.size < 9) ⊎ (c ≡ false)))
            ⊎ ((s : Sending) × ((if c then some (bursts client accepts 0 ticks none_sent) else none)
                  ≡ some s)
                × (9 ≤ client.size)
                × AllDiffer s.sent
                × All (λ t. length t ≡ client.size) s.sent)
      go false big = inl (refl, inr refl)
      go true big =
          let h =
            bursts-IsOrderly 0 ticks none_sent big (omega (arith, fits)) room
              (tt, tt, tt, omega arith) in
          inr (bursts client accepts 0 ticks none_sent, refl, big, h.1, h.2)

-- ===== src/Node/Client.antt =====
-- node/src/client.rs: the benchmark client, which sends a burst of transactions at every tick of a
-- clock. `connects` is whether the mempool can be reached, and `accepts n` whether the connection
-- takes one more transaction after `n` of them.
pub mod Numbers
pub mod Bursts
use hotstuff_dag.Mempool.Payload.{client}
use hotstuff_dag.Prelude.{
  Bool, List, Option, [], add64, be_bytes, false, if◌then◌else◌, length, ltb, none, some, suc, true,
  zero, ℕ, ◌%◌, ◌-◌, ◌/◌, ◌==◌, ◌∷◌,
}

abbrev pub Transaction : Type 0
Transaction = List ℕ

-- The fields that `send` reads besides its target, which is `connects`.
pub record Client : Type 0 where
  pub size : ℕ
  pub rate : ℕ

abbrev precision : ℕ
precision = 20

-- `BytesMut::resize` with zeros.
unfoldable pub resize : ℕ → List ℕ → List ℕ
resize zero xs = []
resize (suc n) [] = 0 ∷ resize n []
resize (suc n) (x ∷ xs) = x ∷ resize n xs

-- Sample transactions start with 0, standard ones with 1; `put_u64` is big-endian.
unfoldable pub sample : ℕ → ℕ → Transaction
sample size counter = resize size (0 ∷ be_bytes 8 counter)

unfoldable pub standard : ℕ → ℕ → Transaction
standard size r = resize size (1 ∷ be_bytes 8 r)

-- The number in the last standard transaction, and all that has been sent, the newest first.
pub record Sending : Type 0 where
  pub r : ℕ
  pub sent : List Transaction

module _ (client : Client) (accepts : ℕ → Bool) where
  abbrev pub burst : ℕ
  burst = client.rate / precision

  -- The transaction at one place of a burst.
  unfoldable pub place : ℕ → ℕ → Sending → Sending
  place counter x s =
      if x == counter % burst
      then record s { sent = sample client.size counter ∷ s.sent }
      else record { r = add64 s.r 1; sent = standard client.size (add64 s.r 1) ∷ s.sent }

  -- The last `k` places of a burst; false where the connection has refused one.
  unfoldable pub places : ℕ → ℕ → Sending → Bool × Sending
  unfolding place
  places counter zero s = (true, s)
  places counter (suc k) s =
      let rest = places counter k (place counter (burst - suc k) s) in
      if accepts (length s.sent) then rest else (false, s)

  -- The bursts of so many ticks.
  unfoldable pub bursts : ℕ → ℕ → Sending → Sending
  unfolding places
  bursts counter zero s = s
  bursts counter (suc ticks) s =
      let (goes_on, s') = places counter burst s in
      let rest = bursts (add64 counter 1) ticks s' in if goes_on then rest else s'

  -- Client::send over so many ticks, from the random number `r`; `none` is an error.
  unfoldable pub send : Bool → ℕ → ℕ → Option Sending
  unfolding bursts
  send connects r ticks =
      if ltb client.size 9
      then none
      else if connects
      then some (bursts 0 ticks (record { r = r; sent = [] }))
      else none

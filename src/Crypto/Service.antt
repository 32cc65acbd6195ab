-- ===== src/Crypto/Service.antt =====
-- crypto/src/lib.rs: the signature service, two tasks that hold the secrets of the node, and
-- Signature::new. A requester that waits for room in the channel counts as queued behind those in
-- it.
pub mod Served
use hotstuff_dag.Crypto.Keys.{SecretKey}
use hotstuff_dag.Crypto.{Digest, Signature, SignatureShare}
use hotstuff_dag.Error.{Result, err, ok, out_of_fuel, panic}
use hotstuff_dag.Prelude.{
  Bool, List, Option, [], drop, false, from_be_bytes, if◌then◌else◌, none, some, take, true, ℕ,
  ◌++◌, ◌∷◌,
}

abbrev pub Requester : Type 0
Requester = ℕ

-- ed25519_dalek: whether the bytes of a secret make a key pair, and the 64 bytes of a signature; and
-- threshold_crypto.
pub record Signing : Type 0 where
  pub keypair_from_bytes : SecretKey → Bool
  pub dalek_sign : SecretKey → Digest → List ℕ
  pub share_sign : ℕ → Digest → SignatureShare

-- One of the two tasks: the requests that wait, those that have been answered, and the requesters
-- that have panicked because there is no task any more; each oldest first.
pub record Task (A : Type 0) : Type 0 where
  pub running : Bool
  pub queue : List (Digest × Requester)
  pub answered : List (Requester × A)
  pub refused : List Requester

abbrev pub fresh : {A : Type 0} → Task A
fresh = record { running = true; queue = []; answered = []; refused = [] }

pub data Input : Type 0 where
  request : Digest → Requester → Input
  serve : Input

abbrev pub names : List (Digest × Requester) → List Requester
names [] = []
names ((d, who) ∷ queue) = who ∷ names queue

-- `channel.send`, and `expect` on its error.
unfoldable pub enqueue : {A : Type 0} → Digest → Requester → Task A → Task A
enqueue d who t =
    if t.running
    then record t { queue = t.queue ++ (d, who) ∷ [] }
    else record t { refused = t.refused ++ who ∷ [] }

-- The task panics, and with it all whom it has not answered.
unfoldable pub stop : {A : Type 0} → Requester → List (Digest × Requester) → Task A → Task A
stop who queue t = record t {
  running = false;
  queue = [];
  refused = t.refused ++ who ∷ names queue;
}

module _ {A : Type 0} (sign : Digest → Result A) where
  -- One turn of the loop `while let Some((digest, sender)) = rx.recv().await`.
  unfoldable pub serve_next : List (Digest × Requester) → Task A → Task A
  unfolding stop
  serve_next [] t = t
  serve_next ((d, who) ∷ queue) t = elim (sign d) [
    | ok signature ↦ record t { queue = queue; answered = t.answered ++ (who, signature) ∷ [] }
    | err e ↦ stop who queue t
    | panic ↦ stop who queue t
    | out_of_fuel ↦ stop who queue t
  ]

  unfoldable pub step : Input → Task A → Task A
  unfolding enqueue serve_next
  step (request d who) t = enqueue d who t
  step serve t = serve_next t.queue t

  unfoldable pub run : List Input → Task A → Task A
  unfolding step
  run [] t = t
  run (i ∷ inputs) t = run inputs (step i t)

module _ (c : Signing) where
  -- Signature::new: the two halves of the signature, and the number that they write.
  unfoldable pub new_signature : SecretKey → Digest → Result Signature
  new_signature secret digest =
      let sig = c.dalek_sign secret digest in
      if c.keypair_from_bytes secret
      then ok (from_be_bytes (take 32 sig ++ take 32 (drop 32 sig)))
      else panic

  unfoldable pub new_share : ℕ → Digest → Result SignatureShare
  new_share secret digest = ok (c.share_sign secret digest)

-- SignatureService, the tasks behind its channels.
pub record SignatureService : Type 0 where
  pub channel : Task Signature
  pub tss_channel : Option (Task SignatureShare)

-- SignatureService::new
new : Option ℕ → SignatureService
new none = record { channel = fresh; tss_channel = none }
new (some tss_secret) = record { channel = fresh; tss_channel = some fresh }

request_signature : Digest → Requester → SignatureService → SignatureService
unfolding enqueue
request_signature d who s = record s { channel = enqueue d who s.channel }

-- Whether there will be an answer; without a threshold secret `None` is returned at once.
request_tss_signature : Digest → Requester → SignatureService → Bool × SignatureService
unfolding enqueue
request_tss_signature d who s = elim s.tss_channel [
  | none ↦ (false, s)
  | some task ↦ (true, record s { tss_channel = some (enqueue d who task) })
]

-- ===== src/Core/Alive.antt =====
-- What keeps the task of consensus/src/core.rs alive: the state of the core in which no lookup that
-- is unwrapped fails, and rules for the methods that keep it.
pub mod Answers
pub mod Makers
pub mod Outside
pub mod Aba
pub mod Rounds
pub mod Commit
pub mod Voting
pub mod Proposals
pub mod Stages
pub mod Views
pub mod Loop
pub mod Running
use hotstuff_dag.Aggregator.{Aggregator}
use hotstuff_dag.Config.{Committee, size}
use hotstuff_dag.Core.State.{Core, Work, coin_phase, init_phase, on_core, val_phase}
use hotstuff_dag.Crypto.{Digest, PublicKey, finalize}
use hotstuff_dag.Error
use hotstuff_dag.Error.{ConsensusError, Result, ensure, err, ok, out_of_fuel, panic}
use hotstuff_dag.Exec.{Exec, continue, lift, modify, pure, ◌>>=◌, ◌>>◌}
use hotstuff_dag.Messages.Block.{Block}
use hotstuff_dag.Messages.Coin.{RandomnessShare}
use hotstuff_dag.Messages.Qc.{Qc}
use hotstuff_dag.Prelude.{
  All, Bool, List, Option, [], bytes_eq, contains, contains_key, false, if◌then◌else◌, is_empty,
  keys, length, nat_eq, none, pair_eq, quad_eq, refl, some, true, ℕ, ◌<◌, ◌||◌, ◌∷◌, ◌≡◌, ◌≢◌, ◌≤◌,
  ◌⊎◌,
}
use hotstuff_dag.Store.{value}
use hotstuff_dag.World.{
  Bytes, Env, Event, Trace, asked_payload, asked_verify, cleaned_up, committed, read, requested,
  sent, wrote,
}

abbrev pub Gives {ℓ} : {A : Type ℓ} → (A → Type 0) → Result A → Type 0
Gives Q (ok a) = Q a
Gives Q (err e) = Unit {0}
Gives Q panic = ⊥
Gives Q out_of_fuel = Unit {0}

abbrev pub Any {ℓ} : {A : Type ℓ} → A → Type 0
Any a = Unit {0}

-- `m` keeps `P` on every path, does not panic, and an answer that it gives has `Q`.
pub record Safe {S A : Type 0} (P : S → Type 0) (Q : A → Type 0) (m : Exec S A) : Type 0 where
  pub keeps : (s : S) → P s → P (m s).1 × Gives Q (m s).0

module _ {S A B : Type 0} (P : S → Type 0) (Q : A → Type 0) (R : B → Type 0) where
  pub bind_at :
      (f : A → Exec S B) (r : Result A) (s : S)
      → P s
      → Gives Q r
      → ((a : A) → Q a → Safe P R (f a))
      → P (continue r f s).1 × Gives R (continue r f s).0
  bind_at f (ok a) s h q hf = (hf a q).keeps s h
  bind_at f (err e) s h q hf = (h, tt)
  bind_at f panic s h q hf = absurd q
  bind_at f out_of_fuel s h q hf = (h, tt)

module _ {S A : Type 0} {P : S → Type 0} {Q : A → Type 0} where
  pub Safe-bind :
      {B : Type 0} {R : B → Type 0} {m : Exec S A} {f : A → Exec S B}
      → Safe P Q m
      → ((a : A) → Q a → Safe P R (f a))
      → Safe P R (m >>= f)
  Safe-bind {B} {R} {m} {f} hm hf = record {
    keeps = λ s h. bind_at P Q R f (m s).0 (m s).1 (hm.keeps s h).0 (hm.keeps s h).1 hf;
  }

  pub Safe-then :
      {B : Type 0} {R : B → Type 0} {m : Exec S A} {n : Exec S B}
      → Safe P Q m
      → Safe P R n
      → Safe P R (m >> n)
  Safe-then hm hn = Safe-bind hm (λ _ _. hn)

  pub Safe-if :
      {m n : Exec S A} (b : Bool)
      → (b ≡ true → Safe P Q m)
      → (b ≡ false → Safe P Q n)
      → Safe P Q (if b then m else n)
  Safe-if true hm hn = hm refl
  Safe-if false hm hn = hn refl

module _ {S A : Type 0} (P : S → Type 0) (Q : A → Type 0) where
  pub Safe-lift : (r : Result A) → Gives Q r → Safe P Q (lift r)
  Safe-lift r q = record { keeps = λ s h. (h, q) }

  pub Safe-pure : (a : A) → Q a → Safe P Q (pure a)
  Safe-pure a q = record { keeps = λ s h. (h, q) }

Gives-Any : {A : Type 0} (Q : A → Type 0) (r : Result A) → Gives Q r → Gives Any r
Gives-Any Q (ok a) q = tt
Gives-Any Q (err e) q = tt
Gives-Any Q panic q = q
Gives-Any Q out_of_fuel q = tt

-- Whatever the answer is.
pub Safe-Any :
    {S A : Type 0} {P : S → Type 0} {Q : A → Type 0} {m : Exec S A} → Safe P Q m → Safe P Any m
Safe-Any {Q = Q} {m = m} safe = record {
  keeps = λ s h. ((safe.keeps s h).0, Gives-Any Q (m s).0 (safe.keeps s h).1);
}

pub Safe-modify :
    {S : Type 0} (P : S → Type 0) (f : S → S) → ((s : S) → P s → P (f s)) → Safe P Any (modify f)
Safe-modify P f k = record { keeps = λ s h. (k s h, tt) }

pub Gives-bind :
    {A B : Type 0} (Q : A → Type 0) (R : B → Type 0) (r : Result A) (f : A → Result B)
    → Gives Q r
    → ((a : A) → Q a → Gives R (f a))
    → Gives R (Error.◌>>=◌ r f)
Gives-bind Q R (ok a) f q h = h a q
Gives-bind Q R (err e) f q h = tt
Gives-bind Q R panic f q h = absurd q
Gives-bind Q R out_of_fuel f q h = tt

pub ensure-Gives : (b : Bool) (e : ConsensusError) → Gives (λ _. b ≡ true) (ensure b e)
ensure-Gives true e = refl
ensure-Gives false e = tt

pub ensure-Any : (b : Bool) (e : ConsensusError) → Gives Any (ensure b e)
ensure-Any true e = tt
ensure-Any false e = tt

pub Gives-if :
    {A S : Type 0} (Q : A → Type 0) (b : Bool) (x y : Result A × S)
    → (b ≡ true → Gives Q x.0)
    → (b ≡ false → Gives Q y.0)
    → Gives Q (if b then x else y).0
Gives-if Q true x y hx hy = hx refl
Gives-if Q false x y hx hy = hy refl

-- A certificate of the digest 0 is the genesis one.
abbrev pub IsCertain : Qc → Type 0
IsCertain qc = qc.hash ≡ 0 → qc.height ≡ 0

abbrev pub IsMember : Committee → PublicKey → Type 0
IsMember cm name = contains (keys cm.authorities) name ≡ true

-- A block of a member that refers to no genesis block.
abbrev pub IsSound : Committee → Block → Type 0
IsSound cm b = IsMember cm b.author × All (λ r. r.1 ≢ 0) b.references

-- The shares that wait for a coin are those of members.
abbrev pub HasMembers : Committee → List RandomnessShare → Type 0
HasMembers cm shares = All (λ s. IsMember cm s.author) shares

abbrev pub IsGathered : Committee → Aggregator → Type 0
IsGathered cm a =
    (a.committee ≡ cm) × All (λ e. HasMembers a.committee e.1.shares) a.aba_randomcoin_aggregators

module _ (env : Env) (cm : Committee) where
  -- What is written is a sound block.
  abbrev pub WritesSound : Event → Type 0
  WritesSound (wrote d bytes) = (b : Block) × (bytes ≡ env.serialize b) × IsSound cm b
  WritesSound (sent n m a) = Unit {0}
  WritesSound (read d) = Unit {0}
  WritesSound (requested r b) = Unit {0}
  WritesSound (asked_payload n) = Unit {0}
  WritesSound (asked_verify b) = Unit {0}
  WritesSound (cleaned_up d n) = Unit {0}
  WritesSound (committed b) = Unit {0}

  -- There is a chain for each member and for nobody else.
  abbrev pub IsPlaced : Core → Type 0
  IsPlaced c =
      (c.committee ≡ cm)
      × (keys c.pubkey_to_chain ≡ keys cm.authorities)
      × IsMember cm c.name
      × All (λ e. IsCertain e.1.high_qc) c.pubkey_to_chain

  -- A timeout certificate has votes, and a proof stands under its own round.
  abbrev pub IsCached : Core → Type 0
  IsCached c =
      All (λ e. is_empty e.1.votes ≡ false) c.tc_cache
      × All (λ e. e.1.round ≡ e.0.1) c.aba_val_phase_cache1

  -- What the phase says of the agreement. With `begun` the first round has its input even before
  -- `tc_processed` is set.
  abbrev pub IsPhased : Bool → Core → Type 0
  IsPhased begun c =
      ((begun || c.tc_processed) ≡ true → contains_key 1 c.aba_input_val ≡ true)
      × (c.phase ≡ init_phase → c.aba_round ≡ 1)
      × (val_phase ≤ c.phase → contains_key c.aba_round c.aba_input_val ≡ true)
      × (coin_phase ≤ c.phase
          → (2 ≤ length c.bin_values)
            ⊎ (contains_key (c.epoch, c.aba_round) c.aba_aux_phase_cache ≡ true))

  abbrev pub IsSettled : Bool → Core → Type 0
  IsSettled begun c = IsPlaced c × IsGathered cm c.aggregator × IsCached c × IsPhased begun c

  abbrev pub IsValid : Bool → Core → Type 0
  IsValid begun c = IsSettled begun c × All WritesSound c.trace

  -- With the certificate of the chain at hand.
  abbrev pub IsValidWork : Work → Type 0
  IsValidWork w = IsValid false w.core × IsCertain w.chain.high_qc

  pub Safe-on_core :
      {A : Type 0} {Q : A → Type 0} {m : Exec Core A}
      → Safe (IsValid false) Q m
      → Safe IsValidWork Q (on_core m)
  Safe-on_core hm = record {
    keeps = λ w h. (((hm.keeps w.core h.0).0, h.1), (hm.keeps w.core h.0).1);
  }

-- `Option::some` with a property.
abbrev pub Maybe {ℓ} : {A : Type ℓ} → (A → Type 0) → Option A → Type 0
Maybe Q none = Unit {0}
Maybe Q (some a) = Q a

abbrev pub Happened : Event → Trace → Type 0
Happened e [] = ⊥
Happened e (x ∷ t) = (x ≡ e) ⊎ Happened e t

-- What the surroundings promise: the node is a member, it has a threshold secret, no hash is 0, the
-- database gives back what has been written and goes on giving it, and a block is read back as it
-- was written.
pub record Trust (env : Env) (cm : Committee) : Type 0 where
  pub not_empty : 0 < size cm
  pub hashes : (bytes : List ℕ) → finalize env.primitives bytes ≢ 0
  pub secret : (d : Digest) → env.primitives.tss_sign d ≢ none
  pub reads :
      (t : Trace) (d : Digest) (bytes : Bytes)
      → env.db_get t d ≡ value (some bytes)
      → Happened (wrote d bytes) t
  pub lasts :
      (t : Trace) (d : Digest) (bytes : Bytes) (e : Event)
      → env.db_get t d ≡ value (some bytes)
      → env.db_get (e ∷ t) d ≢ value none
  pub decodes : (b b' : Block) → env.deserialize (env.serialize b) ≡ some b' → b' ≡ b

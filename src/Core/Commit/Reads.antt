-- ===== src/Core/Commit/Reads.antt =====
-- What a block read in the commit walk of consensus/src/core.rs is.
use hotstuff_dag.Core.Outside.{decode, found_block, get_block, read_store}
use hotstuff_dag.Core.State.{Core}
use hotstuff_dag.Crypto.{Digest, PublicKey}
use hotstuff_dag.Error.{
  Result, err, ok, ok_or, out_of_fuel, panic, serialization_error, store_error, unwrap,
}
use hotstuff_dag.Exec.{Exec, continue, lift, pure, ◌>>=◌}
use hotstuff_dag.Messages.Block
use hotstuff_dag.Messages.Block.{Block}
use hotstuff_dag.Messages.Qc
use hotstuff_dag.Messages.Qc.{Qc}
use hotstuff_dag.Prelude.{
  ==_iff, Bool, Option, ap, false, if◌then◌else◌, inl, inr, none, refl, some, sym, true, ◌==◌, ◌∙◌,
  ◌∷◌, ◌≡◌, ◌⊎◌,
}
use hotstuff_dag.Store.{StoreResult, failed, value}
use hotstuff_dag.World.{Bytes, Env, Trace, read}
use mathlib.Core.Option.{some-injective}

-- What the store has answered for the digest at some time, or the genesis block.
abbrev pub IsRead : Env → Digest → Block → Type 0
IsRead env d x =
    ((d ≡ Qc.genesis.hash) × (x ≡ Block.genesis))
    ⊎ ((t : Trace) × (bytes : Bytes) × (env.db_get t d ≡ value (some bytes))
        × (env.deserialize bytes ≡ some x))

pub bind-ok :
    {S A B : Type 0} (m : Exec S A) (f : A → Exec S B) (s : S) (b : B)
    → ((m >>= f) s).0 ≡ ok b
    → (a : A) × ((m s).0 ≡ ok a) × ((m >>= f) s ≡ f a (m s).1)
bind-ok {S} {A} {B} m f s b = go (m s).0 refl
  where
    go :
        (r : Result A)
        → (m s).0 ≡ r
        → (continue r f (m s).1).0 ≡ ok b
        → (a : A) × ((m s).0 ≡ ok a) × (continue r f (m s).1 ≡ f a (m s).1)
    go (ok a) e h = (a, e, refl)
    go (err x) e h = cc
    go panic e h = cc
    go out_of_fuel e h = cc

value_or : {A : Type 0} → A → Result A → A
value_or d (ok a) = a
value_or d (err e) = d
value_or d panic = d
value_or d out_of_fuel = d

pub ok-injective : {A : Type 0} (x y : A) → ok x ≡ ok y → x ≡ y
unfolding value_or
ok-injective x y e = ap (value_or x) e

pub unwrap-ok : {A : Type 0} (found : Option A) (a : A) → unwrap found ≡ ok a → found ≡ some a
unwrap-ok none a h = cc
unwrap-ok (some x) a h = ap some (ok-injective x a h)

pub not_true : {A : Type 0} → Path (Result Bool) (ok false) (ok true) → A
not_true h = absurd (no h)
  where
    no : Path (Result Bool) (ok false) (ok true) → ⊥
    no h = cc

module _ (env : Env) where
  -- What `read_store`, `decode` and `get_block` give is what the store answers.
  stored_at :
      (d : Digest) (bytes : Bytes) (c : Core)
      → (read_store env d c).0 ≡ ok (some bytes)
      → env.db_get (read d ∷ c.trace) d ≡ value (some bytes)
  unfolding read_store
  stored_at d bytes c h = go (env.db_get (read d ∷ c.trace) d) h
    where
      go :
          (r : StoreResult (Option Bytes))
          → elim r as (λ _. Result (Option Bytes)) [ failed ↦ err store_error | value v ↦ ok v ]
            ≡ ok (some bytes)
          → r ≡ value (some bytes)
      go failed h = cc
      go (value v) h = ap value (ok-injective v (some bytes) h)

  decoded : (bytes : Bytes) (x : Block) → decode env bytes ≡ ok x → env.deserialize bytes ≡ some x
  unfolding decode
  decoded bytes x h = go (env.deserialize bytes) h
    where
      go : (o : Option Block) → ok_or o serialization_error ≡ ok x → o ≡ some x
      go none h = cc
      go (some y) h = ap some (ok-injective y x h)

  found_block-IsRead :
      (name : PublicKey) (d : Digest) (t : Trace) (found : Option Bytes) (c : Core) (x : Block)
      → env.db_get t d ≡ value found
      → (found_block env name d none found c).0 ≡ ok (some x)
      → IsRead env d x
  unfolding found_block
  found_block-IsRead name d t none c x at h = absurd (nothing h)
    where
      nothing : Path (Result (Option Block)) (ok none) (ok (some x)) → ⊥
      nothing h = cc
  found_block-IsRead name d t (some bytes) c x at h =
      let (b, e, same) = bind-ok (lift (decode env bytes)) (λ b. pure (some b)) c (some x) h in
      let here : some b ≡ some x = ok-injective (some b) (some x) (sym (ap (λ r. r.0) same) ∙ h) in
      inr (t, bytes, at, decoded bytes x (e ∙ ap ok (some-injective b x here)))

  pub get_block-IsRead :
      (name : PublicKey) (d : Digest) (c : Core) (x : Block)
      → (get_block env name d none c).0 ≡ ok (some x)
      → IsRead env d x
  unfolding get_block
  get_block-IsRead name d c x h = go (d == Qc.genesis.hash) refl h
    where
      go :
          (hit : Bool)
          → (d == Qc.genesis.hash) ≡ hit
          → ((if hit
                then pure (some Block.genesis)
                else (read_store env d >>= λ stored. found_block env name d none stored))
              c).0
            ≡ ok (some x)
          → IsRead env d x
      go true e h = inl (
        (==_iff d Qc.genesis.hash).0 e,
        sym (some-injective Block.genesis x (ok-injective (some Block.genesis) (some x) h)),
      )
      go false e h =
          let (stored, at, same) =
            bind-ok (read_store env d) (λ stored. found_block env name d none stored) c (some x)
              h in
          answered stored at (read_store env d c).1 (sym (ap (λ r. r.0) same) ∙ h)
        where
          answered :
              (stored : Option Bytes)
              → (read_store env d c).0 ≡ ok stored
              → (c' : Core) → (found_block env name d none stored c').0 ≡ ok (some x)
              → IsRead env d x
          answered none at c' h = unfold found_block in absurd (nothing h)
            where
              nothing : Path (Result (Option Block)) (ok none) (ok (some x)) → ⊥
              nothing h = cc
          answered (some bytes) at c' h =
              found_block-IsRead name d (read d ∷ c.trace) (some bytes) c' x
                (stored_at d bytes c at) h

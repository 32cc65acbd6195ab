-- ===== src/Core/Alive/Makers.antt =====
-- The makers of consensus/src/aggregator.rs give an answer or an error; the shares that one of them
-- holds are those of members, whose ids it looks up when it makes a coin.
use hotstuff_dag.Aggregator
use hotstuff_dag.Aggregator.AbaVals
use hotstuff_dag.Aggregator.CoinShares
use hotstuff_dag.Aggregator.CoinShares.{CoinMaker}
use hotstuff_dag.Aggregator.QcVotes
use hotstuff_dag.Aggregator.Timeouts
use hotstuff_dag.Aggregator.{Aggregator}
use hotstuff_dag.Config.{Authority, Committee, id, stake}
use hotstuff_dag.Core.Alive.{
  Any, Gives, Gives-bind, HasMembers, IsGathered, IsMember, Safe, ensure-Any,
}
use hotstuff_dag.Crypto.{Primitives, PublicKey, SignatureShare}
use hotstuff_dag.Error.{
  Result, authority_reuse_in_coin, ensure, err, invalid_threshold_signature, ok, out_of_fuel, panic,
  unknown_authority,
}
use hotstuff_dag.Messages.Aba.{AbaVal}
use hotstuff_dag.Messages.Coin
use hotstuff_dag.Messages.Coin.{RandomnessShare}
use hotstuff_dag.Messages.Qc.{Qc}
use hotstuff_dag.Messages.Tc.{Tc}
use hotstuff_dag.Messages.Timeout.{Timeout}
use hotstuff_dag.Messages.Vote.{Vote}
use hotstuff_dag.Prelude.{
  All-insert, All-lookup_or, Bool, List, Option, Option-cases, [], add32, arith, bytes_eq, contains,
  contains-lookup, false, if◌then◌else◌, inl, inr, is_empty, lookup, lookup-contains, lookup_or,
  ltb, nat_eq, none, pair_eq, quad_eq, refl, some, sym, true, ℕ, ◌++◌, ◌∷◌, ◌≡◌,
}
use mathlib.Core.Path.{subst}

id-Gives :
    (k : PublicKey) (a : Authority) (cm : Committee)
    → lookup k cm.authorities ≡ some a
    → Gives Any (id cm k)
unfolding id
id-Gives k a cm found = rw found tt

module _ (c : Primitives) where
  -- A share that verifies is a member's.
  pub coin_verify-Gives :
      (s : RandomnessShare) (cm : Committee)
      → Gives (λ _. IsMember cm s.author) (Coin.verify c s cm)
  unfolding Coin.verify stake
  coin_verify-Gives s cm = elim (Option-cases (lookup s.author cm.authorities)) [
    | inl nobody ↦ rw nobody tt
    | inr (a, found) ↦
        Gives-bind Any (λ _. IsMember cm s.author)
          (ensure (ltb 0 (stake cm s.author)) (unknown_authority s.author)) _ (ensure-Any _ _)
          (λ _ _.
            Gives-bind Any (λ _. IsMember cm s.author) (id cm s.author) _
              (id-Gives s.author a cm found)
              (λ tss_pk _.
                checked (c.tss_verify tss_pk s.signature_share (Coin.digest c s))
                  (contains-lookup s.author a cm.authorities found)))
  ]
    where
      checked :
          (b : Bool)
          → IsMember cm s.author
          → Gives (λ _. IsMember cm s.author) (ensure b (invalid_threshold_signature s.author))
      checked true m = m
      checked false m = tt

  collect_shares-Gives :
      (cm : Committee) (sigs : List (ℕ × SignatureShare)) (shares : List RandomnessShare)
      → HasMembers cm shares
      → Gives Any (CoinShares.collect_shares cm sigs shares)
  unfolding CoinShares.collect_shares id
  collect_shares-Gives cm sigs [] h = tt
  collect_shares-Gives cm sigs (s ∷ shares) h =
      let (a, found) = lookup-contains s.author cm.authorities h.0 in
      rw (found, Gives)
        (collect_shares-Gives cm (CoinShares.btree_insert a.id s.signature_share sigs) shares h.1)

  assemble-Gives :
      (cm : Committee) (shares : List RandomnessShare)
      → HasMembers cm shares
      → Gives Any (CoinShares.assemble c cm shares)
  unfolding CoinShares.assemble
  assemble-Gives cm shares h =
      go (CoinShares.collect_shares cm [] shares) (collect_shares-Gives cm [] shares h)
    where
      go :
          (r : Result (List (ℕ × SignatureShare)))
          → Gives Any r
          → Gives Any (elim r as (λ _. Result (Option ℕ)) [
            | ok sigs ↦ ok (CoinShares.coin_of c sigs)
            | err e ↦ err e
            | panic ↦ panic
            | out_of_fuel ↦ out_of_fuel
          ])
      go (ok sigs) g = tt
      go (err e) g = tt
      go panic g = g
      go out_of_fuel g = tt

  HasMembers-append :
      (cm : Committee) (shares : List RandomnessShare) (s : RandomnessShare)
      → HasMembers cm shares
      → IsMember cm s.author
      → HasMembers cm (shares ++ s ∷ [])
  HasMembers-append cm [] s h m = (m, tt)
  HasMembers-append cm (x ∷ shares) s h m = (h.0, HasMembers-append cm shares s h.1 m)

  append-Safe :
      (s : RandomnessShare) (cm : Committee)
      → IsMember cm s.author
      → Safe (λ m. HasMembers cm m.shares) Any (CoinShares.append c s cm)
  unfolding CoinShares.append
  append-Safe s cm member = record { keeps = λ m h. go m h (contains m.used s.author) _ }
    where
      go :
          (m : CoinMaker)
          → HasMembers cm m.shares
          → (again due : Bool)
          → let shares = m.shares ++ s ∷ [] in
            let next : CoinMaker = record {
              weight = add32 m.weight (stake cm s.author);
              shares = shares;
              used = s.author ∷ m.used;
            } in
            let out : Result (Option ℕ) × CoinMaker =
              if again
              then (err (authority_reuse_in_coin s.author), m)
              else if due
              then (CoinShares.assemble c cm shares, next)
              else (ok none, next) in
            HasMembers cm out.1.shares × Gives Any out.0
      go m h true due = (h, tt)
      go m h false true = (
        HasMembers-append cm m.shares s h member,
        assemble-Gives cm (m.shares ++ s ∷ []) (HasMembers-append cm m.shares s h member),
      )
      go m h false false = (HasMembers-append cm m.shares s h member, tt)

  pub add_aba_random-Safe :
      (s : RandomnessShare) (cm : Committee)
      → IsMember cm s.author
      → Safe (IsGathered cm) Any (Aggregator.add_aba_random c s)
  unfolding Aggregator.add_aba_random Aggregator.entry
  add_aba_random-Safe s cm member = record {
    keeps = λ a h.
        let P : (ℕ × ℕ) × CoinMaker → Type 0 = λ e. HasMembers a.committee e.1.shares in
        let k : ℕ × ℕ = (s.epoch, s.round) in
        let m = lookup_or k CoinShares.new a.aba_randomcoin_aggregators in
        let appended : HasMembers a.committee (CoinShares.append c s a.committee m).1.shares
            × Gives Any (CoinShares.append c s a.committee m).0 =
          (append-Safe s a.committee (subst (λ x. IsMember x s.author) (sym h.0) member)).keeps m
            (All-lookup_or P k CoinShares.new a.aba_randomcoin_aggregators tt h.1) in
        (
          (
            h.0,
            All-insert P k (CoinShares.append c s a.committee m).1 a.aba_randomcoin_aggregators
                appended.0 h.1,
          ),
          appended.1,
        );
  }

-- A certificate that the votes of a height have made is for the digest of the last vote.
abbrev pub Certifies : Vote → Option Qc → Type 0
Certifies v none = Unit {0}
Certifies v (some qc) = qc.hash ≡ v.hash

pub add_vote-Gives : (v : Vote) (a : Aggregator) → Gives (Certifies v) (Aggregator.add_vote v a).0
unfolding Aggregator.add_vote Aggregator.entry QcVotes.append
add_vote-Gives v a = ground arith

-- A timeout certificate that the timeouts of an epoch have made has votes.
abbrev pub HasVotes : Option Tc → Type 0
HasVotes none = Unit {0}
HasVotes (some t) = is_empty t.votes ≡ false

last_stays : {A : Type 0} (xs : List A) (x : A) → is_empty (xs ++ x ∷ []) ≡ false
last_stays [] x = refl
last_stays (y ∷ xs) x = refl

pub add_timeout-Gives :
    (t : Timeout) (a : Aggregator) → Gives HasVotes (Aggregator.add_timeout t a).0
unfolding Aggregator.add_timeout Aggregator.entry Timeouts.append
add_timeout-Gives t a = ground (
  arith,
  last_stays (lookup_or t.epoch Timeouts.new a.timeouts_aggregators).votes
      (t.author, t.signature, t.high_qc.height),
)

-- An agreement value leaves the shares as they were.
pub add_aba_val-Safe :
    (v : AbaVal) (cm : Committee) → Safe (IsGathered cm) Any (Aggregator.add_aba_val v)
unfolding Aggregator.add_aba_val Aggregator.entry AbaVals.append
add_aba_val-Safe v cm = record { keeps = λ a h. (h, ground arith) }

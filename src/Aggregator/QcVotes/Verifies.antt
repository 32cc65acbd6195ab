-- ===== src/Aggregator/QcVotes/Verifies.antt =====
-- What `QCMaker` of consensus/src/aggregator.rs gives out passes `QC::verify` of
-- consensus/src/messages.rs.
-- A maker on its way to a quorum: distinct authors with stake, and their stake as the weight.
use hotstuff_dag.Aggregator.QcVotes
use hotstuff_dag.Aggregator.QcVotes.Assembly.{keys-append}
use hotstuff_dag.Aggregator.QcVotes.{QcMaker, append}
use hotstuff_dag.Config.{Committee, quorum_threshold, stake}
use hotstuff_dag.Crypto.{Primitives, verify_batch}
use hotstuff_dag.Error.{authority_reuse_in_qc, ok}
use hotstuff_dag.Messages.Qc
use hotstuff_dag.Messages.Qc.{Qc}
use hotstuff_dag.Messages.Tally.Quorums.{
  AllHeld, AllHeld-snoc, contains-snoc, distinct-snoc, everyone, held, stake_sum,
  stake_sum-le-total, stake_sum-nil, stake_sum-snoc, tally_complete,
}
use hotstuff_dag.Messages.Vote
use hotstuff_dag.Messages.Vote.{Vote}
use hotstuff_dag.Prelude.{
  Bool-cases, List, [], add32, arith, contains, distinct, false, inl, inr, keys, leb, none, refl,
  some, sym, true, u32_mod, ℕ, ◌++◌, ◌<◌, ◌∙◌, ◌∷◌, ◌≡◌,
}

pub record IsGathering (cm : Committee) (m : QcMaker) : Type 0 where
  pub once : distinct (keys m.votes) ≡ true
  pub seen : (k : ℕ) → contains (keys m.votes) k ≡ contains m.used k
  pub all_held : AllHeld cm (keys m.votes)
  pub exact : m.weight ≡ stake_sum cm.authorities (keys m.votes)

pub new-IsGathering : (cm : Committee) → IsGathering cm QcVotes.new
new-IsGathering cm = record {
  once = refl;
  seen = λ k. refl;
  all_held = tt;
  exact = sym (stake_sum-nil cm);
}

module _ (v : Vote) (cm : Committee) (m : QcMaker) where
  abbrev voters : List ℕ
  voters = keys m.votes ++ v.author ∷ []

  keys_grown : keys (m.votes ++ (v.author, v.signature) ∷ []) ≡ voters
  keys_grown = keys-append m.votes ((v.author, v.signature) ∷ [])

  module _ (g : IsGathering cm m) (known : 0 < stake cm v.author)
      (fits : held everyone cm.authorities < u32_mod)
      (fresh : contains m.used v.author ≡ false) where
    voters_once : distinct voters ≡ true
    voters_once = distinct-snoc (keys m.votes) v.author g.once (g.seen v.author ∙ fresh)

    voters_weight : add32 m.weight (stake cm v.author) ≡ stake_sum cm.authorities voters
    voters_weight = omega (
      arith,
      g.exact,
      stake_sum-snoc cm (keys m.votes) v.author,
      stake_sum-le-total cm.authorities voters voters_once,
    )

    voters_fit : stake_sum cm.authorities voters < u32_mod
    voters_fit = omega (arith, stake_sum-le-total cm.authorities voters voters_once)

-- A vote by an authority with stake that does not complete the quorum keeps the maker on its way:
-- its weight stays exactly the stake of the distinct authors gathered.
pub append-IsGathering :
    (v : Vote) (cm : Committee) (m : QcMaker)
    → IsGathering cm m
    → 0 < stake cm v.author
    → held everyone cm.authorities < u32_mod
    → (append v cm m).0 ≡ ok none
    → IsGathering cm (append v cm m).1
unfolding append
append-IsGathering v cm m g known fits none_yet = elim (Bool-cases (contains m.used v.author)) [
  | inl seen ↦ absurd (ground arith)
  | inr fresh ↦ elim (Bool-cases (leb (quorum_threshold cm) (add32 m.weight (stake cm v.author)))) [
    | inl reached ↦ absurd (ground arith)
    | inr short ↦
        rw (fresh, append)
          (rw (short, append)
            (record {
              once = rw (keys_grown v cm m) (voters_once v cm m g known fits fresh);
              seen = λ k.
                  rw (keys_grown v cm m)
                    (ground (arith, contains-snoc (keys m.votes) v.author k, g.seen k));
              all_held =
                  rw (keys_grown v cm m) (AllHeld-snoc cm (keys m.votes) v.author g.all_held known);
              exact = rw (keys_grown v cm m) (voters_weight v cm m g known fits fresh);
            }))
  ]
]

-- The certificate that completes a quorum is signed over the digest of its last vote, and it
-- verifies in the same committee whenever the batch of its signatures does.
pub append-verify :
    (c : Primitives) (v : Vote) (cm : Committee) (m : QcMaker) (qc : Qc)
    → IsGathering cm m
    → 0 < stake cm v.author
    → held everyone cm.authorities < u32_mod
    → (append v cm m).0 ≡ ok (some qc)
    → verify_batch c (Qc.digest c qc) qc.votes ≡ ok tt
    → (Qc.digest c qc ≡ Vote.digest c v) × (Qc.verify c qc cm ≡ ok tt)
unfolding append Qc.digest Vote.digest Qc.verify
append-verify c v cm m qc g known fits made signed = elim (Bool-cases (contains m.used v.author)) [
  | inl seen ↦ absurd (ground arith)
  | inr fresh ↦
      let counted =
        tally_complete authority_reuse_in_qc cm [] 0 (voters v cm m)
          (voters_once v cm m g known fits fresh) (λ y h. absurd (ground arith))
          (AllHeld-snoc cm (keys m.votes) v.author g.all_held known)
          (omega (arith, voters_fit v cm m g known fits fresh)) in
      (
        ground (arith),
        ground (arith, counted, keys_grown v cm m, voters_weight v cm m g known fits fresh),
      )
]

-- ===== src/Aggregator/QcVotes/Single.antt =====
-- How many certificates a `QCMaker` of consensus/src/aggregator.rs gives out over all its votes.
use hotstuff_dag.Aggregator.QcVotes
use hotstuff_dag.Aggregator.QcVotes.{QcMaker, append}
use hotstuff_dag.Config.{Committee, quorum_threshold, stake}
use hotstuff_dag.Error.{Result, authority_reuse_in_qc, err, ok, out_of_fuel, panic}
use hotstuff_dag.Messages.Qc.{Qc}
use hotstuff_dag.Messages.Tally.Quorums.{
  contains-snoc, distinct-snoc, everyone, held, stake_sum, stake_sum-le-total, stake_sum-nil,
  stake_sum-snoc,
}
use hotstuff_dag.Messages.Vote.{Vote}
use hotstuff_dag.Prelude.{
  Bool-cases, List, Option, [], add32, ap, arith, contains, distinct, false, if◌then◌else◌, inl,
  inr, leb, none, refl, some, sym, true, u32_mod, ℕ, ◌++◌, ◌+◌, ◌<◌, ◌∙◌, ◌∷◌, ◌≡◌, ◌≤◌,
}

-- Whether the answer is a certificate.
abbrev certifies : Result (Option Qc) → ℕ
certifies (ok none) = 0
certifies (ok (some qc)) = 1
certifies (err e) = 0
certifies panic = 0
certifies out_of_fuel = 0

-- How many certificates the maker gives out for the votes, in their order.
abbrev pub certificates : List Vote → Committee → QcMaker → ℕ
certificates [] cm m = 0
certificates (v ∷ vs) cm m = certifies (append v cm m).0 + certificates vs cm (append v cm m).1

-- The authors of the votes, each once, in the order of their first votes.
abbrev pub authors : List Vote → List ℕ → List ℕ
authors [] seen = seen
authors (v ∷ vs) seen = authors vs (if contains seen v.author then seen else seen ++ v.author ∷ [])

module _ (cm : Committee) (fits : held everyone cm.authorities < u32_mod)
    (single : held everyone cm.authorities < quorum_threshold cm + quorum_threshold cm) where
  abbrev stake_of_all : List ℕ → ℕ
  stake_of_all ks = stake_sum cm.authorities ks

  -- `seen` are the authors of the votes so far.
  record Seen (seen : List ℕ) (m : QcMaker) : Type 0 where
    once : distinct seen ≡ true
    same : (k : ℕ) → contains seen k ≡ contains m.used k

  module _ (v : Vote) (m : QcMaker) (seen : List ℕ) where
    one_more :
        distinct seen ≡ true
        → contains seen v.author ≡ false
        → (distinct (seen ++ v.author ∷ []) ≡ true)
          × (stake_of_all (seen ++ v.author ∷ []) ≡ stake_of_all seen + stake cm v.author)
          × (stake_of_all (seen ++ v.author ∷ []) ≤ held everyone cm.authorities)
    one_more once unseen =
        let still = distinct-snoc seen v.author once unseen in
        (
          still,
          stake_sum-snoc cm seen v.author,
          stake_sum-le-total cm.authorities (seen ++ v.author ∷ []) still,
        )

    same_more :
        (b : ℕ)
        → ((k : ℕ) → contains seen k ≡ contains m.used k)
        → contains (seen ++ v.author ∷ []) b ≡ contains (v.author ∷ m.used) b
    same_more b same = ground (arith, contains-snoc seen v.author b, same b)

  -- A repeated vote is refused; a new one adds its stake.
  append_again :
      (v : Vote) (m : QcMaker)
      → contains m.used v.author ≡ true
      → append v cm m ≡ (err (authority_reuse_in_qc v.author), m)
  unfolding append
  append_again v m used = ground (arith, used)

  append_short :
      (v : Vote) (m : QcMaker)
      → contains m.used v.author ≡ false
      → add32 m.weight (stake cm v.author) < quorum_threshold cm
      → (certifies (append v cm m).0 ≡ 0)
        × ((append v cm m).1.used ≡ v.author ∷ m.used)
        × ((append v cm m).1.weight ≡ add32 m.weight (stake cm v.author))
  unfolding append
  append_short v m unseen short = ground (arith, unseen, short)

  append_full :
      (v : Vote) (m : QcMaker)
      → contains m.used v.author ≡ false
      → quorum_threshold cm ≤ add32 m.weight (stake cm v.author)
      → (certifies (append v cm m).0 ≡ 1)
        × ((append v cm m).1.used ≡ v.author ∷ m.used)
        × ((append v cm m).1.weight ≡ 0)
  unfolding append
  append_full v m unseen full = ground (arith, unseen, full)

  authors_grow :
      (vs : List Vote) (seen : List ℕ) → stake_of_all seen ≤ stake_of_all (authors vs seen)
  authors_grow [] seen = omega arith
  authors_grow (v ∷ vs) seen = elim (Bool-cases (contains seen v.author)) [
    | inl old ↦ rw old (authors_grow vs seen)
    | inr unseen ↦
        rw unseen
          (omega (arith, stake_sum-snoc cm seen v.author, authors_grow vs (seen ++ v.author ∷ [])))
  ]

  Seen-more :
      (v : Vote) (m m' : QcMaker) (seen : List ℕ)
      → Seen seen m
      → contains m.used v.author ≡ false
      → m'.used ≡ v.author ∷ m.used
      → Seen (seen ++ v.author ∷ []) m'
  Seen-more v m m' seen h unseen grown = record {
    once = (one_more v m seen h.once (h.same v.author ∙ unseen)).0;
    same = λ k. same_more v m seen k h.same ∙ ap (λ used. contains used k) (sym grown);
  }

  -- After a certificate the stake of the others does not reach another quorum.
  none_again :
      (vs : List Vote) (m : QcMaker) (seen : List ℕ)
      → Seen seen m
      → m.weight + quorum_threshold cm ≤ stake_of_all seen
      → certificates vs cm m ≡ 0
  none_again [] m seen h taken = refl
  none_again (v ∷ vs) m seen h taken = elim (Bool-cases (contains m.used v.author)) [
    | inl used ↦ rw (append_again v m used) (omega (arith, none_again vs m seen h taken))
    | inr unseen ↦
        let (once, more, within) = one_more v m seen h.once (h.same v.author ∙ unseen) in
        let (none_now, grown, weight) =
          append_short v m unseen (omega (arith, taken, more, within, fits, single)) in
        let later =
          none_again vs (append v cm m).1 (seen ++ v.author ∷ [])
            (Seen-more v m (append v cm m).1 seen h unseen grown)
            (omega (arith, weight, taken, more, within, fits)) in
        omega (arith, none_now, later)
  ]

  none_first : (n : ℕ) → 0 + n ≡ n
  none_first n = omega arith

  -- Before the first certificate the weight is the stake of the authors seen.
  once_full :
      (vs : List Vote) (m : QcMaker) (seen : List ℕ)
      → Seen seen m
      → m.weight ≡ stake_of_all seen
      → stake_of_all seen < quorum_threshold cm
      → certificates vs cm m
        ≡ (if leb (quorum_threshold cm) (stake_of_all (authors vs seen)) then 1 else 0)
  once_full [] m seen h exact short = ground (arith, short)
  once_full (v ∷ vs) m seen h exact short = elim (Bool-cases (contains m.used v.author)) [
    | inl used ↦
        rw (append_again v m used, h.same v.author ∙ used)
          (none_first (certificates vs cm m) ∙ once_full vs m seen h exact short)
    | inr unseen ↦
        let (once, more, within) = one_more v m seen h.once (h.same v.author ∙ unseen) in
        let weight : add32 m.weight (stake cm v.author) ≡ stake_of_all (seen ++ v.author ∷ []) =
          omega (arith, exact, more, within, fits) in
        rw (h.same v.author ∙ unseen)
          (elim (Bool-cases (leb (quorum_threshold cm) (stake_of_all (seen ++ v.author ∷ [])))) [
            | inl full ↦ first v vs m seen h unseen more weight full
            | inr still_short ↦
                let (none_now, grown, heavier) =
                  append_short v m unseen (ground (arith, weight, still_short)) in
                let later =
                  once_full vs (append v cm m).1 (seen ++ v.author ∷ [])
                    (Seen-more v m (append v cm m).1 seen h unseen grown) (heavier ∙ weight)
                    (ground (arith, still_short)) in
                ap (λ n. n + certificates vs cm (append v cm m).1) none_now
                ∙ none_first (certificates vs cm (append v cm m).1)
                ∙ later
          ])
  ]
    where
      first :
          (v : Vote) (vs : List Vote) (m : QcMaker) (seen : List ℕ)
          → Seen seen m
          → contains m.used v.author ≡ false
          → stake_of_all (seen ++ v.author ∷ []) ≡ stake_of_all seen + stake cm v.author
          → add32 m.weight (stake cm v.author) ≡ stake_of_all (seen ++ v.author ∷ [])
          → leb (quorum_threshold cm) (stake_of_all (seen ++ v.author ∷ [])) ≡ true
          → certifies (append v cm m).0 + certificates vs cm (append v cm m).1 ≡ (
              if leb (quorum_threshold cm) (stake_of_all (authors vs (seen ++ v.author ∷ [])))
              then 1
              else 0)
      first v vs m seen h unseen more weight full =
          let (one_now, grown, empty) = append_full v m unseen (ground (arith, weight, full)) in
          let later =
            none_again vs (append v cm m).1 (seen ++ v.author ∷ [])
              (Seen-more v m (append v cm m).1 seen h unseen grown) (ground (arith, empty, full)) in
          ground (arith, one_now, later, full, authors_grow vs (seen ++ v.author ∷ []))

  -- If the stakes of the committee fit a `u32` and sum to less than two quorums, then a new maker
  -- gives out exactly one certificate, whatever votes it is given in whatever order and however often
  -- an author repeats itself, if the stake of their distinct authors reaches the quorum, and none if
  -- it does not.
  pub certificates_lem :
      (vs : List Vote)
      → 0 < quorum_threshold cm
      → certificates vs cm QcVotes.new
        ≡ (if leb (quorum_threshold cm) (stake_sum cm.authorities (authors vs [])) then 1 else 0)
  certificates_lem vs some_stake =
      once_full vs QcVotes.new [] (record { once = refl; same = λ k. refl })
        (sym (stake_sum-nil cm)) (omega (arith, some_stake, stake_sum-nil cm))

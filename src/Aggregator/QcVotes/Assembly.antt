-- ===== src/Aggregator/QcVotes/Assembly.antt =====
-- What `QCMaker` of consensus/src/aggregator.rs gathers.
-- The votes gathered are those of the authorities seen, each of them once.
use hotstuff_dag.Aggregator.QcVotes.{QcMaker, append}
use hotstuff_dag.Config.{Committee}
use hotstuff_dag.Messages.Tally.Quorums.{contains-snoc}
use hotstuff_dag.Messages.Vote.{Vote}
use hotstuff_dag.Prelude.{
  List, [], ap, arith, contains, distinct, keys, refl, true, ℕ, ◌++◌, ◌∷◌, ◌≡◌,
}

pub record IsValid (m : QcMaker) : Type 0 where
  pub once : distinct m.used ≡ true
  pub recorded : (k : ℕ) → contains (keys m.votes) k ≡ contains m.used k

pub keys-append : (xs ys : List (ℕ × ℕ)) → keys (xs ++ ys) ≡ keys xs ++ keys ys
keys-append [] ys = refl
keys-append ((k, v) ∷ xs) ys = ap (◌∷◌ k) (keys-append xs ys)

-- Every vote, accepted or refused, keeps the maker valid.
pub append-IsValid :
    (v : Vote) (cm : Committee) (m : QcMaker) → IsValid m → IsValid (append v cm m).1
unfolding append
append-IsValid v cm m h = record {
  once = ground (arith, h.once);
  recorded = λ k. ground (
    arith,
    h.recorded k,
    ap (λ l. contains l k) (keys-append m.votes ((v.author, v.signature) ∷ [])),
    contains-snoc (keys m.votes) v.author k,
  );
}

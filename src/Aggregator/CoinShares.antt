-- ===== src/Aggregator/CoinShares.antt =====
-- consensus/src/aggregator.rs: `ABARandomCoinMaker`, which gathers the coin shares of one round and
-- combines them when exactly f + 1 have come.
use hotstuff_dag.Config.{Committee, id, random_coin_threshold, stake}
use hotstuff_dag.Crypto.{Primitives, PublicKey, SignatureShare}
use hotstuff_dag.Error.{Result, authority_reuse_in_coin, err, ok, out_of_fuel, panic}
use hotstuff_dag.Exec.{Exec}
use hotstuff_dag.Messages.Coin.{RandomnessShare}
use hotstuff_dag.Prelude.{
  List, Option, [], add32, contains, from_be_bytes, if◌then◌else◌, ltb, none, some, take, ℕ, ◌%◌,
  ◌++◌, ◌==◌, ◌∷◌,
}

pub record CoinMaker : Type 0 where
  pub weight : ℕ
  pub shares : List RandomnessShare
  pub used : List PublicKey

abbrev pub new : CoinMaker
new = record { weight = 0; shares = []; used = [] }

-- `BTreeMap::insert`: the entries stay in the order of their keys.
pub btree_insert : ℕ → SignatureShare → List (ℕ × SignatureShare) → List (ℕ × SignatureShare)
btree_insert k v [] = (k, v) ∷ []
btree_insert k v ((j, w) ∷ m) =
    let rest = btree_insert k v m in
    if j == k then (k, v) ∷ m else if ltb k j then (k, v) ∷ (j, w) ∷ m else (j, w) ∷ rest

unfoldable pub collect_shares :
    Committee
    → List (ℕ × SignatureShare)
    → List RandomnessShare
    → Result (List (ℕ × SignatureShare))
unfolding btree_insert
collect_shares committee sigs [] = ok sigs
collect_shares committee sigs (s ∷ shares) = elim (id committee s.author) [
  | ok i ↦ collect_shares committee (btree_insert i s.signature_share sigs) shares
  | err e ↦ err e
  | panic ↦ panic
  | out_of_fuel ↦ out_of_fuel
]

-- `usize::from_be_bytes(sig.to_bytes()[0..8]) % 2`, if the shares combine.
pub coin_of : Primitives → List (ℕ × SignatureShare) → Option ℕ
coin_of c sigs = elim (c.combine_signatures sigs) [
  | none ↦ none
  | some bytes ↦ some (from_be_bytes (take 8 bytes) % 2)
]

unfoldable pub assemble : Primitives → Committee → List RandomnessShare → Result (Option ℕ)
unfolding collect_shares coin_of
assemble c committee shares = elim (collect_shares committee [] shares) [
  | ok sigs ↦ ok (coin_of c sigs)
  | err e ↦ err e
  | panic ↦ panic
  | out_of_fuel ↦ out_of_fuel
]

unfoldable pub append : Primitives → RandomnessShare → Committee → Exec CoinMaker (Option ℕ)
unfolding assemble
append c share committee m =
    let weight = add32 m.weight (stake committee share.author) in
    let shares = m.shares ++ share ∷ [] in
    let next : CoinMaker = record {
      weight = weight;
      shares = shares;
      used = share.author ∷ m.used;
    } in
    if contains m.used share.author
    then (err (authority_reuse_in_coin share.author), m)
    else if weight == random_coin_threshold committee
    then (assemble c committee shares, next)
    else (ok none, next)

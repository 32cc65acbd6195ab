-- ===== src/Core/Alive/Voting.antt =====
-- What the handlers of consensus/src/core.rs do to the chain at hand keeps its certificate certain,
-- a vote is for a digest other than 0, and a proposal refers to no genesis block.
use hotstuff_dag.Aggregator
use hotstuff_dag.Aggregator.{Aggregator}
use hotstuff_dag.Config.{Committee}
use hotstuff_dag.Core.Alive.Aba.{leader_of-Gives}
use hotstuff_dag.Core.Alive.{
  Gives, IsCertain, IsMember, IsSound, IsValid, IsValidWork, Maybe, Safe, Trust,
}
use hotstuff_dag.Core.Outside.{mempool_get}
use hotstuff_dag.Core.Proposals.{aggregate, chain_of, core_of, generate_proposal, references_from}
use hotstuff_dag.Core.State.{Chain, Work}
use hotstuff_dag.Core.Voting.{
  advance_height, increase_last_voted_round, make_vote, process_qc, update_high_qc,
}
use hotstuff_dag.Crypto.{Digest, PublicKey}
use hotstuff_dag.Error.{Result, err, ok, out_of_fuel, panic}
use hotstuff_dag.Exec.{Exec}
use hotstuff_dag.Leader.{get_leader}
use hotstuff_dag.Messages.Block
use hotstuff_dag.Messages.Block.{Block}
use hotstuff_dag.Messages.Qc
use hotstuff_dag.Messages.Qc.{Qc}
use hotstuff_dag.Messages.Vote
use hotstuff_dag.Messages.Vote.{Vote}
use hotstuff_dag.Prelude.{
  All, All-lookup, Bool, List, Map, Option, [], add64, arith, bytes_eq, false, if◌then◌else◌, keys,
  lookup, ltb, nat_eq, none, pair_eq, quad_eq, refl, some, sym, true, ◌&&◌, ◌==◌, ◌||◌, ◌∷◌, ◌≡◌,
  ◌≢◌,
}
use hotstuff_dag.World.{Env}
use mathlib.Core.Path.{subst}

module _ (env : Env) (cm : Committee) (trust : Trust env cm) where
  abbrev Kept : Work → Type 0
  Kept = IsValidWork env cm

  pub core_of-Safe : Safe Kept (IsValid env cm false) core_of
  core_of-Safe = record { keeps = λ w h. (h, h.0) }

  pub chain_of-Safe : Safe Kept (λ chain. IsCertain chain.high_qc) chain_of
  chain_of-Safe = record { keeps = λ w h. (h, h.1) }

  pub aggregate_chain-Safe :
      {A : Type 0} {Q : A → Type 0} (m : Exec Aggregator A)
      → ((a : Aggregator) → Gives Q (m a).0)
      → Safe Kept Q (aggregate m)
  aggregate_chain-Safe m gives = record { keeps = λ w h. (h, gives w.chain.aggregator) }

  pub process_qc-IsValid : (qc : Qc) (w : Work) → IsCertain qc → Kept w → Kept (process_qc qc w)
  unfolding process_qc update_high_qc advance_height
  process_qc-IsValid qc w certain h =
      (h.0, newer (ltb (advanced.high_qc).height qc.height) (same (ltb qc.height w.chain.height)))
    where
      advanced : Chain
      advanced = advance_height w.core.epoch qc.height w.chain

      same :
          (b : Bool)
          → IsCertain
              (if b then w.chain else record w.chain {
                height = add64 qc.height 1;
                aggregator = Aggregator.cleanup w.core.epoch (add64 qc.height 1) w.chain.aggregator;
              }).high_qc
      same true = h.1
      same false = h.1

      newer :
          (b : Bool) → IsCertain advanced.high_qc → IsCertain (if b then qc else advanced.high_qc)
      newer true c = certain
      newer false c = c

  digest_not_0 : (b : Block) → Block.digest env.primitives b ≢ 0
  unfolding Block.digest
  digest_not_0 b = trust.hashes _

  -- A vote is for the digest of a block.
  pub make_vote-Safe : (b : Block) → Safe Kept (Maybe (λ v. v.hash ≢ 0)) (make_vote env b)
  unfolding make_vote increase_last_voted_round Vote.new
  make_vote-Safe b = record {
    keeps = λ w h.
        let cast : Result (Option Vote) × Work = (
          ok (some (Vote.new env.primitives b w.core.name)),
          record w { chain = increase_last_voted_round b.height w.chain },
        ) in
        let safe =
          ltb w.chain.last_voted_height b.height
          && (add64 b.qc.height 1 == b.height || Qc.eq b.qc Qc.genesis) in
        let checked = either safe cast (ok none, w) (h, digest_not_0 b) (h, tt) in
        let led =
          subst (λ x. Gives (IsMember cm) (get_leader x w.core.epoch)) (sym h.0.0.0.0)
            (leader_of-Gives env cm trust false w.core.epoch) in
        either (ltb b.epoch w.chain.epoch) (ok none, w) _ (h, tt)
          (either w.core.is_view_change _ (if safe then cast else (ok none, w))
            (turn (get_leader w.core.committee w.core.epoch) led w
              (if safe then cast else (ok none, w)) h checked)
            checked);
  }
    where
      Fine : Result (Option Vote) × Work → Type 0
      Fine out = Kept out.1 × Gives (Maybe (λ v. v.hash ≢ 0)) out.0

      either :
          (c : Bool) (x y : Result (Option Vote) × Work)
          → Fine x
          → Fine y
          → Fine (if c then x else y)
      either true x y fx fy = fx
      either false x y fx fy = fy

      turn :
          (r : Result PublicKey)
          → Gives (IsMember cm) r
          → (w : Work) (checked : Result (Option Vote) × Work) → Kept w
          → Fine checked
          → Fine (elim r as (λ _. Result (Option Vote) × Work) [
            | ok l ↦ if b.author == l then (ok none, w) else checked
            | err e ↦ (err e, w)
            | panic ↦ (panic, w)
            | out_of_fuel ↦ (out_of_fuel, w)
          ])
      turn (ok l) g w checked h f = either (b.author == l) (ok none, w) checked (h, tt) f
      turn (err e) g w checked h f = (h, tt)
      turn panic g w checked h f = absurd g
      turn out_of_fuel g w checked h f = (h, tt)

  certain_hash : (qc : Qc) → IsCertain qc → Qc.eq qc Qc.genesis ≡ false → qc.hash ≢ 0
  certain_hash qc certain other zero_hash = ground (arith, other, zero_hash, certain zero_hash)

  references_from-All :
      (chains : Map PublicKey Chain) (own : PublicKey) (names : List PublicKey)
      → All (λ e. IsCertain e.1.high_qc) chains
      → All (λ r. r.1 ≢ 0) (references_from chains own names)
  unfolding references_from
  references_from-All chains own [] h = tt
  references_from-All chains own (name ∷ names) h =
      go (name == own) (lookup name chains) refl (references_from-All chains own names h)
    where
      rest : List (PublicKey × Digest)
      rest = references_from chains own names

      cited :
          (chain : Chain)
          → IsCertain chain.high_qc
          → (b : Bool) → Qc.eq chain.high_qc Qc.genesis ≡ b
          → All (λ r. r.1 ≢ 0) rest
          → All (λ r. r.1 ≢ 0) (if b then rest else (name, chain.high_qc.hash) ∷ rest)
      cited chain c true e ih = ih
      cited chain c false e ih = (certain_hash chain.high_qc c e, ih)

      go :
          (mine : Bool) (o : Option Chain)
          → lookup name chains ≡ o
          → All (λ r. r.1 ≢ 0) rest
          → All
              (λ r. r.1 ≢ 0)
              (if mine then rest else elim o as (λ _. List (PublicKey × Digest)) [
                | none ↦ rest
                | some other ↦
                    if Qc.eq other.high_qc Qc.genesis
                    then rest
                    else (name, other.high_qc.hash) ∷ rest
              ])
      go true o e ih = ih
      go false none e ih = ih
      go false (some chain) e ih =
          cited chain (All-lookup (λ e. IsCertain e.1.high_qc) name chain chains h e)
            (Qc.eq chain.high_qc Qc.genesis) refl ih

  pub generate_proposal-Safe :
      (chain : Chain) (tag : Bool)
      → Safe (IsValid env cm false) (IsSound cm) (generate_proposal env chain tag)
  unfolding generate_proposal mempool_get Block.new
  generate_proposal-Safe chain tag = record {
    keeps = λ c h. (
      (h.0, (tt, h.1)),
      (
        h.0.0.2,
        references_from-All c.pubkey_to_chain chain.name (keys c.committee.authorities) h.0.0.3,
      ),
    );
  }

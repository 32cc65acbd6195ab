-- ===== src/Core/Alive/Running.antt =====
-- The task of consensus/src/core.rs from its start (`Core::new`) over any messages that arrive.
use hotstuff_dag.Aggregator
use hotstuff_dag.Aggregator.{Aggregator}
use hotstuff_dag.Config.{Committee, Parameters}
use hotstuff_dag.Core.Alive.Loop.{IsAdmissible, run-Safe}
use hotstuff_dag.Core.Alive.{Any, Gives, IsCertain, IsMember, IsValid, Trust}
use hotstuff_dag.Core.Commit.{Committing, Recur, commit_references, visit_reference}
use hotstuff_dag.Core.Outside.{get_block}
use hotstuff_dag.Core.Run.Dispatch.{Names, stranger_panics}
use hotstuff_dag.Core.Run.{Input, core_channel, handle_input, run}
use hotstuff_dag.Core.State.{
  Chain, Core, coin_phase, init_phase, new, new_chain, new_chains, val_phase,
}
use hotstuff_dag.Crypto.{Digest, PublicKey}
use hotstuff_dag.Error.{Result, err, ok, out_of_fuel, panic}
use hotstuff_dag.Messages.Qc
use hotstuff_dag.Messages.Qc.{Qc}
use hotstuff_dag.Prelude.{
  All, List, Option, Option-cases, [], ap, arith, bytes_eq, contains, contains-lookup, false, inl,
  inr, keys, lookup, nat_eq, none, pair_eq, quad_eq, refl, some, true, ℕ, ◌∷◌, ◌≡◌, ◌≢◌, ◌≤◌, ◌⊎◌,
}
use hotstuff_dag.World.{ConsensusMessage, Env}
use mathlib.Core.Path.{subst}

new_chains-keys : (cm : Committee) (names : List PublicKey) → keys (new_chains cm names) ≡ names
unfolding new_chains
new_chains-keys cm [] = refl
new_chains-keys cm (name ∷ names) = ap (λ ks. name ∷ ks) (new_chains-keys cm names)

new_chains-All :
    (cm : Committee) (names : List PublicKey)
    → All (λ e. IsCertain e.1.high_qc) (new_chains cm names)
unfolding new_chains new_chain
new_chains-All cm [] = tt
new_chains-All cm (name ∷ names) = ((λ _. refl), new_chains-All cm names)

pub new-IsValid :
    (env : Env) (cm : Committee) (name : PublicKey) (parameters : Parameters)
    → IsMember cm name
    → IsValid env cm false (new name cm parameters)
unfolding new Aggregator.new
new-IsValid env cm name parameters member = (
  (
    (
      refl,
      new_chains-keys cm (keys cm.authorities),
      member,
      new_chains-All cm (keys cm.authorities),
    ),
    (refl, tt),
    (tt, tt),
    (
      (λ x. absurd (differ x)),
      (λ _. refl),
      (λ late. absurd (early late)),
      λ late. absurd (earlier late),
    ),
  ),
  tt,
)
  where
    differ : false ≡ true → ⊥
    differ x = cc

    early : val_phase ≤ init_phase → ⊥
    early late = omega (arith, late)

    earlier : coin_phase ≤ init_phase → ⊥
    earlier late = omega (arith, late)

module _ (env : Env) (cm : Committee) (trust : Trust env cm) (name : PublicKey)
    (parameters : Parameters) (depth fuel : ℕ) (inputs : List Input) where
  abbrev ended : Result (Unit {0}) × Core
  ended = run env depth fuel inputs (new name cm parameters)

  -- Suppose that the surroundings keep the promises of `Trust`, that the node is a member, and that
  -- every message is admissible. Then at any bounds on the depths of the recursion, the state in
  -- which the loop stands after any such messages is valid: there is a chain for each member of the
  -- committee and for nobody else, a certificate of the digest 0 is the genesis one, the shares that
  -- wait for a coin are those of members, a timeout certificate that is kept has votes, a tagged
  -- proof that is kept stands under its own round, the current round has its input from `val_phase`
  -- on, `coin_phase` has two values or the auxiliary proof of the round, and all that was written to
  -- the store are blocks of members that refer to no genesis block.
  pub run-IsValid : IsMember cm name → All (IsAdmissible cm) inputs → IsValid env cm false ended.1
  run-IsValid member admissible =
      ((run-Safe env cm trust depth fuel inputs admissible).keeps (new name cm parameters)
        (new-IsValid env cm name parameters member)).0

  not_panic : (r : Result (Unit {0})) → Gives Any r → r ≢ panic
  not_panic (ok u) g e = cc
  not_panic (err x) g e = cc
  not_panic panic g e = absurd g
  not_panic out_of_fuel g e = cc

  -- If the surroundings keep the promises of `Trust`, the node is a member and every message is
  -- admissible, then the loop never panics, at any bounds on the depths of the recursion:
  -- whatever admissible messages arrive, in any order, every `unwrap` and every lookup by index in
  -- the handlers, in the commit walk, in the agreement and in the change of view finds its value.
  pub run_never_panics : IsMember cm name → All (IsAdmissible cm) inputs → ended.0 ≢ panic
  run_never_panics member admissible =
      not_panic ended.0
        ((run-Safe env cm trust depth fuel inputs admissible).keeps (new name cm parameters)
          (new-IsValid env cm name parameters member)).1

  -- If the surroundings keep the promises of `Trust`, the node is a member and every message is
  -- admissible, then in the state in which the loop stands after such messages, any message of the
  -- core channel that names a chain outside the committee, a proposal, a vote, a loop-back or a sync
  -- reply, makes the handler panic before it checks a signature.
  pub run-stranger_panics :
      (key : PublicKey) (m : ConsensusMessage)
      → IsMember cm name
      → All (IsAdmissible cm) inputs
      → Names env depth fuel key m
      → contains (keys cm.authorities) key ≡ false
      → handle_input env depth fuel (core_channel m) ended.1 ≡ (panic, ended.1)
  run-stranger_panics key m member admissible names stranger =
      stranger_panics env depth fuel key m ended.1 names
        (nobody (Option-cases (lookup key ended.1.pubkey_to_chain)))
    where
      nobody :
          (lookup key ended.1.pubkey_to_chain ≡ none)
            ⊎ ((chain : Chain) × (lookup key ended.1.pubkey_to_chain ≡ some chain))
          → lookup key ended.1.pubkey_to_chain ≡ none
      nobody (inl e) = e
      nobody (inr (chain, found)) = absurd (clash there)
        where
          there : contains (keys cm.authorities) key ≡ true
          there =
              subst (λ ks. contains ks key ≡ true) (run-IsValid member admissible).0.0.1
                (contains-lookup key chain ended.1.pubkey_to_chain found)

          clash : contains (keys cm.authorities) key ≡ true → ⊥
          clash there = cc

-- In a valid state of a committee without the key 0, a reference to the genesis block makes the
-- commit walk panic, whoever is named beside it and whatever follows it: the author of the genesis
-- block has no chain.
pub genesis_reference_panics :
    (env : Env) (cm : Committee) (recur : Recur) (key : PublicKey)
    (refs : List (PublicKey × Digest)) (s : Committing)
    → IsValid env cm false s.core
    → contains (keys cm.authorities) 0 ≡ false
    → (commit_references env recur ((key, Qc.genesis.hash) ∷ refs) s).0 ≡ panic
unfolding commit_references visit_reference get_block
genesis_reference_panics env cm recur key refs s valid stranger =
    go (lookup 0 s.core.pubkey_to_chain) refl
  where
    absent : (chain : Chain) → lookup 0 s.core.pubkey_to_chain ≡ some chain → ⊥
    absent chain found = clash there
      where
        there : contains (keys cm.authorities) 0 ≡ true
        there =
            subst (λ ks. contains ks 0 ≡ true) valid.0.0.1
              (contains-lookup 0 chain s.core.pubkey_to_chain found)

        clash : contains (keys cm.authorities) 0 ≡ true → ⊥
        clash there = cc

    go :
        (o : Option Chain)
        → lookup 0 s.core.pubkey_to_chain ≡ o
        → (commit_references env recur ((key, Qc.genesis.hash) ∷ refs) s).0 ≡ panic
    go none e = rw (e, commit_references) refl
    go (some chain) e = absurd (absent chain e)

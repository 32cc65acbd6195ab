-- ===== src/Core/Alive/Loop.antt =====
-- The loop of consensus/src/core.rs: what it can be sent without ending.
-- What a message must not be for a member's task to live on: it names a chain of a member, its
-- block refers to no genesis block, its digest is not 0 but in a genesis certificate, and it comes
-- through the channel of its kind.
use hotstuff_dag.Config.{Committee}
use hotstuff_dag.Core.Alive.Aba.{handle_aba_val-Safe, leader-Safe, leader_of-Gives, this_core-Safe}
use hotstuff_dag.Core.Alive.Proposals.{
  broadcast_propose-Safe, handle_proposal-Safe, handle_sync_request-Safe, handle_tc-Safe,
  handle_timeout-Safe, handle_vote-Safe, process_block-Safe,
}
use hotstuff_dag.Core.Alive.Rounds.{handle_aba_proof-Safe, handle_coin_share-Safe}
use hotstuff_dag.Core.Alive.Views.{check_timeout-Safe, update_aba_phase-Safe}
use hotstuff_dag.Core.Alive.Voting.{chain_of-Safe, generate_proposal-Safe}
use hotstuff_dag.Core.Alive.{
  Any, Gives, IsCertain, IsMember, IsSound, IsValid, IsValidWork, Safe, Safe-bind, Safe-lift,
  Safe-modify, Safe-on_core, Safe-pure, Safe-then, Trust,
}
use hotstuff_dag.Core.Proposals.{handle_vote}
use hotstuff_dag.Core.Run.{
  Input, core_channel, handle_core_message, handle_input, handle_smvba_message, logged,
  on_leader_chain, rounds, run, smvba_channel, start, step, with_chain,
}
use hotstuff_dag.Core.State.{Chain, Core, Work}
use hotstuff_dag.Core.ViewChange.{check_timeout, update_aba_phase}
use hotstuff_dag.Crypto.{PublicKey}
use hotstuff_dag.Error.{Result, err, ok, out_of_fuel, panic}
use hotstuff_dag.Exec.{Exec}
use hotstuff_dag.Leader.{get_leader}
use hotstuff_dag.Prelude.{
  All, All-insert, All-lookup, List, [], bytes_eq, contains, false, insert, keys, keys-insert_old,
  lookup, lookup-contains, nat_eq, pair_eq, quad_eq, refl, some, sym, true, ℕ, ◌∙◌, ◌∷◌, ◌≡◌, ◌≢◌,
}
use hotstuff_dag.World.{
  ConsensusMessage, Env, aba_coin_share, loop_back, propose, sync_reply, sync_request,
}
use mathlib.Core.Path.{subst}

unfoldable pub IsAdmissible : Committee → Input → Type 0
IsAdmissible cm (core_channel (propose b)) = IsSound cm b × IsCertain b.qc
IsAdmissible cm (core_channel (ConsensusMessage.vote v)) = IsMember cm v.proposer × (v.hash ≢ 0)
IsAdmissible cm (core_channel (loop_back b)) = IsSound cm b
IsAdmissible cm (core_channel (sync_request d sender)) = Unit {0}
IsAdmissible cm (core_channel (sync_reply b)) = IsSound cm b × IsCertain b.qc
IsAdmissible cm (core_channel _) = ⊥
IsAdmissible cm (smvba_channel (ConsensusMessage.timeout t)) = IsCertain t.high_qc
IsAdmissible cm (smvba_channel (ConsensusMessage.tc t)) = Unit {0}
IsAdmissible cm (smvba_channel (ConsensusMessage.aba_val v)) = Unit {0}
IsAdmissible cm (smvba_channel (ConsensusMessage.aba_proof p)) = Unit {0}
IsAdmissible cm (smvba_channel (aba_coin_share s)) = Unit {0}
IsAdmissible cm (smvba_channel _) = ⊥

module _ (env : Env) (cm : Committee) (trust : Trust env cm) where
  abbrev Kept : Core → Type 0
  Kept = IsValid env cm false

  -- The clone of the chain is put back.
  put_back :
      (k : PublicKey) (w : Work)
      → IsMember cm k
      → IsValidWork env cm w
      → Kept (record w.core { pubkey_to_chain = insert k w.chain w.core.pubkey_to_chain })
  put_back k w member h =
      let chains = w.core.pubkey_to_chain in
      let here : contains (keys chains) k ≡ true =
        subst (λ ks. contains ks k ≡ true) (sym h.0.0.0.1) member in
      (
        (
          (
            h.0.0.0.0,
            keys-insert_old k w.chain chains here ∙ h.0.0.0.1,
            h.0.0.0.2,
            All-insert (λ e. IsCertain e.1.high_qc) k w.chain chains h.1 h.0.0.0.3,
          ),
          h.0.0.1,
          h.0.0.2,
          h.0.0.3,
        ),
        h.0.1,
      )

  with_chain_known :
      (k : PublicKey) (handler : Exec Work (Unit {0})) (c : Core) (chain : Chain)
      → lookup k c.pubkey_to_chain ≡ some chain
      → let out = handler (record { core = c; chain = chain }) in
        with_chain k handler c ≡ (
          out.0,
          record out.1.core { pubkey_to_chain = insert k out.1.chain out.1.core.pubkey_to_chain },
        )
  unfolding with_chain
  with_chain_known k handler c chain found = rw (found, with_chain) refl

  with_chain-Safe :
      (k : PublicKey) (handler : Exec Work (Unit {0}))
      → IsMember cm k
      → Safe (IsValidWork env cm) Any handler
      → Safe Kept Any (with_chain k handler)
  with_chain-Safe k handler member safe = record {
    keeps = λ c h.
        let (chain, found) =
          lookup-contains k c.pubkey_to_chain
            (subst (λ ks. contains ks k ≡ true) (sym h.0.0.1) member) in
        let w : Work = record { core = c; chain = chain } in
        let out =
          safe.keeps w
            (h, All-lookup (λ e. IsCertain e.1.high_qc) k chain c.pubkey_to_chain h.0.0.3 found) in
        subst (λ x. Kept x.1 × Gives Any x.0) (sym (with_chain_known k handler c chain found))
          (put_back k (handler w).1 member out.0, out.1);
  }

  logged-Safe : (m : Exec Core (Unit {0})) → Safe Kept Any m → Safe Kept Any (logged m)
  unfolding logged
  logged-Safe m safe = record {
    keeps = λ c h. go (m c).0 (m c).1 (safe.keeps c h).0 (safe.keeps c h).1;
  }
    where
      go :
          (r : Result (Unit {0})) (c : Core)
          → Kept c
          → Gives Any r
          → let out = elim r as (λ _. Result (Unit {0}) × Core) [
            | ok u ↦ (ok tt, c)
            | err e ↦ (ok tt, c)
            | panic ↦ (panic, c)
            | out_of_fuel ↦ (out_of_fuel, c)
          ] in
            Kept out.1 × Gives Any out.0
      go (ok u) c h g = (h, tt)
      go (err e) c h g = (h, tt)
      go panic c h g = absurd g
      go out_of_fuel c h g = (h, tt)

  module _ (depth fuel : ℕ) where
    handle_core_message-Safe :
        (m : ConsensusMessage)
        → IsAdmissible cm (core_channel m)
        → Safe Kept Any (handle_core_message env depth fuel m)
    unfolding handle_core_message IsAdmissible
    handle_core_message-Safe (propose b) a =
        with_chain-Safe b.author _ a.0.0 (handle_proposal-Safe env cm trust depth fuel b a.0 a.1)
    handle_core_message-Safe (ConsensusMessage.vote v) a =
        with_chain-Safe v.proposer _ a.0 (handle_vote-Safe env cm trust depth fuel v a.1)
    handle_core_message-Safe (loop_back b) a = with_chain-Safe b.author _ a.0 (
        process_block-Safe env cm trust depth (handle_vote env depth fuel)
          (handle_vote-Safe env cm trust depth fuel) b a)
    handle_core_message-Safe (sync_request d sender) a =
        handle_sync_request-Safe env cm trust d sender
    handle_core_message-Safe (sync_reply b) a =
        with_chain-Safe b.author _ a.0.0 (handle_proposal-Safe env cm trust depth fuel b a.0 a.1)
    handle_core_message-Safe (ConsensusMessage.timeout t) a = absurd a
    handle_core_message-Safe (ConsensusMessage.tc t) a = absurd a
    handle_core_message-Safe (ConsensusMessage.aba_val v) a = absurd a
    handle_core_message-Safe (ConsensusMessage.aba_proof p) a = absurd a
    handle_core_message-Safe (aba_coin_share s) a = absurd a

    handle_smvba_message-Safe :
        (m : ConsensusMessage)
        → IsAdmissible cm (smvba_channel m)
        → Safe Kept Any (handle_smvba_message env depth fuel m)
    unfolding handle_smvba_message IsAdmissible
    handle_smvba_message-Safe (ConsensusMessage.timeout t) a =
        Safe-bind (this_core-Safe env cm trust false) (λ core h.
          Safe-bind
            (Safe-lift Kept (IsMember cm) (get_leader core.committee t.epoch) (
              subst (λ x. Gives (IsMember cm) (get_leader x t.epoch)) (sym h.0.0.0)
                (leader_of-Gives env cm trust false t.epoch)))
            (λ leading member.
              with_chain-Safe leading _ member (handle_timeout-Safe env cm trust t a)))
    handle_smvba_message-Safe (ConsensusMessage.tc t) a = handle_tc-Safe env cm trust t
    handle_smvba_message-Safe (ConsensusMessage.aba_val v) a =
        handle_aba_val-Safe env cm trust false v
    handle_smvba_message-Safe (ConsensusMessage.aba_proof p) a =
        handle_aba_proof-Safe env cm trust false p
    handle_smvba_message-Safe (aba_coin_share s) a = handle_coin_share-Safe env cm trust false s
    handle_smvba_message-Safe (propose b) a = absurd a
    handle_smvba_message-Safe (ConsensusMessage.vote v) a = absurd a
    handle_smvba_message-Safe (loop_back b) a = absurd a
    handle_smvba_message-Safe (sync_request d sender) a = absurd a
    handle_smvba_message-Safe (sync_reply b) a = absurd a

    handle_input-Safe :
        (input : Input) → IsAdmissible cm input → Safe Kept Any (handle_input env depth fuel input)
    unfolding handle_input
    handle_input-Safe (core_channel m) a = handle_core_message-Safe m a
    handle_input-Safe (smvba_channel m) a = handle_smvba_message-Safe m a

    on_leader_chain-Safe :
        (handler : Exec Work (Unit {0}))
        → Safe (IsValidWork env cm) Any handler
        → Safe Kept Any (on_leader_chain env depth fuel handler)
    unfolding on_leader_chain
    on_leader_chain-Safe handler safe =
        Safe-bind (leader-Safe env cm trust false)
          (λ leading member. with_chain-Safe leading handler member safe)

    step-Safe : (input : Input) → IsAdmissible cm input → Safe Kept Any (step env depth fuel input)
    unfolding step
    step-Safe input a = Safe-then (Safe-modify Kept _ (λ c h. h)) (
        Safe-then (leader-Safe env cm trust false) (
          Safe-then (logged-Safe _ (handle_input-Safe input a)) (
            Safe-then
              (logged-Safe _ (
                on_leader_chain-Safe (update_aba_phase env depth fuel)
                  (update_aba_phase-Safe env cm trust depth fuel)))
              (logged-Safe _
                (on_leader_chain-Safe (check_timeout env) (check_timeout-Safe env cm trust))))))

    start-Safe : Safe Kept Any (start env depth fuel)
    unfolding start
    start-Safe = Safe-bind (this_core-Safe env cm trust false) (λ core h. logged-Safe _ (
        with_chain-Safe core.name _ h.0.0.2 (
          Safe-bind (chain_of-Safe env cm trust) (λ chain _.
            Safe-bind (Safe-on_core env cm (generate_proposal-Safe env cm trust chain false))
              (λ b sound.
                broadcast_propose-Safe env cm trust depth (handle_vote env depth fuel)
                  (handle_vote-Safe env cm trust depth fuel) b sound)))))

    rounds-Safe :
        (inputs : List Input)
        → All (IsAdmissible cm) inputs
        → Safe Kept Any (rounds env depth fuel inputs)
    unfolding rounds
    rounds-Safe [] a = Safe-pure Kept Any tt tt
    rounds-Safe (input ∷ inputs) a = Safe-then (step-Safe input a.0) (rounds-Safe inputs a.1)

    pub run-Safe :
        (inputs : List Input)
        → All (IsAdmissible cm) inputs
        → Safe Kept Any (run env depth fuel inputs)
    unfolding run
    run-Safe inputs a = Safe-then start-Safe (rounds-Safe inputs a)

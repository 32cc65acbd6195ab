-- ===== src/Core/Alive/Proposals.antt =====
-- The handlers of proposals, votes and timeouts of consensus/src/core.rs keep the core valid and do
-- not panic.
use hotstuff_dag.Aggregator
use hotstuff_dag.Aggregator.{Aggregator}
use hotstuff_dag.Config.{Committee}
use hotstuff_dag.Core.Alive.Aba.{leader-Safe}
use hotstuff_dag.Core.Alive.Answers.{
  block_verify-Gives, tc_verify-Gives, timeout_verify-Gives, vote_verify-Gives,
}
use hotstuff_dag.Core.Alive.Commit.{commit-Safe}
use hotstuff_dag.Core.Alive.Makers.{Certifies, HasVotes, add_timeout-Gives, add_vote-Gives}
use hotstuff_dag.Core.Alive.Outside.{
  IsStored, decode-Gives, get_ancestors-Safe, mempool_verify-Safe, read_store-Safe,
  store_block-IsValid, transmit-Safe,
}
use hotstuff_dag.Core.Alive.Voting.{
  aggregate_chain-Safe, chain_of-Safe, core_of-Safe, generate_proposal-Safe, make_vote-Safe,
  process_qc-IsValid,
}
use hotstuff_dag.Core.Alive.{
  Any, IsCertain, IsSound, IsValid, IsValidWork, Maybe, Safe, Safe-bind, Safe-if, Safe-lift,
  Safe-modify, Safe-on_core, Safe-pure, Safe-then, Trust, ensure-Any,
}
use hotstuff_dag.Core.Outside.{decode, store_block, transmit}
use hotstuff_dag.Core.Proposals.{
  HandleVote, broadcast_propose, cast_vote, certified, commit_ancestors, handle_proposal,
  handle_sync_request, handle_tc, handle_timeout, handle_vote, handle_vote_with,
  local_timeout_round, process_block, process_block_commit, process_block_prepare,
  process_block_vote, save_tc,
}
use hotstuff_dag.Core.State.{Core, Work, hotstuff, tcvba}
use hotstuff_dag.Core.Voting.{increase_last_voted_round, process_qc}
use hotstuff_dag.Crypto.{Digest, PublicKey}
use hotstuff_dag.Error.{ensure, wrong_author}
use hotstuff_dag.Exec.{Exec, lift, pure, ◌>>=◌}
use hotstuff_dag.Messages.Block
use hotstuff_dag.Messages.Block.{Block}
use hotstuff_dag.Messages.Qc
use hotstuff_dag.Messages.Qc.{Qc}
use hotstuff_dag.Messages.Tc
use hotstuff_dag.Messages.Tc.{Tc}
use hotstuff_dag.Messages.Timeout
use hotstuff_dag.Messages.Timeout.{Timeout}
use hotstuff_dag.Messages.Vote
use hotstuff_dag.Messages.Vote.{Vote}
use hotstuff_dag.Prelude.{
  All-insert, Option, add64, bytes_eq, false, insert, is_empty, leb, ltb, nat_eq, none, not,
  pair_eq, quad_eq, some, suc, sym, zero, ℕ, ◌&&◌, ◌==◌, ◌||◌, ◌∙◌, ◌≡◌, ◌≢◌,
}
use hotstuff_dag.World.{
  Bytes, ConsensusMessage, Env, network_filter, network_filter_smvba, propose, sync_reply,
}

module _ (env : Env) (cm : Committee) (trust : Trust env cm) where
  abbrev Kept : Work → Type 0
  Kept = IsValidWork env cm

  module _ (depth : ℕ) where
    process_block_commit-Safe :
        (b0 b1 : Block) → Safe Kept Any (process_block_commit env depth b0 b1)
    unfolding process_block_commit
    process_block_commit-Safe b0 b1 =
        Safe-bind (Safe-on_core env cm (leader-Safe env cm trust false)) (λ leading _.
          Safe-if (leading == b0.author && add64 b0.height 1 == b1.height)
            (λ _. commit-Safe env cm trust depth b0) (λ _. Safe-pure Kept Any tt tt))

    module _ (hv : HandleVote) (votes : (v : Vote) → v.hash ≢ 0 → Safe Kept Any (hv v)) where
      cast_vote-Safe :
          (o : Option Vote) → Maybe (λ v. v.hash ≢ 0) o → Safe Kept Any (cast_vote env depth hv o)
      unfolding cast_vote
      cast_vote-Safe none h = Safe-pure Kept Any tt tt
      cast_vote-Safe (some v) h = Safe-bind (core_of-Safe env cm trust) (λ core _.
          Safe-if (v.proposer == core.name) (λ _. votes v h)
            (λ _. Safe-on_core env cm (
              transmit-Safe env cm trust false (ConsensusMessage.vote v) (some v.proposer)
                network_filter hotstuff)))

      process_block_vote-Safe : (b : Block) → Safe Kept Any (process_block_vote env depth hv b)
      unfolding process_block_vote
      process_block_vote-Safe b = Safe-bind (chain_of-Safe env cm trust) (λ chain _.
          Safe-if (b.height == chain.height || Qc.eq b.qc Qc.genesis)
            (λ _. Safe-bind (make_vote-Safe env cm trust b) (λ voted h. cast_vote-Safe voted h))
            (λ _. Safe-pure Kept Any tt tt))

      commit_ancestors-Safe :
          (b : Block) (o : Option (Block × Block))
          → Safe Kept Any (commit_ancestors env depth hv b o)
      unfolding commit_ancestors
      commit_ancestors-Safe b none = Safe-pure Kept Any tt tt
      commit_ancestors-Safe b (some (b0, b1)) = Safe-bind (core_of-Safe env cm trust) (λ core _.
          Safe-bind (chain_of-Safe env cm trust) (λ chain _.
            Safe-if (not core.is_view_change && leb b.epoch chain.epoch)
              (λ _. process_block_commit-Safe b0 b1) (λ _. Safe-pure Kept Any tt tt)))

      pub process_block-Safe :
          (b : Block) → IsSound cm b → Safe Kept Any (process_block env depth hv b)
      unfolding process_block process_block_prepare
      process_block-Safe b sound =
          Safe-then
            (Safe-on_core env cm (
              Safe-modify (IsValid env cm false) (store_block env b)
                (λ c h. store_block-IsValid env cm trust false b c sound h)))
            (Safe-bind (Safe-on_core env cm (leader-Safe env cm trust false)) (λ leading _.
              Safe-bind (Safe-on_core env cm (get_ancestors-Safe env cm trust false b))
                (λ ancestors _.
                  Safe-then
                    (Safe-if (b.author == leading) (λ _. commit_ancestors-Safe b ancestors)
                      (λ _. Safe-pure Kept Any tt tt))
                    (process_block_vote-Safe b))))

      pub broadcast_propose-Safe :
          (b : Block) → IsSound cm b → Safe Kept Any (broadcast_propose env depth hv b)
      unfolding broadcast_propose
      broadcast_propose-Safe b sound =
          Safe-then
            (Safe-on_core env cm
              (transmit-Safe env cm trust false (propose b) none network_filter hotstuff))
            (process_block-Safe b sound)

      certified-Safe :
          (o : Option Qc) → Maybe IsCertain o → Safe Kept Any (certified env depth hv o)
      unfolding certified
      certified-Safe none h = Safe-pure Kept Any tt tt
      certified-Safe (some qc) certain =
          Safe-then
            (Safe-modify Kept (process_qc qc)
              (λ w h. process_qc-IsValid env cm trust qc w certain h))
            (Safe-bind (chain_of-Safe env cm trust) (λ chain _.
              Safe-bind (Safe-on_core env cm (generate_proposal-Safe env cm trust chain false))
                (λ b sound. broadcast_propose-Safe b sound)))

      Certifies-IsCertain :
          (v : Vote) → v.hash ≢ 0 → (o : Option Qc) → Certifies v o → Maybe IsCertain o
      Certifies-IsCertain v h none c = tt
      Certifies-IsCertain v h (some qc) c = λ zero_hash. absurd (h (sym c ∙ zero_hash))

      handle_vote_with-Safe :
          (v : Vote) → v.hash ≢ 0 → Safe Kept Any (handle_vote_with env depth hv v)
      unfolding handle_vote_with
      handle_vote_with-Safe v h = Safe-bind (core_of-Safe env cm trust) (λ core _.
          Safe-bind (chain_of-Safe env cm trust) (λ chain _.
            Safe-if (ltb v.height chain.height) (λ _. Safe-pure Kept Any tt tt)
              (λ _.
                Safe-then
                  (Safe-lift Kept Any (Vote.verify env.primitives v core.committee)
                    (vote_verify-Gives env.primitives v core.committee))
                  (Safe-bind
                    (aggregate_chain-Safe env cm trust (Aggregator.add_vote v) (add_vote-Gives v))
                    (λ made c. certified-Safe made (Certifies-IsCertain v h made c))))))

    pub handle_vote-Safe :
        (fuel : ℕ) (v : Vote) → v.hash ≢ 0 → Safe Kept Any (handle_vote env depth fuel v)
    unfolding handle_vote
    handle_vote-Safe zero v h = record { keeps = λ w k. (k, tt) }
    handle_vote-Safe (suc fuel) v h = record {
      keeps =
          (handle_vote_with-Safe (handle_vote env depth fuel) (handle_vote-Safe fuel) v h).keeps;
    }

    pub handle_proposal-Safe :
        (fuel : ℕ) (b : Block)
        → IsSound cm b
        → IsCertain b.qc
        → Safe Kept Any (handle_proposal env depth fuel b)
    unfolding handle_proposal
    handle_proposal-Safe fuel b sound certain = Safe-bind (core_of-Safe env cm trust) (λ core _.
        Safe-bind (chain_of-Safe env cm trust) (λ chain _.
          Safe-then
            (Safe-lift Kept Any
              (ensure (b.author == chain.name)
                (wrong_author (Block.digest env.primitives b) b.author b.height))
              (ensure-Any _ _))
            (Safe-then
              (Safe-lift Kept Any (Block.verify env.primitives b core.committee)
                (block_verify-Gives env.primitives b core.committee))
              (Safe-then
                (Safe-modify Kept (process_qc b.qc)
                  (λ w h. process_qc-IsValid env cm trust b.qc w certain h))
                (Safe-bind (Safe-on_core env cm (mempool_verify-Safe env cm trust false b))
                  (λ available _.
                    Safe-if available
                      (λ _.
                        process_block-Safe (handle_vote env depth fuel) (handle_vote-Safe fuel) b
                          sound)
                      (λ _. Safe-pure Kept Any tt tt)))))))

  save_tc-Safe : (o : Option Tc) → HasVotes o → Safe Kept Any (save_tc env o)
  unfolding save_tc
  save_tc-Safe none h = record { keeps = λ w k. (k, tt) }
  save_tc-Safe (some t) h = record {
    keeps = λ w k. (
      (
        (
          (
            k.0.0.0,
            k.0.0.1,
            (
              All-insert (λ e. is_empty e.1.votes ≡ false) t.epoch t w.core.tc_cache h k.0.0.2.0,
              k.0.0.2.1,
            ),
            k.0.0.3,
          ),
          k.0.1,
        ),
        k.1,
      ),
      tt,
    );
  }

  pub handle_timeout-Safe :
      (t : Timeout) → IsCertain t.high_qc → Safe Kept Any (handle_timeout env t)
  unfolding handle_timeout
  handle_timeout-Safe t certain = Safe-bind (core_of-Safe env cm trust) (λ core _.
      Safe-if (ltb t.epoch core.epoch) (λ _. Safe-pure Kept Any tt tt)
        (λ _.
          Safe-then
            (Safe-lift Kept Any (Timeout.verify env.primitives t core.committee)
              (timeout_verify-Gives env.primitives t core.committee))
            (Safe-then
              (Safe-modify Kept (process_qc t.high_qc)
                (λ w h. process_qc-IsValid env cm trust t.high_qc w certain h))
              (Safe-bind
                (aggregate_chain-Safe env cm trust (Aggregator.add_timeout t) (add_timeout-Gives t))
                (λ made h. save_tc-Safe made h)))))

  pub local_timeout_round-Safe : Safe Kept Any (local_timeout_round env)
  unfolding local_timeout_round increase_last_voted_round Timeout.new
  local_timeout_round-Safe = Safe-then (Safe-modify Kept _ (λ w h. h)) (
      Safe-bind (core_of-Safe env cm trust) (λ core _.
        Safe-bind (chain_of-Safe env cm trust) (λ chain certain.
          let own = Timeout.new env.primitives chain.high_qc core.epoch core.name in
          Safe-then
            (Safe-on_core env cm (
              transmit-Safe env cm trust false (ConsensusMessage.timeout own) none
                network_filter_smvba tcvba))
            (handle_timeout-Safe own certain))))

  pub handle_tc-Safe : (t : Tc) → Safe (IsValid env cm false) Any (handle_tc env t)
  unfolding handle_tc
  handle_tc-Safe t = record {
    keeps = λ c h.
        (Safe-if (ltb t.epoch c.epoch) (λ _. Safe-pure (IsValid env cm false) Any tt tt)
            (λ _.
              Safe-bind
                (Safe-lift (IsValid env cm false) (λ _. is_empty t.votes ≡ false)
                  (Tc.verify env.primitives t c.committee)
                  (tc_verify-Gives env.primitives t c.committee))
                (λ _ some_votes.
                  Safe-modify (IsValid env cm false)
                    (λ c. record c { tc_cache = insert t.epoch t c.tc_cache })
                    (λ c h. (
                      (
                        h.0.0,
                        h.0.1,
                        (
                          All-insert (λ e. is_empty e.1.votes ≡ false) t.epoch t c.tc_cache
                              some_votes h.0.2.0,
                          h.0.2.1,
                        ),
                        h.0.3,
                      ),
                      h.1,
                    ))))).keeps
          c h;
  }

  answer-Safe :
      (sender : PublicKey) (o : Option Bytes)
      → Maybe (IsStored env cm trust false) o
      → Safe (IsValid env cm false) Any (elim o as (λ _. Exec Core (Unit {0})) [
        | none ↦ pure tt
        | some bytes ↦ do
          block ← lift (decode env bytes)
          transmit (sync_reply block) (some sender) network_filter hotstuff
      ])
  answer-Safe sender none h = Safe-pure (IsValid env cm false) Any tt tt
  answer-Safe sender (some bytes) h =
      Safe-bind
        (Safe-lift (IsValid env cm false) (IsSound cm) (decode env bytes)
          (decode-Gives env cm trust false bytes h))
        (λ b _.
          transmit-Safe env cm trust false (sync_reply b) (some sender) network_filter hotstuff)

  pub handle_sync_request-Safe :
      (d : Digest) (sender : PublicKey)
      → Safe (IsValid env cm false) Any (handle_sync_request env d sender)
  unfolding handle_sync_request
  handle_sync_request-Safe d sender =
      Safe-bind (read_store-Safe env cm trust false d) (λ stored h. answer-Safe sender stored h)

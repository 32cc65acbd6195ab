-- ===== src/Examples.antt =====
-- The theorems at concrete inputs: a committee of four nodes of equal stake, signatures that are all
-- accepted, a store that has nothing and a mempool that gives nothing.
mod Mempools
mod Payloads
mod Cleanings
mod Stores
mod Synchronizing
mod Keys
mod Networks
mod References
mod Services
mod Turns
mod Votes
mod Running
mod Nodes
use hotstuff_dag.Aggregator
use hotstuff_dag.Aggregator.QcVotes
use hotstuff_dag.Aggregator.QcVotes.Assembly.{IsValid, append-IsValid}
use hotstuff_dag.Aggregator.QcVotes.Single.{authors, certificates, certificates_lem}
use hotstuff_dag.Aggregator.QcVotes.Verifies.{
  IsGathering, append-IsGathering, append-verify, new-IsGathering,
}
use hotstuff_dag.Aggregator.QcVotes.{QcMaker}
use hotstuff_dag.Aggregator.{Aggregator}
use hotstuff_dag.Config.Quorum.{thresholds}
use hotstuff_dag.Config.{
  Authority, Committee, Parameters, quorum_threshold, random_coin_threshold, size, stake,
  total_votes,
}
use hotstuff_dag.Core.Aba.Auxiliary.{announcement, process_val_phase_2_twice}
use hotstuff_dag.Core.Aba.{is_expired_aba_message, own_val, process_val_phase_2}
use hotstuff_dag.Core.Commit.Pushes.{Pushed, commit_prev_block-Pushed}
use hotstuff_dag.Core.Commit.{
  Committing, commit_references, sort_references, commit_current, commit_digest,
  commit_leader_references, commit_prev_block, commit_round, commit_rounds,
}
use hotstuff_dag.Core.Outside.{found_block, get_block, read_store}
use hotstuff_dag.Core.Run.Dispatch.{by_proposal, stranger_panics}
use hotstuff_dag.Core.Run.{core_channel, handle_input}
use hotstuff_dag.Core.State.{Chain, Core, Work, aux_phase}
use hotstuff_dag.Leader.{get_leader, insert_sorted, sort}
use hotstuff_dag.Core.ViewChange.Epochs.{advance_phase_lem, reset_chain-make_vote, reset_core_lem}
use hotstuff_dag.Core.ViewChange.{advance_phase, reset_chain, reset_core}
use hotstuff_dag.Core.Voting.Certificates.{IsAhead, process_qc_lem}
use hotstuff_dag.Core.Voting.Safety.{IncreasingAbove, vote_heights, vote_heights-IncreasingAbove}
use hotstuff_dag.Core.Voting.{make_vote, process_qc}
use hotstuff_dag.Crypto.{Primitives, verify_batch}
use hotstuff_dag.Error.{authority_reuse_in_qc, err, ok, panic}
use hotstuff_dag.Messages.Aba.{AbaProof}
use hotstuff_dag.Messages.Block.{Block}
use hotstuff_dag.Messages.Qc
use hotstuff_dag.Messages.Qc.Intersection.{verified_overlap, verified_stake}
use hotstuff_dag.Messages.Qc.{Qc}
use hotstuff_dag.Messages.Tally.Quorums.{everyone, held, stake_sum, tally_complete}
use hotstuff_dag.Messages.Tally.{tally}
use hotstuff_dag.Messages.Vote
use hotstuff_dag.Messages.Vote.{Vote}
use hotstuff_dag.Prelude.{
  List, [], add32, arith, contains, distinct, if◌then◌else◌, leb, false, keys, lookup, nat_eq, none,
  pair_eq, quad_eq, refl, some, true, u32_mod, ℕ, ◌%◌, ◌&&◌, ◌*◌, ◌+◌, ◌<◌, ◌∷◌, ◌≡◌, ◌≢◌, ◌≤◌, ◌⊎◌,
}
use hotstuff_dag.Store.{value}
use hotstuff_dag.World.{Env, accept, propose}

abbrev member : ℕ → Authority
member k = record { name = k; id = k; stake = 1; address = 10 + k; smvba_address = 20 + k }

abbrev four : Committee
four = record {
  authorities = (1, member 1) ∷ (2, member 2) ∷ (3, member 3) ∷ (4, member 4) ∷ [];
  epoch = 1;
}

abbrev trusting : Primitives
trusting = record {
  sha512 = λ bytes. bytes;
  signature_from_bytes = λ _. true;
  key_from_bytes = λ _. true;
  verify_strict = λ _ _ _. true;
  dalek_verify_batch = λ _ _. true;
  sign = λ d. d;
  tss_sign = λ d. some d;
  tss_verify = λ _ _ _. true;
  combine_signatures = λ _. some (1 ∷ []);
}

abbrev quiet : Env
quiet = record {
  primitives = trusting;
  db_get = λ _ _. value none;
  serialize = λ _. [];
  deserialize = λ _. none;
  mempool_get = λ _ _. [];
  mempool_verify = λ _ _. accept;
}

abbrev parameters : Parameters
parameters = record {
  node_sync_delay = 500;
  timeout_delay = 5000;
  sync_retry_delay = 10000;
  network_delay = 100;
  max_payload_size = 500;
  min_block_delay = 100;
  ddos = false;
  random_ddos = false;
  random_ddos_chance = 5;
  exp = 1;
}

abbrev certificate : ℕ → List (ℕ × ℕ) → Qc
certificate hash votes = record { hash = hash; epoch = 0; height = 7; proposer = 1; votes = votes }

abbrev low : Qc
low = certificate 5 ((1, 0) ∷ (2, 0) ∷ (3, 0) ∷ [])

abbrev high : Qc
high = certificate 6 ((2, 0) ∷ (3, 0) ∷ (4, 0) ∷ [])

low_verifies : Qc.verify trusting low four ≡ ok tt
unfolding Qc.verify tally stake quorum_threshold total_votes verify_batch
low_verifies = refl

high_verifies : Qc.verify trusting high four ≡ ok tt
unfolding Qc.verify tally stake quorum_threshold total_votes verify_batch
high_verifies = refl

four_held : held everyone four.authorities ≡ 3 * 1 + 1
unfolding held
four_held = refl

verified_overlap_example :
    2 ≤ held (λ k. contains (keys low.votes) k && contains (keys high.votes) k) four.authorities
verified_overlap_example =
    verified_overlap trusting 1 low high four four_held (omega arith) low_verifies high_verifies

abbrev lone : Chain
lone = record {
  name = 1;
  height = 3;
  last_voted_height = 2;
  last_committed_height = 0;
  aggregator = Aggregator.new four;
  high_qc = record { hash = 9; epoch = 0; height = 2; proposer = 1; votes = [] };
  height_to_digest = [];
  epoch = 0;
}

abbrev node : Core
node = record {
  name = 2;
  committee = four;
  parameters = parameters;
  epoch = 0;
  total_epoch = 0;
  tc_processed = false;
  val_value_broadcasted = false;
  aux_value_broadcasted = false;
  coin_share_broadcasted = false;
  aux_proof_broadcasted = false;
  is_view_change = false;
  pubkey_to_chain = (1, lone) ∷ [];
  tc_cache = [];
  aggregator = Aggregator.new four;
  bin_values = [];
  aba_round = 1;
  phase = 0;
  aba_output_val = none;
  aba_input_val = [];
  aba_val_phase_cache1 = [];
  aba_val_phase_cache2 = [];
  aba_aux_phase_cache = [];
  aux_value_nums = [];
  aba_coin_cache = [];
  aba_proof_cache = [];
  trace = [];
}

abbrev work : Work
work = record { core = node; chain = lone }

abbrev child : Block
child = record {
  qc = lone.high_qc;
  author = 1;
  height = 3;
  epoch = 0;
  payload = [];
  references = [];
  signature = 0;
}

vote_heights-IncreasingAbove_example :
    IncreasingAbove 2 (vote_heights quiet (child ∷ child ∷ []) work)
vote_heights-IncreasingAbove_example = vote_heights-IncreasingAbove quiet (child ∷ child ∷ []) work

child_is_voted : (make_vote quiet child work).0 ≡ ok (some (Vote.new trusting child 2))
unfolding make_vote
child_is_voted = refl

process_qc_lem_example : IsAhead (process_qc low work).chain
process_qc_lem_example = (process_qc_lem low work (omega arith) (omega arith)).0

abbrev first_vote : Vote
first_vote = record { hash = 5; epoch = 0; height = 7; author = 1; proposer = 1; signature = 0 }

four_total : total_votes four ≡ 3 * 1 + 1 + 0
unfolding total_votes
four_total = refl

abbrev proof : AbaProof
proof = record { epoch = 0; round = 1; val = 6; phase = 2; votes = []; tag = false }

process_val_phase_2_twice_example :
    (process_val_phase_2 quiet proof
      (process_val_phase_2 quiet proof
        (record node { bin_values = []; aux_value_broadcasted = false })).1).1.trace
    ≡ announcement quiet (own_val quiet node proof.epoch proof.round proof.val aux_phase) node
      ∷ node.trace
process_val_phase_2_twice_example = (process_val_phase_2_twice quiet proof node).1

abbrev gathered : QcMaker
gathered = record { weight = 2; votes = (2, 0) ∷ (3, 0) ∷ []; used = 3 ∷ 2 ∷ [] }

gathered-IsGathering : IsGathering four gathered
unfolding stake stake_sum
gathered-IsGathering = record {
  once = refl;
  seen = λ k. ground arith;
  all_held = omega arith;
  exact = refl;
}

four_fits : held everyone four.authorities < u32_mod
unfolding held
four_fits = omega arith

abbrev last_certificate : Qc
last_certificate = record {
  hash = 5;
  epoch = 0;
  height = 7;
  proposer = 1;
  votes = (2, 0) ∷ (3, 0) ∷ (1, 0) ∷ [];
}

four_single : held everyone four.authorities < quorum_threshold four + quorum_threshold four
unfolding held quorum_threshold total_votes
four_single = omega arith

four_quorum : 0 < quorum_threshold four
unfolding quorum_threshold total_votes
four_quorum = omega arith

-- Four votes, one of them a repetition, and one after the certificate.
abbrev some_votes : List Vote
some_votes =
    first_vote
    ∷ record first_vote { author = 2 }
    ∷ first_vote
    ∷ record first_vote { author = 3 }
    ∷ record first_vote { author = 4 }
    ∷ []

certificates_lem_example : certificates some_votes four QcVotes.new ≡ (
    if leb (quorum_threshold four) (stake_sum four.authorities (authors some_votes []))
    then 1
    else 0)
certificates_lem_example = certificates_lem four four_fits four_single some_votes four_quorum

last_vote_completes : (QcVotes.append first_vote four gathered).0 ≡ ok (some last_certificate)
unfolding QcVotes.append stake quorum_threshold total_votes
last_vote_completes = refl

one_has_stake : 0 < stake four 1
unfolding stake
one_has_stake = omega arith

batch_is_accepted :
    verify_batch trusting (Qc.digest trusting last_certificate) last_certificate.votes ≡ ok tt
unfolding verify_batch
batch_is_accepted = refl

append-verify_example :
    (Qc.digest trusting last_certificate ≡ Vote.digest trusting first_vote)
    × (Qc.verify trusting last_certificate four ≡ ok tt)
append-verify_example =
    append-verify trusting first_vote four gathered last_certificate gathered-IsGathering
      one_has_stake four_fits last_vote_completes batch_is_accepted

first_vote_is_short : (QcVotes.append first_vote four QcVotes.new).0 ≡ ok none
unfolding QcVotes.append stake quorum_threshold total_votes
first_vote_is_short = refl

append-IsGathering_example : IsGathering four (QcVotes.append first_vote four QcVotes.new).1
append-IsGathering_example =
    append-IsGathering first_vote four QcVotes.new (new-IsGathering four) one_has_stake four_fits
      first_vote_is_short

reset_core_lem_example : is_expired_aba_message 0 1 (reset_core node) ≡ true
reset_core_lem_example = (reset_core_lem node 0 1 (omega arith) (omega arith)).0

reset_chain-make_vote_example :
    make_vote quiet child (record { core = node; chain = reset_chain 5 lone })
    ≡ (ok none, record { core = node; chain = reset_chain 5 lone })
reset_chain-make_vote_example =
    reset_chain-make_vote quiet child node lone 5 (omega arith) (omega arith)

abbrev oldest : Block
oldest = record child { height = 1 }

abbrev stored : Env
stored = record quiet { db_get = λ _ _. value (some []); deserialize = λ _. some oldest }

abbrev to_walk : Committing
to_walk = record {
  core = node;
  chain = record lone { height_to_digest = (1, 51) ∷ [] };
  to_commit = [];
}

walk_succeeds : (commit_prev_block stored 1 oldest to_walk).0 ≡ ok true
unfolding commit_prev_block commit_rounds commit_round commit_digest commit_current
    commit_leader_references get_block found_block read_store get_leader sort insert_sorted size
    commit_references sort_references
walk_succeeds = refl

first_leads : get_leader node.committee node.epoch ≡ ok 1
unfolding get_leader sort insert_sorted size
first_leads = refl

commit_prev_block-Pushed_example :
    ((commit_prev_block stored 1 oldest to_walk).1.chain
      ≡ record to_walk.chain { last_committed_height = 1 })
    × Pushed stored 1 to_walk.chain.height_to_digest 0 1 to_walk.to_commit
        (commit_prev_block stored 1 oldest to_walk).1.to_commit
commit_prev_block-Pushed_example =
    commit_prev_block-Pushed stored 1 1 oldest to_walk first_leads (omega arith) (omega arith)
      walk_succeeds

-- ===== src/Core/State.antt =====
-- consensus/src/core.rs: the constants, and the state of a chain and of the core. The core's
-- channels, its store and its clones of the committee are not fields: what passes through the
-- channels stands in the trace, and the leader elector uses the same committee.
use hotstuff_dag.Aggregator
use hotstuff_dag.Aggregator.{Aggregator}
use hotstuff_dag.Config.{Committee, Parameters}
use hotstuff_dag.Crypto.{Digest, PublicKey}
use hotstuff_dag.Exec.{Exec}
use hotstuff_dag.Leader.{get_leader}
use hotstuff_dag.Messages.Aba.{AbaProof}
use hotstuff_dag.Messages.Qc
use hotstuff_dag.Messages.Qc.{Qc}
use hotstuff_dag.Messages.Tc.{Tc}
use hotstuff_dag.Prelude.{Bool, List, Map, Option, [], false, keys, none, ℕ, ◌∷◌}
use hotstuff_dag.World.{Event, Trace}

abbrev pub next_epoch_height : ℕ
next_epoch_height = 10

abbrev pub lambda_val : ℕ
lambda_val = 10

abbrev pub init_phase : ℕ
init_phase = 0

abbrev pub val_phase : ℕ
val_phase = 1

abbrev pub aux_phase : ℕ
aux_phase = 2

abbrev pub coin_phase : ℕ
coin_phase = 3

abbrev pub hotstuff : ℕ
hotstuff = 0

abbrev pub tcvba : ℕ
tcvba = 1

pub record Chain : Type 0 where
  pub name : PublicKey
  pub height : ℕ
  pub last_voted_height : ℕ
  pub last_committed_height : ℕ
  pub aggregator : Aggregator
  pub high_qc : Qc
  pub height_to_digest : Map ℕ Digest
  pub epoch : ℕ

-- Chain::new
unfoldable pub new_chain : PublicKey → Committee → Chain
new_chain name committee = record {
  name = name;
  height = 1;
  last_voted_height = 0;
  last_committed_height = 0;
  aggregator = Aggregator.new committee;
  high_qc = Qc.genesis;
  height_to_digest = [];
  epoch = 0;
}

pub record Core : Type 0 where
  pub name : PublicKey
  pub committee : Committee
  pub parameters : Parameters
  pub epoch : ℕ
  pub total_epoch : ℕ
  pub tc_processed : Bool
  pub val_value_broadcasted : Bool
  pub aux_value_broadcasted : Bool
  pub coin_share_broadcasted : Bool
  pub aux_proof_broadcasted : Bool
  pub is_view_change : Bool
  pub pubkey_to_chain : Map PublicKey Chain
  pub tc_cache : Map ℕ Tc
  pub aggregator : Aggregator
  pub bin_values : List ℕ
  pub aba_round : ℕ
  pub phase : ℕ
  pub aba_output_val : Option ℕ
  pub aba_input_val : Map ℕ ℕ
  pub aba_val_phase_cache1 : Map (ℕ × ℕ) AbaProof
  pub aba_val_phase_cache2 : Map (ℕ × ℕ) AbaProof
  pub aba_aux_phase_cache : Map (ℕ × ℕ) AbaProof
  pub aux_value_nums : Map (ℕ × ℕ) ℕ
  pub aba_coin_cache : Map (ℕ × ℕ) ℕ
  pub aba_proof_cache : Map (ℕ × ℕ) AbaProof
  pub trace : Trace

unfoldable pub new_chains : Committee → List PublicKey → Map PublicKey Chain
new_chains committee [] = []
new_chains committee (pk ∷ pks) = (pk, new_chain pk committee) ∷ new_chains committee pks

-- Core::new
unfoldable pub new : PublicKey → Committee → Parameters → Core
unfolding new_chain new_chains
new name committee parameters = record {
  name = name;
  committee = committee;
  parameters = parameters;
  epoch = 0;
  total_epoch = 0;
  tc_processed = false;
  val_value_broadcasted = false;
  aux_value_broadcasted = false;
  coin_share_broadcasted = false;
  aux_proof_broadcasted = false;
  is_view_change = false;
  pubkey_to_chain = new_chains committee (keys committee.authorities);
  tc_cache = [];
  aggregator = Aggregator.new committee;
  bin_values = [];
  aba_round = 1;
  phase = init_phase;
  aba_output_val = none;
  aba_input_val = [];
  aba_val_phase_cache1 = [];
  aba_val_phase_cache2 = [];
  aba_aux_phase_cache = [];
  aux_value_nums = [];
  aba_coin_cache = [];
  aba_proof_cache = [];
  trace = [];
}

-- The core, and the clone of a chain on which a handler works: what the handler does to the clone
-- reaches `pubkey_to_chain` only when its caller inserts it.
pub record Work : Type 0 where
  pub core : Core
  pub chain : Chain

abbrev pub on_core : {A : Type 0} → Exec Core A → Exec Work A
on_core m w = let (r, c) = m w.core in (r, record w { core = c })

abbrev pub emit : Event → Core → Core
emit e c = record c { trace = e ∷ c.trace }

-- self.leader_elector.get_leader(self.epoch)
abbrev pub leader : Exec Core PublicKey
leader c = (get_leader c.committee c.epoch, c)

-- ===== src/Config.antt =====
-- consensus/src/config.rs: the committee, its stake and its thresholds. A socket address is a
-- number that stands for it. The map of authorities is a list in the order of its iteration.
pub mod Quorum
use hotstuff_dag.Crypto.{PublicKey}
use hotstuff_dag.Error.{Result, not_in_committee, ok, ok_or, unwrap, ◌>>=◌, ◌>>◌}
use hotstuff_dag.Prelude.{
  Bool, List, Map, Option, [], add32, bytes_eq, false, insert, keep, length, lookup, map, nat_eq,
  none, not, pair_eq, quad_eq, some, sub32, values, ℕ, ◌*◌, ◌+◌, ◌/◌, ◌==◌, ◌∷◌,
}

abbrev pub SocketAddr : Type 0
SocketAddr = ℕ

pub record Authority : Type 0 where
  pub name : PublicKey
  pub id : ℕ
  pub stake : ℕ
  pub address : SocketAddr
  pub smvba_address : SocketAddr

pub record Committee : Type 0 where
  pub authorities : Map PublicKey Authority
  pub epoch : ℕ

pub record Parameters : Type 0 where
  pub node_sync_delay : ℕ
  pub timeout_delay : ℕ
  pub sync_retry_delay : ℕ
  pub network_delay : ℕ
  pub max_payload_size : ℕ
  pub min_block_delay : ℕ
  pub ddos : Bool
  pub random_ddos : Bool
  pub random_ddos_chance : ℕ
  pub exp : ℕ

-- Parameters::default
pub default_parameters : Parameters
default_parameters = record {
  node_sync_delay = 500;
  timeout_delay = 5000;
  sync_retry_delay = 10000;
  network_delay = 100;
  max_payload_size = 500;
  min_block_delay = 100;
  ddos = false;
  random_ddos = false;
  random_ddos_chance = 5;
  exp = 1;
}

data Protocol : Type 0 where
  hot_stuff hot_stuff_and_smvba smvba others : Protocol

-- Protocol::default
default_protocol : Protocol
default_protocol = hot_stuff_and_smvba

collect : Map PublicKey Authority → List Authority → Map PublicKey Authority
collect m [] = m
collect m (a ∷ as') = collect (insert a.name a m) as'

-- Committee::new, with each tuple already read as an `Authority`.
pub new : List Authority → ℕ → Committee
unfolding collect
new info epoch = record { authorities = collect [] info; epoch = epoch }

unfoldable pub size : Committee → ℕ
size c = length c.authorities

abbrev pub stake_of : Option Authority → ℕ
stake_of none = 0
stake_of (some a) = a.stake

-- Committee::stake: 0 for a key that is not in the committee.
unfoldable pub stake : Committee → PublicKey → ℕ
stake c name = stake_of (lookup name c.authorities)

-- Committee::id, which panics on an unknown key.
unfoldable pub id : Committee → PublicKey → Result ℕ
id c name = do a ← unwrap (lookup name c.authorities); ok a.id

-- `self.authorities.values().map(|x| x.stake).sum()` over `u32`.
unfoldable pub sum_stakes : Map PublicKey Authority → ℕ
sum_stakes [] = 0
sum_stakes ((k, a) ∷ m) = add32 a.stake (sum_stakes m)

unfoldable pub total_votes : Committee → ℕ
unfolding sum_stakes
total_votes c = sum_stakes c.authorities

-- The product and the sum stay below 2 ^ 32, whatever the total.
unfoldable pub quorum_threshold : Committee → ℕ
quorum_threshold c = 2 * (sub32 (total_votes c) 1 / 3) + 1

large_threshold : Committee → ℕ
large_threshold c = sub32 (total_votes c) 1

unfoldable pub random_coin_threshold : Committee → ℕ
random_coin_threshold c = sub32 (total_votes c) 1 / 3 + 1

unfoldable pub address : Committee → PublicKey → Result SocketAddr
address c name = do a ← ok_or (lookup name c.authorities) (not_in_committee name); ok a.address

unfoldable pub smvba_address : Committee → PublicKey → Result SocketAddr
smvba_address c name = do
  a ← ok_or (lookup name c.authorities) (not_in_committee name)
  ok a.smvba_address

pub broadcast_addresses : Committee → PublicKey → List SocketAddr
broadcast_addresses c myself =
    map (λ (a : Authority). a.address) (keep (λ a. not (a.name == myself)) (values c.authorities))

pub smvba_broadcast_addresses : Committee → PublicKey → List SocketAddr
smvba_broadcast_addresses c myself =
    map (λ (a : Authority). a.smvba_address)
      (keep (λ a. not (a.name == myself)) (values c.authorities))

-- ===== src/Mempool/Config.antt =====
-- mempool/src/config.rs: the parameters, and the committee as the mempool knows it.
use hotstuff_dag.Config.{SocketAddr}
use hotstuff_dag.Crypto.{PublicKey}
use hotstuff_dag.Mempool.Error.{MempoolResult, err, not_in_committee, ok}
use hotstuff_dag.Prelude.{
  Bool, List, Map, Option, [], bytes_eq, contains_key, insert, keep, lookup, map, nat_eq, none, not,
  pair_eq, quad_eq, some, values, ℕ, ◌==◌, ◌∷◌,
}

pub record Parameters : Type 0 where
  pub queue_capacity : ℕ
  pub sync_retry_delay : ℕ
  pub max_payload_size : ℕ
  pub min_block_delay : ℕ

-- Parameters::default
pub default : Parameters
default = record {
  queue_capacity = 10000;
  sync_retry_delay = 10000;
  max_payload_size = 100000;
  min_block_delay = 100;
}

pub record Authority : Type 0 where
  pub name : PublicKey
  pub front_address : SocketAddr
  pub mempool_address : SocketAddr

pub record Committee : Type 0 where
  pub authorities : Map PublicKey Authority
  pub epoch : ℕ

collect :
    Map PublicKey Authority → List (PublicKey × SocketAddr × SocketAddr) → Map PublicKey Authority
collect m [] = m
collect m ((name, front_address, mempool_address) ∷ info) =
    let authority : Authority = record {
      name = name;
      front_address = front_address;
      mempool_address = mempool_address;
    } in
    collect (insert name authority m) info

-- Committee::new
pub new : List (PublicKey × SocketAddr × SocketAddr) → ℕ → Committee
unfolding collect
new info epoch = record { authorities = collect [] info; epoch = epoch }

abbrev pub exists : Committee → PublicKey → Bool
exists c name = contains_key name c.authorities

unfoldable pub address_of :
    (Authority → SocketAddr) → PublicKey → Option Authority → MempoolResult SocketAddr
address_of field name none = err (not_in_committee name)
address_of field name (some a) = ok (field a)

unfoldable pub front_address : Committee → PublicKey → MempoolResult SocketAddr
unfolding address_of
front_address c name = address_of (λ a. a.front_address) name (lookup name c.authorities)

unfoldable pub mempool_address : Committee → PublicKey → MempoolResult SocketAddr
unfolding address_of
mempool_address c name = address_of (λ a. a.mempool_address) name (lookup name c.authorities)

pub broadcast_addresses : Committee → PublicKey → List SocketAddr
broadcast_addresses c myself =
    map (λ (a : Authority). a.mempool_address)
      (keep (λ a. not (a.name == myself)) (values c.authorities))

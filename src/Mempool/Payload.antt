-- ===== src/Mempool/Payload.antt =====
-- mempool/src/payload.rs: the runner that gathers the transactions of clients into payloads.
-- `select!` takes a transaction or a request, so a run is a sequence of inputs. Waiting for
-- `min_block_delay` after a payload changes nothing of the state.
pub mod Sizes
pub mod Transactions
use hotstuff_dag.Crypto.{Primitives, PublicKey}
use hotstuff_dag.Mempool.Messages
use hotstuff_dag.Mempool.Messages.{MempoolMessage, Payload, Transaction, own_payload, size}
use hotstuff_dag.Prelude.{
  List, Option, [], if◌then◌else◌, length, ltb, none, some, ℕ, ◌++◌, ◌+◌, ◌==◌, ◌∷◌,
}

pub record Runner : Type 0 where
  pub transactions : List Transaction
  pub size : ℕ
  pub max_size : ℕ
  pub min_block_delay : ℕ
  pub name : PublicKey

pub data Input : Type 0 where
  client : Transaction → Input
  request : Input

-- What the runner gives out: a message to the core, or the answer to a request.
pub data Output : Type 0 where
  to_core : MempoolMessage → Output
  answer : Payload → Output

-- Runner::new
pub new : PublicKey → ℕ → ℕ → Runner
new name max_size min_block_delay = record {
  transactions = [];
  size = 0;
  max_size = max_size;
  min_block_delay = min_block_delay;
  name = name;
}

to_output : Option Payload → List Output
to_output none = []
to_output (some p) = to_core (own_payload p) ∷ []

module _ (c : Primitives) where
  pub make : Runner → Payload × Runner
  make r = (Messages.new c r.transactions r.name, record r { transactions = []; size = 0 })

  abbrev push : Transaction → Runner → Runner
  push tx r = record r { transactions = r.transactions ++ tx ∷ []; size = r.size + length tx }

  -- A transaction that does not fit any more closes the payload before it.
  pub add : Transaction → Runner → Option Payload × Runner
  unfolding make
  add tx r =
      if ltb r.max_size (r.size + length tx)
      then (some (make r).0, push tx (make r).1)
      else (none, push tx r)

  -- One turn of the loop.
  pub step : Input → Runner → List Output × Runner
  unfolding add to_output
  step (client tx) r = let (made, r') = add tx r in (to_output made, r')
  step request r = let (p, r') = make r in (answer p ∷ [], r')

  pub run : List Input → Runner → List Output × Runner
  unfolding step
  run [] r = ([], r)
  run (input ∷ inputs) r =
      let (outputs, r') = step input r in let (rest, r'') = run inputs r' in (outputs ++ rest, r'')

-- PayloadMaker::make, on the answer of the runner: an empty payload is dropped.
unfoldable pub nonempty : Payload → Option Payload
nonempty p = if Messages.size p == 0 then none else some p

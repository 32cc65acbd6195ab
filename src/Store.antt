-- ===== src/Store.antt =====
-- store/src/lib.rs: the task that owns the database. The database itself (rocksdb) is a parameter:
-- its `get` and `put` on a state of its own. The receiving end of a `oneshot` channel is a number,
-- and what the task has sent on these channels stands in `sent`, the newest first.
pub mod Liveness
pub mod Waiting
pub mod Obligations
pub mod Replies
use hotstuff_dag.Prelude.{
  List, Map, Option, [], bytes_eq, insert, lookup, lookup_or, nat_eq, none, pair_eq, quad_eq,
  remove, some, ℕ, ◌++◌, ◌∷◌,
}

abbrev pub Key : Type 0
Key = List ℕ

abbrev pub Value : Type 0
Value = List ℕ

abbrev pub Sender : Type 0
Sender = ℕ

-- `StoreResult<T>`; the error of the database is not told apart.
pub data StoreResult (A : Type 0) : Type 0 where
  failed : StoreResult A
  value : A → StoreResult A

pub record Database (D : Type 0) : Type 0 where
  pub get : D → Key → StoreResult (Option Value)
  pub put : D → Key → Value → D

pub data StoreCommand : Type 0 where
  write : Key → Value → StoreCommand
  read : Key → Sender → StoreCommand
  notify_read : Key → Sender → StoreCommand

-- The two types of response.
pub data Response : Type 0 where
  read_response : StoreResult (Option Value) → Response
  notify_response : StoreResult Value → Response

pub record Task (D : Type 0) : Type 0 where
  pub db : D
  pub obligations : Map Key (List Sender)
  pub sent : List (Sender × Response)

-- The loop over the senders of an obligation, first come first served.
pub answer_all : Value → List Sender → List (Sender × Response) → List (Sender × Response)
answer_all v [] sent = sent
answer_all v (s ∷ senders) sent = answer_all v senders ((s, notify_response (value v)) ∷ sent)

module _ {D : Type 0} (database : Database D) where
  pub new : D → Task D
  new db = record { db = db; obligations = []; sent = [] }

  abbrev put_value : Key → Value → Task D → Task D
  put_value k v t = record t { db = database.put t.db k v }

  pub fulfil : Key → Value → Option (List Sender) → Task D → Task D
  unfolding answer_all
  fulfil k v none t = t
  fulfil k v (some senders) t = record t {
    obligations = remove k t.obligations;
    sent = answer_all v senders t.sent;
  }

  -- The answer to `NotifyRead`, or the obligation to answer later.
  pub notify : StoreResult (Option Value) → Key → Sender → Task D → Task D
  notify (value none) k s t = record t {
    obligations = insert k (lookup_or k [] t.obligations ++ s ∷ []) t.obligations;
  }
  notify (value (some v)) k s t = record t { sent = (s, notify_response (value v)) ∷ t.sent }
  notify failed k s t = record t { sent = (s, notify_response failed) ∷ t.sent }

  -- One turn of the loop.
  pub step : StoreCommand → Task D → Task D
  unfolding fulfil notify
  step (write k v) t = fulfil k v (lookup k t.obligations) (put_value k v t)
  step (read k s) t = record t { sent = (s, read_response (database.get t.db k)) ∷ t.sent }
  step (notify_read k s) t = notify (database.get t.db k) k s t

  pub run : List StoreCommand → Task D → Task D
  unfolding step
  run [] t = t
  run (command ∷ commands) t = run commands (step command t)

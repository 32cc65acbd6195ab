-- ===== src/Examples/Stores.antt =====
-- The theorems about the store at a database that is an association list.
use hotstuff_dag.Prelude.{
  List, Map, [], ap, bytes_beq, bytes_eq, false, insert, lookup, lookup-insert, lookup-insert_self,
  nat_eq, pair_eq, quad_eq, refl, some, ◌+◌, ◌<◌, ◌∙◌, ◌∷◌, ◌≡◌,
}
use hotstuff_dag.Store.Liveness.{notify_read-answered}
use hotstuff_dag.Store.Obligations.{answered, asked, run-places, waiting}
use hotstuff_dag.Store.Replies.{IsReliable, read-write}
use hotstuff_dag.Store.{
  Database, Key, StoreCommand, Task, Value, notify_read, notify_response, read, read_response, run,
  step, value, write,
}

abbrev Table : Type 0
Table = Map Key Value

abbrev table : Database Table
table = record { get = λ d k. value (lookup k d); put = λ d k v. insert k v d }

table-get-put_ne :
    (d : Table) (k j : Key) (v : Value)
    → bytes_beq k j ≡ false
    → table.get (table.put d k v) j ≡ table.get d j
table-get-put_ne d k j v miss = ap value (lookup-insert k j v d ∙ rw miss refl)

abbrev reliable : IsReliable table
reliable = record {
  get-put_self = λ d k v. ap value (lookup-insert_self k v d);
  get-put_ne = table-get-put_ne;
}

abbrev blank : Task Table
blank = record { db = []; obligations = []; sent = [] }

abbrev key : Key
key = 1 ∷ []

abbrev other_key : Key
other_key = 2 ∷ []

abbrev commands : List StoreCommand
commands = notify_read key 7 ∷ write other_key [] ∷ write key (9 ∷ []) ∷ []

run-places_example :
    waiting 7 (run table commands blank).obligations + answered 7 (run table commands blank).sent
    ≡ asked 7 commands + (waiting 7 blank.obligations + answered 7 blank.sent)
run-places_example = run-places table 7 commands blank

read-write_example :
    ((step table (read key 3) (run table (write key (9 ∷ []) ∷ write other_key [] ∷ []) blank)).sent
      ≡ (3, read_response (value (some (9 ∷ []))))
        ∷ (run table (write key (9 ∷ []) ∷ write other_key [] ∷ []) blank).sent)
    × ((step table
          (notify_read key 3)
          (run table (write key (9 ∷ []) ∷ write other_key [] ∷ []) blank)).sent
        ≡ (3, notify_response (value (9 ∷ [])))
          ∷ (run table (write key (9 ∷ []) ∷ write other_key [] ∷ []) blank).sent)
read-write_example = read-write table reliable key (9 ∷ []) 3 (write other_key [] ∷ []) blank refl

notify_read-answered_example :
    0
    < answered 7
        (run table (notify_read key 7 ∷ (write other_key [] ∷ write key (9 ∷ []) ∷ [])) blank).sent
notify_read-answered_example =
    notify_read-answered table key 7 (9 ∷ []) (write other_key [] ∷ []) [] blank

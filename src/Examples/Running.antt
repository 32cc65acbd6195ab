-- ===== src/Examples/Running.antt =====
-- A node of the committee of four with a database that finds what was written last under a key, and
-- a format in which every block is read back, over a few messages.
-- Blocks as lists of numbers, with the lengths of their lists in front.
use hotstuff_dag.Config.{size}
use hotstuff_dag.Core.Alive.Loop.{IsAdmissible}
use hotstuff_dag.Core.Alive.Running.{
  genesis_reference_panics, new-IsValid, run-IsValid, run-stranger_panics, run_never_panics,
}
use hotstuff_dag.Core.Alive.{Happened, IsCertain, IsValid, Trust}
use hotstuff_dag.Core.Commit.{Committing, commit_references}
use hotstuff_dag.Core.Run.Dispatch.{by_proposal}
use hotstuff_dag.Core.Run.{Input, core_channel, handle_input, run}
use hotstuff_dag.Core.State.{new}
use hotstuff_dag.Crypto.{Digest, Primitives, finalize}
use hotstuff_dag.Error.{panic}
use hotstuff_dag.Examples.{child, first_vote, four, lone, parameters, trusting}
use hotstuff_dag.Exec.{pure}
use hotstuff_dag.Messages.Block.{Block}
use hotstuff_dag.Messages.Qc
use hotstuff_dag.Messages.Qc.{Qc}
use hotstuff_dag.Prelude.{
  All, Bool-cases, List, Option, [], ap, arith, false, from_be_bytes, if◌then◌else◌, inl, inr,
  length, none, refl, some, suc, sym, true, zero, ℕ, ◌<◌, ◌==◌, ◌∙◌, ◌∷◌, ◌≡◌, ◌≢◌,
}
use hotstuff_dag.Store.{StoreResult, value}
use hotstuff_dag.World.{
  Bytes, ConsensusMessage, Env, Event, Trace, accept, asked_payload, asked_verify, cleaned_up,
  committed, loop_back, propose, read, requested, sent, wrote,
}

pairs_out : List (ℕ × ℕ) → List ℕ → List ℕ
pairs_out [] rest = rest
pairs_out ((a, b) ∷ ps) rest = a ∷ b ∷ pairs_out ps rest

pairs_in : ℕ → List ℕ → List (ℕ × ℕ) × List ℕ
pairs_in zero xs = ([], xs)
pairs_in (suc n) [] = ([], [])
pairs_in (suc n) (a ∷ []) = ([], [])
pairs_in (suc n) (a ∷ b ∷ xs) = let (ps, rest) = pairs_in n xs in ((a, b) ∷ ps, rest)

pairs_in-pairs_out :
    (ps : List (ℕ × ℕ)) (rest : List ℕ) → pairs_in (length ps) (pairs_out ps rest) ≡ (ps, rest)
unfolding pairs_in pairs_out
pairs_in-pairs_out [] rest = refl
pairs_in-pairs_out ((a, b) ∷ ps) rest =
    ap {A = List (ℕ × ℕ) × List ℕ} {B = List (ℕ × ℕ) × List ℕ} (λ x. ((a, b) ∷ x.0, x.1))
      (pairs_in-pairs_out ps rest)

write_block : Block → List ℕ
unfolding pairs_out
write_block b =
    b.qc.hash
    ∷ b.qc.epoch
    ∷ b.qc.height
    ∷ b.qc.proposer
    ∷ b.author
    ∷ b.height
    ∷ b.epoch
    ∷ b.signature
    ∷ length b.qc.votes
    ∷ length b.references
    ∷ pairs_out b.qc.votes (pairs_out b.references b.payload)

read_block : List ℕ → Option Block
unfolding pairs_in
read_block (hash ∷ e ∷ h ∷ proposer ∷ author ∷ height ∷ epoch ∷ signature ∷ n ∷ m ∷ bytes) =
    let (votes, rest) = pairs_in n bytes in
    let (references, contents) = pairs_in m rest in
    some (record {
      qc = record { hash = hash; epoch = e; height = h; proposer = proposer; votes = votes };
      author = author;
      height = height;
      epoch = epoch;
      payload = contents;
      references = references;
      signature = signature;
    })
read_block _ = none

read_block-write_block : (b : Block) → read_block (write_block b) ≡ some b
unfolding read_block write_block
read_block-write_block b =
    rw (pairs_in-pairs_out b.qc.votes (pairs_out b.references b.payload))
      (rw (pairs_in-pairs_out b.references b.payload) refl)

written : Trace → Digest → StoreResult (Option Bytes)
written [] d = value none
written (wrote d' bytes ∷ t) d =
    let rest = written t d in if d' == d then value (some bytes) else rest
written (_ ∷ t) d = written t d

abbrev hashing : Primitives
hashing = record trusting { sha512 = λ bytes. 1 ∷ [] }

abbrev sound_env : Env
sound_env = record {
  primitives = hashing;
  db_get = written;
  serialize = write_block;
  deserialize = read_block;
  mempool_get = λ _ _. 7 ∷ [];
  mempool_verify = λ _ _. accept;
}

written-Happened :
    (t : Trace) (d : Digest) (bytes : Bytes)
    → written t d ≡ value (some bytes)
    → Happened (wrote d bytes) t
unfolding written
written-Happened [] d bytes e = cc
written-Happened (wrote d' x ∷ t) d bytes e = elim (Bool-cases (d' == d)) [
  | inl hit ↦ inl (same hit (sym (rw hit refl) ∙ e))
  | inr miss ↦ inr (written-Happened t d bytes (sym (rw miss refl) ∙ e))
]
  where
    same : (d' == d) ≡ true → value (some x) ≡ value (some bytes) → wrote d' x ≡ wrote d bytes
    same hit e = ground (arith, hit, e)
written-Happened (sent n m a ∷ t) d bytes e = inr (written-Happened t d bytes e)
written-Happened (read d' ∷ t) d bytes e = inr (written-Happened t d bytes e)
written-Happened (requested r b ∷ t) d bytes e = inr (written-Happened t d bytes e)
written-Happened (asked_payload n ∷ t) d bytes e = inr (written-Happened t d bytes e)
written-Happened (asked_verify b ∷ t) d bytes e = inr (written-Happened t d bytes e)
written-Happened (cleaned_up ds n ∷ t) d bytes e = inr (written-Happened t d bytes e)
written-Happened (committed b ∷ t) d bytes e = inr (written-Happened t d bytes e)

written_lasts :
    (t : Trace) (d : Digest) (bytes : Bytes) (e : Event)
    → written t d ≡ value (some bytes)
    → written (e ∷ t) d ≢ value none
unfolding written
written_lasts t d bytes (wrote d' x) h k = elim (Bool-cases (d' == d)) [
  | inl hit ↦ clash x (sym (rw hit refl) ∙ k)
  | inr miss ↦ clash bytes (sym h ∙ (sym (rw miss refl) ∙ k))
]
  where
    clash : (y : Bytes) → value (some y) ≡ value none → ⊥
    clash y e = cc
written_lasts t d bytes (sent n m a) h k = cc
written_lasts t d bytes (read d') h k = cc
written_lasts t d bytes (requested r b) h k = cc
written_lasts t d bytes (asked_payload n) h k = cc
written_lasts t d bytes (asked_verify b) h k = cc
written_lasts t d bytes (cleaned_up ds n) h k = cc
written_lasts t d bytes (committed b) h k = cc

four_not_empty : 0 < size four
unfolding size
four_not_empty = omega arith

hashed : (bytes : List ℕ) → finalize hashing bytes ≢ 0
unfolding finalize from_be_bytes
hashed bytes e = omega (arith, e)

trusted : Trust sound_env four
trusted = record {
  not_empty = four_not_empty;
  hashes = hashed;
  secret = λ d e. signed d e;
  reads = written-Happened;
  lasts = written_lasts;
  decodes = λ b b' e. same b b' (sym (read_block-write_block b) ∙ e);
}
  where
    signed : (d : Digest) → some d ≡ none → ⊥
    signed d e = cc

    same : (b b' : Block) → some b ≡ some b' → b' ≡ b
    same b b' e = ground (arith, e)

abbrev messages : List Input
messages =
    core_channel (propose child)
    ∷ core_channel (ConsensusMessage.vote first_vote)
    ∷ core_channel (loop_back child)
    ∷ []

admissible : All (IsAdmissible four) messages
unfolding IsAdmissible
admissible = (((refl, tt), certain), ((refl, λ e. cc), ((refl, tt), tt)))
  where
    certain : IsCertain child.qc
    certain zero_hash = cc

run-IsValid_example :
    IsValid sound_env four false (run sound_env 5 5 messages (new 2 four parameters)).1
run-IsValid_example = run-IsValid sound_env four trusted 2 parameters 5 5 messages refl admissible

run_never_panics_example : (run sound_env 5 5 messages (new 2 four parameters)).0 ≢ panic
run_never_panics_example =
    run_never_panics sound_env four trusted 2 parameters 5 5 messages refl admissible

run-stranger_panics_example :
    let c = (run sound_env 5 5 messages (new 2 four parameters)).1 in
    handle_input sound_env 5 5 (core_channel (propose (record child { author = 77 }))) c
    ≡ (panic, c)
run-stranger_panics_example =
    run-stranger_panics sound_env four trusted 2 parameters 5 5 messages 77
      (propose (record child { author = 77 })) refl admissible
      (by_proposal (record child { author = 77 })) refl

abbrev committing : Committing
committing = record { core = new 2 four parameters; chain = lone; to_commit = [] }

genesis_reference_panics_example :
    (commit_references sound_env (λ b. pure true) ((3, Qc.genesis.hash) ∷ []) committing).0 ≡ panic
genesis_reference_panics_example =
    genesis_reference_panics sound_env four (λ b. pure true) 3 [] committing
      (new-IsValid sound_env four 2 parameters refl) refl

-- ===== src/Examples/References.antt =====
-- A leader block whose reference is to another block of its own author at the same height.
use hotstuff_dag.Config.{size}
use hotstuff_dag.Core.Commit.Depth.{commit_ends}
use hotstuff_dag.Core.Commit.Foreign.{Apart, IsApart, IsSteady}
use hotstuff_dag.Core.Commit.Recursion.{LoopsBack, commit_never_ends}
use hotstuff_dag.Core.Commit.{commit, sort_references}
use hotstuff_dag.Core.State.{Chain, Work}
use hotstuff_dag.Error.{ok, out_of_fuel}
use hotstuff_dag.Examples.{child, four, lone, node, quiet}
use hotstuff_dag.Leader.{get_leader, insert_sorted, sort}
use hotstuff_dag.Messages.Block.{Block}
use hotstuff_dag.Prelude.{
  All, Bool-cases, List, Option, [], ap, arith, if◌then◌else◌, inl, inr, none, refl, some, sym, ℕ,
  ◌==◌, ◌∷◌, ◌≡◌, ◌≢◌,
}
use hotstuff_dag.Store.{StoreResult, failed, value}
use hotstuff_dag.World.{Bytes, Env}
use mathlib.Core.Path.{subst}

abbrev referenced : Block
referenced = record child { height = 1 }

abbrev self_referring : Block
self_referring = record child { height = 1; references = (1, 52) ∷ [] }

abbrev equivocal : Env
equivocal = record quiet {
  db_get = λ _ d. value (some (d ∷ []));
  deserialize = λ bytes. elim bytes [
    | [] ↦ none
    | d ∷ ds ↦ some (if d == 51 then self_referring else referenced)
  ];
}

abbrev pending_chain : Chain
pending_chain = record lone { height_to_digest = (1, 51) ∷ [] }

abbrev before_commit : Work
before_commit = record {
  core = record node { pubkey_to_chain = (1, pending_chain) ∷ [] };
  chain = pending_chain;
}

first_leads : get_leader four 0 ≡ ok 1
unfolding get_leader sort insert_sorted size
first_leads = refl

one_reference : sort_references self_referring.references ≡ (1, 52) ∷ []
unfolding sort_references
one_reference = refl

abbrev it_loops_back :
    LoopsBack equivocal four 0 before_commit.core.pubkey_to_chain pending_chain self_referring
      referenced
it_loops_back = record {
  at = 51;
  reference = (1, 52);
  others = [];
  leads = first_leads;
  next = refl;
  stored = (refl, λ t. (51 ∷ [], refl, refl));
  refers = one_reference;
  resolved = (refl, λ t. (52 ∷ [], refl, refl));
  kept = refl;
  uncommitted = omega arith;
}

commit_never_ends_example : (commit equivocal 40 self_referring before_commit).0 ≡ out_of_fuel
commit_never_ends_example =
    commit_never_ends equivocal 40 pending_chain self_referring referenced self_referring
      before_commit it_loops_back refl (omega arith)

-- The leader refers to a block of the chain 2.
abbrev honest_leader : Block
honest_leader = record child { height = 1; references = (2, 52) ∷ [] }

abbrev other_block : Block
other_block = record child { author = 2; height = 1 }

abbrev parse_one : ℕ → Option Block
parse_one d = if d == 51 then some honest_leader else if d == 52 then some other_block else none

abbrev pub honest : Env
honest = record quiet {
  db_get = λ _ d. value (some (d ∷ []));
  deserialize = λ bytes. elim bytes [ [] ↦ none | d ∷ ds ↦ parse_one d ];
}

abbrev pub owner : ℕ → ℕ
owner d = if d == 51 then 1 else if d == 52 then 2 else 0

parse_one-IsApart : (d : ℕ) (b : Block) → parse_one d ≡ some b → IsApart owner 1 d b
parse_one-IsApart d b = elim (Bool-cases (d == 51)) [
  | inl first ↦ rw first (λ e.
      subst (λ b. (b.author ≡ 1) × (b.author ≡ 1 → All (λ r. owner r.1 ≢ 1) b.references))
        (ap (lead []) e) (refl, λ _. ((λ e. cc), tt)))
  | inr later ↦ elim (Bool-cases (d == 52)) [
    | inl second ↦
        rw (later, second)
          (λ e.
            subst (λ b. (b.author ≡ 2) × (b.author ≡ 1 → All (λ r. owner r.1 ≢ 1) b.references))
              (ap (lead []) e) (refl, λ _. tt))
    | inr neither ↦ rw (later, neither) (λ e. absurd (nothing e))
  ]
]
  where
    lead : List Block → Option Block → Block
    lead bs none = other_block
    lead bs (some b) = b

    nothing : none ≡ some b → ⊥
    nothing e = cc

pub honest-Apart : Apart honest owner 1
honest-Apart = record {
  of_genesis = refl;
  reads = λ t d bytes b e f.
      parse_one-IsApart d b
        (subst (λ x. honest.deserialize x ≡ some b) (sym (ap (read_bytes d) e)) f);
}
  where
    read_bytes : ℕ → StoreResult (Option Bytes) → Bytes
    read_bytes d failed = []
    read_bytes d (value none) = []
    read_bytes d (value (some bytes)) = bytes

abbrev second_chain : Chain
second_chain = record lone { name = 2; height_to_digest = (1, 52) ∷ [] }

abbrev pub before_two_commits : Work
before_two_commits = record {
  core = record node { pubkey_to_chain = (1, pending_chain) ∷ (2, second_chain) ∷ [] };
  chain = pending_chain;
}

pub before_two_commits-IsSteady : IsSteady owner 1 before_two_commits.core
before_two_commits-IsSteady =
    (first_leads, (λ other. absurd (other refl), (λ _. (λ e. cc, tt), tt)))

commit_ends_example : (commit honest 2 honest_leader before_two_commits).0 ≢ out_of_fuel
commit_ends_example =
    commit_ends honest owner 1 honest-Apart 2 honest_leader before_two_commits (omega arith)
      before_two_commits-IsSteady

-- ===== src/Synchronizer/LoopBack.antt =====
-- An arrival in consensus/src/synchronizer.rs never panics, and a block is looped back only when
-- nothing waits for it any more.
use hotstuff_dag.Crypto.{Digest}
use hotstuff_dag.Error.{ok, unwrap}
use hotstuff_dag.Messages.Block
use hotstuff_dag.Messages.Block.{Block}
use hotstuff_dag.Prelude.{
  ==_iff, Bool-cases, List, Map, Option, [], bytes_eq, contains, contains_key, distinct, false,
  get_elem?, inl, inr, lookup, lookup-remove_ne, lookup_or, nat_eq, none, pair_eq, quad_eq, refl,
  remove, set_remove, some, true, ℕ, ◌==◌, ◌∷◌, ◌≡◌, ◌⊎◌,
}
use hotstuff_dag.Store.{StoreResult}
use hotstuff_dag.Synchronizer.Arrivals.{
  Demanded-get_elem?, all-remove_at, all_inserted, all_removed, awaited-remove_at,
  distinct-remove_at, gone-remove_at, none_waits, waited_for,
}
use hotstuff_dag.Synchronizer.Demands.{
  AllDemanded, Demanded, IsTracked, Keeps, awaited, requests-IsTracked, retries-IsTracked,
}
use hotstuff_dag.Synchronizer.{
  Event, Input, Params, Task, Waiter, arrived, demand_met, drop_waiter, handle_ready, looped_back,
  ready, requested, settle, step, timer, waiter_result,
}
use hotstuff_dag.World.{Bytes}

module _ (p : Params) where
  -- What an arrival leaves behind: the state is still tracked, and if the task has looped a block
  -- back, no waiter for that block is left.
  pub record IsSettled (before : List Event) (t' : Task) : Type 0 where
    pub tracked : IsTracked p t'
    pub looped :
        (t'.trace ≡ before)
        ⊎ ((b : Block) × (t'.trace ≡ looped_back b ∷ before)
            × (waited_for p (Block.digest p.primitives b) t'.waiting ≡ false))

  -- The facts about the state when the waiter has been taken out.
  record Taken (d : Digest) (t : Task) : Type 0 where
    once : distinct (awaited p t.waiting) ≡ true
    gone : contains (awaited p t.waiting) d ≡ false
    others_pending :
        (e : Digest) → contains (awaited p t.waiting) e ≡ true → contains_key e t.pending ≡ true
    others_demanded : AllDemanded p t.demands t.waiting

  take_out :
      (i : ℕ) (w : Waiter) (t : Task)
      → IsTracked p t
      → get_elem? t.waiting i ≡ some w
      → Taken w.wait_on (drop_waiter p i t)
  take_out i w t h e = record {
    once = distinct-remove_at p t.waiting i h.once;
    gone = gone-remove_at p t.waiting i w h.once e;
    others_pending = λ d hd. h.is_pending d (awaited-remove_at p t.waiting i d hd);
    others_demanded = all-remove_at p t.demands t.waiting i h.demanded;
  }

  settle-IsSettled :
      (b : Block) (d : Digest) (set rest : List Digest) (t : Task)
      → Taken d t
      → lookup (Block.digest p.primitives b) t.demands ≡ some set
      → set_remove d set ≡ rest
      → ((settle p b rest t).0 ≡ ok tt) × IsSettled t.trace (settle p b rest t).1
  unfolding settle
  settle-IsSettled b d set [] t k found e = (
    refl,
    record {
      tracked = record {
        once = k.once;
        is_pending = k.others_pending;
        demanded =
            all_removed p (Block.digest p.primitives b) d set t.demands found t.waiting e k.gone
              k.others_demanded;
      };
      looped = inr (
        b,
        refl,
        none_waits p (Block.digest p.primitives b) d set t.demands found t.waiting e k.gone
            k.others_demanded,
      );
    },
  )
  settle-IsSettled b d set (x ∷ rest) t k found e = (
    refl,
    record {
      tracked = record {
        once = k.once;
        is_pending = k.others_pending;
        demanded = rw (← e) (
            all_inserted p (Block.digest p.primitives b) d set t.demands found t.waiting k.gone
              k.others_demanded);
      };
      looped = inl refl;
    },
  )

  demanded_set :
      (key d : Digest) (found : Option (List Digest)) (demands : Map Digest (List Digest))
      → lookup key demands ≡ found
      → contains (lookup_or key [] demands) d ≡ true
      → (set : List Digest) × (lookup key demands ≡ some set)
  demanded_set key d none demands e h =
      let empty : contains (lookup_or key [] demands) d ≡ false = rw (e, lookup_or) refl in
      absurd (cc (empty, h))
  demanded_set key d (some set) demands e h = (set, e)

  still_pending :
      (d : Digest) (t : Task)
      → Taken d t
      → (e : Digest) → contains (awaited p t.waiting) e ≡ true
      → contains_key e (remove d t.pending) ≡ true
  still_pending d t k e he = elim (Bool-cases (d == e)) [
    | inl same ↦ let at : d ≡ e = (==_iff d e).0 same in absurd (cc (at, k.gone, he))
    | inr other ↦ rw (lookup-remove_ne d e t.pending other, contains_key) (k.others_pending e he)
  ]

  demand_met-IsSettled :
      (d : Digest) (block : Option Block) (t : Task)
      → Taken d t
      → Demanded p t.demands d block
      → ((demand_met p d block (record t { pending = remove d t.pending })).0 ≡ ok tt)
        × IsSettled t.trace (demand_met p d block (record t { pending = remove d t.pending })).1
  unfolding demand_met
  demand_met-IsSettled d none t k h = (
    refl,
    record {
      tracked = record {
        once = k.once;
        is_pending = still_pending d t k;
        demanded = k.others_demanded;
      };
      looped = inl refl;
    },
  )
  demand_met-IsSettled d (some b) t k h =
      let (set, found) =
        demanded_set (Block.digest p.primitives b) d
          (lookup (Block.digest p.primitives b) t.demands) t.demands refl h in
      rw (found, unwrap)
        (settle-IsSettled b d set (set_remove d set) (record t { pending = remove d t.pending })
          (record {
            once = k.once;
            gone = k.gone;
            others_pending = still_pending d t k;
            others_demanded = k.others_demanded;
          })
          found refl)

  -- In a tracked state, if the block that has arrived is the one that its waiter waits on, the
  -- arrival does not panic, the state stays tracked, and a block is looped back only if no waiter
  -- for it is left.
  pub ready_lem :
      (i : ℕ) (result : StoreResult Bytes) (w : Waiter) (request_block : Block) (t : Task)
      → IsTracked p t
      → get_elem? t.waiting i ≡ some w
      → waiter_result p result ≡ some request_block
      → Block.digest p.primitives request_block ≡ w.wait_on
      → ((step p (ready i result) t).0 ≡ ok tt) × IsSettled t.trace (step p (ready i result) t).1
  unfolding step handle_ready arrived
  ready_lem i result w request_block t h taken came same = rw taken (
      rw came (
        rw same (
          demand_met-IsSettled w.wait_on w.block (drop_waiter p i t) (take_out i w t h taken)
            (Demanded-get_elem? p t.demands t.waiting i w h.demanded taken))))

  -- A future that is ready has read the block that it waits on, where it has read a block at all.
  abbrev pub IsGenuine : Input → Task → Type 0
  IsGenuine (ready i result) t =
      (w : Waiter) (b : Block)
      → get_elem? t.waiting i ≡ some w
      → waiter_result p result ≡ some b
      → Block.digest p.primitives b ≡ w.wait_on
  IsGenuine (requested rs block) t = Unit {0}
  IsGenuine timer t = Unit {0}

  dropped-IsTracked : (i : ℕ) → Keeps p (λ t. (ok tt, drop_waiter p i t))
  dropped-IsTracked i t h = record {
    once = distinct-remove_at p t.waiting i h.once;
    is_pending = λ d hd. h.is_pending d (awaited-remove_at p t.waiting i d hd);
    demanded = all-remove_at p t.demands t.waiting i h.demanded;
  }

  handle_ready-IsTracked :
      (i : ℕ) (taken : Option Waiter) (found : Option Block) (t : Task)
      → IsTracked p t
      → get_elem? t.waiting i ≡ taken
      → ((w : Waiter) (b : Block)
          → taken ≡ some w
          → found ≡ some b
          → Block.digest p.primitives b ≡ w.wait_on)
      → IsTracked p (handle_ready p taken found (drop_waiter p i t)).1
  unfolding handle_ready arrived
  handle_ready-IsTracked i none found t h e genuine = dropped-IsTracked i t h
  handle_ready-IsTracked i (some w) none t h e genuine = dropped-IsTracked i t h
  handle_ready-IsTracked i (some w) (some b) t h e genuine =
      rw (genuine w b refl refl)
        (demand_met-IsSettled w.wait_on w.block (drop_waiter p i t) (take_out i w t h e)
          (Demanded-get_elem? p t.demands t.waiting i w h.demanded e)).1.tracked

  -- Every input, whatever the store and the clock answer and also where a request panics, keeps the
  -- state tracked, if the blocks that arrive are those waited on: no digest is waited on twice, what
  -- is waited on is pending, and stands among the demands of the block that waits for it.
  pub step-IsTracked :
      (input : Input) (t : Task)
      → IsGenuine input t
      → IsTracked p t
      → IsTracked p (step p input t).1
  unfolding step
  step-IsTracked (requested rs block) t g h = requests-IsTracked p rs block t h
  step-IsTracked (ready i result) t g h =
      handle_ready-IsTracked i (get_elem? t.waiting i) (waiter_result p result) t h refl g
  step-IsTracked timer t g h = retries-IsTracked p t.pending t h

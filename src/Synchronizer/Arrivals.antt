-- ===== src/Synchronizer/Arrivals.antt =====
-- What an arrival does in the background task of consensus/src/synchronizer.rs.
use hotstuff_dag.Crypto.{Digest}
use hotstuff_dag.Messages.Block
use hotstuff_dag.Messages.Block.{Block}
use hotstuff_dag.Prelude.{
  ==_iff, Bool, Bool-cases, List, Map, Option, [], ap, arith, bytes_eq, contains, distinct, false,
  get_elem?, inl, inr, insert, lookup, lookup-insert, lookup-remove_ne, lookup_or-some, nat_eq,
  none, pair_eq, quad_eq, refl, remove, remove_at, set_remove, some, suc, true, zero, ℕ, ◌==◌, ◌||◌,
  ◌∷◌, ◌≡◌,
}
use hotstuff_dag.Synchronizer.Demands.{AllDemanded, Demanded, awaited}
use hotstuff_dag.Synchronizer.{Params, Waiter}
use mathlib.Core.Path.{subst}

module _ (p : Params) where
  -- A waiter for the block with this digest is left.
  abbrev pub waited_for : Digest → List Waiter → Bool
  waited_for key [] = false
  waited_for key (w ∷ ws) = elim w.block [
    | none ↦ waited_for key ws
    | some b ↦ Block.digest p.primitives b == key || waited_for key ws
  ]

  pub awaited-get_elem? :
      (ws : List Waiter) (i : ℕ) (w : Waiter)
      → get_elem? ws i ≡ some w
      → contains (awaited p ws) w.wait_on ≡ true
  awaited-get_elem? [] i w e = cc
  awaited-get_elem? (x ∷ ws) zero w e =
      let same : x ≡ w = cc in ground (arith, ap (λ (y : Waiter). y.wait_on) same)
  awaited-get_elem? (x ∷ ws) (suc i) w e = ground (arith, awaited-get_elem? ws i w e)

  pub awaited-remove_at :
      (ws : List Waiter) (i : ℕ) (d : Digest)
      → contains (awaited p (remove_at i ws)) d ≡ true
      → contains (awaited p ws) d ≡ true
  awaited-remove_at [] i d h = h
  awaited-remove_at (x ∷ ws) zero d h = ground (arith, h)
  awaited-remove_at (x ∷ ws) (suc i) d h = ground (arith, h, awaited-remove_at ws i d)

  pub distinct-remove_at :
      (ws : List Waiter) (i : ℕ)
      → distinct (awaited p ws) ≡ true
      → distinct (awaited p (remove_at i ws)) ≡ true
  distinct-remove_at [] i h = h
  distinct-remove_at (x ∷ ws) zero h = ground (arith, h)
  distinct-remove_at (x ∷ ws) (suc i) h =
      ground (arith, h, awaited-remove_at ws i x.wait_on, distinct-remove_at ws i)

  -- Once it is taken out, nobody else waits on its digest.
  pub gone-remove_at :
      (ws : List Waiter) (i : ℕ) (w : Waiter)
      → distinct (awaited p ws) ≡ true
      → get_elem? ws i ≡ some w
      → contains (awaited p (remove_at i ws)) w.wait_on ≡ false
  gone-remove_at [] i w h e = cc
  gone-remove_at (x ∷ ws) zero w h e =
      let same : x ≡ w = cc in ground (arith, h, ap (λ (y : Waiter). y.wait_on) same)
  gone-remove_at (x ∷ ws) (suc i) w h e =
      ground (arith, h, awaited-get_elem? ws i w e, gone-remove_at ws i w)

  pub Demanded-get_elem? :
      (demands : Map Digest (List Digest)) (ws : List Waiter) (i : ℕ) (w : Waiter)
      → AllDemanded p demands ws
      → get_elem? ws i ≡ some w
      → Demanded p demands w.wait_on w.block
  Demanded-get_elem? demands [] i w h e = cc
  Demanded-get_elem? demands (x ∷ ws) zero w h e =
      let same : x ≡ w = cc in subst (λ (y : Waiter). Demanded p demands y.wait_on y.block) same h.0
  Demanded-get_elem? demands (x ∷ ws) (suc i) w h e = Demanded-get_elem? demands ws i w h.1 e

  pub all-remove_at :
      (demands : Map Digest (List Digest)) (ws : List Waiter) (i : ℕ)
      → AllDemanded p demands ws
      → AllDemanded p demands (remove_at i ws)
  all-remove_at demands [] i h = h
  all-remove_at demands (x ∷ ws) zero h = h.1
  all-remove_at demands (x ∷ ws) (suc i) h = (h.0, all-remove_at demands ws i h.1)

  contains-set_remove :
      (d e : Digest) (ds : List Digest)
      → (e == d) ≡ false
      → contains (set_remove d ds) e ≡ contains ds e
  contains-set_remove d e [] h = refl
  contains-set_remove d e (x ∷ ds) h = ground (arith, h, contains-set_remove d e ds h)

  -- One waiter for another digest stays demanded when `d` is struck from the set of `key`.
  module _ (key d : Digest) (set : List Digest) (demands : Map Digest (List Digest))
      (found : lookup key demands ≡ some set) where
    other_inserted :
        (e : Digest) (block : Option Block)
        → (e == d) ≡ false
        → Demanded p demands e block
        → Demanded p (insert key (set_remove d set) demands) e block
    other_inserted e none ne h = tt
    other_inserted e (some c) ne h = ground (
      arith,
      found,
      contains-set_remove d e set ne,
      lookup-insert key (Block.digest p.primitives c) (set_remove d set) demands,
    )

    -- Where nothing is left of the set, the waiter is for another block.
    other_block :
        (e : Digest) (c : Block)
        → set_remove d set ≡ []
        → (e == d) ≡ false
        → Demanded p demands e (some c)
        → (Block.digest p.primitives c == key) ≡ false
    other_block e c empty ne h = elim (Bool-cases (Block.digest p.primitives c == key)) [
      | inl same ↦
          let at_key = (==_iff (Block.digest p.primitives c) key).0 same in
          let its_set = lookup_or-some key [] set demands found in
          let kept = contains-set_remove d e set ne in
          let none_left : contains (set_remove d set) e ≡ false = rw empty refl in
          absurd (cc (at_key, its_set, kept, none_left, h))
      | inr other ↦ other
    ]

    other_removed :
        (e : Digest) (block : Option Block)
        → set_remove d set ≡ []
        → (e == d) ≡ false
        → Demanded p demands e block
        → Demanded p (remove key demands) e block
    other_removed e none empty ne h = tt
    other_removed e (some c) empty ne h = ground (
      arith,
      h,
      other_block e c empty ne h,
      lookup-remove_ne key (Block.digest p.primitives c) demands,
    )

    pub all_inserted :
        (ws : List Waiter)
        → contains (awaited p ws) d ≡ false
        → AllDemanded p demands ws
        → AllDemanded p (insert key (set_remove d set) demands) ws
    all_inserted [] gone h = tt
    all_inserted (w ∷ ws) gone h = (
      other_inserted w.wait_on w.block (ground (arith, gone)) h.0,
      all_inserted ws (ground (arith, gone)) h.1,
    )

    pub all_removed :
        (ws : List Waiter)
        → set_remove d set ≡ []
        → contains (awaited p ws) d ≡ false
        → AllDemanded p demands ws
        → AllDemanded p (remove key demands) ws
    all_removed [] empty gone h = tt
    all_removed (w ∷ ws) empty gone h = (
      other_removed w.wait_on w.block empty (ground (arith, gone)) h.0,
      all_removed ws empty (ground (arith, gone)) h.1,
    )

    pub none_waits :
        (ws : List Waiter)
        → set_remove d set ≡ []
        → contains (awaited p ws) d ≡ false
        → AllDemanded p demands ws
        → waited_for key ws ≡ false
    none_waits [] empty gone h = refl
    none_waits (w ∷ ws) empty gone h =
        go (none_waits ws empty (ground (arith, gone)) h.1) w.block h.0
      where
        go :
            waited_for key ws ≡ false
            → (block : Option Block) → Demanded p demands w.wait_on block
            → (elim block [
              | none ↦ waited_for key ws
              | some b ↦ Block.digest p.primitives b == key || waited_for key ws
            ])
              ≡ false
        go rest none k = rest
        go rest (some c) k =
            ground (arith, rest, other_block w.wait_on c empty (ground (arith, gone)) k)

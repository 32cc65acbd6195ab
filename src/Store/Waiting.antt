-- ===== src/Store/Waiting.antt =====
-- Nobody waits for a key that the database of store/src/lib.rs has.
use hotstuff_dag.Prelude.{
  Bool-cases, List, Option, Unique, [], ap, arith, bytes_beq, bytes_beq_iff, bytes_eq, contains_key,
  contains_key-insert, contains_key-remove_self, false, inl, inr, insert-Unique, lookup,
  lookup-remove_ne, lookup_or, nat_eq, none, pair_eq, quad_eq, refl, remove-Unique, some, sym, true,
  ◌++◌, ◌∙◌, ◌∷◌, ◌≡◌,
}
use hotstuff_dag.Store.Replies.{IsReliable, db-fulfil}
use hotstuff_dag.Store.{
  Database, Key, Sender, StoreCommand, StoreResult, Task, Value, failed, fulfil, notify,
  notify_read, put_value, read, step, value, write,
}

module _ {D : Type 0} (database : Database D) (reliable : IsReliable database) where
  -- The obligations name a key once, and only keys that are not there.
  pub record NobodyWaits (t : Task D) : Type 0 where
    pub unique : Unique t.obligations
    pub absent : (k : Key) → contains_key k t.obligations ≡ true → database.get t.db k ≡ value none

  fulfilled :
      (k : Key) (v : Value) (found : Option (List Sender)) (t : Task D)
      → Unique t.obligations
      → lookup k t.obligations ≡ found
      → contains_key k (fulfil database k v found t).obligations ≡ false
  unfolding fulfil
  fulfilled k v none t u e = rw (e, contains_key) refl
  fulfilled k v (some senders) t u e = contains_key-remove_self k t.obligations u

  others_stay :
      (k j : Key) (v : Value) (found : Option (List Sender)) (t : Task D)
      → bytes_beq k j ≡ false
      → contains_key j (fulfil database k v found t).obligations ≡ contains_key j t.obligations
  unfolding fulfil
  others_stay k j v none t miss = refl
  others_stay k j v (some senders) t miss =
      rw (lookup-remove_ne k j t.obligations miss, contains_key) refl

  fulfil-Unique :
      (k : Key) (v : Value) (found : Option (List Sender)) (t : Task D)
      → Unique t.obligations
      → Unique (fulfil database k v found t).obligations
  unfolding fulfil
  fulfil-Unique k v none t u = u
  fulfil-Unique k v (some senders) t u = remove-Unique k t.obligations u

  put_absent :
      (k j : Key) (v : Value) (t : Task D)
      → NobodyWaits t
      → contains_key j
          (fulfil database k v (lookup k t.obligations) (put_value database k v t)).obligations
        ≡ true
      → database.get (database.put t.db k v) j ≡ value none
  put_absent k j v t h waits = elim (Bool-cases (bytes_beq k j)) [
    | inl hit ↦
        let same = (bytes_beq_iff k j).0 hit in
        let gone =
          fulfilled k v (lookup k t.obligations) (put_value database k v t) h.unique refl in
        cc (same, gone, waits)
    | inr miss ↦
        let kept = others_stay k j v (lookup k t.obligations) (put_value database k v t) miss in
        reliable.get-put_ne t.db k j v miss ∙ h.absent j (sym kept ∙ waits)
  ]

  write-NobodyWaits :
      (k : Key) (v : Value) (t : Task D) → NobodyWaits t → NobodyWaits (step database (write k v) t)
  unfolding step
  write-NobodyWaits k v t h = record {
    unique = fulfil-Unique k v (lookup k t.obligations) (put_value database k v t) h.unique;
    absent = λ j waits.
        ap (λ d. database.get d j)
          (db-fulfil database k v (lookup k t.obligations) (put_value database k v t))
        ∙ put_absent k j v t h waits;
  }

  notify-NobodyWaits :
      (k : Key) (s : Sender) (r : StoreResult (Option Value)) (t : Task D)
      → database.get t.db k ≡ r
      → NobodyWaits t
      → NobodyWaits (notify database r k s t)
  unfolding notify
  notify-NobodyWaits k s (value none) t e h = record {
    unique = insert-Unique k (lookup_or k [] t.obligations ++ s ∷ []) t.obligations h.unique;
    absent = λ j waits. elim (Bool-cases (bytes_beq k j)) [
      | inl hit ↦ rw (← (bytes_beq_iff k j).0 hit) e
      | inr miss ↦ h.absent j (
          ground (
            arith,
            waits,
            miss,
            contains_key-insert k j (lookup_or k [] t.obligations ++ s ∷ []) t.obligations,
          ))
    ];
  }
  notify-NobodyWaits k s (value (some v)) t e h = record { unique = h.unique; absent = h.absent }
  notify-NobodyWaits k s failed t e h = record { unique = h.unique; absent = h.absent }

  -- With a reliable database, every command keeps the obligations to keys that are not there, each
  -- key once.
  pub step-NobodyWaits :
      (c : StoreCommand) (t : Task D) → NobodyWaits t → NobodyWaits (step database c t)
  unfolding step
  step-NobodyWaits (write k v) t h = write-NobodyWaits k v t h
  step-NobodyWaits (read k s) t h = record { unique = h.unique; absent = h.absent }
  step-NobodyWaits (notify_read k s) t h = notify-NobodyWaits k s (database.get t.db k) t refl h

-- ===== src/Mempool/Core/Queues.antt =====
-- What `get_payload` and `cleanup` of mempool/src/core.rs do to the two queues.
-- An iteration over a set gives its digests, in any order.
use hotstuff_dag.Crypto.{Digest}
use hotstuff_dag.Mempool.Core.{cleanup, get_payload, get_queued, taken}
use hotstuff_dag.Mempool.Error.{ok}
use hotstuff_dag.Mempool.State.{Core, Env, Event, digest_len, remove_all}
use hotstuff_dag.Prelude.{
  Bool-cases, List, [], arith, contains, contains-append, contains-set_remove_all, contains-take,
  false, if◌then◌else◌, inl, inr, is_empty, length, length-append, length-take, not, refl,
  set_remove, sub64, sym, true, u64_mod, ℕ, ◌&&◌, ◌++◌, ◌+◌, ◌/◌, ◌<◌, ◌||◌, ◌∙◌, ◌∷◌, ◌≡◌, ◌≤◌,
}

pub record IsOrder (env : Env) : Type 0 where
  pub same :
      (trace : List Event) (queue : List Digest) (d : Digest)
      → contains (env.iterate trace queue) d ≡ contains queue d

pub contains-remove_all :
    (xs queue : List Digest) (d : Digest)
    → contains (remove_all xs queue) d ≡ (not (contains xs d) && contains queue d)
unfolding remove_all
contains-remove_all [] queue d = ground arith
contains-remove_all (x ∷ xs) queue d =
    ground (arith, contains-remove_all xs (set_remove x queue) d, contains-set_remove_all x d queue)

module _ (env : Env) where
  taken-subset :
      (order : IsOrder env) (n : ℕ) (trace : List Event) (queue : List Digest) (d : Digest)
      → contains (taken env n trace queue) d ≡ true
      → contains queue d ≡ true
  taken-subset order n trace queue d h =
      sym (order.same trace queue d) ∙ contains-take n (env.iterate trace queue) d h

  -- What is handed out, and what is left.
  pub record IsHandedOut (most : ℕ) (digests : List Digest) (c c' : Core) : Type 0 where
    pub bounded : length digests ≤ most / digest_len
    pub conserved :
        (d : Digest)
        → (contains c.opt_queue d || contains c.pes_queue d)
          ≡ (contains digests d || (contains c'.opt_queue d || contains c'.pes_queue d))
    pub once :
        ((d : Digest) → contains c.opt_queue d ≡ true → contains c.pes_queue d ≡ false)
        → (d : Digest) → contains digests d ≡ true
        → (contains c'.opt_queue d ≡ false) × (contains c'.pes_queue d ≡ false)

  parts :
      (order : IsOrder env) (most : ℕ) (c : Core) (own others : List Digest)
      → length own + length others ≤ most / digest_len
      → ((d : Digest) → contains own d ≡ true → contains c.opt_queue d ≡ true)
      → ((d : Digest) → contains others d ≡ true → contains c.pes_queue d ≡ true)
      → IsHandedOut most (own ++ others) c (record c {
        opt_queue = remove_all own c.opt_queue;
        pes_queue = remove_all others c.pes_queue;
      })
  parts order most c own others len in_own in_others = record {
    bounded = omega (arith, length-append own others, len);
    conserved = λ d. ground (
      arith,
      contains-append own others d,
      in_own d,
      in_others d,
      contains-remove_all own c.opt_queue d,
      contains-remove_all others c.pes_queue d,
    );
    once = λ apart d h. (
      ground (
        arith,
        h,
        apart d,
        contains-append own others d,
        in_own d,
        in_others d,
        contains-remove_all own c.opt_queue d,
      ),
      ground (
        arith,
        h,
        apart d,
        contains-append own others d,
        in_own d,
        in_others d,
        contains-remove_all others c.pes_queue d,
      ),
    );
  }

  -- With something in a queue, `get_payload` answers with at most `most / 32` digests: none is lost
  -- or invented, and where no digest stands in both queues, one that is handed out has left both.
  pub get_payload_lem :
      (most : ℕ) (c : Core)
      → IsOrder env
      → most < u64_mod
      → (is_empty c.opt_queue && is_empty c.pes_queue) ≡ false
      → (digests : List Digest) × ((get_payload env most c).0 ≡ ok digests)
        × IsHandedOut most digests c (get_payload env most c).1
  unfolding get_payload get_queued
  get_payload_lem most c order small some_queued =
      rw some_queued (own ++ others, refl, parts order most c own others len in_own in_others)
    where
      n : ℕ
      n = most / digest_len

      own : List Digest
      own = if is_empty c.opt_queue then [] else taken env n c.trace c.opt_queue

      others : List Digest
      others = taken env (sub64 n (length own)) c.trace c.pes_queue

      own_len : length own ≤ n
      own_len = elim (Bool-cases (is_empty c.opt_queue)) [
        | inl empty ↦ rw empty (omega arith)
        | inr full ↦ rw full (length-take n (env.iterate c.trace c.opt_queue))
      ]

      len : length own + length others ≤ n
      len = omega (
        arith,
        own_len,
        small,
        length-take (sub64 n (length own)) (env.iterate c.trace c.pes_queue),
      )

      in_own : (d : Digest) → contains own d ≡ true → contains c.opt_queue d ≡ true
      in_own d h = ground (arith, h, taken-subset order n c.trace c.opt_queue d)

      in_others : (d : Digest) → contains others d ≡ true → contains c.pes_queue d ≡ true
      in_others d h = taken-subset order (sub64 n (length own)) c.trace c.pes_queue d h

  pub cleanup_lem :
      (digests : List Digest) (round : ℕ) (c : Core) (d : Digest)
      → (contains (cleanup env digests round c).opt_queue d
          ≡ (not (contains digests d) && contains c.opt_queue d))
        × (contains (cleanup env digests round c).pes_queue d
            ≡ (not (contains digests d) && contains c.pes_queue d))
  unfolding cleanup
  cleanup_lem digests round c d =
      (contains-remove_all digests c.opt_queue d, contains-remove_all digests c.pes_queue d)

-- ===== src/Network/Queues.antt =====
-- The workers that NetSender::run of network/src/lib.rs keeps, and a send to one of them.
use hotstuff_dag.Config.{SocketAddr}
use hotstuff_dag.Network.{NetSender, Worker, new, send, spawn_and_send, spawn_worker}
use hotstuff_dag.Prelude.{
  ==_iff, Bool, Bool-cases, [], ap, arith, bytes_eq, false, if◌then◌else◌, inl, inr, insert, lookup,
  lookup-insert, lookup-insert_self, nat_eq, none, pair_eq, quad_eq, refl, some, suc, true, ℕ, ◌++◌,
  ◌==◌, ◌∙◌, ◌∷◌, ◌≡◌, ◌≤◌,
}
use hotstuff_dag.World.{Bytes}

-- Numbers below `spawned` alone are in use, and the worker kept for an address is one for it.
pub record IsValid (s : NetSender) : Type 0 where
  pub unused : (n : ℕ) → s.spawned ≤ n → lookup n s.workers ≡ none
  pub known :
      (a : SocketAddr) (n : ℕ)
      → lookup a s.senders ≡ some n
      → (w : Worker) × (lookup n s.workers ≡ some w) × (w.address ≡ a)

pub send_open :
    (n : ℕ) (bytes : Bytes) (s : NetSender) (w : Worker)
    → lookup n s.workers ≡ some w
    → w.is_open ≡ true
    → send n bytes s ≡ (
      false,
      record s { workers = insert n (record w { queue = w.queue ++ bytes ∷ [] }) s.workers },
    )
unfolding send
send_open n bytes s w there alive = rw (send, there, alive) refl

pub send_closed :
    (n : ℕ) (bytes : Bytes) (s : NetSender) (w : Worker)
    → lookup n s.workers ≡ some w
    → w.is_open ≡ false
    → send n bytes s ≡ (true, s)
unfolding send
send_closed n bytes s w there ended = rw (send, there, ended) refl

pub new-IsValid : IsValid new
unfolding new
new-IsValid = record { unused = λ n above. refl; known = λ a n is. cc }

-- A worker may change, but for its address.
pub replace-IsValid :
    (n : ℕ) (w w' : Worker) (s : NetSender)
    → lookup n s.workers ≡ some w
    → w'.address ≡ w.address
    → IsValid s
    → IsValid (record s { workers = insert n w' s.workers })
replace-IsValid n w w' s there same v = record {
  unused = λ k above.
      ground (arith, lookup-insert n k w' s.workers, v.unused k above, there, ==_iff n k);
  known = λ b k is.
      let (x, at, right) = v.known b k is in
      elim (Bool-cases (n == k)) [
        | inl hit ↦ (
          w',
          ground (arith, lookup-insert n k w' s.workers, hit),
          same
              ∙ ap {A = Worker} {B = SocketAddr} (λ w. w.address)
                  (is_it k x at ((==_iff n k).0 hit))
              ∙ right,
        )
        | inr other ↦ (x, ground (arith, lookup-insert n k w' s.workers, other, at), right)
      ];
}
  where
    is_it : (k : ℕ) (x : Worker) → lookup k s.workers ≡ some x → n ≡ k → w ≡ x
    is_it k x at e = cc (there, at, e)

module _ (refuses : ℕ → Bool) where
  abbrev pub given : SocketAddr → Bytes → Worker
  given a bytes = record { address = a; queue = bytes ∷ []; is_open = true }

  abbrev pub begun : SocketAddr → Worker
  begun a = record { address = a; queue = []; is_open = true }

  abbrev pub spawned_with : SocketAddr → Bytes → NetSender → NetSender
  spawned_with a bytes s = record {
    senders = insert a s.spawned s.senders;
    workers = insert s.spawned (given a bytes) (insert s.spawned (begun a) s.workers);
    spawned = suc s.spawned;
  }

  pub spawn_and_send_lem :
      (a : SocketAddr) (bytes : Bytes) (s : NetSender)
      → refuses s.spawned ≡ false
      → spawn_and_send refuses a bytes s ≡ spawned_with a bytes s
  unfolding spawn_and_send
  spawn_and_send_lem a bytes s accepts =
      rw
        (
          begins,
          send_open s.spawned bytes ready (begun a)
              (lookup-insert_self s.spawned (begun a) s.workers) refl,
        )
        refl
    where
      ready : NetSender
      ready = record s { workers = insert s.spawned (begun a) s.workers; spawned = suc s.spawned }

      begins : spawn_worker refuses a s ≡ ready
      begins = rw (spawn_worker, accepts) refl

  spawned_lookup :
      (a : SocketAddr) (bytes : Bytes) (s : NetSender) (n : ℕ)
      → lookup n (spawned_with a bytes s).workers
        ≡ (if s.spawned == n then some (given a bytes) else lookup n s.workers)
  spawned_lookup a bytes s n = ground (
    arith,
    lookup-insert s.spawned n (given a bytes) (insert s.spawned (begun a) s.workers),
    lookup-insert s.spawned n (begun a) s.workers,
  )

  pub spawned_with-IsValid :
      (a : SocketAddr) (bytes : Bytes) (s : NetSender)
      → IsValid s
      → IsValid (spawned_with a bytes s)
  spawned_with-IsValid a bytes s v = record {
    unused = λ n above.
        ground (arith, spawned_lookup a bytes s n, v.unused n (omega (arith, above)), above);
    known = λ b n is. elim (Bool-cases (a == b)) [
      | inl same ↦
          let it_is : s.spawned ≡ n =
            ground (arith, lookup-insert a b s.spawned s.senders, same, is) in
          (
            given a bytes,
            ground (arith, spawned_lookup a bytes s n, (==_iff s.spawned n).1 it_is),
            (==_iff a b).0 same,
          )
      | inr other ↦
          let (w, there, right) =
            v.known b n (ground (arith, lookup-insert a b s.spawned s.senders, other, is)) in
          (
            w,
            ground (
              arith,
              spawned_lookup a bytes s n,
              there,
              v.unused s.spawned (omega arith),
              ==_iff s.spawned n,
            ),
            right,
          )
    ];
  }

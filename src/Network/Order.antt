-- ===== src/Network/Order.antt =====
-- The order in which the sender of network/src/lib.rs puts the messages for an address into the
-- channels of its workers, one worker after the other.
use hotstuff_dag.Config.{SocketAddr}
use hotstuff_dag.Network.{Worker}
use hotstuff_dag.Prelude.{
  ==_iff, Bool, Bool-cases, List, Map, [], ap, arith, bytes_eq, false, if◌then◌else◌, inl, inr,
  insert, lookup, nat_eq, none, not, pair_eq, quad_eq, refl, some, sym, true, ℕ, ◌&&◌, ◌++◌, ◌==◌,
  ◌||◌, ◌∙◌, ◌∷◌, ◌≡◌,
}
use hotstuff_dag.World.{Bytes}

-- All that was ever put into a channel for the address.
abbrev pub queued : SocketAddr → Map ℕ Worker → List Bytes
queued a [] = []
queued a ((k, w) ∷ m) = if w.address == a then w.queue ++ queued a m else queued a m

abbrev serves : SocketAddr → Map ℕ Worker → Bool
serves a [] = false
serves a ((k, w) ∷ m) = w.address == a || serves a m

-- The worker is the last one for the address.
abbrev pub is_last : SocketAddr → ℕ → Map ℕ Worker → Bool
is_last a n [] = false
is_last a n ((k, w) ∷ m) = if k == n then w.address == a && not (serves a m) else is_last a n m

pub append_nil : {A : Type 0} (xs : List A) → xs ++ [] ≡ xs
append_nil [] = refl
append_nil {A} (x ∷ xs) = ap {A = List A} {B = List A} (λ l. x ∷ l) (append_nil xs)

pub append_assoc : {A : Type 0} (xs ys zs : List A) → xs ++ (ys ++ zs) ≡ (xs ++ ys) ++ zs
append_assoc [] ys zs = refl
append_assoc {A} (x ∷ xs) ys zs = ap {A = List A} {B = List A} (λ l. x ∷ l) (append_assoc xs ys zs)

queued_none : (a : SocketAddr) (m : Map ℕ Worker) → serves a m ≡ false → queued a m ≡ []
queued_none a [] h = refl
queued_none a ((k, w) ∷ m) h = ground (arith, queued_none a m, h)

pub queued_fresh :
    (a : SocketAddr) (n : ℕ) (w : Worker) (m : Map ℕ Worker)
    → lookup n m ≡ none
    → w.queue ≡ []
    → queued a (insert n w m) ≡ queued a m
queued_fresh a n w [] h e = ground (arith, e, append_nil w.queue)
queued_fresh a n w ((k, x) ∷ m) h e = ground (arith, h, queued_fresh a n w m, e)

-- The worker, changed but for its address and its queue.
pub queued_same :
    (a : SocketAddr) (n : ℕ) (w w' : Worker) (m : Map ℕ Worker)
    → lookup n m ≡ some w
    → w'.address ≡ w.address
    → w'.queue ≡ w.queue
    → queued a (insert n w' m) ≡ queued a m
queued_same a n w w' [] h at same = cc
queued_same a n w w' ((k, x) ∷ m) h at same = elim (Bool-cases (k == n)) [
  | inl hit ↦ let it_is : x ≡ w = ground (arith, h, hit) in rw (hit, at, same, it_is) refl
  | inr miss ↦ rw (miss, queued_same a n w w' m (ground (arith, h, miss)) at same) refl
]

serves-insert_old :
    (a : SocketAddr) (n : ℕ) (w w' : Worker) (m : Map ℕ Worker)
    → lookup n m ≡ some w
    → w'.address ≡ w.address
    → serves a (insert n w' m) ≡ serves a m
serves-insert_old a n w w' [] h at = cc
serves-insert_old a n w w' ((k, x) ∷ m) h at = elim (Bool-cases (k == n)) [
  | inl hit ↦ let it_is : x ≡ w = ground (arith, h, hit) in rw (hit, at, it_is) refl
  | inr miss ↦ rw (miss, serves-insert_old a n w w' m (ground (arith, h, miss)) at) refl
]

pub is_last-insert_old :
    (a : SocketAddr) (i n : ℕ) (w w' : Worker) (m : Map ℕ Worker)
    → lookup n m ≡ some w
    → w'.address ≡ w.address
    → is_last a i (insert n w' m) ≡ is_last a i m
is_last-insert_old a i n w w' [] h at = cc
is_last-insert_old a i n w w' ((k, x) ∷ m) h at = elim (Bool-cases (k == n)) [
  | inl hit ↦
      let it_is : x ≡ w = ground (arith, h, hit) in rw (hit, at, it_is, (==_iff k n).0 hit) refl
  | inr miss ↦
      rw
        (
          miss,
          serves-insert_old a n w w' m (ground (arith, h, miss)) at,
          is_last-insert_old a i n w w' m (ground (arith, h, miss)) at,
        )
        refl
]

-- The last worker for an address takes bytes: they come after all that was queued for it.
pub queued_grown :
    (a b : SocketAddr) (n : ℕ) (w w' : Worker) (bytes : Bytes) (m : Map ℕ Worker)
    → lookup n m ≡ some w
    → is_last a n m ≡ true
    → w'.address ≡ w.address
    → w'.queue ≡ w.queue ++ bytes ∷ []
    → queued b (insert n w' m) ≡ queued b m ++ (if a == b then bytes ∷ [] else [])
queued_grown a b n w w' bytes [] h l at grown = cc
queued_grown a b n w w' bytes ((k, x) ∷ m) h l at grown = elim (Bool-cases (k == n)) [
  | inl hit ↦
      let it_is : x ≡ w = ground (arith, h, hit) in
      let is_a : w.address ≡ a = ground (arith, l, hit, it_is, ==_iff w.address a) in
      let none_later : queued a m ≡ [] = queued_none a m (ground (arith, l, hit)) in
      elim (Bool-cases (a == b)) [
        | inl same ↦
            let a_is : a ≡ b = (==_iff a b).0 same in
            let here : (w.address == b) ≡ true = (==_iff w.address b).1 (is_a ∙ a_is) in
            let later : queued b m ≡ [] = ap (λ c. queued c m) (sym a_is) ∙ none_later in
            rw (hit, at, it_is, here, same, grown, later)
              (append_nil (w.queue ++ bytes ∷ [])
                ∙ ap (λ l. l ++ bytes ∷ []) (sym (append_nil w.queue)))
        | inr other ↦
            let elsewhere : (w.address == b) ≡ false =
              ground (arith, other, is_a, ==_iff w.address b, ==_iff a b) in
            rw (hit, at, it_is, elsewhere, other) (sym (append_nil (queued b m)))
      ]
  | inr miss ↦
      let rest =
        queued_grown a b n w w' bytes m (ground (arith, h, miss)) (ground (arith, l, miss)) at
          grown in
      elim (Bool-cases (x.address == b)) [
        | inl here ↦
            rw (miss, here, rest)
              (append_assoc x.queue (queued b m) (if a == b then bytes ∷ [] else []))
        | inr there ↦ rw (miss, there, rest) refl
      ]
]

serves-insert_fresh :
    (a : SocketAddr) (n : ℕ) (w : Worker) (m : Map ℕ Worker)
    → lookup n m ≡ none
    → serves a (insert n w m) ≡ (serves a m || w.address == a)
serves-insert_fresh a n w [] h = ground arith
serves-insert_fresh a n w ((k, x) ∷ m) h = ground (arith, h, serves-insert_fresh a n w m)

pub is_last_new :
    (a : SocketAddr) (n : ℕ) (w : Worker) (m : Map ℕ Worker)
    → lookup n m ≡ none
    → w.address ≡ a
    → is_last a n (insert n w m) ≡ true
is_last_new a n w [] h at = ground (arith, ==_iff w.address a, at, ==_iff n n)
is_last_new a n w ((k, x) ∷ m) h at = ground (arith, h, is_last_new a n w m, at)

pub is_last_still :
    (a : SocketAddr) (i n : ℕ) (w : Worker) (m : Map ℕ Worker)
    → lookup n m ≡ none
    → (w.address == a) ≡ false
    → is_last a i m ≡ true
    → is_last a i (insert n w m) ≡ true
is_last_still a i n w [] h other l = cc
is_last_still a i n w ((k, x) ∷ m) h other l =
    ground (arith, h, is_last_still a i n w m, serves-insert_fresh a n w m, other, l)

-- ===== src/Buffers.antt =====
-- base/src/mpsc_queue.rs over crossbeam's ArrayQueue, which is a parameter: its operations take
-- effect one at a time, and are described by the list of the elements that a queue holds.
pub mod DoubleBuffer
pub mod Laws
pub mod Subsequence
pub mod Clear
pub mod World
pub mod Turns
pub mod Reads
pub mod Order
mod Tests
pub mod Bounded
use cfw.Prelude.{
  ℕ, zero, suc, ◌+◌, ◌%◌, ◌^◌, ◌≡◌, ◌≢◌, ◌≤◌, Bool, true, false, not, Option, none, some, List, [],
  ◌∷◌, ◌++◌, length, leb, if◌then◌else◌, is_some,
}

-- What a bounded list does at a push, where a full one loses its front, and at a pop.
abbrev pub rest_of {ℓ} : {A : Type ℓ} → List A → List A
rest_of [] = []
rest_of (x ∷ xs) = xs

abbrev pub front_of {ℓ} : {A : Type ℓ} → List A → Option A
front_of [] = none
front_of (x ∷ xs) = some x

abbrev pub displaced {ℓ} : {A : Type ℓ} → ℕ → List A → Option A
displaced capacity xs = if leb capacity (length xs) then front_of xs else none

abbrev pub pushed {ℓ} : {A : Type ℓ} → ℕ → A → List A → List A
pushed capacity x xs = (if leb capacity (length xs) then rest_of xs else xs) ++ x ∷ []

-- A push that a full list rejects.
abbrev pub rejected {ℓ} : {A : Type ℓ} → ℕ → A → List A → Option A
rejected capacity x xs = if leb capacity (length xs) then some x else none

abbrev pub stored {ℓ} : {A : Type ℓ} → ℕ → A → List A → List A
stored capacity x xs = if leb capacity (length xs) then xs else xs ++ x ∷ []

-- `crossbeam_queue::ArrayQueue`.
pub record ArrayQueue (A : Type 0) : Type 1 where
  pub Queue : Type 0
  pub make : ℕ → Queue
  pub force_push : A → Queue → Option A × Queue
  pub push : A → Queue → Option A × Queue
  pub pop : Queue → Option A × Queue
  pub len : Queue → ℕ
  pub is_empty : Queue → Bool
  pub capacity : Queue → ℕ
  pub elements : Queue → List A
  pub make_elements : (n : ℕ) → elements (make n) ≡ []
  pub make_capacity : (n : ℕ) → n ≢ 0 → capacity (make n) ≡ n
  pub force_push_result :
      (x : A) (q : Queue) → (force_push x q).0 ≡ displaced (capacity q) (elements q)
  pub force_push_elements :
      (x : A) (q : Queue) → elements (force_push x q).1 ≡ pushed (capacity q) x (elements q)
  pub force_push_capacity : (x : A) (q : Queue) → capacity (force_push x q).1 ≡ capacity q
  pub push_result : (x : A) (q : Queue) → (push x q).0 ≡ rejected (capacity q) x (elements q)
  pub push_elements :
      (x : A) (q : Queue) → elements (push x q).1 ≡ stored (capacity q) x (elements q)
  pub push_capacity : (x : A) (q : Queue) → capacity (push x q).1 ≡ capacity q
  pub pop_result : (q : Queue) → (pop q).0 ≡ front_of (elements q)
  pub pop_elements : (q : Queue) → elements (pop q).1 ≡ rest_of (elements q)
  pub pop_capacity : (q : Queue) → capacity (pop q).1 ≡ capacity q
  pub len_elements : (q : Queue) → len q ≡ length (elements q)

module _ {A : Type 0} (array : ArrayQueue A) where
  open array use {Queue, make, force_push, pop, len, is_empty, capacity}

  pub record MpscQueue : Type 0 where
    pub inner : Queue
    pub dropped : ℕ

  unfoldable pub new : ℕ → MpscQueue
  new capacity = record { inner = make capacity; dropped = 0 }

  -- `fetch_add` wraps.
  unfoldable pub push : A → MpscQueue → Bool × MpscQueue
  push value q =
      let (out, inner) = force_push value q.inner in
      (
        not (is_some out),
        record {
          inner = inner;
          dropped = if is_some out then (q.dropped + 1) % 2 ^ 64 else q.dropped;
        },
      )

  unfoldable pub pop_queue : MpscQueue → Option A × MpscQueue
  pop_queue q = let (out, inner) = pop q.inner in (out, record q { inner = inner })

  -- `while self.pop().is_some() {}`, on the fuel of the length and one more.
  unfoldable pub clear_loop : ℕ → MpscQueue → MpscQueue
  unfolding pop_queue
  clear_loop zero q = q
  clear_loop (suc fuel) q =
      let (out, rest) = pop_queue q in
      let cleared = clear_loop fuel rest in if is_some out then cleared else rest

  unfoldable pub clear : MpscQueue → MpscQueue
  unfolding clear_loop
  clear q = clear_loop (len q.inner + 1) q

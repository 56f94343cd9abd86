-- ===== src/Arena.antt =====
-- base/src/arena.rs: reference counts of arena slots that threads share. Each atomic operation is one
-- step, and steps of different holders come in any order; memory is sequentially consistent. A
-- holder is a pointer with the place that its owner has reached in a call on it.
pub mod Weights
pub mod Moves
pub mod Places
pub mod Pigeonhole
pub mod Safety
pub mod New
pub mod Runs
pub mod Alone
mod Tests
use cfw.Prelude.{
  ◌&&◌, ℕ, zero, suc, ◌+◌, ◌-◌, ◌%◌, ◌^◌, ltb, ◌==◌, Bool, true, false, Option, none, some, List,
  [], ◌∷◌, ◌++◌, is_some, get_elem?, set, replicate, if◌then◌else◌, max,
}
use cfw.Prelude.Result.{Result, ok, err}
use cfw.Buffers.{ArrayQueue}

-- Whether the memory of a slot holds a value.
pub data Payload : Type 0 where
  uninit live dead : Payload

pub record Slot : Type 0 where
  pub ref_count : ℕ
  pub payload : Payload

-- `taken`: an index is popped in `try_new`, the count not swapped. `loan`: an ArenaPtrUninit.
-- `pointer`: an ArenaPtr. The others are places in a drop: `dropping` with the count that was read,
-- before and after the destructor, and before the index is pushed back.
pub data Holder : Type 0 where
  taken loan pointer destroying clearing returning : ℕ → Holder
  dropping : ℕ → ℕ → Holder
  gone : Holder

pub data Fault : Type 0 where
  free_list_full slot_not_free returned_twice too_many_pointers out_of_range not_initialized : Fault

abbrev pub empty_slot : Slot
empty_slot = record { ref_count = 0; payload = uninit }

abbrev pub is_live : Payload → Bool
is_live live = true
is_live _ = false

-- What callers and threads may do next.
pub data Move : Type 0 where
  allocate reallocate : Move
  resize : ℕ → Move
  advance assume_init begin_drop clone deref retry : ℕ → Move

abbrev pub is_gone : Holder → Bool
is_gone gone = true
is_gone _ = false

abbrev pub all_gone : List Holder → Bool
all_gone [] = true
all_gone (x ∷ xs) = is_gone x && all_gone xs

module _ ⦃queue : ArrayQueue ℕ⦄ where
  pub record Arena : Type 0 where
    pub slots : List Slot
    pub free_list : queue.Queue
    pub capacity : ℕ
    pub holders : List Holder

  -- `for index in 0..n { free_list.push(index).expect(...) }`.
  unfoldable pub push_indices : ℕ → ℕ → queue.Queue → Result Fault queue.Queue
  push_indices first zero free = ok free
  push_indices first (suc n) free =
      let (back, next) = queue.push first free in
      if is_some back then err free_list_full else push_indices (first + 1) n next

  unfoldable pub reallocate_slots : Arena → Result Fault Arena
  unfolding push_indices
  reallocate_slots a = elim (push_indices 0 a.capacity (queue.make (max a.capacity 1))) [
    | err e ↦ err e
    | ok free ↦ ok (record a { slots = replicate a.capacity empty_slot; free_list = free })
  ]

  unfoldable pub new : ℕ → Result Fault Arena
  unfolding reallocate_slots
  new capacity = reallocate_slots (record {
    slots = [];
    free_list = queue.make (max capacity 1);
    capacity = capacity;
    holders = [];
  })

  abbrev pub update_capacity : Arena → ℕ → Arena
  update_capacity a capacity = record a { capacity = capacity }

  abbrev pub at_place : Arena → ℕ → Holder → Arena
  at_place a h x = record a { holders = set a.holders h x }

  abbrev pub with_slot : Arena → ℕ → Slot → Arena
  with_slot a i s = record a { slots = set a.slots i s }

  -- A step on the slot of an index, where there is one.
  abbrev pub on_slot : Arena → ℕ → (Slot → Result Fault Arena) → Result Fault Arena
  on_slot a i f = elim (get_elem? a.slots i) [ none ↦ err out_of_range | some s ↦ f s ]

  abbrev pub take_index : Arena → Option ℕ → queue.Queue → Arena
  take_index a none rest = record a { free_list = rest }
  take_index a (some i) rest = record a { free_list = rest; holders = a.holders ++ taken i ∷ [] }

  unfoldable pub try_new : Arena → Arena
  try_new a = let (index, rest) = queue.pop a.free_list in take_index a index rest

  -- `swap(1)`, and the test of the old count.
  unfoldable pub swap_count : Arena → ℕ → ℕ → Slot → Result Fault Arena
  swap_count a h i s =
      if s.ref_count == 0
      then ok (at_place (with_slot a i (record s { ref_count = 1 })) h (loan i))
      else err slot_not_free

  -- `compare_exchange_weak(current, current - 1)`.
  unfoldable pub exchange : Arena → ℕ → ℕ → ℕ → Slot → Result Fault Arena
  exchange a h i current s =
      if s.ref_count == current
      then ok (at_place (with_slot a i (record s { ref_count = current - 1 })) h gone)
      else ok (at_place a h (dropping i s.ref_count))

  unfoldable pub destroy : Arena → ℕ → ℕ → Slot → Result Fault Arena
  destroy a h i s =
      if is_live s.payload
      then ok (at_place (with_slot a i (record s { payload = dead })) h (clearing i))
      else err not_initialized

  unfoldable pub push_index : Arena → ℕ → ℕ → Result Fault Arena
  push_index a h i =
      let (back, free) = queue.push i a.free_list in
      if is_some back
      then err returned_twice
      else ok (record a { free_list = free; holders = set a.holders h gone })

  -- The next atomic operation of a call that has begun.
  unfoldable pub advance_holder : Arena → ℕ → Holder → Result Fault Arena
  unfolding swap_count exchange destroy push_index
  advance_holder a h (taken i) = on_slot a i (swap_count a h i)
  advance_holder a h (dropping i current) =
      if current == 1
      then ok (at_place a h (destroying i))
      else on_slot a i (exchange a h i current)
  advance_holder a h (destroying i) = on_slot a i (destroy a h i)
  advance_holder a h (clearing i) =
      on_slot a i (λ s. ok (at_place (with_slot a i (record s { ref_count = 0 })) h (returning i)))
  advance_holder a h (returning i) = push_index a h i
  advance_holder a h (loan i) = ok a
  advance_holder a h (pointer i) = ok a
  advance_holder a h gone = ok a

  -- The owner of a loan writes the payload and publishes it.
  unfoldable pub initialize : Arena → ℕ → Holder → Result Fault Arena
  initialize a h (loan i) =
      on_slot a i (λ s. ok (at_place (with_slot a i (record s { payload = live })) h (pointer i)))
  initialize a h _ = ok a

  -- The first operation of a drop: a store for a loan, a load for a pointer.
  unfoldable pub start_drop : Arena → ℕ → Holder → Result Fault Arena
  start_drop a h (loan i) =
      on_slot a i (λ s. ok (at_place (with_slot a i (record s { ref_count = 0 })) h (returning i)))
  start_drop a h (pointer i) = on_slot a i (λ s. ok (at_place a h (dropping i s.ref_count)))
  start_drop a h _ = ok a

  -- `fetch_add`, and then the test of the old count. A run ends at the panic, so that nobody sees the
  -- count that was added to.
  unfoldable pub add_pointer : Arena → ℕ → Slot → Result Fault Arena
  add_pointer a i s =
      let counted = with_slot a i (record s { ref_count = (s.ref_count + 1) % 2 ^ 64 }) in
      if ltb (2 ^ 63 - 1) s.ref_count
      then err too_many_pointers
      else ok (record counted { holders = a.holders ++ pointer i ∷ [] })

  unfoldable pub clone_holder : Arena → Holder → Result Fault Arena
  unfolding add_pointer
  clone_holder a (pointer i) = on_slot a i (add_pointer a i)
  clone_holder a _ = ok a

  unfoldable pub read_holder : Arena → Holder → Result Fault Arena
  read_holder a (pointer i) =
      on_slot a i (λ s. if is_live s.payload then ok a else err not_initialized)
  read_holder a _ = ok a

  -- A weak exchange may fail though the count is the one that was read.
  unfoldable pub fail_exchange : Arena → ℕ → Holder → Result Fault Arena
  fail_exchange a h (dropping i current) =
      if current == 1 then ok a else on_slot a i (λ s. ok (at_place a h (dropping i s.ref_count)))
  fail_exchange a h _ = ok a

  abbrev pub with_holder : Arena → ℕ → (Holder → Result Fault Arena) → Result Fault Arena
  with_holder a h f = elim (get_elem? a.holders h) [ none ↦ ok a | some x ↦ f x ]

  -- A call on `&mut Arena`: no pointer borrows the arena.
  abbrev pub exclusively : Arena → Result Fault Arena → Result Fault Arena
  exclusively a r = if all_gone a.holders then r else ok a

  unfoldable pub step : Arena → Move → Result Fault Arena
  unfolding reallocate_slots try_new advance_holder initialize start_drop clone_holder read_holder
      fail_exchange
  step a allocate = ok (try_new a)
  step a reallocate = exclusively a (reallocate_slots a)
  step a (resize n) = exclusively a (ok (update_capacity a n))
  step a (advance h) = with_holder a h (advance_holder a h)
  step a (assume_init h) = with_holder a h (initialize a h)
  step a (begin_drop h) = with_holder a h (start_drop a h)
  step a (clone h) = with_holder a h (clone_holder a)
  step a (deref h) = with_holder a h (read_holder a)
  step a (retry h) = with_holder a h (fail_exchange a h)

  unfoldable pub run : Arena → List Move → Result Fault Arena
  unfolding step
  run a [] = ok a
  run a (m ∷ ms) = elim (step a m) [ err e ↦ err e | ok b ↦ run b ms ]

  -- A new arena, and moves on it.
  unfoldable pub run_new : ℕ → List Move → Result Fault Arena
  unfolding new run
  run_new capacity ms = elim (new capacity) [ err e ↦ err e | ok a ↦ run a ms ]

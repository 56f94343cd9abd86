-- ===== src/Buffers/DoubleBuffer.antt =====
-- base/src/double_buffer.rs: a queue that publishers write, drained into a buffer that one callback
-- reads. A VecDeque is its list; its capacity, which may be more than what was asked for, is a
-- field. The steps of a drain are steps of their own, since publishers may write between them.
use cfw.Prelude.{
  ℕ, zero, suc, ◌+◌, ◌%◌, ◌^◌, Option, none, some, List, [], ◌∷◌, ◌++◌, length, leb, if◌then◌else◌,
}
use cfw.Buffers.{rest_of, front_of, ArrayQueue, MpscQueue, new, push, pop_queue, clear}

-- `while storage.len() >= storage.capacity() { drops += 1; storage.pop_front() }`, on the fuel of
-- the length: each turn removes an element. The result is the storage and the turns.
unfoldable pub make_room {ℓ} : {A : Type ℓ} → ℕ → ℕ → List A → List A × ℕ
make_room zero capacity storage = (storage, 0)
make_room (suc fuel) capacity storage =
    let (left, turns) = make_room fuel capacity (rest_of storage) in
    if leb capacity (length storage) then (left, turns + 1) else (storage, 0)

abbrev pub kept_before {ℓ} : {A : Type ℓ} → A → List A → List A
kept_before x [] = []
kept_before x (y ∷ ys) = x ∷ kept_before y ys

abbrev pub without_last {ℓ} : {A : Type ℓ} → List A → List A
without_last [] = []
without_last (x ∷ xs) = kept_before x xs

module _ {A : Type 0} (array : ArrayQueue A) where
  open array use {len}

  pub record DoubleBuffer : Type 0 where
    pub write_queue : MpscQueue array
    pub storage : List A
    pub storage_capacity : ℕ
    pub drops : ℕ

  unfoldable pub make_buffer : ℕ → ℕ → DoubleBuffer
  unfolding new
  make_buffer capacity storage_capacity = record {
    write_queue = new array capacity;
    storage = [];
    storage_capacity = storage_capacity;
    drops = 0;
  }

  -- `WriteBufferHandle::write`.
  unfoldable pub write : A → DoubleBuffer → DoubleBuffer
  unfolding push
  write value b = record b { write_queue = (push array value b.write_queue).1 }

  -- `drops += 1` in every turn of `make_room`, which wraps.
  unfoldable pub store : A → DoubleBuffer → DoubleBuffer
  unfolding make_room
  store value b =
      let (left, turns) = make_room (length b.storage) b.storage_capacity b.storage in
      record b { storage = left ++ value ∷ []; drops = (b.drops + turns) % 2 ^ 64 }

  abbrev pub store_popped : Option A → DoubleBuffer → DoubleBuffer
  unfolding store
  store_popped none b = b
  store_popped (some v) b = store v b

  -- One turn of the loop of a drain.
  unfoldable pub drain_turn : DoubleBuffer → DoubleBuffer
  unfolding pop_queue store
  drain_turn b =
      let (out, queue) = pop_queue array b.write_queue in
      store_popped out (record b { write_queue = queue })

  unfoldable pub drain_turns : ℕ → DoubleBuffer → DoubleBuffer
  unfolding drain_turn
  drain_turns zero b = b
  drain_turns (suc n) b = drain_turns n (drain_turn b)

  unfoldable pub drain_writer_to_reader : DoubleBuffer → DoubleBuffer
  unfolding drain_turns
  drain_writer_to_reader b = drain_turns (len b.write_queue.inner) b

  -- `ReadBufferGuard::pop_front_ptr`.
  unfoldable pub pop_front : DoubleBuffer → Option A × DoubleBuffer
  pop_front b = (front_of b.storage, record b { storage = rest_of b.storage })

  -- `ReadBufferGuard::pop_back`.
  unfoldable pub pop_back : DoubleBuffer → DoubleBuffer
  pop_back b = record b { storage = without_last b.storage }

  -- `ReadBufferGuard::drain_contiguous`, where the whole drain is taken.
  unfoldable pub drain_contiguous : DoubleBuffer → List A × DoubleBuffer
  drain_contiguous b = (b.storage, record b { storage = [] })

  -- `DoubleBuffer::clear`, which no writer interrupts.
  unfoldable pub clear_buffers : DoubleBuffer → DoubleBuffer
  unfolding clear
  clear_buffers b = record b { write_queue = clear array b.write_queue; storage = [] }

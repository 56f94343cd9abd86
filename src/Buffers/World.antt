-- ===== src/Buffers/World.antt =====
-- double_buffer.rs: the steps of publishers, of drains and of the reader, and what holds between them.
use cfw.Prelude.{
  ℕ, ◌+◌, ◌-◌, ◌^◌, ◌<◌, ◌≡◌, ap, ◌∙◌, Option, none, some, List, [], ◌∷◌, ◌++◌, length,
  length-append,
}
use cfw.Buffers.{ArrayQueue}
use cfw.Buffers.DoubleBuffer.{
  DoubleBuffer, make_buffer, write, drain_turn, pop_front, pop_back, drain_contiguous,
  clear_buffers,
}
use cfw.Buffers.Laws.{waiting, IsBuffer}
use cfw.Buffers.Subsequence.{Subsequence, Subsequence-refl, Subsequence-trans, Subsequence-append}

module _ {A : Type 0} (array : ArrayQueue A) where
  open array use {
    elements, capacity, force_push, force_push_elements, force_push_result, make_elements,
  }

  -- A write of a publisher, a turn of a drain, a read of the front or of all by the callback, the
  -- removal of the back, and a clear.
  pub data Step : Type 0 where
    written : A → Step
    turned read read_all discarded_back cleared : Step

  -- The buffer with what has been read and written, and how much has been discarded on purpose.
  pub record World : Type 0 where
    pub buffer : DoubleBuffer array
    pub reads : List A
    pub writes : List A
    pub discarded : ℕ

  abbrev pub listed : Option A → List A
  listed none = []
  listed (some x) = x ∷ []

  unfoldable pub step : World → Step → World
  unfolding write drain_turn pop_front drain_contiguous pop_back clear_buffers
  step w (written v) = record w { buffer = write array v w.buffer; writes = w.writes ++ v ∷ [] }
  step w turned = record w { buffer = drain_turn array w.buffer }
  step w read =
      let (out, b) = pop_front array w.buffer in
      record w { buffer = b; reads = w.reads ++ listed out }
  step w read_all =
      let (all, b) = drain_contiguous array w.buffer in
      record w { buffer = b; reads = w.reads ++ all }
  step w discarded_back =
      let b = pop_back array w.buffer in
      let gone = length w.buffer.storage - length b.storage in
      record w { buffer = b; discarded = w.discarded + gone }
  step w cleared =
      let gone = length w.buffer.storage + length (waiting array w.buffer) in
      record w { buffer = clear_buffers array w.buffer; discarded = w.discarded + gone }

  unfoldable pub run : World → List Step → World
  unfolding step
  run w [] = w
  run w (s ∷ steps) = run (step w s) steps

  abbrev pub start : ℕ → ℕ → World
  start capacity storage_capacity = record {
    buffer = make_buffer array capacity storage_capacity;
    reads = [];
    writes = [];
    discarded = 0;
  }

  abbrev pub held : World → List A
  held w = w.reads ++ (w.buffer.storage ++ waiting array w.buffer)

  abbrev pub lost_count : World → ℕ
  lost_count w = w.buffer.drops + w.buffer.write_queue.dropped + w.discarded

  pub record IsWorld (w : World) : Type 0 where
    pub is_buffer : IsBuffer array w.buffer
    pub in_order : Subsequence (held w) w.writes
    pub counted : length w.writes < 2 ^ 64 → length (held w) + lost_count w ≡ length w.writes

  pub length-held :
      (w : World)
      → length (held w)
        ≡ length w.reads + (length w.buffer.storage + length (waiting array w.buffer))
  length-held w =
      length-append w.reads (w.buffer.storage ++ waiting array w.buffer)
      ∙ ap (λ n. length w.reads + n) (length-append w.buffer.storage (waiting array w.buffer))

  pub within_reads :
      (reads ys ys' all : List A)
      → Subsequence (reads ++ ys) all
      → Subsequence ys' ys
      → Subsequence (reads ++ ys') all
  within_reads reads ys ys' all p q =
      Subsequence-trans p (Subsequence-append ys' ys (Subsequence-refl reads) q)

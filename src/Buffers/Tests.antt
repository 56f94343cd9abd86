-- ===== src/Buffers/Tests.antt =====
-- base/src/mpsc_queue.rs and double_buffer.rs: runs of the model over a bounded list, and the
-- theorems at inputs that meet their hypotheses.
use cfw.Prelude.{◌≡◌, refl, List, [], ◌∷◌, arith}
use cfw.Buffers.Bounded.{bounded}
use cfw.Buffers.DoubleBuffer.{DoubleBuffer, drain_writer_to_reader, make_buffer}
use cfw.Buffers.Laws.{waiting, IsBuffer, drain_writer_to_reader_lem}
use cfw.Buffers.World.{
  Step, written, turned, read, discarded_back, cleared, read_all, start, run, IsWorld,
}
use cfw.Buffers.Order.{run-IsWorld}

-- A queue of two loses the first of three writes; a buffer of one keeps the last of the others.
abbrev steps : List (Step bounded)
steps =
    written 1
    ∷ written 2
    ∷ written 3
    ∷ turned
    ∷ written 4
    ∷ turned
    ∷ turned
    ∷ read
    ∷ written 5
    ∷ turned
    ∷ discarded_back
    ∷ written 6
    ∷ turned
    ∷ read_all
    ∷ written 7
    ∷ cleared
    ∷ []

runs : (run bounded (start bounded 2 1) steps).reads ≡ 4 ∷ 6 ∷ []
unfolding run make_buffer
runs = refl

loses : (run bounded (start bounded 2 1) steps).buffer.drops ≡ 2
unfolding run make_buffer
loses = refl

run_example : IsWorld bounded (run bounded (start bounded 2 1) steps)
run_example = run-IsWorld bounded 2 1 steps (omega arith)

abbrev buffer : DoubleBuffer bounded
buffer = record {
  write_queue = record { inner = record { items = 3 ∷ 4 ∷ []; bound = 2 }; dropped = 0 };
  storage = 1 ∷ 2 ∷ [];
  storage_capacity = 3;
  drops = 0;
}

drain_example :
    IsBuffer bounded (drain_writer_to_reader bounded buffer)
    × (waiting bounded (drain_writer_to_reader bounded buffer) ≡ [])
    × ((drain_writer_to_reader bounded buffer).storage ≡ 2 ∷ 3 ∷ 4 ∷ [])
    × ((drain_writer_to_reader bounded buffer).drops ≡ 1)
drain_example =
    drain_writer_to_reader_lem bounded buffer
      (record { within = omega arith; positive = omega arith; drops_lt = omega arith })

-- ===== src/Lib.antt =====
-- A verification library for cfw, a framework in which callbacks publish messages on channels and
-- subscribe to them, with executors that run them live, in a simulation, or from a recorded log.
-- It models the parts that decide when a callback runs and in which order messages are seen, and
-- states what makes them correct.
--
-- How the parts interact. A graph (task_graph) gives every callback a schedule: a pool, a period
-- or a user's rule for its next deadline, and a duration. The live executor (live_executor) claims
-- callbacks for worker threads as notifications arrive. The simulation executor
-- (simulation_executor) instead moves a simulated clock from event to event and commits each batch
-- of callbacks in a fixed order. Both compute with FrameworkTime (task). A recorded log (logging)
-- is read back in the order of time by a sorted reader, whose entries a simulation takes as its
-- input.
--
-- The files, with the code that each is about:
--
-- - Prelude: numbers with Boolean tests, lists over the native numbers, signed integers, and
--   Rust's Result.
-- - Sort: insertion sort, standing for the standard library's stable sorts, and the merge of two
--   runs as logging/src/sorted_log_stream.rs writes it.
-- - Time: task/src/time.rs. FrameworkTime is a signed integer of 64 bits; from_nanos, from_millis,
--   from_micros, from_secs, the checked and the clamping sums, with the wrap-around of a release
--   build.
-- - Schedule: CallbackSchedule of task_graph/src/graph.rs with its builders, duration and
--   next_after.
-- - Scheduler: live_executor/src/pool_state.rs and pool_worker.rs. Every atomic operation of
--   notify, enqueue, claim and finish is one step of a thread's program counter (Pc), and a run is
--   any interleaving of steps by any number of threads; a step relation on the shared state and an
--   invariant of it (Scheduler/Invariant) give the safety properties.
-- - Simulation: simulation_executor/src/state.rs and callback_execution.rs. Threads counts the
--   free threads of the virtual pools and selects a batch; Refresh is refresh and the notification
--   bytes; Actions is insert_action and the loop over due actions; Batch is run_prepared_batch;
--   Phases and Step are step_inner, step and run_until_idle; New is with_config; Reach says which
--   states can be reached.
-- - SortedLog: logging/src/sorted_log_stream.rs. The root holds spill, merge, add_run and
--   sort_run; Reader is the cursor with advance, next_entry and read_until; Scan is from_reader
--   and from_entries.
-- - StaticVec: base/src/static_vec.rs as an array of slots that are uninitialised, live or dead.
--   Spec holds the operations as commands and their meaning on lists.
-- - Schema: the descriptor and the records of a log, task/src/execution_log_schema.rs.
-- - NameTables: logging/src/intern_tables.rs, the decoding of a log's tables of names and their
--   check against its descriptor.
-- - ExactReplay: exact_replay_executor/src/replay_log.rs. The root has the descriptor's checks and
--   the search for an endpoint; Load is push and finish; Trace reads off, for every record, what
--   the earlier ones published; FromSorted is from_sorted.
-- - ReplayFeed: logging/src/replay_feed.rs. The root has advance, Inject has new and
--   inject_due_while.
-- - ReplayClock: live_replay_executor/src/clock.rs with sample, start, pause, resume, set_speed
--   and the readings of a sequence of calls.
-- - Buffers: base/src/mpsc_queue.rs in the root, base/src/double_buffer.rs in DoubleBuffer. World
--   has the steps of publishers, of a drain and of the reader in one sequence; the turns of a
--   drain are steps of their own, between which publishers may write.
-- - Arena: base/src/arena.rs. Each pointer is a holder at a place of its call, and each atomic
--   operation a step; Weights sums what the holders count for, Moves and Places keep the sums,
--   Pigeonhole leaves a place for an index that comes back, New makes the slots, Safety and Runs
--   are about failures.
-- - Interner: base/src/string_interner.rs. Table relates a table to the list of its names; an
--   identifier is a place in that list.
--
-- Parameters. What the code calls outside this repository, or what a user supplies, is an argument
-- of the model: serde_json (the parsing of a line and of an artifact, the printing of a value, the
-- record Decoders), crossbeam's ArrayQueue (a record of operations on a queue with the list of its
-- elements, given to Buffers as a parameter and to Arena as an instance), floating-point scaling
-- and the clock of the host (Speeds), the injection of an input into a source, the test by which a
-- caller stops a feed, the bodies of callbacks and their commits (the record Environment), and the
-- two user functions of a schedule. A body owns its callback, so it is a function of its job. A
-- theorem that takes such a parameter holds for every value of it.
--
-- Bounds and fuel. Machine integers keep their width: times and durations at 63, 64 and 127 bits,
-- counters at 64 bits. Where a loop of the source has no evident measure the model has fuel, and a
-- theorem shows that it is enough: read_until turns at most once for every line left and once
-- more, the loop over due actions at most once for every action that is due, the loops that
-- advance a feed, inject its inputs and load a log at most once for every line of the log and once
-- more, and a drain makes room at most once for every element of its buffer. Panics of the
-- executor's own code (an index out of range, a count below zero) are error values, so that their
-- absence is a theorem. The unwrap of a missing source in a feed, which unwinds without marking
-- the feed as failed, is an error of the call like any other in the model; a feed is only made of
-- a log whose channels of data all have a source or a denial.
--
-- Not modelled: failures of the file system, temporary files and the encoding of a run; the
-- orderings of memory weaker than sequential consistency; threads, clocks and shutdown of the live
-- executor and its timers; the rank table by which a simulation restores the order of its
-- selection; the logging session, the freezing of its tables of names and the log simulation; the
-- steps of the exact replay executor and its plan; the building of graphs; channels, publishers
-- and the storage of callbacks; iceoryx2 and its events; procedural macros, test support, examples
-- and build rules.
pub mod Arena
pub mod Buffers
pub mod ExactReplay
pub mod Interner
pub mod NameTables
pub mod Prelude
pub mod ReplayClock
pub mod ReplayFeed
pub mod Schedule
pub mod Scheduler
pub mod Schema
pub mod Simulation
pub mod Sort
pub mod SortedLog
pub mod StaticVec
pub mod Time

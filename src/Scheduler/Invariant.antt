-- ===== src/Scheduler/Invariant.antt =====
-- pool_state.rs: every move of every thread keeps the accounting of Scheduler/Weights.antt.
mod Balance
mod Facts
mod Notify
mod Worker
mod Moves
pub use Moves.{Fine, step-Fine}

-- ===== src/Scheduler/Invariant/Moves.antt =====
-- pool_state.rs, pool_worker.rs: whatever thread moves, by whatever event, the invariant is kept
-- and nothing panics.
use cfw.Prelude.{
  ℕ, ◌≡◌, refl, some, List, length, get_elem?, arith, inl, inr, true, Option-cases, ltb,
}
use cfw.Scheduler.{Scheduler}
use cfw.Scheduler.Threads.{
  Pc, System, Event, Outcome, moved, blocked, panicked, receive_from, retry_notify, continue,
  fail_exchange, begin, returned, advance, Progress, next, stuck, panic, settle, pick, step,
}
use cfw.Scheduler.Weights.{Inv, holds_active}
use cfw.Scheduler.Invariant.Balance.{moved_locally}
use cfw.Scheduler.Invariant.Facts
use cfw.Scheduler.Invariant.Facts.{Kept, if_Kept}
use cfw.Scheduler.Invariant.Notify
use cfw.Scheduler.Invariant.Worker

module _ (pool_of : ℕ → ℕ) (s : Scheduler) (ts : List Pc) (i : ℕ)
    (v : Inv pool_of (record { scheduler = s; threads = ts })) where
  continue-Kept : (pc : Pc) → get_elem? ts i ≡ some pc → Kept pool_of ts i (continue pc s)
  unfolding continue holds_active
  continue-Kept (Pc.entered n t) here = Notify.entered_moves pool_of s ts i v n t here
  continue-Kept (Pc.checked n t) here = Notify.checked_moves pool_of s ts i v n t here
  continue-Kept (Pc.examined n t c) here = Notify.examined_moves pool_of s ts i v n t c here
  continue-Kept (Pc.counted n t c) here =
      let (d, e) = Facts.found pool_of s ts i v n (Facts.on_course pool_of s ts i v here) in
      rw e (Notify.exchange_moves pool_of s ts i v n t c d here e)
  continue-Kept (Pc.uncounting n t a) here = Notify.uncounting_moves pool_of s ts i v n t a here
  continue-Kept (Pc.enqueuing n) here = Worker.enqueuing_moves pool_of s ts i v n here
  continue-Kept (Pc.received n) here = Worker.received_moves pool_of s ts i v n here
  continue-Kept (Pc.accepted n) here = Worker.accepted_moves pool_of s ts i v n here
  continue-Kept (Pc.finishing n ok) here =
      Worker.finishing_moves pool_of s ts i v n ok (Pc.finishing n ok) here (λ _. refl) (λ _. refl)
        (λ _. refl) refl (Facts.on_course pool_of s ts i v here)
  continue-Kept (Pc.released n ok c) here = Worker.released_moves pool_of s ts i v n ok c here
  continue-Kept (Pc.completing n) here = Worker.completing_moves pool_of s ts i v n here
  continue-Kept (Pc.deactivating n) here = Worker.deactivating_moves pool_of s ts i v n here
  continue-Kept _ here = tt

  fail_exchange-Kept : (pc : Pc) → get_elem? ts i ≡ some pc → Kept pool_of ts i (fail_exchange pc s)
  unfolding fail_exchange holds_active retry_notify
  fail_exchange-Kept (Pc.counted n t c) here =
      let (d, e) = Facts.found pool_of s ts i v n (Facts.on_course pool_of s ts i v here) in
      rw e (Notify.retry_moves pool_of s ts i v n t c d.phase here)
  fail_exchange-Kept (Pc.released n ok c) here =
      Worker.finishing_moves pool_of s ts i v n ok (Pc.released n ok c) here (λ _. refl) (λ _. refl)
        (λ _. refl) refl (omega (arith, Facts.on_course pool_of s ts i v here))
  fail_exchange-Kept _ here = tt

  begin-Kept : (e : Event) → get_elem? ts i ≡ some Pc.rest → Kept pool_of ts i (begin e s)
  unfolding begin holds_active receive_from
  begin-Kept (Event.call n t) here =
      if_Kept pool_of ts i (ltb n (length s.nodes)) _ _
        (λ inside.
          moved_locally pool_of s ts i Pc.rest (Pc.entered n t) here v s refl refl refl (λ _. refl)
            (λ _. refl) (λ _. refl) (ground arith))
        (λ _. tt)
  begin-Kept Event.stop here =
      moved_locally pool_of s ts i Pc.rest Pc.rest here v (record s { stopped = true }) refl refl
        refl (λ _. refl) (λ _. refl) (λ _. refl) refl
  begin-Kept (Event.receive p) here = elim (Option-cases (get_elem? s.pools p)) [
    | inl e ↦ rw (e, receive_from) tt
    | inr (pool, e) ↦
        rw (e, receive_from) (Worker.take_moves pool_of s ts i v p pool pool.work here e refl)
  ]
  begin-Kept _ here = tt

  returned-Kept :
      (e : Event) (n : ℕ)
      → get_elem? ts i ≡ some (Pc.executing n)
      → Kept pool_of ts i (returned e n s)
  unfolding returned holds_active
  returned-Kept (Event.ran ok) n here =
      moved_locally pool_of s ts i (Pc.executing n) (Pc.finishing n ok) here v s refl refl refl
        (λ _. refl) (λ _. refl) (λ _. refl) (Facts.on_course pool_of s ts i v here)
  returned-Kept Event.fail n here =
      moved_locally pool_of s ts i (Pc.executing n) (Pc.failed n) here v s refl refl refl
        (λ _. refl) (λ _. refl) (λ _. refl) refl
  returned-Kept _ n here = tt

  pub advance-Kept :
      (e : Event) (pc : Pc) → get_elem? ts i ≡ some pc → Kept pool_of ts i (advance e pc s)
  unfolding advance
  advance-Kept Event.proceed pc here = continue-Kept pc here
  advance-Kept Event.spurious pc here = fail_exchange-Kept pc here
  advance-Kept e Pc.rest here = begin-Kept e here
  advance-Kept e (Pc.executing n) here = returned-Kept e n here
  advance-Kept _ _ here = tt

abbrev pub Fine : (ℕ → ℕ) → Progress → Type 0
Fine pool_of (next y) = Inv pool_of y
Fine pool_of stuck = Unit {0}
Fine pool_of panic = ⊥

settle-Fine :
    (pool_of : ℕ → ℕ) (ts : List Pc) (i : ℕ) (o : Outcome)
    → Kept pool_of ts i o
    → Fine pool_of (settle ts i o)
unfolding settle
settle-Fine pool_of ts i (moved pc s) k = k
settle-Fine pool_of ts i blocked k = tt
settle-Fine pool_of ts i panicked k = k

pub step-Fine :
    (pool_of : ℕ → ℕ) (i : ℕ) (e : Event) (y : System) → Inv pool_of y → Fine pool_of (step i e y)
unfolding step
step-Fine pool_of i e y v = elim (Option-cases (get_elem? y.threads i)) [
  | inl q ↦ rw (q, pick) tt
  | inr (pc, q) ↦
      rw (q, pick)
        (settle-Fine pool_of y.threads i (advance e pc y.scheduler)
          (advance-Kept pool_of y.scheduler y.threads i v e pc q))
]

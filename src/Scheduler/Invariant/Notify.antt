-- ===== src/Scheduler/Invariant/Notify.antt =====
-- pool_state.rs, `notify`: each of its accesses keeps the invariant, and none panics.
use cfw.Prelude.{ℕ, ◌≡◌, refl, some, List, get_elem?, if◌then◌else◌, arith, Bool}
use cfw.Scheduler.{
  Phase, NodeState, Scheduler, phase_eq, new_work, next_notify, wrapping_inc, wrapping_dec,
}
use cfw.Scheduler.Threads.{Pc, retry, exchange, load_notify, continue}
use cfw.Scheduler.Weights.{Inv, holds_active}
use cfw.Scheduler.Invariant.Balance.{moved_locally, moved_with_phase}
use cfw.Scheduler.Invariant.Facts
use cfw.Scheduler.Invariant.Facts.{phase_eq-eq, is_queued_eq, Kept, if_Kept, next_notify_cases}

module _ (pool_of : ℕ → ℕ) (s : Scheduler) (ts : List Pc) (i : ℕ)
    (v : Inv pool_of (record { scheduler = s; threads = ts })) where
  pub entered_moves :
      (n : ℕ) (t : Bool)
      → get_elem? ts i ≡ some (Pc.entered n t)
      → Kept pool_of ts i (continue (Pc.entered n t) s)
  unfolding continue holds_active
  entered_moves n t here =
      if_Kept pool_of ts i s.stopped _ _
        (λ _.
          moved_locally pool_of s ts i (Pc.entered n t) Pc.rest here v s refl refl refl (λ _. refl)
            (λ _. refl) (λ _. refl) refl)
        (λ _.
          moved_locally pool_of s ts i (Pc.entered n t) (Pc.checked n t) here v s refl refl refl
            (λ _. refl) (λ _. refl) (λ _. refl) (Facts.on_course pool_of s ts i v here))

  pub checked_moves :
      (n : ℕ) (t : Bool)
      → get_elem? ts i ≡ some (Pc.checked n t)
      → Kept pool_of ts i (continue (Pc.checked n t) s)
  unfolding continue holds_active load_notify
  checked_moves n t here =
      let (d, e) = Facts.found pool_of s ts i v n (Facts.on_course pool_of s ts i v here) in
      rw (e, load_notify)
        (moved_locally pool_of s ts i (Pc.checked n t) (Pc.examined n t d.phase) here v s refl refl
          refl (λ _. refl) (λ _. refl) (λ _. refl) (Facts.on_course pool_of s ts i v here))

  pub examined_moves :
      (n : ℕ) (t : Bool) (current : Phase)
      → get_elem? ts i ≡ some (Pc.examined n t current)
      → Kept pool_of ts i (continue (Pc.examined n t current) s)
  unfolding continue holds_active
  examined_moves n t current here =
      if_Kept pool_of ts i (new_work current t) _ _
        (λ e.
          moved_locally pool_of s ts i (Pc.examined n t current) (Pc.counted n t current) here v
            (record s { active = wrapping_inc s.active }) refl refl
            (rw e (omega (arith, Facts.active_fits pool_of s ts i v here refl))) (λ _. refl)
            (λ _. refl) (λ _. refl) (Facts.on_course pool_of s ts i v here))
        (λ e.
          moved_locally pool_of s ts i (Pc.examined n t current) (Pc.counted n t current) here v s
            refl refl (rw e refl) (λ _. refl) (λ _. refl) (λ _. refl)
            (Facts.on_course pool_of s ts i v here))

  pub retry_moves :
      (n : ℕ) (t : Bool) (current actual : Phase)
      → get_elem? ts i ≡ some (Pc.counted n t current)
      → Kept pool_of ts i (retry n t current actual s)
  unfolding retry holds_active
  retry_moves n t current actual here =
      if_Kept pool_of ts i (new_work current t) _ _
        (λ e.
          moved_locally pool_of s ts i (Pc.counted n t current) (Pc.uncounting n t actual) here v s
            refl refl (rw e refl) (λ _. refl) (λ _. refl) (λ _. refl)
            (Facts.on_course pool_of s ts i v here))
        (λ e.
          moved_locally pool_of s ts i (Pc.counted n t current) (Pc.examined n t actual) here v s
            refl refl (rw e refl) (λ _. refl) (λ _. refl) (λ _. refl)
            (Facts.on_course pool_of s ts i v here))

  pub exchange_moves :
      (n : ℕ) (t : Bool) (current : Phase) (d : NodeState)
      → get_elem? ts i ≡ some (Pc.counted n t current)
      → get_elem? s.nodes n ≡ some d
      → Kept pool_of ts i (exchange n t current s (some d))
  unfolding exchange holds_active
  exchange_moves n t current d here e =
      if_Kept pool_of ts i (phase_eq d.phase current) _ _
        (λ same.
          moved_with_phase pool_of s ts i (Pc.counted n t current)
            (if new_work current t then Pc.enqueuing n else Pc.rest) here v n d
            (next_notify current t) e
            (ground (arith, next_notify_cases current t, phase_eq-eq d.phase current same))
            (λ m. ground (arith, next_notify_cases current t, phase_eq-eq d.phase current same))
            (λ m. ground (arith, next_notify_cases current t, phase_eq-eq d.phase current same))
            (λ p. ground (arith, next_notify_cases current t, phase_eq-eq d.phase current same))
            (ground (arith, Facts.on_course pool_of s ts i v here)))
        (λ _. retry_moves n t current d.phase here)

  pub uncounting_moves :
      (n : ℕ) (t : Bool) (actual : Phase)
      → get_elem? ts i ≡ some (Pc.uncounting n t actual)
      → Kept pool_of ts i (continue (Pc.uncounting n t actual) s)
  unfolding continue holds_active
  uncounting_moves n t actual here =
      moved_locally pool_of s ts i (Pc.uncounting n t actual) (Pc.examined n t actual) here v
        (record s { active = wrapping_dec s.active }) refl refl
        (omega (
          arith,
          Facts.active_pos pool_of s ts i v here refl,
          Facts.active_fits_too pool_of s ts i v,
        ))
        (λ _. refl) (λ _. refl) (λ _. refl) (Facts.on_course pool_of s ts i v here)

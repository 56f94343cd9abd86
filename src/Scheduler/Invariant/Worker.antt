-- ===== src/Scheduler/Invariant/Worker.antt =====
-- pool_worker.rs, and `enqueue`, `claim` and `finish` of pool_state.rs: each access keeps the
-- invariant, and none panics.
use cfw.Prelude.{
  ℕ, ◌+◌, ◌≤◌, ◌<◌, ◌≡◌, refl, some, List, [], ◌∷◌, ◌++◌, length, get_elem?, set, if◌then◌else◌,
  arith, get_elem?-lt, get_elem?-of_lt, total-get_elem?-le, ◌⊎◌, inl, inr, Bool, true, false, sym,
  length-append, total_mono, All, lt→ltb, subst,
}
use cfw.Scheduler.{
  Phase, idle, queued, running, retriggered, waiting, readiness_changed, PoolState, NodeState,
  Scheduler, set_phase, phase_eq, next_finish, wrapping_inc, wrapping_dec,
}
use cfw.Scheduler.Threads.{Pc, send, enqueue, take_work, claim, load_finish, release, continue}
use cfw.Scheduler.Weights.{
  Inv, is_active, is_queued, is_claimed, queued_in, in_pool, occurrences, holds_active, holds_entry,
  holds_entry_in, holds_claim, beyond, Placed,
}
use cfw.Scheduler.Invariant.Balance.{moved_locally, moved_with_phase, moved_with_queue}
use cfw.Scheduler.Invariant.Facts
use cfw.Scheduler.Invariant.Facts.{phase_eq-eq, is_queued_eq, Kept, if_Kept, next_notify_cases}

next_finish_cases :
    (c : Phase) (ok : Bool)
    → is_claimed c ≡ 1
    → (is_active c ≡ 1)
      × (is_queued c ≡ 0)
      × ((next_finish c ok ≡ some queued)
          ⊎ ((n : Phase) × (next_finish c ok ≡ some n)
              × (phase_eq n queued ≡ false)
              × (is_active n ≡ 0)
              × (is_queued n ≡ 0)
              × (is_claimed n ≡ 0)))
unfolding next_finish phase_eq
next_finish_cases running true h = (refl, refl, inr (idle, refl, refl, refl, refl, refl))
next_finish_cases running false h = (refl, refl, inr (waiting, refl, refl, refl, refl, refl))
next_finish_cases readiness_changed true h = (refl, refl, inr (idle, refl, refl, refl, refl, refl))
next_finish_cases readiness_changed false h = (refl, refl, inl refl)
next_finish_cases retriggered ok h = (refl, refl, inl refl)
next_finish_cases idle ok h = absurd (omega arith)
next_finish_cases queued ok h = absurd (omega arith)
next_finish_cases waiting ok h = absurd (omega arith)

occurrences-append :
    (n m : ℕ) (ms : List ℕ)
    → occurrences n (ms ++ m ∷ []) ≡ occurrences n ms + occurrences n (m ∷ [])
unfolding occurrences
occurrences-append n m [] = omega arith
occurrences-append n m (k ∷ ms) = omega (arith, occurrences-append n m ms)

All-append {ℓ κ} :
    {A : Type ℓ} (P : A → Type κ) (xs : List A) (y : A) → All P xs → P y → All P (xs ++ y ∷ [])
All-append P [] y h p = (p, tt)
All-append P (x ∷ xs) y h p = (h.0, All-append P xs y h.1 p)

queued_in-le : (p : ℕ) (d : NodeState) → queued_in p d ≤ in_pool p d
queued_in-le p d = ground arith

module _ (pool_of : ℕ → ℕ) (s : Scheduler) (ts : List Pc) (i : ℕ)
    (v : Inv pool_of (record { scheduler = s; threads = ts })) where
  pub received_moves :
      (n : ℕ)
      → get_elem? ts i ≡ some (Pc.received n)
      → Kept pool_of ts i (continue (Pc.received n) s)
  unfolding continue holds_active
  received_moves n here =
      if_Kept pool_of ts i s.stopped _ _
        (λ _.
          moved_locally pool_of s ts i (Pc.received n) (Pc.abandoned n) here v s refl refl refl
            (λ _. refl) (λ _. refl) (λ _. refl) refl)
        (λ _.
          moved_locally pool_of s ts i (Pc.received n) (Pc.accepted n) here v s refl refl refl
            (λ _. refl) (λ _. refl) (λ _. refl) (Facts.on_course pool_of s ts i v here))

  -- The assertion of `claim` holds: whoever carries a node's entry finds the node queued.
  pub accepted_moves :
      (n : ℕ)
      → get_elem? ts i ≡ some (Pc.accepted n)
      → Kept pool_of ts i (continue (Pc.accepted n) s)
  unfolding continue holds_active claim phase_eq
  accepted_moves n here =
      let (d, e) = Facts.found pool_of s ts i v n (Facts.on_course pool_of s ts i v here) in
      let one =
        Facts.has_entry pool_of s ts i v n d here e
          (rw (Facts.self pool_of s ts i v n) (omega arith)) in
      let q : d.phase ≡ queued = is_queued_eq d.phase one in
      rw (e, claim, q, phase_eq)
        (moved_with_phase pool_of s ts i (Pc.accepted n) (Pc.executing n) here v n d running e
          (rw q refl) (λ m. rw q (ground arith)) (λ m. rw q (ground arith))
          (λ p. rw q (ground arith)) (Facts.on_course pool_of s ts i v here))

  pub finishing_moves :
      (n : ℕ) (ok : Bool) (pc : Pc)
      → get_elem? ts i ≡ some pc
      → ((m : ℕ) → holds_claim m pc ≡ holds_claim m (Pc.finishing n ok))
      → ((m : ℕ) → holds_entry m pc ≡ 0)
      → ((p : ℕ) → holds_entry_in pool_of p pc ≡ 0)
      → holds_active pc ≡ 0
      → beyond (length s.nodes) n ≡ 0
      → Kept pool_of ts i (load_finish n ok s (get_elem? s.nodes n))
  unfolding holds_active load_finish
  finishing_moves n ok pc here claims entries backlog active inside =
      let (d, e) = Facts.found pool_of s ts i v n inside in
      let one =
        Facts.claimed pool_of s ts i v n d here e
          (rw (claims n, Facts.self pool_of s ts i v n) (omega arith)) in
      rw (e, load_finish)
        (moved_locally pool_of s ts i pc (Pc.released n ok d.phase) here v s refl refl
          (omega (arith, active)) (λ m. sym (entries m)) (λ m. sym (claims m))
          (λ p. sym (backlog p)) (omega (arith, inside, one)))

  pub completing_moves :
      (n : ℕ)
      → get_elem? ts i ≡ some (Pc.completing n)
      → Kept pool_of ts i (continue (Pc.completing n) s)
  unfolding continue holds_active
  completing_moves n here =
      moved_locally pool_of s ts i (Pc.completing n) (Pc.deactivating n) here v
        (record s { completed = wrapping_inc s.completed }) refl refl refl (λ _. refl) (λ _. refl)
        (λ _. refl) refl

  pub deactivating_moves :
      (n : ℕ)
      → get_elem? ts i ≡ some (Pc.deactivating n)
      → Kept pool_of ts i (continue (Pc.deactivating n) s)
  unfolding continue holds_active
  deactivating_moves n here =
      moved_locally pool_of s ts i (Pc.deactivating n) Pc.rest here v
        (record s { active = wrapping_dec s.active }) refl refl
        (omega (
          arith,
          Facts.active_pos pool_of s ts i v here refl,
          Facts.active_fits_too pool_of s ts i v,
        ))
        (λ _. refl) (λ _. refl) (λ _. refl) refl

  -- The exchange of `finish`, where the phase is the one that was read.
  released_wins :
      (n : ℕ) (ok : Bool) (current next : Phase) (d : NodeState)
      → get_elem? ts i ≡ some (Pc.released n ok current)
      → get_elem? s.nodes n ≡ some d
      → d.phase ≡ current
      → is_claimed current ≡ 1
      → next_finish current ok ≡ some next
      → Inv pool_of (record {
        scheduler = set_phase s n d next;
        threads = set ts i (if phase_eq next queued then Pc.enqueuing n else Pc.completing n);
      })
  unfolding holds_active phase_eq
  released_wins n ok current next d here e same one f =
      let cases = next_finish_cases current ok one in
      elim cases.2 [
        | inl q ↦
            let eq : next ≡ queued = ground (arith, q) in
            rw eq (
              moved_with_phase pool_of s ts i (Pc.released n ok current) (Pc.enqueuing n) here v n d
                queued e (ground (arith, cases.0)) (λ m. ground (arith, cases.1))
                (λ m. ground (arith, one)) (λ p. ground (arith, cases.1))
                (omega (arith, Facts.on_course pool_of s ts i v here)))
        | inr (x, q, differs, a, b, c) ↦
            let eq : next ≡ x = ground (arith, q) in
            rw (eq, differs)
              (moved_with_phase pool_of s ts i (Pc.released n ok current) (Pc.completing n) here v n
                d x e (ground (arith, cases.0)) (λ m. ground (arith, cases.1))
                (λ m. ground (arith, one)) (λ p. ground (arith, cases.1)) refl)
      ]

  next_of : (c : Phase) (ok : Bool) → is_claimed c ≡ 1 → (n : Phase) × (next_finish c ok ≡ some n)
  next_of c ok one = elim (next_finish_cases c ok one).2 [
    | inl q ↦ (queued, q)
    | inr r ↦ (r.0, r.1)
  ]

  pub released_moves :
      (n : ℕ) (ok : Bool) (current : Phase)
      → get_elem? ts i ≡ some (Pc.released n ok current)
      → Kept pool_of ts i (continue (Pc.released n ok current) s)
  unfolding continue holds_active release load_finish
  released_moves n ok current here =
      let course = Facts.on_course pool_of s ts i v here in
      let inside : beyond (length s.nodes) n ≡ 0 = omega (arith, course) in
      let one : is_claimed current ≡ 1 = ground (arith, course) in
      let (d, e) = Facts.found pool_of s ts i v n inside in
      let (next, q) = next_of current ok one in
      let lost =
        finishing_moves n ok (Pc.released n ok current) here (λ _. refl) (λ _. refl) (λ _. refl)
          refl inside in
      rw (q, e, release)
        (if_Kept pool_of ts i (phase_eq d.phase current) _ _
          (λ same.
            released_wins n ok current next d here e (phase_eq-eq d.phase current same) one q)
          (λ _. rw (e, load_finish) at lost))

  -- The channel has room: a queue never holds more entries than its pool has nodes.
  queue_has_room :
      (n p : ℕ) (pool : PoolState)
      → get_elem? ts i ≡ some (Pc.enqueuing n)
      → p ≡ pool_of n
      → get_elem? s.pools p ≡ some pool
      → length pool.work < pool.capacity
  queue_has_room n p pool here same e = ground (
    arith,
    v.backlog p pool e,
    v.room p pool e,
    total-get_elem?-le (holds_entry_in pool_of p) ts i (Pc.enqueuing n) here,
    total_mono (queued_in p) (in_pool p) (queued_in-le p) s.nodes,
  )

  send_moves :
      (n p : ℕ) (pool : PoolState)
      → get_elem? ts i ≡ some (Pc.enqueuing n)
      → n < length s.nodes
      → p ≡ pool_of n
      → get_elem? s.pools p ≡ some pool
      → Kept pool_of ts i (send n p s (some pool))
  unfolding holds_active send occurrences
  send_moves n p pool here inside same q = rw (lt→ltb _ _ (queue_has_room n p pool here same q)) (
      moved_with_queue pool_of s ts i (Pc.enqueuing n) Pc.rest here v p pool (pool.work ++ n ∷ []) q
        refl (λ m. omega (arith, occurrences-append m n pool.work)) (λ _. refl)
        (λ k. ground (arith, length-append pool.work (n ∷ [])))
        (All-append (λ m. (pool_of m ≡ p) × (m < length s.nodes)) pool.work n (v.placed p pool q)
          (sym same, inside))
        refl)

  pub enqueuing_moves :
      (n : ℕ)
      → get_elem? ts i ≡ some (Pc.enqueuing n)
      → Kept pool_of ts i (continue (Pc.enqueuing n) s)
  unfolding continue enqueue
  enqueuing_moves n here =
      let (d, e) = Facts.found pool_of s ts i v n (Facts.on_course pool_of s ts i v here) in
      let (same, known) = v.assigned n d e in
      let (pool, q) = get_elem?-of_lt s.pools d.pool (rw same known) in
      rw (e, enqueue, q) (send_moves n d.pool pool here (get_elem?-lt s.nodes n e) same q)

  pub take_moves :
      (p : ℕ) (pool : PoolState) (work : List ℕ)
      → get_elem? ts i ≡ some Pc.rest
      → get_elem? s.pools p ≡ some pool
      → pool.work ≡ work
      → Kept pool_of ts i (take_work p work s pool)
  unfolding take_work holds_active occurrences
  take_moves p pool [] here q e = tt
  take_moves p pool (n ∷ work) here q e =
      let placed : Placed pool_of (length s.nodes) p (n ∷ work) =
        subst (Placed pool_of (length s.nodes) p) e (v.placed p pool q) in
      moved_with_queue pool_of s ts i Pc.rest (Pc.received n) here v p pool work q refl
        (λ m. rw e (omega arith)) (λ _. refl) (λ k. rw e (ground (arith, placed.0))) placed.1
        (ground (arith, placed.0))

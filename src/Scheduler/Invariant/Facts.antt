-- ===== src/Scheduler/Invariant/Facts.antt =====
-- pool_state.rs: what a thread's place in the code says of the node that it is about.
use cfw.Prelude.{
  ℕ, ◌+◌, ◌≤◌, ◌<◌, ◌≡◌, refl, some, List, length, get_elem?, set, ◌==◌, if◌then◌else◌, arith,
  total-set, length-set, get_elem?-of_lt, total-get_elem?-le, ◌⊎◌, Bool, true, false,
  total-le-length,
}
use cfw.Scheduler.{Phase, queued, NodeState, Scheduler, usize_mod, phase_eq, new_work, next_notify}
use cfw.Scheduler.Threads.{Pc, Outcome, moved, blocked, panicked}
use cfw.Scheduler.Weights.{
  Inv, is_active, is_queued, is_claimed, node_active, holds_active, holds_entry, holds_claim,
  astray, beyond,
}

pub phase_eq-eq : (a b : Phase) → phase_eq a b ≡ true → a ≡ b
unfolding phase_eq
phase_eq-eq a b h = ground arith

abbrev pub Kept : (ℕ → ℕ) → List Pc → ℕ → Outcome → Type 0
Kept pool_of ts i (moved pc s) = Inv pool_of (record { scheduler = s; threads = set ts i pc })
Kept pool_of ts i blocked = Unit {0}
Kept pool_of ts i panicked = ⊥

pub is_queued_eq : (c : Phase) → 1 ≤ is_queued c → c ≡ queued
is_queued_eq c h = ground arith

pub if_Kept :
    (pool_of : ℕ → ℕ) (ts : List Pc) (i : ℕ) (b : Bool) (x y : Outcome)
    → (b ≡ true → Kept pool_of ts i x)
    → (b ≡ false → Kept pool_of ts i y)
    → Kept pool_of ts i (if b then x else y)
if_Kept pool_of ts i true x y f g = f refl
if_Kept pool_of ts i false x y f g = g refl

holds_active-le-one : (pc : Pc) → holds_active pc ≤ 1
unfolding holds_active
holds_active-le-one (Pc.counted n t current) = ground arith
holds_active-le-one _ = omega arith

node_active-le-one : (d : NodeState) → node_active d ≤ 1
node_active-le-one d = ground arith

pub next_notify_cases :
    (c : Phase) (t : Bool)
    → ((new_work c t ≡ true)
        × (next_notify c t ≡ queued)
        × (is_active c ≡ 0)
        × (is_queued c ≡ 0)
        × (is_claimed c ≡ 0))
      ⊎ ((new_work c t ≡ false)
          × (is_active (next_notify c t) ≡ is_active c)
          × (is_queued (next_notify c t) ≡ is_queued c)
          × (is_claimed (next_notify c t) ≡ is_claimed c))
unfolding next_notify new_work
next_notify_cases c t = ground arith

module _ (pool_of : ℕ → ℕ) (s : Scheduler) (ts : List Pc) (i : ℕ)
    (v : Inv pool_of (record { scheduler = s; threads = ts })) where
  -- What a thread's place says of the node that it is about.
  pub on_course : {pc : Pc} → get_elem? ts i ≡ some pc → astray (length s.nodes) pc ≡ 0
  on_course {pc} here =
      omega (arith, v.on_course, total-get_elem?-le (astray (length s.nodes)) ts i pc here)

  pub found :
      (n : ℕ) → beyond (length s.nodes) n ≡ 0 → (d : NodeState) × (get_elem? s.nodes n ≡ some d)
  found n h = get_elem?-of_lt s.nodes n (ground arith)

  pub claimed :
      {pc : Pc} (n : ℕ) (d : NodeState)
      → get_elem? ts i ≡ some pc
      → get_elem? s.nodes n ≡ some d
      → 1 ≤ holds_claim n pc
      → 1 ≤ is_claimed d.phase
  claimed {pc} n d here e h =
      let le = total-get_elem?-le (holds_claim n) ts i pc here in ground (arith, v.claims n, le)

  pub has_entry :
      {pc : Pc} (n : ℕ) (d : NodeState)
      → get_elem? ts i ≡ some pc
      → get_elem? s.nodes n ≡ some d
      → 1 ≤ holds_entry n pc
      → 1 ≤ is_queued d.phase
  has_entry {pc} n d here e h =
      let le = total-get_elem?-le (holds_entry n) ts i pc here in ground (arith, v.entries n, le)

  pub self : (n : ℕ) → (n == n) ≡ true
  self n = ground arith

  -- With a thread to spare, `active` does not reach the end of its word.
  pub active_fits :
      {pc : Pc} → get_elem? ts i ≡ some pc → holds_active pc ≡ 0 → s.active + 1 < usize_mod
  unfolding holds_active
  active_fits {pc} here h = omega (
    arith,
    v.active_eq,
    v.small,
    total-set holds_active ts i pc (Pc.deactivating 0) here,
    total-le-length holds_active holds_active-le-one (set ts i (Pc.deactivating 0)),
    total-le-length node_active node_active-le-one s.nodes,
    length-set ts i (Pc.deactivating 0),
  )

  pub active_fits_too : s.active < usize_mod
  active_fits_too = omega (
    arith,
    v.active_eq,
    v.small,
    total-le-length holds_active holds_active-le-one ts,
    total-le-length node_active node_active-le-one s.nodes,
  )

  pub active_pos : {pc : Pc} → get_elem? ts i ≡ some pc → holds_active pc ≡ 1 → 1 ≤ s.active
  active_pos {pc} here h = omega (arith, v.active_eq, total-get_elem?-le holds_active ts i pc here)

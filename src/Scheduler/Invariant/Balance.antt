-- ===== src/Scheduler/Invariant/Balance.antt =====
-- A move changes one thread and one part of the shared state. It keeps the invariant when the
-- weights that it takes away and those that it adds are the same.
use cfw.Prelude.{
  ℕ, ◌+◌, ◌<◌, ◌≡◌, refl, Option, some, List, length, get_elem?, set, ◌==◌, if◌then◌else◌, total,
  arith, total-set, length-set, get_elem?-set_self, get_elem?-set_ne, get_elem?-lt, ◌⊎◌, inl, inr,
  Bool-cases, false, ==_iff, ap, ◌≢◌,
}
use cfw.Scheduler.{Phase, PoolState, NodeState, Scheduler, set_phase}
use cfw.Scheduler.Threads.{Pc}
use cfw.Scheduler.Weights.{
  Inv, is_active, is_queued, is_claimed, node_active, queued_at, claimed_at, queued_in, in_pool,
  occurrences, waiting_in, holds_active, holds_entry, holds_entry_in, holds_claim, astray, Placed,
}

module _ (pool_of : ℕ → ℕ) (s : Scheduler) (ts : List Pc) (i : ℕ) (pc pc' : Pc)
    (here : get_elem? ts i ≡ some pc)
    (v : Inv pool_of (record { scheduler = s; threads = ts })) where
  -- The general rule.
  pub balanced :
      (s' : Scheduler)
      → length s'.nodes ≡ length s.nodes
      → s'.active + holds_active pc + total node_active s.nodes
        ≡ s.active + holds_active pc' + total node_active s'.nodes
      → ((n : ℕ)
          → holds_entry n pc' + total (waiting_in n) s'.pools + queued_at (get_elem? s.nodes n)
            ≡ holds_entry n pc + total (waiting_in n) s.pools + queued_at (get_elem? s'.nodes n))
      → ((n : ℕ)
          → holds_claim n pc' + claimed_at (get_elem? s.nodes n)
            ≡ holds_claim n pc + claimed_at (get_elem? s'.nodes n))
      → ((p : ℕ) (pool : PoolState)
          → get_elem? s'.pools p ≡ some pool
          → (old : PoolState) × (get_elem? s.pools p ≡ some old)
            × (old.capacity ≡ pool.capacity)
            × (length pool.work + holds_entry_in pool_of p pc' + total (queued_in p) s.nodes
                ≡ length old.work + holds_entry_in pool_of p pc + total (queued_in p) s'.nodes))
      → ((p : ℕ) → total (in_pool p) s'.nodes ≡ total (in_pool p) s.nodes)
      → ((p : ℕ) (pool : PoolState)
          → get_elem? s'.pools p ≡ some pool
          → Placed pool_of (length s.nodes) p pool.work)
      → ((n : ℕ) (d : NodeState)
          → get_elem? s'.nodes n ≡ some d
          → (d.pool ≡ pool_of n) × (pool_of n < length s'.pools))
      → astray (length s.nodes) pc' ≡ 0
      → Inv pool_of (record { scheduler = s'; threads = set ts i pc' })
  balanced s' size active entries claims backlog pools placed assigned course = record {
    small = omega (arith, v.small, length-set ts i pc', size);
    active_eq = omega (arith, v.active_eq, total-set holds_active ts i pc pc' here, active);
    entries =
        λ n. omega (arith, v.entries n, total-set (holds_entry n) ts i pc pc' here, entries n);
    claims = λ n. omega (arith, v.claims n, total-set (holds_claim n) ts i pc pc' here, claims n);
    backlog = λ p pool e.
        let (old, e', c, b) = backlog p pool e in
        omega (arith, v.backlog p old e', total-set (holds_entry_in pool_of p) ts i pc pc' here, b);
    room = λ p pool e.
        let (old, e', c, b) = backlog p pool e in omega (arith, v.room p old e', c, pools p);
    placed = λ p pool e. rw size (placed p pool e);
    assigned = assigned;
    on_course =
        rw size (
          omega (arith, v.on_course, course, total-set (astray (length s.nodes)) ts i pc pc' here));
  }

  -- The thread moves, and the counters of the scheduler at most.
  pub moved_locally :
      (s' : Scheduler)
      → s'.nodes ≡ s.nodes
      → s'.pools ≡ s.pools
      → s'.active + holds_active pc ≡ s.active + holds_active pc'
      → ((n : ℕ) → holds_entry n pc' ≡ holds_entry n pc)
      → ((n : ℕ) → holds_claim n pc' ≡ holds_claim n pc)
      → ((p : ℕ) → holds_entry_in pool_of p pc' ≡ holds_entry_in pool_of p pc)
      → astray (length s.nodes) pc' ≡ 0
      → Inv pool_of (record { scheduler = s'; threads = set ts i pc' })
  moved_locally s' nodes pools active entries claims backlog course =
      balanced s' (ap length nodes) (rw nodes (omega (arith, active)))
        (λ n. rw (nodes, pools) (omega (arith, entries n)))
        (λ n. rw nodes (omega (arith, claims n)))
        (λ p pool e. (pool, (rw pools at e), refl, rw nodes (omega (arith, backlog p))))
        (λ p. rw nodes) (λ p pool e. v.placed p pool (rw pools at e))
        (λ n d e. rw pools (v.assigned n d (rw nodes at e))) course

  -- The thread moves and sets the phase of node `n`.
  module _ (n : ℕ) (d : NodeState) (phase : Phase) (found : get_elem? s.nodes n ≡ some d) where
    get_set :
        (f : Option NodeState → ℕ) (m : ℕ)
        → f (get_elem? (set s.nodes n (record d { phase = phase })) m)
          ≡ (if m == n then f (some (record d { phase = phase })) else f (get_elem? s.nodes m))
    get_set f m = elim (Bool-cases (m == n)) [
      | inl same ↦
          let e : m ≡ n = (==_iff m n).0 same in
          rw (
            same,
            e,
            get_elem?-set_self s.nodes n (record d { phase = phase })
                (get_elem?-lt s.nodes n found),
          )
      | inr other ↦
          rw (other, get_elem?-set_ne s.nodes n m (record d { phase = phase }) (apart other))
    ]
      where
        apart : (m == n) ≡ false → n ≢ m
        apart h = ground arith

    get_old :
        (f : Option NodeState → ℕ) (m : ℕ)
        → f (get_elem? s.nodes m) ≡ (if m == n then f (some d) else f (get_elem? s.nodes m))
    get_old f m = elim (Bool-cases (m == n)) [
      | inl same ↦ let e : m ≡ n = (==_iff m n).0 same in rw (same, e, found)
      | inr other ↦ rw other
    ]

    pub moved_with_phase :
        holds_active pc + is_active d.phase ≡ holds_active pc' + is_active phase
        → ((m : ℕ)
            → holds_entry m pc' + (if m == n then is_queued d.phase else 0)
              ≡ holds_entry m pc + (if m == n then is_queued phase else 0))
        → ((m : ℕ)
            → holds_claim m pc' + (if m == n then is_claimed d.phase else 0)
              ≡ holds_claim m pc + (if m == n then is_claimed phase else 0))
        → ((p : ℕ)
            → holds_entry_in pool_of p pc' + (if p == pool_of n then is_queued d.phase else 0)
              ≡ holds_entry_in pool_of p pc + (if p == pool_of n then is_queued phase else 0))
        → astray (length s.nodes) pc' ≡ 0
        → Inv pool_of (record { scheduler = set_phase s n d phase; threads = set ts i pc' })
    moved_with_phase active entries claims backlog course =
        balanced (set_phase s n d phase) (length-set s.nodes n (record d { phase = phase }))
          (omega
            (arith, active, total-set node_active s.nodes n d (record d { phase = phase }) found))
          (λ m. ground (arith, entries m, get_set queued_at m, get_old queued_at m))
          (λ m. ground (arith, claims m, get_set claimed_at m, get_old claimed_at m))
          (λ p pool e. (
            pool,
            e,
            refl,
            ground (
              arith,
              backlog p,
              (v.assigned n d found).0,
              total-set (queued_in p) s.nodes n d (record d { phase = phase }) found,
            ),
          ))
          (λ p. omega (arith, total-set (in_pool p) s.nodes n d (record d { phase = phase }) found))
          v.placed (λ m e h. same_pool m e h) course
      where
        same_pool :
            (m : ℕ) (e : NodeState)
            → get_elem? (set s.nodes n (record d { phase = phase })) m ≡ some e
            → (e.pool ≡ pool_of m) × (pool_of m < length s.pools)
        same_pool m e h = elim (Bool-cases (m == n)) [
          | inl same ↦
              let q : m ≡ n = (==_iff m n).0 same in
              ground (
                arith,
                v.assigned n d found,
                q,
                get_elem?-set_self s.nodes n (record d { phase = phase })
                    (get_elem?-lt s.nodes n found),
              )
          | inr other ↦ ground (
            arith,
            v.assigned m e,
            get_elem?-set_ne s.nodes n m (record d { phase = phase }) (ground arith),
          )
        ]

  -- The thread moves and changes the queue of pool `q`.
  module _ (q : ℕ) (old : PoolState) (work : List ℕ) (held : get_elem? s.pools q ≡ some old) where
    pools_at :
        (p : ℕ) (pool : PoolState)
        → get_elem? (set s.pools q (record old { work = work })) p ≡ some pool
        → ((p ≡ q) × (pool ≡ record old { work = work }))
          ⊎ (((p == q) ≡ false) × (get_elem? s.pools p ≡ some pool))
    pools_at p pool e = elim (Bool-cases (p == q)) [
      | inl same ↦
          let h : p ≡ q = (==_iff p q).0 same in
          inl (
            ground (
              arith,
              h,
              get_elem?-set_self s.pools q (record old { work = work })
                  (get_elem?-lt s.pools q held),
            ))
      | inr other ↦
          inr (
            ground
              (arith, get_elem?-set_ne s.pools q p (record old { work = work }) (ground arith)))
    ]

    pub moved_with_queue :
        holds_active pc ≡ holds_active pc'
        → ((m : ℕ)
            → holds_entry m pc' + occurrences m work ≡ holds_entry m pc + occurrences m old.work)
        → ((m : ℕ) → holds_claim m pc' ≡ holds_claim m pc)
        → ((p : ℕ)
            → holds_entry_in pool_of p pc' + (if p == q then length work else 0)
              ≡ holds_entry_in pool_of p pc + (if p == q then length old.work else 0))
        → Placed pool_of (length s.nodes) q work
        → astray (length s.nodes) pc' ≡ 0
        → Inv pool_of (record {
          scheduler = record s { pools = set s.pools q (record old { work = work }) };
          threads = set ts i pc';
        })
    moved_with_queue active entries claims backlog placed course =
        balanced (record s { pools = set s.pools q (record old { work = work }) }) refl
          (omega (arith, active))
          (λ m. omega (
            arith,
            entries m,
            total-set (waiting_in m) s.pools q old (record old { work = work }) held,
          ))
          (λ m. omega (arith, claims m))
          (λ p pool e. elim (pools_at p pool e) [
            | inl (same, new) ↦
                (old, rw same held, rw new refl, rw new (ground (arith, backlog p, same)))
            | inr (other, e') ↦ (pool, e', refl, ground (arith, backlog p, other))
          ])
          (λ p. refl)
          (λ p pool e. elim (pools_at p pool e) [
            | inl (same, new) ↦ rw (same, new) placed
            | inr (other, e') ↦ v.placed p pool e'
          ])
          (λ n d e.
            let (a, b) = v.assigned n d e in
            (a, rw (length-set s.pools q (record old { work = work })) b))
          course

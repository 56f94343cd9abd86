-- ===== src/Simulation/Actions/Laws.antt =====
-- state.rs: the loop over the due actions ends, and neither moves time nor touches the pools.
use Prim.Native.String.{String}
use cfw.Prelude.{
  ℕ, zero, suc, ◌+◌, ◌^◌, ◌≤◌, ◌<◌, ◌≡◌, refl, ap, sym, subst, ◌∙◌, ◌⊎◌, inl, inr, Bool, true,
  false, Option, none, some, List, [], ◌∷◌, length, ltb, if◌then◌else◌, arith, Bool-cases,
}
use cfw.Prelude.Result.{Result, ok, err}
use cfw.Sort.{insert}
use cfw.Time.{FrameworkTime, time_le, time_lt}
use cfw.Simulation.{
  Wakeup, Action, once, stream, Entry, StepError, bad_config, poisoned, past_action,
  SimulationState, Environment,
}
use cfw.Simulation.Frame.{SameFrame, SameFrame-refl, SameFrame-trans, seats-deliver}
use cfw.Simulation.Step.Ends.{IsFine}
use cfw.Simulation.Actions.{
  entry_le, insert_action, take_effect, finish_once, finish_stream, run_action, pop_due, go_on,
  run_due,
}

module _ {A : Type 0} where
  -- The actions that are due.
  abbrev pub due_count : FrameworkTime → List (Entry A) → ℕ
  due_count time [] = 0
  due_count time (entry ∷ actions) =
      (if time_le entry.at time then 1 else 0) + due_count time actions

  pub due_count-length :
      (time : FrameworkTime) (actions : List (Entry A)) → due_count time actions ≤ length actions
  due_count-length time [] = ground arith
  due_count-length time (entry ∷ actions) = ground (arith, due_count-length time actions)

  insert_future :
      (time : FrameworkTime) (entry : Entry A) (actions : List (Entry A))
      → time_le entry.at time ≡ false
      → due_count time (insert entry_le entry actions) ≡ due_count time actions
  unfolding insert
  insert_future time entry [] later = rw later refl
  insert_future time entry (other ∷ actions) later = elim (Bool-cases (entry_le entry other)) [
    | inl le ↦ ground (arith, le, later)
    | inr gt ↦ rw gt (
        ap (λ n. (if time_le other.at time then 1 else 0) + n)
          (insert_future time entry actions later))
  ]

module _ {W A Job Done : Type 0} (env : Environment W A Job Done) where
  -- What an action leaves behind: the frame, and no new action that is due.
  record Leaves (s s' : SimulationState W A) : Type 0 where
    frame : SameFrame s s'
    fewer_due : due_count s.time s'.actions ≤ due_count s.time s.actions

  Leaves-refl : (s : SimulationState W A) → Leaves s s
  Leaves-refl s = record { frame = SameFrame-refl s; fewer_due = ground arith }

  take_effect-Leaves :
      (effect : W × List Wakeup) (s : SimulationState W A) → Leaves s (take_effect env effect s)
  unfolding take_effect
  take_effect-Leaves (world, wakeups) s = record {
    frame = record {
      same_time = refl;
      same_threads = refl;
      same_seats = seats-deliver wakeups s.nodes;
    };
    fewer_due = ground arith;
  }

  Leaves-if :
      (s : SimulationState W A) (b : Bool) (x y : Result StepError (Unit {0}) × SimulationState W A)
      → Leaves s x.1
      → Leaves s y.1
      → Leaves s (if b then x else y).1
  Leaves-if s true x y p q = p
  Leaves-if s false x y p q = q

  Leaves-trans : (a b c : SimulationState W A) → Leaves a b → Leaves b c → Leaves a c
  Leaves-trans a b c f g = record {
    frame = SameFrame-trans f.frame g.frame;
    fewer_due =
        (let next : due_count a.time c.actions ≤ due_count a.time b.actions =
            subst (λ t. due_count t c.actions ≤ due_count t b.actions) f.frame.same_time
              g.fewer_due in
          ground (arith, f.fewer_due, next));
  }

  insert_action-Leaves :
      (next : FrameworkTime) (action : Action A) (s : SimulationState W A)
      → time_le next s.time ≡ false
      → Leaves s (insert_action env next action s).1
  unfolding insert_action
  insert_action-Leaves next action s later =
      Leaves-if s s.failed (err poisoned, s) _ (Leaves-refl s)
        (Leaves-if s (time_lt next s.time) (err past_action, s) _ (Leaves-refl s)
          (Leaves-if s (ltb (s.action_sequence + 1) (2 ^ 64)) _ (err bad_config, s)
            (record {
              frame = record { same_time = refl; same_threads = refl; same_seats = refl };
              fewer_due = ground (
                arith,
                insert_future s.time
                    (record { at = next; sequence = s.action_sequence; action = action }) s.actions
                    later,
              );
            })
            (Leaves-refl s)))

  finish_stream-Leaves :
      (r : Result String (Option FrameworkTime × (A × (W × List Wakeup)))) (s : SimulationState W A)
      → Leaves s (finish_stream env r s).1
  unfolding finish_stream
  finish_stream-Leaves (err reason) s = Leaves-refl s
  finish_stream-Leaves (ok (none, (a, effect))) s = take_effect-Leaves effect s
  finish_stream-Leaves (ok (some next, (a, effect))) s = elim (Bool-cases (time_le next s.time)) [
    | inl early ↦ rw early (take_effect-Leaves effect s)
    | inr later ↦ rw later (
        Leaves-trans s (take_effect env effect s) _ (take_effect-Leaves effect s) (
          insert_action-Leaves next (stream a) (take_effect env effect s) (
            subst (λ t. time_le next t ≡ false) (sym (take_effect-Leaves effect s).frame.same_time)
              later)))
  ]

  run_action-Leaves :
      (at : FrameworkTime) (action : Action A) (s : SimulationState W A)
      → Leaves s (run_action env at action s).1
  unfolding run_action finish_once
  run_action-Leaves at (once a) s = go (env.run_once a at s.world)
    where
      go : (r : Result String (W × List Wakeup)) → Leaves s (finish_once env r s).1
      go (err reason) = Leaves-refl s
      go (ok effect) = take_effect-Leaves effect s
  run_action-Leaves at (stream a) s = finish_stream-Leaves (env.run_stream a at s.world) s

  insert_action-IsFine :
      (next : FrameworkTime) (action : Action A) (s : SimulationState W A)
      → IsFine (insert_action env next action s).0
  unfolding insert_action
  insert_action-IsFine next action s =
      go s.failed (time_lt next s.time) (ltb (s.action_sequence + 1) (2 ^ 64)) _
    where
      go :
          (a b c : Bool) (s' : SimulationState W A)
          → let end : Result StepError (Unit {0}) × SimulationState W A =
              if a
              then (err poisoned, s)
              else if b
              then (err past_action, s)
              else if c
              then (ok tt, s')
              else (err bad_config, s) in
            IsFine end.0
      go true b c s' = tt
      go false true c s' = tt
      go false false true s' = tt
      go false false false s' = tt

  finish_stream-IsFine :
      (r : Result String (Option FrameworkTime × (A × (W × List Wakeup)))) (s : SimulationState W A)
      → IsFine (finish_stream env r s).0
  unfolding finish_stream
  finish_stream-IsFine (err reason) s = tt
  finish_stream-IsFine (ok (none, (a, effect))) s = tt
  finish_stream-IsFine (ok (some next, (a, effect))) s = elim (Bool-cases (time_le next s.time)) [
    | inl early ↦ rw early tt
    | inr later ↦ rw later (insert_action-IsFine next (stream a) (take_effect env effect s))
  ]

  run_action-IsFine :
      (at : FrameworkTime) (action : Action A) (s : SimulationState W A)
      → IsFine (run_action env at action s).0
  unfolding run_action finish_once
  run_action-IsFine at (once a) s = go (env.run_once a at s.world)
    where
      go : (r : Result String (W × List Wakeup)) → IsFine (finish_once env r s).0
      go (err reason) = tt
      go (ok effect) = tt
  run_action-IsFine at (stream a) s = finish_stream-IsFine (env.run_stream a at s.world) s

  go_on_lem :
      (result : Result StepError (Unit {0}) × SimulationState W A)
      (again : SimulationState W A → Option (Result StepError (Unit {0}) × SimulationState W A))
      → ((e : StepError) × (result.0 ≡ err e) × (go_on env result again ≡ some (err e, result.1)))
        ⊎ (go_on env result again ≡ again result.1)
  go_on_lem (err e, s) again = inl (e, refl, refl)
  go_on_lem (ok done, s) again = inr refl

  pop_due_lem :
      (time : FrameworkTime) (actions : List (Entry A))
      → (pop_due env time actions ≡ none)
        ⊎ ((entry : Entry A) × (rest : List (Entry A)) × (pop_due env time actions
              ≡ some (entry, rest))
            × (due_count time actions ≡ suc (due_count time rest)))
  pop_due_lem time [] = inl refl
  pop_due_lem time (entry ∷ actions) = elim (Bool-cases (time_le entry.at time)) [
    | inl due ↦ inr (entry, actions, rw due refl, ground (arith, due))
    | inr later ↦ inl (rw later refl)
  ]

  -- The loop over the due actions ends within one turn more than there are due actions: every turn
  -- takes one of them away, and a stream that goes on is put after the present. It leaves the time,
  -- the pools and the occupation of every callback as they are.
  pub run_due_lem :
      (fuel : ℕ) (s : SimulationState W A)
      → due_count s.time s.actions < fuel
      → (r : Result StepError (Unit {0})) × (s' : SimulationState W A) × (run_due env fuel s
          ≡ some (r, s'))
        × SameFrame s s'
        × IsFine r
  unfolding run_due
  run_due_lem zero s lt = elim lt [ ]
  run_due_lem (suc fuel) s lt = elim (pop_due_lem s.time s.actions) [
    | inl nothing ↦ (ok tt, s, rw (nothing, run_due) refl, SameFrame-refl s, tt)
    | inr (entry, rest, popped, count) ↦
        let s1 : SimulationState W A = record s { actions = rest } in
        let result = run_action env entry.at entry.action s1 in
        let leaves = run_action-Leaves entry.at entry.action s1 in
        let frame : SameFrame s result.1 =
          SameFrame-trans (record { same_time = refl; same_threads = refl; same_seats = refl })
            leaves.frame in
        elim (go_on_lem result (run_due env fuel)) [
          | inl (e, failed, stopped) ↦ (
            err e,
            result.1,
            rw (popped, run_due) stopped,
            frame,
            subst IsFine failed (run_action-IsFine entry.at entry.action s1),
          )
          | inr again ↦
              let fewer : due_count result.1.time result.1.actions < fuel =
                subst (λ t. due_count t result.1.actions < fuel) (sym leaves.frame.same_time)
                  (ground (arith, leaves.fewer_due, count, lt)) in
              let (r, s', e, later, fine) = run_due_lem fuel result.1 fewer in
              (r, s', rw (popped, run_due) (again ∙ e), SameFrame-trans frame later, fine)
        ]
  ]

-- ===== src/ExactReplay/Trace.antt =====
-- replay_log.rs, `finish`: which recorded executions make a trace, and that `finish` accepts exactly
-- those.
pub mod Outputs
use Prim.Native.String.{String}
use cfw.Prelude.{
  Bool, ℕ, ◌+◌, ◌^◌, ◌≤◌, ◌<◌, ltb, ◌==◌, ◌≡◌, refl, ap, sym, ◌∙◌, subst, true, false, not, ◌&&◌,
  ◌↔◌, Option, none, some, List, [], ◌∷◌, ◌++◌, map, if◌then◌else◌, contains, NoRepeat, push_all,
  NoRepeat-append, length, arith, All,
}
use cfw.Prelude.Result.{Result, ok, err, guard-ok, >>=-ok}
use cfw.Interner.{same_id, get, put}
use cfw.Schema.{
  Direction, received, published, Outcome, committed, is_committed, EndpointDescriptor,
  ExecutionDescriptor, ExecutionRecord, LoggedMessage, LoggedIox2Event, Transport, iox2_event,
  is_event, same_time,
}
use cfw.Time.{FrameworkTime, invalid}
use cfw.ExactReplay.{Reason, Identity, same_identity, ReplayLog, endpoint}
use cfw.ExactReplay.Load.{
  Progress, next_index, is_index, follows, check_output, check_inputs, check_outputs,
  check_input_events, check_output_events, check_record, check_records, earlier, finish,
}

pub same_time_iff : (a b : FrameworkTime) → (same_time a b ≡ true) ↔ (a ≡ b)
same_time_iff a b = (λ h. ground (arith, h), λ h. ground (arith, h))

pub next_index-put :
    (i j n : ℕ) (m : List (ℕ × ℕ))
    → next_index j (put same_id i n m) ≡ (if i == j then n else next_index j m)
next_index-put i j n [] = ground arith
next_index-put i j n ((k, v) ∷ m) = ground (arith, next_index-put i j n m)

-- How many of some messages have an ordinal.
abbrev pub count_ordinal : ℕ → List LoggedMessage → ℕ
count_ordinal ordinal [] = 0
count_ordinal ordinal (m ∷ ms) =
    if m.ordinal == ordinal then count_ordinal ordinal ms + 1 else count_ordinal ordinal ms

-- Each batch index is the number of earlier messages from the same endpoint.
abbrev pub Numbered : List LoggedMessage → List LoggedMessage → Type 0
Numbered before [] = Unit {0}
Numbered before (m ∷ ms) =
    (m.header.batch_index ≡ count_ordinal m.ordinal before) × Numbered (m ∷ before) ms

module _ (d : ExecutionDescriptor) where
  -- An ordinal of a callback that names an endpoint.
  abbrev pub Names : ℕ → Direction → ℕ → Bool → EndpointDescriptor → Type 0
  Names callback direction ordinal event e = endpoint d callback direction ordinal event ≡ ok e

  abbrev pub IsInput : ExecutionRecord → LoggedMessage → Type 0
  IsInput r m =
      (e : EndpointDescriptor) × Names r.callback_id received m.ordinal false e
      × ((same_time m.header.published_at invalid) ≡ false)

  abbrev pub IsOutput : ExecutionRecord → LoggedMessage → Type 0
  IsOutput r m =
      (e : EndpointDescriptor) × Names r.callback_id published m.ordinal false e
      × ((same_time m.header.published_at invalid) ≡ false)
      × (e.publisher_index ≡ some m.header.publisher_index)
      × (m.header.published_at ≡ r.execution_time)

  abbrev pub IsInputEvent : ExecutionRecord → LoggedIox2Event → Type 0
  IsInputEvent r event =
      (e : EndpointDescriptor) × Names r.callback_id received event.ordinal true e
      × (e.transport ≡ iox2_event)

  abbrev pub IsOutputEvent : ExecutionRecord → LoggedIox2Event → Type 0
  IsOutputEvent r event =
      (e : EndpointDescriptor) × Names r.callback_id published event.ordinal true e

  abbrev pub channel_at : Result Reason EndpointDescriptor → String
  channel_at (ok e) = e.channel
  channel_at (err x) = ""

  abbrev pub publications : ExecutionRecord → List LoggedMessage → List Identity
  publications r [] = []
  publications r (m ∷ ms) =
      (channel_at (endpoint d r.callback_id published m.ordinal false), m.header)
      ∷ publications r ms

  abbrev pub all_publications : List ExecutionRecord → List Identity
  all_publications [] = []
  all_publications (r ∷ rs) = publications r r.outputs ++ all_publications rs

  pub record IsRecord (r : ExecutionRecord) : Type 0 where
    pub is_done : r.outcome ≡ committed
    pub known : r.callback_id < length d.callbacks
    pub inputs : All (IsInput r) r.inputs
    pub outputs : All (IsOutput r) r.outputs
    pub numbered : Numbered [] r.outputs
    pub input_events : All (IsInputEvent r) r.iox2_events
    pub output_events : All (IsOutputEvent r) r.output_iox2_events

  -- A trace: records that fit the descriptor, no two of which publish the same identity.
  abbrev pub IsTrace : List ExecutionRecord → Type 0
  IsTrace rs = All IsRecord rs × NoRepeat same_identity [] (all_publications rs)

pub not-true : (b : Bool) → not b ≡ true → b ≡ false
not-true true h = cc
not-true false h = refl

pub not-false : (b : Bool) → b ≡ false → not b ≡ true
not-false true h = cc
not-false false h = refl

pub committed_lem : (o : Outcome) → is_committed o ≡ true → o ≡ committed
committed_lem o h = ground (arith, h)

pub event_lem : (t : Transport) → is_event t ≡ true → t ≡ iox2_event
event_lem t h = ground (arith, h)

module _ (d : ExecutionDescriptor) (r : ExecutionRecord) where
  pub inputs_sound : (ms : List LoggedMessage) → check_inputs d r ms ≡ ok tt → All (IsInput d r) ms
  unfolding check_inputs
  inputs_sound [] h = tt
  inputs_sound (m ∷ ms) h =
      let (e, found, h1) = >>=-ok (endpoint d r.callback_id received m.ordinal false) _ h in
      let (valid, h2) = guard-ok (not (same_time m.header.published_at invalid)) _ _ h1 in
      ((e, found, not-true _ valid), inputs_sound ms h2)

  pub inputs_complete :
      (ms : List LoggedMessage) → All (IsInput d r) ms → check_inputs d r ms ≡ ok tt
  unfolding check_inputs
  inputs_complete [] a = refl
  inputs_complete (m ∷ ms) a =
      let (e, found, valid) = a.0 in rw (found, valid) (inputs_complete ms a.1)

  pub input_events_sound :
      (es : List LoggedIox2Event) → check_input_events d r es ≡ ok tt → All (IsInputEvent d r) es
  unfolding check_input_events
  input_events_sound [] h = tt
  input_events_sound (event ∷ es) h =
      let (e, found, h1) = >>=-ok (endpoint d r.callback_id received event.ordinal true) _ h in
      let (is, h2) = guard-ok (is_event e.transport) _ _ h1 in
      ((e, found, event_lem _ is), input_events_sound es h2)

  pub input_events_complete :
      (es : List LoggedIox2Event) → All (IsInputEvent d r) es → check_input_events d r es ≡ ok tt
  unfolding check_input_events
  input_events_complete [] a = refl
  input_events_complete (event ∷ es) a =
      let (e, found, is) = a.0 in rw (found, is) (input_events_complete es a.1)

  pub output_events_sound :
      (es : List LoggedIox2Event) → check_output_events d r es ≡ ok tt → All (IsOutputEvent d r) es
  unfolding check_output_events
  output_events_sound [] h = tt
  output_events_sound (event ∷ es) h =
      let (e, found, h1) = >>=-ok (endpoint d r.callback_id published event.ordinal true) _ h in
      ((e, found), output_events_sound es h1)

  pub output_events_complete :
      (es : List LoggedIox2Event) → All (IsOutputEvent d r) es → check_output_events d r es ≡ ok tt
  unfolding check_output_events
  output_events_complete [] a = refl
  output_events_complete (event ∷ es) a =
      let (e, found) = a.0 in rw found (output_events_complete es a.1)

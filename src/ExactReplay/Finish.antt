-- ===== src/ExactReplay/Finish.antt =====
-- replay_log.rs, `finish`: it accepts exactly the traces.
use cfw.Prelude.{
  ◌≤◌, ltb, ltb→lt, lt→ltb, ◌≡◌, refl, ap, sym, ◌∙◌, subst, true, ◌↔◌, List, [], ◌∷◌, NoRepeat,
  push_all, NoRepeat-append, length, arith, All,
}
use cfw.Prelude.Result.{ok, guard-ok, >>=-ok}
use cfw.Sort.{sort, TotalOrder, All-sort}
use cfw.Schema.{is_committed, ExecutionDescriptor, ExecutionRecord}
use cfw.ExactReplay.{Identity, same_identity, ReplayLog}
use cfw.ExactReplay.Load.{
  Progress, check_inputs, check_outputs, check_input_events, check_output_events, check_record,
  check_records, earlier, finish,
}
use cfw.ExactReplay.Trace.{
  IsRecord, publications, all_publications, IsTrace, committed_lem, inputs_sound, inputs_complete,
  input_events_sound, input_events_complete, output_events_sound, output_events_complete,
}
use cfw.ExactReplay.Trace.Outputs.{outputs_sound, outputs_complete}

abbrev pub fresh : List Identity → Progress
fresh produced = record { produced = produced; batch_indices = [] }

-- The outputs of a record fit the vector that holds them.
abbrev pub FitsRecord : ExecutionRecord → Type 0
FitsRecord r = length r.outputs ≤ 16

module _ (d : ExecutionDescriptor) where
  check_record-IsRecord :
      (r : ExecutionRecord) (produced grown : List Identity)
      → check_record d r produced ≡ ok grown
      → IsRecord d r
        × NoRepeat same_identity produced (publications d r r.outputs)
        × (grown ≡ push_all (publications d r r.outputs) produced)
  unfolding check_record
  check_record-IsRecord r produced grown h =
      let (done, h1) = guard-ok (is_committed r.outcome) _ _ h in
      let (known, h2) = guard-ok (ltb r.callback_id (length d.callbacks)) _ _ h1 in
      let (_, inputs, h3) = >>=-ok (check_inputs d r r.inputs) _ h2 in
      let (p, outputs, h4) = >>=-ok (check_outputs d r r.outputs (fresh produced)) _ h3 in
      let (_, events, h5) = >>=-ok (check_input_events d r r.iox2_events) _ h4 in
      let (_, output_events, h6) = >>=-ok (check_output_events d r r.output_iox2_events) _ h5 in
      let (good, numbered, apart, left) =
        outputs_sound d r r.outputs (fresh produced) p [] (λ ordinal. refl) outputs in
      let all_done : p.produced ≡ grown = ground (arith, h6) in
      (
        record {
          is_done = committed_lem r.outcome done;
          known = ltb→lt _ _ known;
          inputs = inputs_sound d r r.inputs inputs;
          outputs = good;
          numbered = numbered;
          input_events = input_events_sound d r r.iox2_events events;
          output_events = output_events_sound d r r.output_iox2_events output_events;
        },
        apart,
        sym all_done ∙ left,
      )

  IsRecord-check_record :
      (r : ExecutionRecord) (produced : List Identity)
      → FitsRecord r
      → IsRecord d r
      → NoRepeat same_identity produced (publications d r r.outputs)
      → check_record d r produced ≡ ok (push_all (publications d r r.outputs) produced)
  unfolding check_record
  IsRecord-check_record r produced fits i apart =
      let (p, outputs, left) =
        outputs_complete d r r.outputs (fresh produced) [] (λ ordinal. refl) (omega (arith, fits))
          i.outputs i.numbered apart in
      let done : is_committed r.outcome ≡ true = ap is_committed i.is_done in
      let inputs = inputs_complete d r r.inputs i.inputs in
      let events = input_events_complete d r r.iox2_events i.input_events in
      let output_events = output_events_complete d r r.output_iox2_events i.output_events in
      rw
        (
          done,
          lt→ltb r.callback_id (length d.callbacks) i.known,
          inputs,
          outputs,
          events,
          output_events,
        )
        (ap ok left)

  pub records_sound :
      (rs : List ExecutionRecord) (produced : List Identity)
      → check_records d rs produced ≡ ok tt
      → All (IsRecord d) rs × NoRepeat same_identity produced (all_publications d rs)
  unfolding check_records
  records_sound [] produced h = (tt, tt)
  records_sound (r ∷ rs) produced h =
      let (grown, one, rest) = >>=-ok (check_record d r produced) _ h in
      let (i, apart, is) = check_record-IsRecord r produced grown one in
      let (all, others) =
        records_sound rs (push_all (publications d r r.outputs) produced)
          (subst (λ l. check_records d rs l ≡ ok tt) is rest) in
      (
        (i, all),
        (NoRepeat-append same_identity (publications d r r.outputs) (all_publications d rs)
              produced).1
            (apart, others),
      )

  records_complete :
      (rs : List ExecutionRecord) (produced : List Identity)
      → All FitsRecord rs
      → All (IsRecord d) rs
      → NoRepeat same_identity produced (all_publications d rs)
      → check_records d rs produced ≡ ok tt
  unfolding check_records
  records_complete [] produced fits all apart = refl
  records_complete (r ∷ rs) produced fits all apart =
      let here = publications d r r.outputs in
      let (first, others) =
        (NoRepeat-append same_identity here (all_publications d rs) produced).0 apart in
      rw (IsRecord-check_record r produced fits.0 all.0 first)
        (records_complete rs (push_all here produced) fits.1 all.1 others)

earlier-TotalOrder : TotalOrder earlier
earlier-TotalOrder = record { total = λ a b h. ground arith; trans = λ a b c h k. ground arith }

-- A log that `finish` gives holds a trace: the executions before, sorted.
pub finish-IsTrace :
    (log log' : ReplayLog)
    → finish log ≡ ok log'
    → IsTrace log.descriptor (sort earlier log.executions)
      × (log' ≡ record log { executions = sort earlier log.executions })
unfolding finish
finish-IsTrace log log' h =
    let sorted = sort earlier log.executions in
    let (_, checked, is) = >>=-ok (check_records log.descriptor sorted []) _ h in
    (records_sound log.descriptor sorted [] checked, cc)

-- `finish` succeeds exactly when the executions, sorted by time with equal times in the order of
-- the log, make a trace: every one is committed and belongs to a callback of the descriptor, each
-- input, output and event names an endpoint of that callback of its own direction and kind, each
-- input event an endpoint that an iceoryx2 event feeds, no input and no output has INVALID for its
-- time, each output carries its publisher's index, the time of its execution and the number of
-- earlier outputs of the same endpoint as its batch index, and no two outputs of the whole trace
-- have one channel and header in common. The log that it gives then holds those executions in that
-- order. The condition is that no execution
-- has more outputs than the vector of a record holds.
pub finish_iff :
    (log : ReplayLog)
    → All FitsRecord log.executions
    → (finish log ≡ ok (record log { executions = sort earlier log.executions }))
      ↔ IsTrace log.descriptor (sort earlier log.executions)
unfolding finish
finish_iff log fits =
    let sorted = sort earlier log.executions in
    let fit = All-sort earlier earlier-TotalOrder FitsRecord log.executions fits in
    (
      λ h.
          let (_, checked, _) = >>=-ok (check_records log.descriptor sorted []) _ h in
          records_sound log.descriptor sorted [] checked,
      λ t. rw (records_complete log.descriptor sorted [] fit t.0 t.1),
    )

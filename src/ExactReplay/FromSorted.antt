-- ===== src/ExactReplay/FromSorted.antt =====
-- replay_log.rs, `from_sorted`: a log that was read is an exact account of its reader's entries.
use cfw.Prelude.{
  ℕ, ◌+◌, ◌≡◌, refl, ap, sym, ◌∙◌, subst, true, not, Option, none, some, List, [], ◌++◌, map,
  is_some, NoRepeat, push_all, All,
}
use cfw.Prelude.Result.{Result, ok, err, ◌>>=◌, or_err, guard-ok, >>=-ok}
use cfw.Interner.{same_text, new}
use cfw.NameTables.{TableError, decode_intern_tables, validate_descriptor_tables}
use cfw.Schema.{
  InternTables, execution_log_descriptor_artifact, intern_tables_artifact, ExecutionDescriptor,
  Decoders,
}
use cfw.Sort.{sort}
use cfw.SortedLog.Reader.{SortedLogStreamReader, source_length}
use cfw.SortedLog.Reader.Laws.{remaining, IsHealthy, length-remaining}
use cfw.SortedLog.Scan.{recording_incompleteness}
use cfw.ExactReplay.{
  Reason, descriptor_required, bad_descriptor, tables, same_place, same_identity, ReplayLog,
  check_callbacks, descriptor,
}
use cfw.ExactReplay.Load.{
  and_finish, artifact_of, tables_err, earlier, finish, open_log, read_all, from_sorted,
}
use cfw.ExactReplay.Trace.{IsTrace}
use cfw.ExactReplay.Descriptor.{IsRecorded, all_places, check_callbacks_iff}
use cfw.ExactReplay.Reading.{push_entries, read_all_lem}
use cfw.ExactReplay.Contents.{payloads_of, keys, IsLogged, recorded, Grows, push_entries-Grows}
use cfw.ExactReplay.Finish.{finish-IsTrace}

-- Loading from a healthy reader ends: it opens the log, pushes every entry that is left to read, in
-- order, and finishes; the first of these that fails gives the error.
pub from_sorted_total :
    (json : Decoders) (reader : SortedLogStreamReader)
    → IsHealthy reader
    → from_sorted json reader
      ≡ some (
          open_log json reader >>= λ log.
          push_entries json log (remaining reader) >>= λ full. finish full)
unfolding from_sorted
from_sorted_total json reader h = go (open_log json reader)
  where
    go :
        (opened : Result Reason ReplayLog)
        → (elim opened [
          | err e ↦ some (err e)
          | ok log ↦ and_finish (read_all json (source_length reader.source + 2) log reader)
        ])
          ≡ some
              (opened >>= λ log. push_entries json log (remaining reader) >>= λ full. finish full)
    go (err e) = refl
    go (ok log) = ap and_finish (
        read_all_lem json (source_length reader.source + 2) log (remaining reader) reader h refl
          (length-remaining reader))

module _ (json : Decoders) (reader : SortedLogStreamReader) where
  -- A log that has been opened and holds no entry.
  pub record IsOpened (log : ReplayLog) : Type 0 where
    pub complete : artifact_of reader recording_incompleteness ≡ none
    pub checked : check_callbacks log.descriptor.callbacks [] [] ≡ ok tt
    pub validated : validate_descriptor_tables log.intern_tables log.descriptor ≡ ok tt
    pub no_executions : log.executions ≡ []
    pub no_payloads : log.payloads ≡ []
    pub logged_eq : log.logged ≡ log.descriptor.logged_channels

  is_none : (o : Option (List ℕ)) → not (is_some o) ≡ true → o ≡ none
  is_none none h = refl
  is_none (some a) h = cc

  abbrev empty_log : ExecutionDescriptor → InternTables → ReplayLog
  empty_log d t = record {
    intern_tables = t;
    descriptor = d;
    executions = [];
    payloads = [];
    logged = d.logged_channels;
  }

  descriptor-ok :
      (bytes : Option (List ℕ)) (log : ReplayLog)
      → descriptor json bytes ≡ ok log
      → (d : ExecutionDescriptor) × (check_callbacks d.callbacks [] [] ≡ ok tt)
        × (log ≡ empty_log d (record { channels = new; callbacks = new }))
  unfolding descriptor
  descriptor-ok bytes log h =
      let (found, _, h1) = >>=-ok (or_err bytes descriptor_required) _ h in
      let (d, _, h2) = >>=-ok (or_err (json.descriptor found) bad_descriptor) _ h1 in
      let (_, checked, h3) = >>=-ok (check_callbacks d.callbacks [] []) _ h2 in (d, checked, cc)

  tables_err-ok :
      {A : Type 0} (r : Result TableError A) (a : A)
      → ◌≡◌ {A = Result Reason A} (tables_err tables r) (ok a)
      → r ≡ ok a
  tables_err-ok (ok a) b h = cc
  tables_err-ok (err e) b h = cc

  with_tables-IsOpened :
      (log opened : ReplayLog) (d : ExecutionDescriptor) (t : InternTables)
      → artifact_of reader recording_incompleteness ≡ none
      → check_callbacks d.callbacks [] [] ≡ ok tt
      → validate_descriptor_tables t opened.descriptor ≡ ok tt
      → opened ≡ empty_log d (record { channels = new; callbacks = new })
      → ◌≡◌ {A = Result Reason ReplayLog} (ok (record opened { intern_tables = t })) (ok log)
      → IsOpened log
  with_tables-IsOpened log opened d t complete checked valid empty is =
      let same : empty_log d t ≡ log = cc in
      subst IsOpened same (record {
        complete = complete;
        checked = checked;
        validated = subst (λ l. validate_descriptor_tables t l.descriptor ≡ ok tt) empty valid;
        no_executions = refl;
        no_payloads = refl;
        logged_eq = refl;
      })

  open_log-IsOpened : (log : ReplayLog) → open_log json reader ≡ ok log → IsOpened log
  unfolding open_log
  open_log-IsOpened log h =
      let (complete, h1) =
        guard-ok (not (is_some (artifact_of reader recording_incompleteness))) _ _ h in
      let (opened, read, h2) =
        >>=-ok (descriptor json (artifact_of reader execution_log_descriptor_artifact)) _ h1 in
      let (t, _, h3) =
        >>=-ok
          (tables_err tables
            (decode_intern_tables json (artifact_of reader intern_tables_artifact)))
          _ h2 in
      let (_, valid, is) =
        >>=-ok (tables_err tables (validate_descriptor_tables t opened.descriptor)) _ h3 in
      let (d, checked, empty) = descriptor-ok _ opened read in
      with_tables-IsOpened log opened d t (is_none _ complete) checked (tables_err-ok _ tt valid)
        empty is

  -- A log that was read from a reader accounts for its entries: the artifact that marks a loss is
  -- absent, the descriptor and the name tables pass their checks, the executions are those among
  -- the entries, sorted by time, and make a trace, and the payloads are those among the entries,
  -- the last first, with distinct identities, on channels that the descriptor declares as logged.
  pub record IsExactLog (log : ReplayLog) : Type 0 where
    pub complete : artifact_of reader recording_incompleteness ≡ none
    pub callbacks : All IsRecorded log.descriptor.callbacks
    pub names : NoRepeat same_text [] (map (λ c. c.name) log.descriptor.callbacks)
    pub publishers : NoRepeat same_place [] (all_places log.descriptor.callbacks)
    pub validated : validate_descriptor_tables log.intern_tables log.descriptor ≡ ok tt
    pub executions_eq : log.executions ≡ sort earlier (recorded json (remaining reader))
    pub trace : IsTrace log.descriptor log.executions
    pub payloads_eq : log.payloads ≡ push_all (payloads_of (remaining reader)) []
    pub apart : NoRepeat same_identity [] (keys (payloads_of (remaining reader)))
    pub logged : All (IsLogged log.descriptor.logged_channels) (payloads_of (remaining reader))

some_inj : {a b : Result Reason ReplayLog} → some a ≡ some b → a ≡ b
some_inj h = cc

finished-IsExactLog :
    (json : Decoders) (reader : SortedLogStreamReader) (o full log : ReplayLog)
    → IsOpened json reader o
    → Grows json o full (recorded json (remaining reader)) (payloads_of (remaining reader))
    → IsTrace full.descriptor (sort earlier full.executions)
      × (log ≡ record full { executions = sort earlier full.executions })
    → IsExactLog json reader log
finished-IsExactLog json reader o full log i g (trace, is) =
    let d = sym g.descriptor_eq in
    let (callbacks, names, publishers) =
      (check_callbacks_iff full.descriptor).0
        (subst (λ x. check_callbacks x.callbacks [] [] ≡ ok tt) d i.checked) in
    let none_before : full.executions ≡ recorded json (remaining reader) =
      g.executions_eq ∙ ap (λ l. l ++ recorded json (remaining reader)) i.no_executions in
    subst (IsExactLog json reader) (sym is) (record {
      complete = i.complete;
      callbacks = callbacks;
      names = names;
      publishers = publishers;
      validated =
          subst (λ x. validate_descriptor_tables full.intern_tables x ≡ ok tt) d
            (subst (λ t. validate_descriptor_tables t o.descriptor ≡ ok tt) (sym g.tables_eq)
              i.validated);
      executions_eq = ap (sort earlier) none_before;
      trace = trace;
      payloads_eq =
          g.payloads_eq ∙ ap (λ l. push_all (payloads_of (remaining reader)) l) i.no_payloads;
      apart =
          subst (λ l. NoRepeat same_identity (keys l) (keys (payloads_of (remaining reader))))
            i.no_payloads g.apart;
      logged =
          subst (λ l. All (IsLogged l) (payloads_of (remaining reader)))
            (i.logged_eq ∙ ap (λ x. x.logged_channels) d) g.logged;
    })

-- Whatever a healthy reader gives, a log that is loaded from it with success is an exact account of
-- its entries: complete, checked, and a trace of the recorded executions.
pub from_sorted-IsExactLog :
    (json : Decoders) (reader : SortedLogStreamReader) (log : ReplayLog)
    → IsHealthy reader
    → from_sorted json reader ≡ some (ok log)
    → IsExactLog json reader log
from_sorted-IsExactLog json reader log h loaded =
    let run : (open_log json reader >>= λ o.
    push_entries json o (remaining reader) >>= λ full. finish full)
        ≡ ok log =
      some_inj (sym (from_sorted_total json reader h) ∙ loaded) in
    let (o, opened, h1) = >>=-ok (open_log json reader) _ run in
    let (full, pushed, finished) = >>=-ok (push_entries json o (remaining reader)) _ h1 in
    finished-IsExactLog json reader o full log (open_log-IsOpened json reader o opened)
      (push_entries-Grows json o full (remaining reader) pushed) (finish-IsTrace full log finished)

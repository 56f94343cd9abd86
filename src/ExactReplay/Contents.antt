-- ===== src/ExactReplay/Contents.antt =====
-- replay_log.rs, `push`: what a log that has taken on some entries holds of them.
use Prim.Native.String.{String}
use cfw.ExactReplay.Reading.{push_entries}
use text.Mathlib.Text.{◌==◌ as ◌≐◌}
use mathlib.Core.List.{append_assoc, append-nil}
use cfw.Prelude.{
  ℕ, ◌≡◌, refl, ap, sym, ◌∙◌, subst, Bool, true, not, ◌&&◌, Option, none, some, List, [], ◌∷◌, ◌++◌,
  map, if◌then◌else◌, contains, NoRepeat, push_all, push_all-append, NoRepeat-append, All,
  All-append, Bool-cases, inl, inr,
}
use cfw.Prelude.Result.{Result, ok, ◌>>=◌, or_err, guard-ok, >>=-ok}
use cfw.Interner.{same_text}
use cfw.Schema.{
  execution_log_channel, iox2_event_record_channel, received, is_event, ExecutionRecord,
  Iox2EventRecord, Decoders, same_time,
}
use cfw.SortedLog.{MessageHeader, OwnedLogEntry}
use cfw.Time.{invalid}
use cfw.ExactReplay.{Reason, bad_record, Identity, same_identity, ReplayLog, endpoint}
use cfw.ExactReplay.Trace.{not-true}
use cfw.ExactReplay.Load.{has_payload, push_execution, push_event, push_payload, push}

-- The executions and the payloads among some entries.
abbrev recorded_in : Option ExecutionRecord → List ExecutionRecord
recorded_in none = []
recorded_in (some r) = r ∷ []

abbrev is_data : OwnedLogEntry → Bool
is_data e =
    not (e.channel_name ≐ execution_log_channel) && not (e.channel_name ≐ iox2_event_record_channel)

abbrev payload_at : OwnedLogEntry → List (Identity × List ℕ)
payload_at e = if is_data e then ((e.channel_name, e.header), e.serialized_body) ∷ [] else []

abbrev pub payloads_of : List OwnedLogEntry → List (Identity × List ℕ)
payloads_of [] = []
payloads_of (e ∷ es) = payload_at e ++ payloads_of es

abbrev pub keys : List (Identity × List ℕ) → List Identity
keys l = map (λ p. p.0) l

abbrev pub IsLogged : List String → Identity × List ℕ → Type 0
IsLogged logged p = contains same_text p.0.0 logged ≡ true

module _ (json : Decoders) where
  abbrev recorded_at : OwnedLogEntry → List ExecutionRecord
  recorded_at e =
      if e.channel_name ≐ execution_log_channel
      then recorded_in (json.execution e.serialized_body)
      else []

  abbrev pub recorded : List OwnedLogEntry → List ExecutionRecord
  recorded [] = []
  recorded (e ∷ es) = recorded_at e ++ recorded es

  -- A log that has taken some executions and payloads on.
  pub record Grows (log log' : ReplayLog) (rs : List ExecutionRecord)
      (ps : List (Identity × List ℕ)) : Type 0 where
    pub descriptor_eq : log'.descriptor ≡ log.descriptor
    pub logged_eq : log'.logged ≡ log.logged
    pub tables_eq : log'.intern_tables ≡ log.intern_tables
    pub executions_eq : log'.executions ≡ log.executions ++ rs
    pub payloads_eq : log'.payloads ≡ push_all ps log.payloads
    pub apart : NoRepeat same_identity (keys log.payloads) (keys ps)
    pub logged : All (IsLogged log.logged) ps

  Grows-same : (log : ReplayLog) → Grows log log [] []
  Grows-same log = record {
    descriptor_eq = refl;
    logged_eq = refl;
    tables_eq = refl;
    executions_eq = sym (append-nil _);
    payloads_eq = refl;
    apart = tt;
    logged = tt;
  }

  keys-append : (ps qs : List (Identity × List ℕ)) → keys (ps ++ qs) ≡ keys ps ++ keys qs
  keys-append [] qs = refl
  keys-append (p ∷ ps) qs = ap (λ l. p.0 ∷ l) (keys-append ps qs)

  keys-push_all :
      (ps seen : List (Identity × List ℕ))
      → keys (push_all ps seen) ≡ push_all (keys ps) (keys seen)
  keys-push_all [] seen = refl
  keys-push_all (p ∷ ps) seen = keys-push_all ps (p ∷ seen)

  Grows-trans :
      (a b c : ReplayLog) (rs rs' : List ExecutionRecord) (ps ps' : List (Identity × List ℕ))
      → Grows a b rs ps
      → Grows b c rs' ps'
      → Grows a c (rs ++ rs') (ps ++ ps')
  Grows-trans a b c rs rs' ps ps' g k = record {
    descriptor_eq = k.descriptor_eq ∙ g.descriptor_eq;
    logged_eq = k.logged_eq ∙ g.logged_eq;
    tables_eq = k.tables_eq ∙ g.tables_eq;
    executions_eq =
        k.executions_eq ∙ ap (λ l. l ++ rs') g.executions_eq ∙ append_assoc a.executions rs rs';
    payloads_eq =
        k.payloads_eq ∙ ap (push_all ps') g.payloads_eq ∙ sym (push_all-append ps ps' a.payloads);
    apart = rw (keys-append ps ps') (
        (NoRepeat-append same_identity (keys ps) (keys ps') (keys a.payloads)).1 (
          g.apart,
          subst (λ l. NoRepeat same_identity l (keys ps'))
              (ap keys g.payloads_eq ∙ keys-push_all ps a.payloads) k.apart,
        ));
    logged =
        All-append (IsLogged a.logged) ps ps' g.logged
          (subst (λ l. All (IsLogged l) ps') g.logged_eq k.logged);
  }

  Grows-ok :
      {log l log' : ReplayLog} {rs : List ExecutionRecord} {ps : List (Identity × List ℕ)}
      → Grows log l rs ps
      → ◌≡◌ {A = Result Reason ReplayLog} (ok l) (ok log')
      → Grows log log' rs ps
  Grows-ok {log} {rs = rs} {ps = ps} g e = subst (λ l. Grows log l rs ps) (cc) g

  execution-Grows :
      (log log' : ReplayLog) (header : MessageHeader) (o : Option ExecutionRecord)
      → (or_err o bad_record >>= λ r. push_execution log header r) ≡ ok log'
      → Grows log log' (recorded_in o) []
  unfolding push_execution
  execution-Grows log log' header none h = cc
  execution-Grows log log' header (some r) h =
      let (_, is) = guard-ok (same_time r.execution_time header.published_at) _ _ h in
      Grows-ok
        (record {
          descriptor_eq = refl;
          logged_eq = refl;
          tables_eq = refl;
          executions_eq = refl;
          payloads_eq = refl;
          apart = tt;
          logged = tt;
        })
        is

  event-Grows :
      (log log' : ReplayLog) (header : MessageHeader) (o : Option Iox2EventRecord)
      → (or_err o bad_record >>= λ x. push_event log header x) ≡ ok log'
      → Grows log log' [] []
  unfolding push_event
  event-Grows log log' header none h = cc
  event-Grows log log' header (some x) h =
      let (_, h1) = guard-ok (same_time x.observed_at header.published_at) _ _ h in
      let (e, _, h2) =
        >>=-ok (endpoint log.descriptor x.callback_id received x.iox2_event.ordinal true) _ h1 in
      let (_, is) = guard-ok (is_event e.transport) _ _ h2 in Grows-ok (Grows-same log) is

  payload-Grows :
      (log log' : ReplayLog) (channel : String) (header : MessageHeader) (bytes : List ℕ)
      → push_payload log channel header bytes ≡ ok log'
      → Grows log log' [] (((channel, header), bytes) ∷ [])
  unfolding push_payload
  payload-Grows log log' channel header bytes h =
      let (logged, h1) = guard-ok (contains same_text channel log.logged) _ _ h in
      let (fresh, is) = guard-ok (not (has_payload (channel, header) log.payloads)) _ _ h1 in
      Grows-ok
        (record {
          descriptor_eq = refl;
          logged_eq = refl;
          tables_eq = refl;
          executions_eq = sym (append-nil _);
          payloads_eq = refl;
          apart = (not-true _ fresh, tt);
          logged = (logged, tt);
        })
        is

  push-Grows :
      (log log' : ReplayLog) (e : OwnedLogEntry)
      → push json log e.channel_name e.header e.serialized_body ≡ ok log'
      → Grows log log' (recorded_at e) (payload_at e)
  unfolding push
  push-Grows log log' e h =
      let (_, h1) = guard-ok (not (same_time e.header.published_at invalid)) _ _ h in
      elim (Bool-cases (e.channel_name ≐ execution_log_channel)) [
        | inl x ↦ let h2 = rw x at h1 in rw x (execution-Grows log log' e.header _ h2)
        | inr nx ↦ elim (Bool-cases (e.channel_name ≐ iox2_event_record_channel)) [
          | inl y ↦ let h2 = rw (nx, y) at h1 in rw (nx, y) (event-Grows log log' e.header _ h2)
          | inr ny ↦
              let h2 = rw (nx, ny) at h1 in
              rw (nx, ny) (payload-Grows log log' e.channel_name e.header e.serialized_body h2)
        ]
      ]

  pub push_entries-Grows :
      (log log' : ReplayLog) (es : List OwnedLogEntry)
      → push_entries json log es ≡ ok log'
      → Grows log log' (recorded es) (payloads_of es)
  push_entries-Grows log log' [] h = Grows-ok (Grows-same log) h
  push_entries-Grows log log' (e ∷ es) h =
      let (grown, one, rest) =
        >>=-ok (push json log e.channel_name e.header e.serialized_body) _ h in
      Grows-trans log grown log' (recorded_at e) (recorded es) (payload_at e) (payloads_of es)
        (push-Grows log grown e one) (push_entries-Grows grown log' es rest)

-- ===== src/ReplayFeed/New.antt =====
-- replay_feed.rs, `ReplayFeed::new`, and what a failed feed does.
use Prim.Native.String.{String}
use cfw.Prelude.{
  ℕ, ◌≡◌, refl, ap, sym, ◌∙◌, inl, inr, ◌⊎◌, Bool, true, false, not, Option, none, some, List, [],
  subst, push_all, NoRepeat, All, All-map, is_some, if◌then◌else◌,
}
use cfw.Prelude.Result.{Result, ok, err, guard-ok, >>=-ok, Result-cases}
use cfw.Schema.{Iox2EventRecord, Decoders, execution_log_descriptor_artifact, ExecutionDescriptor}
use cfw.SortedLog.{OwnedLogEntry}
use cfw.SortedLog.Reader.{SortedLogStreamReader}
use cfw.SortedLog.Reader.Laws.{remaining, IsHealthy}
use cfw.SortedLog.Scan.{recording_incompleteness}
use cfw.Time.{FrameworkTime}
use cfw.ExactReplay.Load.{artifact_of}
use cfw.ReplayFeed.{FeedError, failed_previously, ReplayFeed, Outcome, advance}
use cfw.ReplayFeed.Inject.{
  collect_sources, check_channels, check_descriptor, read_descriptor, always, advanced, prepare,
  new, Injection, inject_due_while,
}
use cfw.ReplayFeed.Advance.{selected, left, IsFeed, Advanced, advance_lem}
use cfw.Interner.{same_text}
use cfw.ReplayFeed.Covered.{
  IsReserved, IsServed, check_channels-IsServed, collect_sources-push_all, IsServed-push_all,
}
use cfw.ReplayFeed.Laws.{inject_due_while_lem}

module _ (json : Decoders) (reader : SortedLogStreamReader) (sources denied : List String) where
  fresh : List String → Option ExecutionDescriptor → ReplayFeed
  fresh map d = record {
    reader = reader;
    sources = map;
    descriptor = d;
    denied = denied;
    pending = none;
    exhausted = false;
    failed = false;
    last_time = none;
  }

  -- The sources of a feed are the given ones, none of them repeated or on a reserved channel; and each
  -- channel of the log is reserved, denied, or that of a given source.
  pub record IsServing (map : List String) : Type 0 where
    pub sources_eq : map ≡ push_all sources []
    pub distinct : NoRepeat same_text [] sources
    pub unreserved : All (λ name. ¬ IsReserved name) sources
    pub covered : All (IsServed sources denied) reader.channels

  served_by :
      (map : List String)
      → collect_sources sources [] ≡ ok map
      → check_channels map denied reader.channels ≡ ok tt
      → IsServing map
  served_by map collected checked =
      let (is, apart, free) = collect_sources-push_all sources [] map collected in
      record {
        sources_eq = is;
        distinct = apart;
        unreserved = free;
        covered =
            All-map
              (λ c served.
                IsServed-push_all sources denied c (subst (λ l. IsServed l denied c) is served))
              reader.channels (check_channels-IsServed map denied reader.channels checked);
      }

  prepare-ok :
      (feed : ReplayFeed)
      → prepare json reader sources denied ≡ ok feed
      → (map : List String) × (d : Option ExecutionDescriptor) × (fresh map d ≡ feed)
        × IsServing map
  unfolding prepare fresh
  prepare-ok feed h =
      let (_, h1) = guard-ok (not (is_some (artifact_of reader recording_incompleteness))) _ _ h in
      let (map, collected, h2) = >>=-ok (collect_sources sources []) _ h1 in
      let (_, checked, h3) = >>=-ok (check_channels map denied reader.channels) _ h2 in
      let (d, _, h4) =
        >>=-ok (read_descriptor json (artifact_of reader execution_log_descriptor_artifact)) _ h3 in
      let (_, _, is) = >>=-ok (check_descriptor json reader d) _ h4 in
      (map, d, cc, served_by map collected checked)

  -- A feed that has all the inputs of its reader to give.
  pub record IsFresh (feed : ReplayFeed) : Type 0 where
    pub is_feed : IsFeed json feed
    pub not_failed : feed.failed ≡ false
    pub all_left : left json feed ≡ selected json feed.descriptor denied (remaining reader)
    pub serving : IsServing feed.sources

  Advanced-IsFresh :
      (map : List String) (d : Option ExecutionDescriptor) (o : Outcome (Unit {0}))
      → IsServing map
      → o.result ≡ ok tt
      → Advanced json always (fresh map d) (remaining reader) o
      → IsFresh o.feed
  unfolding fresh
  Advanced-IsFresh map d o c r a = record {
    is_feed = a.is_feed;
    not_failed = a.follows.failed_eq;
    all_left =
        a.accounts r
        ∙ ap (λ x. selected json x denied (remaining reader)) (sym a.follows.descriptor_eq);
    serving = subst IsServing (sym a.follows.sources_eq) c;
  }

  prepared :
      (feed : ReplayFeed)
      → prepare json reader sources denied ≡ ok feed
      → new json reader sources denied ≡ advanced (advance json always feed 0)
  unfolding new
  prepared feed p = rw (p, new) refl

  advanced_err :
      (o : Outcome (Unit {0})) (e : FeedError) → o.result ≡ err e → advanced (some o) ≡ some (err e)
  advanced_err o e r = rw r refl

  advanced_ok :
      (o : Outcome (Unit {0})) (x : Unit {0})
      → o.result ≡ ok x
      → advanced (some o) ≡ some (ok o.feed)
  advanced_ok o x r = rw r refl

  -- Making a feed from a healthy reader ends: either with an error, or with a feed that has not
  -- failed, and has all the inputs of the reader left to give, in their order. The sources of that
  -- feed are the given ones, which are distinct and on no reserved channel, and each channel of the
  -- log is a reserved one, a denied one, or that of a given source.
  pub new_lem :
      IsHealthy reader
      → ((e : FeedError) × (new json reader sources denied ≡ some (err e)))
        ⊎ ((feed : ReplayFeed) × (new json reader sources denied ≡ some (ok feed)) × IsFresh feed)
  unfolding new fresh
  new_lem h = elim (Result-cases (prepare json reader sources denied)) [
    | inl (e, p) ↦ inl (e, rw (p, new) refl)
    | inr (feed, p) ↦
        let (map, d, is, covered) = prepare-ok feed p in
        let (o, adv, a) =
          advance_lem json always (fresh map d) 0 (record { healthy = h; at_end = λ t. cc }) in
        let run : new json reader sources denied ≡ advanced (some o) =
          prepared feed p
          ∙ ap (λ f. advanced (advance json always f 0)) (sym is)
          ∙ ap advanced adv in
        elim (Result-cases o.result) [
          | inl (e, r) ↦ inl (e, run ∙ advanced_err o e r)
          | inr (x, r) ↦ inr (o.feed, run ∙ advanced_ok o x r, Advanced-IsFresh map d o covered r a)
        ]
  ]

failed_test : {A : Type 0} (failed : Bool) (x y : A) → failed ≡ true → (if failed then x else y) ≡ x
failed_test failed x y f = rw f refl

module _ {S : Type 0} (inject : OwnedLogEntry → S → Result ℕ S)
    (event : String → String → Iox2EventRecord → S → Result ℕ S) where
  injection_inj : {a b : Injection inject event} → some a ≡ some b → a ≡ b
  injection_inj h = cc

  refused :
      (json : Decoders) (running : ℕ → Bool) (time : FrameworkTime) (feed : ReplayFeed) (s : S)
      → feed.failed ≡ true
      → inject_due_while inject event json running time feed s
        ≡ some (record { result = err failed_previously; feed = feed; world = s })
  unfolding inject_due_while
  refused json running time feed s f = failed_test feed.failed _ _ f

  -- After a call that failed on a sound feed, no call ever delivers anything again: each fails,
  -- whatever its time and its caller, and changes neither the feed nor the world.
  pub inject_failed_forever :
      (json : Decoders) (running : ℕ → Bool) (time : FrameworkTime) (feed : ReplayFeed) (s : S)
      (i : Injection inject event) (e : FeedError)
      → IsFeed json feed
      → feed.failed ≡ false
      → inject_due_while inject event json running time feed s ≡ some i
      → i.result ≡ err e
      → (json' : Decoders) (running' : ℕ → Bool) (time' : FrameworkTime) (s' : S)
      → inject_due_while inject event json' running' time' i.feed s'
        ≡ some (record { result = err failed_previously; feed = i.feed; world = s' })
  inject_failed_forever json running time feed s i e sound f call bad json' running' time' s' =
      let (v, run, ended) = inject_due_while_lem inject event json running time feed s sound f in
      let same : v ≡ i = injection_inj (sym run ∙ call) in
      elim ended [
        | inl (_, _, failed) ↦
            refused json' running' time' i.feed s' (sym (ap (λ x. x.feed.failed) same) ∙ failed)
        | inr serves ↦ let wrong = sym serves.result_eq ∙ ap (λ x. x.result) same ∙ bad in cc
      ]

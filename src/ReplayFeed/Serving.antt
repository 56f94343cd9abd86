-- ===== src/ReplayFeed/Serving.antt =====
-- replay_feed.rs: what a call of `inject_due_while` does when it succeeds, step by step.
use Prim.Native.String.{String}
use cfw.Prelude.{
  ℕ, ◌≡◌, refl, ap, sym, ◌∙◌, subst, inl, inr, ◌⊎◌, Bool, true, false, not, ◌&&◌, Option, none,
  some, List, [], ◌∷◌, ◌++◌, is_some, if◌then◌else◌, arith, Bool-cases, All,
}
use cfw.Prelude.Result.{Result, ok, err, ◌>>=◌}
use cfw.Schema.{Iox2EventRecord, Decoders}
use cfw.SortedLog.{OwnedLogEntry}
use cfw.SortedLog.Reader.Laws.{remaining}
use cfw.Time.{FrameworkTime, time_le}
use cfw.ReplayFeed.{Pending, time_of, FeedError, ReplayFeed, next_time, Outcome}
use cfw.ReplayFeed.Inject.{due, deliver, Injection, after_advance}
use cfw.ReplayFeed.Advance.{listed, selected, left, IsFeed, Advanced}

pub due-some :
    (time : FrameworkTime) (o : Option Pending) (p : Pending)
    → due time o ≡ some p
    → (o ≡ some p) × (time_le (time_of p) time ≡ true)
due-some time none p h = cc
due-some time (some q) p h = elim (Bool-cases (time_le (time_of q) time)) [
  | inl e ↦ let h' = rw e at h in (h', ground (arith, e, h'))
  | inr e ↦ let h' = rw e at h in cc
]

-- What is pending, if anything, is later than a time.
abbrev pub IsLater : FrameworkTime → Option Pending → Type 0
IsLater time none = Unit {0}
IsLater time (some p) = time_le (time_of p) time ≡ false

pub due-none : (time : FrameworkTime) (o : Option Pending) → due time o ≡ none → IsLater time o
due-none time none h = tt
due-none time (some q) h = elim (Bool-cases (time_le (time_of q) time)) [
  | inl e ↦ let h' = rw e at h in cc
  | inr e ↦ e
]

-- The three ways in which a call starts.
pub starts_again :
    {A : Type 0} (failed resume : Bool) (x y z : A)
    → failed ≡ false
    → resume ≡ true
    → (if failed then x else if resume then y else z) ≡ y
starts_again failed resume x y z f t = rw (f, t) refl

pub starts_on :
    {A : Type 0} (failed resume : Bool) (x y z : A)
    → failed ≡ false
    → resume ≡ false
    → (if failed then x else if resume then y else z) ≡ z
starts_on failed resume x y z f t = rw (f, t) refl

pub idle_test :
    (o : Option Pending) (x : Bool) → o ≡ none → x ≡ false → (not (is_some o) && not x) ≡ true
idle_test o x p e = rw (p, e) refl

pub end_test : (o : Option Pending) (x : Bool) → x ≡ true → (not (is_some o) && not x) ≡ false
end_test none x e = rw e refl
end_test (some p) x e = refl

pub pending_test :
    (o : Option Pending) (x : Bool) (p : Pending) → o ≡ some p → (not (is_some o) && not x) ≡ false
pending_test o x p e = rw e refl

module _ {S : Type 0} (inject : OwnedLogEntry → S → Result ℕ S)
    (event : String → String → Iox2EventRecord → S → Result ℕ S) where
  -- Inputs delivered one after the other.
  abbrev pub deliver_all : List String → List Pending → S → Result FeedError S
  deliver_all sources [] s = ok s
  deliver_all sources (p ∷ ps) s =
      deliver inject event sources p s >>= λ world. deliver_all sources ps world

  pub after_bad :
      (o : Outcome (Unit {0})) (bad : FeedError) (s : S)
      (again : ReplayFeed → ℕ → Option (Injection inject event))
      → o.result ≡ err bad
      → after_advance inject event (some o) s again
        ≡ some (record { result = err bad; feed = record o.feed { failed = true }; world = s })
  after_bad o bad s again e = rw (e, after_advance) refl

  pub after_fine :
      (o : Outcome (Unit {0})) (x : Unit {0}) (s : S)
      (again : ReplayFeed → ℕ → Option (Injection inject event))
      → o.result ≡ ok x
      → after_advance inject event (some o) s again ≡ again o.feed o.calls
  after_fine o x s again e = rw (e, after_advance) refl

  module _ (json : Decoders) (running : ℕ → Bool) (time : FrameworkTime) where
    abbrev pub IsDue : Pending → Type 0
    IsDue p = time_le (time_of p) time ≡ true

    -- A call that succeeds has delivered some inputs, all due, from the front of those left; it
    -- gives the time of the next one. Unless it was stopped, none that is left in front is due.
    pub record Serves (feed : ReplayFeed) (s : S) (i : Injection inject event) : Type 0 where
      pub delivered : List Pending
      pub result_eq : i.result ≡ ok (next_time i.feed)
      pub accounts : left json feed ≡ delivered ++ left json i.feed
      pub all_due : All IsDue delivered
      pub effect : deliver_all feed.sources delivered s ≡ ok i.world
      pub is_feed : IsFeed json i.feed
      pub not_failed : i.feed.failed ≡ feed.failed
      pub caught_up :
          ((n : ℕ) → running n ≡ true)
          → IsLater time i.feed.pending × (i.feed.pending ≡ none → left json i.feed ≡ [])

    abbrev pub Ended : ReplayFeed → S → Injection inject event → Type 0
    Ended feed s i =
        ((e : FeedError) × (i.result ≡ err e) × (i.feed.failed ≡ true)) ⊎ Serves feed s i

    -- Where a feed that is not stopped has nothing pending, the log is at its end.
    abbrev pub IsAwake : ReplayFeed → Type 0
    IsAwake feed = ((n : ℕ) → running n ≡ true) → feed.pending ≡ none → feed.exhausted ≡ true

    pub left-end :
        (feed : ReplayFeed)
        → IsFeed json feed
        → feed.pending ≡ none
        → feed.exhausted ≡ true
        → left json feed ≡ []
    left-end feed i p x =
        ap (λ q. listed q ++ selected json feed.descriptor feed.denied (remaining feed.reader)) p
        ∙ ap (selected json feed.descriptor feed.denied) (i.at_end x)

    pub stops-Serves :
        (feed : ReplayFeed) (s : S)
        → IsFeed json feed
        → (((n : ℕ) → running n ≡ true)
            → IsLater time feed.pending × (feed.pending ≡ none → left json feed ≡ []))
        → Serves feed s (record { result = ok (next_time feed); feed = feed; world = s })
    stops-Serves feed s i c = record {
      delivered = [];
      result_eq = refl;
      accounts = refl;
      all_due = tt;
      effect = refl;
      is_feed = i;
      not_failed = refl;
      caught_up = c;
    }

    -- One delivery, an advance, and what follows it.
    pub step-Serves :
        (feed : ReplayFeed) (s world : S) (p : Pending) (o : Outcome (Unit {0}))
        (i : Injection inject event)
        → feed.pending ≡ some p
        → IsDue p
        → deliver inject event feed.sources p s ≡ ok world
        → Advanced json running (record feed { pending = none }) (remaining feed.reader) o
        → o.result ≡ ok tt
        → Serves o.feed world i
        → Serves feed s i
    step-Serves feed s world p o i at is_due one a fine v = record {
      delivered = p ∷ v.delivered;
      result_eq = v.result_eq;
      accounts =
          ap (λ q. listed q ++ selected json feed.descriptor feed.denied (remaining feed.reader)) at
          ∙ ap (λ l. p ∷ l) (sym (a.accounts fine) ∙ v.accounts);
      all_due = (is_due, v.all_due);
      effect = rw one (
          subst (λ sources. deliver_all sources v.delivered world ≡ ok i.world) a.follows.sources_eq
            v.effect);
      is_feed = v.is_feed;
      not_failed = v.not_failed ∙ a.follows.failed_eq;
      caught_up = v.caught_up;
    }

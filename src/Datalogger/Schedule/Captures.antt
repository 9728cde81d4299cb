-- ===== src/Datalogger/Schedule/Captures.antt =====
-- The captures of `Run` of backend/internal/datalogger/calendar_scheduler.go.
use iot_edge.Prelude.{
  ℕ, ◌+◌, ◌≤◌, ◌≡◌, ◌≢◌, refl, subst, Bool, true, false, ◌||◌, not, Option, none, some, List, [],
  ◌∷◌, ltb, ◌==◌, if◌then◌else◌, Result, ok, err, ok-injective, if-elim, arith, >>=-eq-ok,
  fail_if-eq-ok, All,
}
use iot_edge.Datalogger.Interval.{
  SnapshotValue, is_past, elapsed_since, has_tags, ends_before, valid_references, Round, cancelled,
  wakes, capture_latest_snapshot,
}
use iot_edge.Datalogger.Schedule.Config.{
  ScheduleText, Schedule, ConfigError, normalize_schedule, normalize_every, valid_schedule_unit,
  normalize_times, normalize_weekdays, fits_unit, invalid_input,
}
use iot_edge.Datalogger.Schedule.{
  CalendarLogger, CalendarError, invalid_calendar_logger, calendar_logger_disabled,
  CalendarDefinition, next_by_unit, next_calendar_run, validate_calendar_logger, as_invalid,
  require_location, parse_times,
}
use iot_edge.Datalogger.Schedule.Running.{
  capture_calendar, captured, Plan, returns, continues, captures, lateness_tolerance, after_late,
  woken, waits, plan_round, run_calendar_rounds, run_calendar,
}
use iot_edge.Datalogger.Schedule.Calendar.{
  IsDueBy, Reaches, next_by_unit-Promises, normalize_every-positive,
}

as_invalid-ok : {A : Type 0} (r : Result ConfigError A) {a : A} → as_invalid r ≡ ok a → r ≡ ok a
as_invalid-ok (ok a) h = cc
as_invalid-ok (err e) h = cc

normalize_schedule-every :
    (text : ScheduleText) {schedule : Schedule}
    → normalize_schedule text ≡ ok schedule
    → 1 ≤ schedule.every
unfolding normalize_schedule
normalize_schedule-every ScheduleText.malformed h = cc
normalize_schedule-every (ScheduleText.object config) h =
    let (every, positive, h1) = >>=-eq-ok (normalize_every config.every) _ h in
    let (_, h2) = fail_if-eq-ok (not (valid_schedule_unit config.unit)) invalid_input _ h1 in
    let (times, _, h3) = >>=-eq-ok (normalize_times config.times) _ h2 in
    let (weekdays, _, h4) = >>=-eq-ok (normalize_weekdays config.weekdays) _ h3 in
    let (_, h5) = fail_if-eq-ok (not (fits_unit config.unit times weekdays)) invalid_input _ h4 in
    subst (λ (s : Schedule). 1 ≤ s.every) (ok-injective h5)
      (normalize_every-positive config.every positive)

-- What an accepted logger has.
validate_calendar_logger-ok :
    (l : CalendarLogger) {d : CalendarDefinition}
    → validate_calendar_logger l ≡ ok d
    → (l.start_at ≢ 0) × (1 ≤ d.every)
unfolding validate_calendar_logger
validate_calendar_logger-ok l h =
    let (given, h1) =
      fail_if-eq-ok ((l.id == 0) || not l.is_schedule || (l.start_at == 0) || not (has_tags l.tags))
        invalid_calendar_logger _ h in
    let (_, h2) = fail_if-eq-ok (not l.enabled) calendar_logger_disabled _ h1 in
    let (_, h3) = fail_if-eq-ok (ends_before l.start_at l.end_at) invalid_calendar_logger _ h2 in
    let (z, _, h4) = >>=-eq-ok (require_location l.location) _ h3 in
    let (config, normal, h5) = >>=-eq-ok (as_invalid (normalize_schedule l.config)) _ h4 in
    let (times, _, h6) = >>=-eq-ok (parse_times config.times) _ h5 in
    let (_, h7) = fail_if-eq-ok (not (valid_references l.tags)) invalid_calendar_logger _ h6 in
    (
      ground (arith, given),
      subst (λ (e : CalendarDefinition). 1 ≤ e.every) (ok-injective h7)
          (normalize_schedule-every l.config (as_invalid-ok (normalize_schedule l.config) normal)),
    )

-- A run of a logger: due, from its start to its end, and not before a threshold as far as a
-- Duration reaches.
abbrev pub IsRun : CalendarDefinition → CalendarLogger → ℕ → ℕ → Type 0
IsRun d l threshold at =
    IsDueBy d.unit d l.start_at at
    × (l.start_at ≤ at)
    × (is_past l.end_at at ≡ false)
    × Reaches l.start_at threshold at

if-none :
    (b : Bool) {next at : ℕ}
    → ◌≡◌ {A = Option ℕ} (if b then none else some next) (some at)
    → (b ≡ false) × (next ≡ at)
if-none true h = cc
if-none false h = (refl, cc)

second-false : (a : Bool) {b : Bool} → a || b ≡ false → b ≡ false
second-false true h = cc
second-false false h = h

raised :
    (start now at : ℕ)
    → Reaches start (if ltb now start then start else now) at
    → Reaches start now at
raised start now at h near =
    let reached = h near in
    if-elim (λ (t : ℕ). t ≤ at → now ≤ at) (ltb now start)
      (λ early start_at. ground (arith, early, start_at)) (λ _ now_at. now_at) reached

-- The next run is a run.
next_calendar_run-IsRun :
    (l : CalendarLogger) (now : ℕ) {d : CalendarDefinition} {at : ℕ}
    → validate_calendar_logger l ≡ ok d
    → next_calendar_run l now ≡ ok (some at)
    → IsRun d l now at
unfolding next_calendar_run
next_calendar_run-IsRun l now {d} accepted h =
    let threshold = if ltb now l.start_at then l.start_at else now in
    let (next, answered, found) =
      >>=-eq-ok (next_by_unit d.unit l.start_at threshold d) _ (rw accepted at h) in
    let (open_, same) = if-none ((next == 0) || is_past l.end_at next) (ok-injective found) in
    let (_, some_) = validate_calendar_logger-ok l accepted in
    let (due, after, reaches) =
      next_by_unit-Promises d.unit l.start_at threshold d some_ answered in
    subst (IsRun d l now) same
      (due, after, second-false (next == 0) open_, raised l.start_at now next reaches)

-- Runs in a row, each after the one before.
abbrev pub IsCalendar : CalendarDefinition → CalendarLogger → ℕ → List ℕ → Type 0
IsCalendar d l threshold [] = Unit
IsCalendar d l threshold (at ∷ times) = IsRun d l threshold at × IsCalendar d l (at + 1) times

IsCalendar-later :
    (d : CalendarDefinition) (l : CalendarLogger) (threshold scheduled now : ℕ) (times : List ℕ)
    → Reaches l.start_at threshold scheduled
    → scheduled ≤ now
    → IsCalendar d l now times
    → IsCalendar d l threshold times
IsCalendar-later d l threshold scheduled now [] before late h = tt
IsCalendar-later d l threshold scheduled now (at ∷ times) before late
      ((due, after, open_, reaches), rest) =
    (
      (
        due,
        after,
        open_,
        λ near.
            let reached = reaches near in
            let early = before (omega (arith, reached, late, near)) in
            omega (arith, early, reached, late),
      ),
      rest,
    )

-- What a plan promises.
abbrev Keeps : CalendarDefinition → CalendarLogger → ℕ → Plan → Type 0
Keeps d l threshold returns = Unit
Keeps d l threshold (captures at done) = IsRun d l threshold at
Keeps d l threshold (continues later) =
    (scheduled : ℕ) × Reaches l.start_at threshold scheduled × (scheduled ≤ later)

after_late-Keeps :
    (l : CalendarLogger) (threshold scheduled now : ℕ) (done : Bool) (d : CalendarDefinition)
    (r : Result CalendarError (Option ℕ))
    → ((at : ℕ) → r ≡ ok (some at) → IsRun d l now at)
    → Reaches l.start_at threshold scheduled
    → scheduled ≤ now
    → Keeps d l threshold (after_late now done r)
after_late-Keeps l threshold scheduled now done d (err e) runs before late = tt
after_late-Keeps l threshold scheduled now done d (ok none) runs before late = tt
after_late-Keeps l threshold scheduled now done d (ok (some current)) runs before late =
    if-elim (Keeps d l threshold) (current == now)
      (λ _.
        (IsCalendar-later d l threshold scheduled now (current ∷ []) before late
          (runs current refl, tt)).0)
      (λ _. (scheduled, before, late))

late_after :
    (scheduled now : ℕ)
    → ltb lateness_tolerance (elapsed_since scheduled now) ≡ true
    → scheduled ≤ now
late_after scheduled now late = ground (arith, late)

woken-Keeps :
    (l : CalendarLogger) (threshold scheduled : ℕ) (round : Round) {d : CalendarDefinition}
    → validate_calendar_logger l ≡ ok d
    → IsRun d l threshold scheduled
    → Keeps d l threshold (woken l scheduled round)
woken-Keeps l threshold scheduled cancelled accepted run = tt
woken-Keeps l threshold scheduled (wakes now done) {d} accepted run =
    if-elim (Keeps d l threshold) (ltb lateness_tolerance (elapsed_since scheduled now))
      (λ late.
        after_late-Keeps l threshold scheduled now done d (next_calendar_run l now)
          (λ at e. next_calendar_run-IsRun l now accepted e) run.3 (late_after scheduled now late))
      (λ _. run)

plan_round-Keeps :
    (l : CalendarLogger) (threshold : ℕ) (round : Round) (r : Result CalendarError (Option ℕ))
    {d : CalendarDefinition}
    → validate_calendar_logger l ≡ ok d
    → next_calendar_run l threshold ≡ r
    → Keeps d l threshold (waits l round r)
plan_round-Keeps l threshold round (err e) accepted h = tt
plan_round-Keeps l threshold round (ok none) accepted h = tt
plan_round-Keeps l threshold round (ok (some scheduled)) accepted h =
    woken-Keeps l threshold scheduled round accepted
      (next_calendar_run-IsRun l threshold accepted h)

abbrev after_plan : CalendarLogger → List Round → Plan → List ℕ
after_plan l rounds returns = []
after_plan l rounds (continues later) = run_calendar_rounds l later rounds
after_plan l rounds (captures at true) = at ∷ []
after_plan l rounds (captures at false) = at ∷ run_calendar_rounds l (at + 1) rounds

after_plan-IsCalendar :
    (d : CalendarDefinition) (l : CalendarLogger) (threshold : ℕ) (rounds : List Round) (p : Plan)
    → ((t : ℕ) → IsCalendar d l t (run_calendar_rounds l t rounds))
    → Keeps d l threshold p
    → IsCalendar d l threshold (after_plan l rounds p)
after_plan-IsCalendar d l threshold rounds returns rest h = tt
after_plan-IsCalendar d l threshold rounds (continues later) rest (scheduled, before, late) =
    IsCalendar-later d l threshold scheduled later _ before late (rest later)
after_plan-IsCalendar d l threshold rounds (captures at true) rest h = (h, tt)
after_plan-IsCalendar d l threshold rounds (captures at false) rest h = (h, rest (at + 1))

run_calendar_rounds-IsCalendar :
    (l : CalendarLogger) (threshold : ℕ) (rounds : List Round) {d : CalendarDefinition}
    → validate_calendar_logger l ≡ ok d
    → IsCalendar d l threshold (run_calendar_rounds l threshold rounds)
unfolding run_calendar_rounds plan_round
run_calendar_rounds-IsCalendar l threshold [] accepted = tt
run_calendar_rounds-IsCalendar l threshold (round ∷ rounds) {d} accepted =
    after_plan-IsCalendar d l threshold rounds (plan_round l threshold round)
      (λ t. run_calendar_rounds-IsCalendar l t rounds accepted)
      (plan_round-Keeps l threshold round (next_calendar_run l threshold) accepted refl)

-- Capture takes every run.
capture_calendar-IsRun :
    (snapshot : ℕ → Option SnapshotValue) (l : CalendarLogger) (threshold at : ℕ)
    {d : CalendarDefinition}
    → validate_calendar_logger l ≡ ok d
    → IsRun d l threshold at
    → capture_calendar false snapshot l at ≡ ok (capture_latest_snapshot snapshot (captured l) at)
unfolding capture_calendar
capture_calendar-IsRun snapshot l threshold at accepted (due, after, open_, reaches) =
    let (started, _) = validate_calendar_logger-ok l accepted in
    let given : (at == 0) ≡ false = ground (arith, started, after) in
    let early : ltb at l.start_at ≡ false = ground (arith, after) in
    rw (accepted, given, early, open_)

All-captured :
    (snapshot : ℕ → Option SnapshotValue) (l : CalendarLogger) (threshold : ℕ) (times : List ℕ)
    {d : CalendarDefinition}
    → validate_calendar_logger l ≡ ok d
    → IsCalendar d l threshold times
    → All
        (λ (at : ℕ).
          capture_calendar false snapshot l at
          ≡ ok (capture_latest_snapshot snapshot (captured l) at))
        times
All-captured snapshot l threshold [] accepted h = tt
All-captured snapshot l threshold (at ∷ times) accepted h = (
  capture_calendar-IsRun snapshot l threshold at accepted h.0,
  All-captured snapshot l (at + 1) times accepted h.1,
)

-- Whatever the time zone and the clock say and whenever it is cancelled, a logger that runs by the
-- calendar captures only at due times from its start to its end, each of which Capture accepts; as
-- far as a Duration reaches from its start, none comes before the logger ran and each comes after
-- the one before.
pub run_calendar-IsCalendar :
    (snapshot : ℕ → Option SnapshotValue) (l : CalendarLogger) (now : ℕ) (rounds : List Round)
    {times : List ℕ}
    → run_calendar l now rounds ≡ ok times
    → (d : CalendarDefinition) × (validate_calendar_logger l ≡ ok d)
      × IsCalendar d l now times
      × All
          (λ (at : ℕ).
            capture_calendar false snapshot l at
            ≡ ok (capture_latest_snapshot snapshot (captured l) at))
          times
unfolding run_calendar
run_calendar-IsCalendar snapshot l now rounds h =
    let (d, accepted, ran) = >>=-eq-ok (validate_calendar_logger l) _ h in
    let calendar =
      subst (IsCalendar d l now) (ok-injective ran)
        (run_calendar_rounds-IsCalendar l now rounds accepted) in
    (d, accepted, calendar, All-captured snapshot l now _ accepted calendar)

-- ===== src/Datalogger/Schedule/Calendar.antt =====
-- The captures of a running logger of backend/internal/datalogger/calendar_scheduler.go.
use iot_edge.Prelude.{
  ℕ, ◌+◌, ◌-◌, ◌*◌, ◌/◌, ◌≤◌, ◌≡◌, ap, subst, ltb, leb, Result, ok, err, ok-injective, if-elim,
  arith, dec_le, ℤ, pos, negsuc,
}
use iot_edge.Datalogger.Interval.{next_interval_run, max_duration, elapsed_since}
use iot_edge.Datalogger.Interval.Grid.{IsDue, next_interval_run-first, whole_intervals}
use iot_edge.Datalogger.Interval.Rounds.{next_interval_run-IsDue}
use iot_edge.Datalogger.Schedule.Config.{ScheduleUnit, normalize_every}
use iot_edge.Datalogger.Schedule.{
  CalendarError, CalendarDefinition, civil_date, iso_weekday, next_daily_run, next_weekly_run,
  next_by_unit, minute_ns, hour_ns,
}
use iot_edge.Datalogger.Schedule.Due.{
  OnDay, OnWeek, Succeeds, daily_attempts-Succeeds, weekly_attempts-Succeeds, next_multiple-IsStep,
}

-- The first day of the week of a date, a Monday.
abbrev pub week_of : ℕ → ℕ
week_of date = date + 1 - iso_weekday date

-- A time that is due: whole minutes or hours after the start; or a configured time of a day that is
-- a whole number of steps after the day of the start; or one of a configured weekday of a week that
-- is a whole number of steps after the week of the start.
abbrev pub IsDueBy : ScheduleUnit → CalendarDefinition → ℕ → ℕ → Type 0
IsDueBy ScheduleUnit.minute d start at = IsDue start (d.every * minute_ns) at
IsDueBy ScheduleUnit.hour d start at = IsDue start (d.every * hour_ns) at
IsDueBy ScheduleUnit.day d start at = OnDay d (civil_date d.location start) at
IsDueBy ScheduleUnit.week d start at = OnWeek d (week_of (civil_date d.location start)) at
IsDueBy ScheduleUnit.other d start at = ⊥

-- Not before a threshold, as far as a Duration reaches.
abbrev pub Reaches : ℕ → ℕ → ℕ → Type 0
Reaches start threshold at = at ≤ start + max_duration → threshold ≤ at

next_interval_run-Reaches :
    (start interval threshold : ℕ)
    → 1 ≤ interval
    → Reaches start threshold (next_interval_run start interval threshold)
unfolding next_interval_run
next_interval_run-Reaches start interval threshold some_ =
    elim (dec_le (threshold - start) max_duration) [
      | yes near ↦ λ _. (next_interval_run-first start interval threshold some_ near).1
      | no far ↦
          let (low, high) = whole_intervals max_duration interval some_ in
          let cut : elapsed_since start threshold ≡ max_duration = omega (arith, far) in
          if-elim (Reaches start threshold) (leb threshold start)
            (λ early. absurd (ground (arith, early, far)))
            (λ _.
              if-elim (Reaches start threshold)
                (ltb (start + elapsed_since start threshold / interval * interval) threshold)
                (λ _ near.
                  absurd (omega (arith, near, ap (λ e. e / interval * interval) cut, high)))
                (λ reached _. ground (arith, reached)))
    ]

-- What a scheduler's answer promises.
abbrev pub Promises : ScheduleUnit → CalendarDefinition → ℕ → ℕ → ℕ → Type 0
Promises u d start threshold at = IsDueBy u d start at × (start ≤ at) × Reaches start threshold at

interval-Promises :
    (start interval threshold : ℕ)
    → 1 ≤ interval
    → let at = next_interval_run start interval threshold in
      IsDue start interval at × (start ≤ at) × Reaches start threshold at
interval-Promises start interval threshold some_ =
    let (due, after) = next_interval_run-IsDue start interval threshold in
    (due, after, next_interval_run-Reaches start interval threshold some_)

succeeded :
    (P : ℕ → Type 0) (start threshold : ℕ) (r : Result CalendarError ℕ) {at : ℕ}
    → Succeeds P start threshold r
    → r ≡ ok at
    → P at × (start ≤ at) × Reaches start threshold at
succeeded P start threshold (err e) h k = cc
succeeded P start threshold (ok x) h k =
    subst (λ y. P y × (start ≤ y) × Reaches start threshold y) (ok-injective k)
      (h.0, h.1.0, λ _. h.1.1)

pub next_by_unit-Promises :
    (u : ScheduleUnit) (start threshold : ℕ) (d : CalendarDefinition) {at : ℕ}
    → 1 ≤ d.every
    → next_by_unit u start threshold d ≡ ok at
    → Promises u d start threshold at
unfolding next_by_unit next_daily_run next_weekly_run
next_by_unit-Promises ScheduleUnit.minute start threshold d some_ h =
    subst (Promises ScheduleUnit.minute d start threshold) (ok-injective h)
      (interval-Promises start (d.every * minute_ns) threshold (omega (arith, some_)))
next_by_unit-Promises ScheduleUnit.hour start threshold d some_ h =
    subst (Promises ScheduleUnit.hour d start threshold) (ok-injective h)
      (interval-Promises start (d.every * hour_ns) threshold (omega (arith, some_)))
next_by_unit-Promises ScheduleUnit.day start threshold d some_ h =
    let start_date = civil_date d.location start in
    succeeded (OnDay d start_date) start threshold (next_daily_run start threshold d)
      (daily_attempts-Succeeds d start threshold start_date 8 _ (next_multiple-IsStep _ d.every)) h
next_by_unit-Promises ScheduleUnit.week start threshold d some_ h =
    let start_week = week_of (civil_date d.location start) in
    succeeded (OnWeek d start_week) start threshold (next_weekly_run start threshold d)
      (weekly_attempts-Succeeds d start threshold start_week 8 _ (next_multiple-IsStep _ d.every)) h
next_by_unit-Promises ScheduleUnit.other start threshold d some_ h = cc

pub normalize_every-positive : (z : ℤ) {every : ℕ} → normalize_every z ≡ ok every → 1 ≤ every
unfolding normalize_every
normalize_every-positive (pos n) h = ground arith
normalize_every-positive (negsuc n) h = cc

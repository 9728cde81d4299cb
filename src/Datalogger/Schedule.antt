-- ===== src/Datalogger/Schedule.antt =====
-- backend/internal/datalogger/calendar_scheduler.go: loggers that run by the calendar. A civil date is
-- the number of days since 1 January of year 1, a Monday; a location is what the time zone database
-- gives of it: the wall clock of an instant, and the instant that time.Date picks for a wall clock,
-- both in nanoseconds. A reading of the clock, the end of a wait and the answer of the history's
-- writer are inputs of each round.
pub mod Config
pub mod Running
pub mod Due
pub mod Calendar
pub mod Captures
pub mod Accepted
mod Tests
use iot_edge.Prelude.{
  ℕ, zero, suc, ◌+◌, ◌-◌, ◌*◌, ◌/◌, ◌%◌, Bool, true, false, ◌&&◌, ◌||◌, not, Option, none, some,
  List, [], ◌∷◌, ltb, leb, ◌==◌, if◌then◌else◌, Result, ok, err, ◌>>=◌, ◌>>◌, fail_if, min,
}
use iot_edge.Datalogger.Interval.{
  SnapshotValue, TagReference, has_tags, is_past, ends_before, valid_references, max_duration,
  next_interval_run, raw_sample_from_snapshot, Round, cancelled, wakes,
}
use iot_edge.Datalogger.Batch.{RawBatch, valid_history_data_type}
use iot_edge.Datalogger.Schedule.Config.{
  ScheduleUnit, ScheduleText, Schedule, ClockTime, ConfigError, parse_clock, normalize_schedule,
  sort_numbers,
}

pub record Location : Type 0 where
  pub local : ℕ → ℕ
  pub of_local : ℕ → ℕ

-- The members of `Logger` that the scheduler reads. `is_schedule` is `Mode == ModeSchedule`; the
-- location is what time.LoadLocation finds for a name that is not empty.
pub record CalendarLogger : Type 0 where
  pub id : ℕ
  pub enabled : Bool
  pub is_schedule : Bool
  pub start_at : ℕ
  pub end_at : Option ℕ
  pub location : Option Location
  pub config : ScheduleText
  pub tags : List TagReference

pub data CalendarError : Type 0 where
  invalid_calendar_logger calendar_logger_disabled context_done : CalendarError

pub record CalendarDefinition : Type 0 where
  pub unit : ScheduleUnit
  pub every : ℕ
  pub weekdays : List ℕ
  pub times : List ClockTime
  pub location : Location

abbrev pub minute_ns : ℕ
minute_ns = 60000000000

abbrev pub hour_ns : ℕ
hour_ns = 3600000000000

abbrev pub day_ns : ℕ
day_ns = 86400000000000

abbrev pub as_invalid {ℓ} : {A : Type ℓ} → Result ConfigError A → Result CalendarError A
as_invalid (ok a) = ok a
as_invalid (err e) = err invalid_calendar_logger

abbrev pub require_location : Option Location → Result CalendarError Location
require_location none = err invalid_calendar_logger
require_location (some z) = ok z

abbrev require_time : Option ClockTime → Result CalendarError ClockTime
require_time none = err invalid_calendar_logger
require_time (some t) = ok t

-- The loop over `config.Times`.
unfoldable pub parse_times : List (List ℕ) → Result CalendarError (List ClockTime)
unfolding parse_clock
parse_times [] = ok []
parse_times (value ∷ values) =
    require_time (parse_clock value) >>= λ t. parse_times values >>= λ rest. ok (t ∷ rest)

unfoldable pub validate_calendar_logger : CalendarLogger → Result CalendarError CalendarDefinition
unfolding normalize_schedule parse_times valid_history_data_type
validate_calendar_logger l =
    fail_if ((l.id == 0) || not l.is_schedule || (l.start_at == 0) || not (has_tags l.tags))
      invalid_calendar_logger
    >> fail_if (not l.enabled) calendar_logger_disabled
    >> fail_if (ends_before l.start_at l.end_at) invalid_calendar_logger
    >> (require_location l.location >>= λ z. as_invalid (normalize_schedule l.config) >>= λ config.
        parse_times config.times >>= λ times.
        fail_if (not (valid_references l.tags)) invalid_calendar_logger
        >> ok (record {
          unit = config.unit;
          every = config.every;
          weekdays = config.weekdays;
          times = times;
          location = z;
        }))

-- `civilDate` of a time in a location.
abbrev pub civil_date : Location → ℕ → ℕ
civil_date z at = z.local at / day_ns

-- `civilDaysBetween`; `Sub` stops at the greatest Duration. Where the later date comes first the
-- callers take zero for the negative number.
abbrev pub civil_days_between : ℕ → ℕ → ℕ
civil_days_between from to = min ((to - from) * day_ns) max_duration / day_ns

unfoldable pub next_multiple : (value every : ℕ) → ℕ
next_multiple value every =
    let remainder = value % every in if remainder == 0 then value else value + every - remainder

-- `isoWeekday` of a date's weekday: Monday is 1, Sunday is 7.
abbrev pub iso_weekday : ℕ → ℕ
iso_weekday date = date % 7 + 1

-- `sameLocalMinute`: the wall clock shows the date, the hour and the minute.
unfoldable pub same_local_minute : Location → ℕ → ℕ → ClockTime → Bool
same_local_minute z at date t = z.local at / minute_ns == date * 1440 + t.hour * 60 + t.minute

-- The loop over offsets, from three hours before the candidate; n rounds are left.
unfoldable pub earliest : Location → ℕ → ClockTime → ℕ → ℕ → ℕ → ℕ → ℕ
unfolding same_local_minute
earliest z date t candidate zero round first = first
earliest z date t candidate (suc n) round first =
    let alternative = candidate + round * minute_ns - 3 * hour_ns in
    earliest z date t candidate n (round + 1) (
      if ltb alternative first && same_local_minute z alternative date t
      then alternative
      else first)

unfoldable pub resolve_local_occurrence : Location → ℕ → ClockTime → Option ℕ
unfolding earliest
resolve_local_occurrence z date t =
    let candidate = z.of_local (date * day_ns + t.hour * hour_ns + t.minute * minute_ns) in
    if same_local_minute z candidate date t
    then some (earliest z date t candidate 361 0 candidate)
    else none

-- `exists && !candidate.Before(startAt) && !candidate.Before(threshold)`
abbrev pub acceptable : ℕ → ℕ → Option ℕ → Option ℕ
acceptable start threshold none = none
acceptable start threshold (some candidate) =
    if leb start candidate && leb threshold candidate then some candidate else none

-- The loop over the configured times of a date.
unfoldable pub find_time : Location → ℕ → ℕ → ℕ → List ClockTime → Option ℕ
unfolding resolve_local_occurrence
find_time z start threshold date [] = none
find_time z start threshold date (t ∷ times) =
    elim (acceptable start threshold (resolve_local_occurrence z date t)) [
      | some candidate ↦ some candidate
      | none ↦ find_time z start threshold date times
    ]

-- The loop of `nextDailyRun`; n attempts are left.
unfoldable pub daily_attempts : CalendarDefinition → ℕ → ℕ → ℕ → ℕ → ℕ → Result CalendarError ℕ
unfolding find_time
daily_attempts d start threshold start_date zero cycle = err invalid_calendar_logger
daily_attempts d start threshold start_date (suc n) cycle =
    elim (find_time d.location start threshold (start_date + cycle) d.times) [
      | some candidate ↦ ok candidate
      | none ↦ daily_attempts d start threshold start_date n (cycle + d.every)
    ]

unfoldable pub next_daily_run : ℕ → ℕ → CalendarDefinition → Result CalendarError ℕ
unfolding daily_attempts next_multiple
next_daily_run start threshold d =
    let start_date = civil_date d.location start in
    let target = civil_date d.location threshold in
    daily_attempts d start threshold start_date 8
      (next_multiple (civil_days_between start_date target) d.every)

-- The loop over the weekdays of a week.
unfoldable pub find_weekday : CalendarDefinition → ℕ → ℕ → ℕ → List ℕ → Option ℕ
unfolding find_time
find_weekday d start threshold week_start [] = none
find_weekday d start threshold week_start (weekday ∷ weekdays) =
    elim (find_time d.location start threshold (week_start + weekday - 1) d.times) [
      | some candidate ↦ some candidate
      | none ↦ find_weekday d start threshold week_start weekdays
    ]

-- The loop of `nextWeeklyRun`, over the sorted weekdays.
unfoldable pub weekly_attempts :
    CalendarDefinition → List ℕ → ℕ → ℕ → ℕ → ℕ → ℕ → Result CalendarError ℕ
unfolding find_weekday
weekly_attempts d weekdays start threshold start_week zero week = err invalid_calendar_logger
weekly_attempts d weekdays start threshold start_week (suc n) week =
    elim (find_weekday d start threshold (start_week + week * 7) weekdays) [
      | some candidate ↦ ok candidate
      | none ↦ weekly_attempts d weekdays start threshold start_week n (week + d.every)
    ]

unfoldable pub next_weekly_run : ℕ → ℕ → CalendarDefinition → Result CalendarError ℕ
unfolding weekly_attempts next_multiple
next_weekly_run start threshold d =
    let start_date = civil_date d.location start in
    let start_week = start_date + 1 - iso_weekday start_date in
    let target = civil_date d.location threshold in
    weekly_attempts d (sort_numbers d.weekdays) start threshold start_week 8
      (next_multiple (civil_days_between start_week target / 7) d.every)

-- The `switch` of `NextCalendarRun` over units.
unfoldable pub next_by_unit : ScheduleUnit → ℕ → ℕ → CalendarDefinition → Result CalendarError ℕ
unfolding next_interval_run next_daily_run next_weekly_run
next_by_unit ScheduleUnit.minute start threshold d =
    ok (next_interval_run start (d.every * minute_ns) threshold)
next_by_unit ScheduleUnit.hour start threshold d =
    ok (next_interval_run start (d.every * hour_ns) threshold)
next_by_unit ScheduleUnit.day start threshold d = next_daily_run start threshold d
next_by_unit ScheduleUnit.week start threshold d = next_weekly_run start threshold d
next_by_unit ScheduleUnit.other start threshold d = err invalid_calendar_logger

-- The next run, if any.
unfoldable pub next_calendar_run : CalendarLogger → ℕ → Result CalendarError (Option ℕ)
unfolding validate_calendar_logger next_by_unit
next_calendar_run l now = validate_calendar_logger l >>= λ d.
    let threshold = if ltb now l.start_at then l.start_at else now in
    next_by_unit d.unit l.start_at threshold d >>= λ next.
    ok (if (next == 0) || is_past l.end_at next then none else some next)

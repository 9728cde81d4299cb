-- ===== src/Datalogger/Schedule/Tests.antt =====
-- The calendar scheduler of backend/internal/datalogger/calendar_scheduler.go on a concrete logger.
use iot_edge.Prelude.{
  ℕ, ◌+◌, ◌-◌, ◌≤◌, ◌≡◌, refl, true, false, Option, none, some, List, [], ◌∷◌, ok, pos, All,
}
use iot_edge.Value.{DataType}
use iot_edge.Value.Text.{codes}
use iot_edge.Datalogger.Interval.{SnapshotValue, Round, cancelled, wakes, capture_latest_snapshot}
use iot_edge.Datalogger.Schedule.Config.{
  ScheduleUnit, ScheduleText, Schedule, ClockTime, normalize_schedule, max_schedule_every,
}
use iot_edge.Datalogger.Schedule.{
  Location, CalendarLogger, CalendarDefinition, hour_ns, validate_calendar_logger, parse_times,
}
use iot_edge.Datalogger.Schedule.Running.{run_calendar, capture_calendar, captured}
use iot_edge.Datalogger.Schedule.Captures.{IsCalendar, run_calendar-IsCalendar}
use iot_edge.Datalogger.Schedule.Accepted.{IsWeekday, IsClock, normalize_schedule-accepted}

-- One hour ahead of UTC all year.
abbrev ahead : Location
ahead = record { local = λ t. t + hour_ns; of_local = λ t. t - hour_ns }

abbrev fortnightly : ScheduleText
fortnightly = ScheduleText.object (record {
  unit = ScheduleUnit.week;
  every = pos 2;
  times = codes " 08:30" ∷ [];
  weekdays = pos 3 ∷ pos 1 ∷ [];
})

abbrev normalized : Schedule
normalized = record {
  unit = ScheduleUnit.week;
  every = 2;
  times = codes "08:30" ∷ [];
  weekdays = 1 ∷ 3 ∷ [];
}

fortnightly-normalized : normalize_schedule fortnightly ≡ ok normalized
unfolding normalize_schedule
fortnightly-normalized = refl

normalize_schedule-accepted_example :
    (1 ≤ 2)
    × (2 ≤ max_schedule_every)
    × All IsWeekday (1 ∷ 3 ∷ [])
    × ((times : List ClockTime) × (parse_times (codes "08:30" ∷ []) ≡ ok times) × All IsClock times)
normalize_schedule-accepted_example =
    normalize_schedule-accepted fortnightly {s = normalized} fortnightly-normalized

-- From day 10, a Thursday.
abbrev logger : CalendarLogger
logger = record {
  id = 5;
  enabled = true;
  is_schedule = true;
  start_at = 864000000000000;
  end_at = none;
  location = some ahead;
  config = fortnightly;
  tags = record { id = 7; data_type = DataType.int16 } ∷ [];
}

abbrev values : ℕ → Option SnapshotValue
values id = none

-- The first Monday of the next week but one is day 21; the clock wakes two seconds late on day 23.
abbrev rounds : List Round
rounds = wakes 1841400000000000 false ∷ wakes 2014202000000000 false ∷ cancelled ∷ []

ran : run_calendar logger 864000000000000 rounds ≡ ok (1841400000000000 ∷ [])
unfolding run_calendar
ran = refl

run_calendar-IsCalendar_example :
    (d : CalendarDefinition) × (validate_calendar_logger logger ≡ ok d)
    × IsCalendar d logger 864000000000000 (1841400000000000 ∷ [])
    × All
        (λ (at : ℕ).
          capture_calendar false values logger at
          ≡ ok (capture_latest_snapshot values (captured logger) at))
        (1841400000000000 ∷ [])
run_calendar-IsCalendar_example = run_calendar-IsCalendar values logger 864000000000000 rounds ran

-- ===== src/Datalogger/Schedule/Running.antt =====
-- backend/internal/datalogger/calendar_scheduler.go: `Capture` and the loop of `Run`.
use iot_edge.Prelude.{
  ℕ, ◌+◌, Bool, true, false, ◌||◌, Option, none, some, List, [], ◌∷◌, ltb, ◌==◌, if◌then◌else◌,
  Result, ok, err, ◌>>=◌, ◌>>◌, fail_if,
}
use iot_edge.Datalogger.Interval.{
  SnapshotValue, Logger, IntervalConfig, is_past, elapsed_since, capture_latest_snapshot, Round,
  cancelled, wakes,
}
use iot_edge.Datalogger.Batch.{RawBatch}
use iot_edge.Datalogger.Schedule.{
  CalendarLogger, CalendarError, invalid_calendar_logger, context_done, validate_calendar_logger,
  next_calendar_run,
}

-- The logger as captureLatestSnapshot reads it: its id and its tags.
abbrev pub captured : CalendarLogger → Logger
captured l = record {
  id = l.id;
  enabled = l.enabled;
  is_interval = false;
  start_at = l.start_at;
  end_at = l.end_at;
  config = IntervalConfig.empty;
  tags = l.tags;
}

-- `Capture` until the call of the writer; the first argument is whether the context is done.
unfoldable pub capture_calendar :
    Bool → (ℕ → Option SnapshotValue) → CalendarLogger → ℕ → Result CalendarError RawBatch
unfolding validate_calendar_logger capture_latest_snapshot
capture_calendar done snapshot l batch_at =
    fail_if done context_done
    >> (validate_calendar_logger l >>= λ definition.
        fail_if (batch_at == 0) invalid_calendar_logger
        >> fail_if (ltb batch_at l.start_at || is_past l.end_at batch_at) invalid_calendar_logger
        >> ok (capture_latest_snapshot snapshot (captured l) batch_at))

-- What a round of `Run` does: it returns, goes on with another threshold, or captures.
pub data Plan : Type 0 where
  returns : Plan
  continues : (threshold : ℕ) → Plan
  captures : (at : ℕ) (done : Bool) → Plan

abbrev pub lateness_tolerance : ℕ
lateness_tolerance = 1000000000

-- A run that is too late is captured only where another one is due just now.
abbrev pub after_late : (now : ℕ) → Bool → Result CalendarError (Option ℕ) → Plan
after_late now done (err e) = returns
after_late now done (ok none) = returns
after_late now done (ok (some current)) =
    if current == now then captures current done else continues now

abbrev pub woken : CalendarLogger → (scheduled : ℕ) → Round → Plan
woken l scheduled cancelled = returns
woken l scheduled (wakes now done) =
    if ltb lateness_tolerance (elapsed_since scheduled now)
    then after_late now done (next_calendar_run l now)
    else captures scheduled done

abbrev pub waits : CalendarLogger → Round → Result CalendarError (Option ℕ) → Plan
waits l round (err e) = returns
waits l round (ok none) = returns
waits l round (ok (some scheduled)) = woken l scheduled round

unfoldable pub plan_round : CalendarLogger → ℕ → Round → Plan
unfolding next_calendar_run
plan_round l threshold round = waits l round (next_calendar_run l threshold)

-- The loop of `Run`: the times of its captures.
unfoldable pub run_calendar_rounds : CalendarLogger → (threshold : ℕ) → List Round → List ℕ
unfolding plan_round
run_calendar_rounds l threshold [] = []
run_calendar_rounds l threshold (round ∷ rounds) = elim (plan_round l threshold round) [
  | returns ↦ []
  | continues later ↦ run_calendar_rounds l later rounds
  | captures at true ↦ at ∷ []
  | captures at false ↦ at ∷ run_calendar_rounds l (at + 1) rounds
]

-- `Run`, with the clock's reading at its start.
unfoldable pub run_calendar :
    CalendarLogger → (now : ℕ) → List Round → Result CalendarError (List ℕ)
unfolding validate_calendar_logger run_calendar_rounds
run_calendar l now rounds =
    validate_calendar_logger l >>= λ definition. ok (run_calendar_rounds l now rounds)

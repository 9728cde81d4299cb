-- ===== src/Datalogger/Interval.antt =====
-- backend/internal/datalogger/interval_scheduler.go: loggers that run at fixed intervals. A
-- snapshot is a function from tags to their latest values. A reading of the clock, the end of a wait
-- and the answer of the history's writer are inputs of each round.
pub mod Grid
pub mod Rounds
use iot_edge.Prelude.{
  ℕ, ◌+◌, ◌-◌, ◌*◌, ◌/◌, Bool, true, false, ◌&&◌, ◌||◌, not, Option, none, some, List, [], ◌∷◌, map,
  ltb, leb, ◌==◌, if◌then◌else◌, ℤ, pos, negsuc, pos_part, ltb_ℤ, Result, ok, err, ◌>>=◌, ◌>>◌,
  fail_if, min,
}
use iot_edge.Value.{DataType, Value, data_type_eq}
use iot_edge.Value.Text.{Text, codes, is_empty}
use iot_edge.Datalogger.Batch.{Quality, RawSample, RawBatch, valid_history_data_type}

pub record SnapshotValue : Type 0 where
  pub observed_at : ℕ
  pub data_type : DataType
  pub value : Value
  pub quality : Quality
  pub error : Text

-- `TagReference`, without the members that are only shown.
pub record TagReference : Type 0 where
  pub id : ℕ
  pub data_type : DataType

-- An interval's configuration: no text, a text that the strict decoder refuses, or an object whose
-- member may be missing.
pub data IntervalConfig : Type 0 where
  empty malformed : IntervalConfig
  object : Option ℤ → IntervalConfig

-- The members of `Logger` that the scheduler reads; `is_interval` is `Mode == ModeInterval`.
pub record Logger : Type 0 where
  pub id : ℕ
  pub enabled : Bool
  pub is_interval : Bool
  pub start_at : ℕ
  pub end_at : Option ℕ
  pub config : IntervalConfig
  pub tags : List TagReference

pub data SchedulerError : Type 0 where
  invalid_interval_logger interval_logger_disabled context_done : SchedulerError

abbrev pub max_interval_seconds : ℕ
max_interval_seconds = 9223372036

-- `normalizeConfig` with ModeInterval, and the decoding of what it writes.
unfoldable pub interval_seconds : IntervalConfig → Result SchedulerError ℕ
interval_seconds IntervalConfig.empty = ok 60
interval_seconds IntervalConfig.malformed = err invalid_interval_logger
interval_seconds (IntervalConfig.object none) = ok 60
interval_seconds (IntervalConfig.object (some (negsuc n))) = err invalid_interval_logger
interval_seconds (IntervalConfig.object (some (pos n))) =
    if (n == 0) || ltb max_interval_seconds n then err invalid_interval_logger else ok n

abbrev pub ends_before : ℕ → Option ℕ → Bool
ends_before start none = false
ends_before start (some end) = leb end start

-- `EndAt != nil && at.After(EndAt)`
abbrev pub is_past : Option ℕ → ℕ → Bool
is_past none at = false
is_past (some end) at = ltb end at

abbrev pub valid_references : List TagReference → Bool
valid_references [] = true
valid_references (t ∷ tags) =
    not (t.id == 0) && valid_history_data_type t.data_type && valid_references tags

abbrev pub has_tags : List TagReference → Bool
has_tags [] = false
has_tags (t ∷ tags) = true

-- The interval in nanoseconds, which fits a Duration.
unfoldable pub validate_interval_logger : Logger → Result SchedulerError ℕ
unfolding interval_seconds valid_history_data_type
validate_interval_logger l =
    fail_if ((l.id == 0) || not l.is_interval || (l.start_at == 0) || not (has_tags l.tags))
      invalid_interval_logger
    >> fail_if (not l.enabled) interval_logger_disabled
    >> fail_if (ends_before l.start_at l.end_at) invalid_interval_logger
    >> (interval_seconds l.config >>= λ seconds.
        fail_if (not (valid_references l.tags)) invalid_interval_logger
        >> ok (seconds * 1000000000))

abbrev observed_or : ℕ → ℕ → ℕ
observed_or observed_at batch_at = if observed_at == 0 then batch_at else observed_at

abbrev bad_sample : TagReference → ℕ → ℕ → Text → RawSample
bad_sample t observed_at batch_at message = record {
  tag_id = t.id;
  observed_at = observed_or observed_at batch_at;
  data_type = t.data_type;
  value = Value.nil;
  quality = Quality.bad;
  error = message;
}

abbrev pub missing_snapshot_error : Text
missing_snapshot_error = codes "latest Tag value is unavailable"

abbrev pub type_mismatch_error : Text
type_mismatch_error = codes "latest Tag value data type does not match"

abbrev pub invalid_quality_error : Text
invalid_quality_error = codes "latest Tag value quality is invalid"

-- The `switch` over the quality of a value of the right type.
unfoldable pub sample_by_quality : TagReference → SnapshotValue → ℕ → Quality → RawSample
sample_by_quality t v batch_at Quality.good = record {
  tag_id = t.id;
  observed_at = v.observed_at;
  data_type = t.data_type;
  value = v.value;
  quality = Quality.good;
  error = [];
}
sample_by_quality t v batch_at Quality.bad =
    bad_sample t v.observed_at batch_at
      (if is_empty v.error then invalid_quality_error else v.error)
sample_by_quality t v batch_at Quality.other =
    bad_sample t v.observed_at batch_at invalid_quality_error

unfoldable pub raw_sample_from_snapshot : TagReference → Option SnapshotValue → ℕ → RawSample
unfolding sample_by_quality data_type_eq
raw_sample_from_snapshot t none batch_at = bad_sample t 0 batch_at missing_snapshot_error
raw_sample_from_snapshot t (some v) batch_at =
    if v.observed_at == 0
    then bad_sample t 0 batch_at missing_snapshot_error
    else if not (data_type_eq v.data_type t.data_type)
    then bad_sample t v.observed_at batch_at type_mismatch_error
    else sample_by_quality t v batch_at v.quality

-- `captureLatestSnapshot`: the batch that is handed to the history's writer.
unfoldable pub capture_latest_snapshot : (ℕ → Option SnapshotValue) → Logger → ℕ → RawBatch
unfolding raw_sample_from_snapshot
capture_latest_snapshot snapshot l batch_at = record {
  logger_id = l.id;
  batch_at = batch_at;
  samples = map (λ (t : TagReference). raw_sample_from_snapshot t (snapshot t.id) batch_at) l.tags;
}

-- `Capture` until the call of the writer; the first argument is whether the context is done.
unfoldable pub capture :
    Bool → (ℕ → Option SnapshotValue) → Logger → ℕ → Result SchedulerError RawBatch
unfolding validate_interval_logger capture_latest_snapshot
capture done snapshot l batch_at =
    fail_if done context_done
    >> (validate_interval_logger l >>= λ interval.
        fail_if (batch_at == 0) invalid_interval_logger
        >> fail_if (ltb batch_at l.start_at || is_past l.end_at batch_at) invalid_interval_logger
        >> ok (capture_latest_snapshot snapshot l batch_at))

-- `Sub` of a time and an earlier one, which stops at the greatest Duration.
abbrev pub max_duration : ℕ
max_duration = 9223372036854775807

abbrev pub elapsed_since : ℕ → ℕ → ℕ
elapsed_since start now = min (now - start) max_duration

unfoldable pub next_interval_run : (start interval now : ℕ) → ℕ
next_interval_run start interval now =
    if leb now start
    then start
    else (let candidate = start + elapsed_since start now / interval * interval in
        if ltb candidate now then candidate + interval else candidate)

unfoldable pub latest_interval_run : (start interval now : ℕ) → ℕ
latest_interval_run start interval now =
    if leb now start then start else start + elapsed_since start now / interval * interval

-- What happens in a round of `Run`: the wait is cancelled, or it ends and the clock is read; the
-- context is done by the end of the capture or not.
pub data Round : Type 0 where
  cancelled : Round
  wakes : (now : ℕ) (done : Bool) → Round

-- The time of a run that was woken at `now`.
unfoldable pub catch_up : (start interval scheduled now : ℕ) → ℕ
unfolding latest_interval_run
catch_up start interval scheduled now =
    if ltb scheduled now
    then (let latest = latest_interval_run start interval now in
        if ltb scheduled latest then latest else scheduled)
    else scheduled

-- The loop of `Run`: the times of its captures.
unfoldable pub run_rounds : (start interval : ℕ) → Option ℕ → ℕ → List Round → List ℕ
unfolding catch_up
run_rounds start interval end scheduled [] = []
run_rounds start interval end scheduled (cancelled ∷ rounds) = []
run_rounds start interval end scheduled (wakes now done ∷ rounds) =
    let at = catch_up start interval scheduled now in
    let rest = run_rounds start interval end (at + interval) rounds in
    if is_past end scheduled || is_past end at then [] else at ∷ (if done then [] else rest)

-- `Run`, with the clock's reading at its start.
unfoldable pub run : Logger → (now : ℕ) → List Round → Result SchedulerError (List ℕ)
unfolding validate_interval_logger next_interval_run run_rounds
run l now rounds = validate_interval_logger l >>= λ interval.
    ok (run_rounds l.start_at interval l.end_at (next_interval_run l.start_at interval now) rounds)

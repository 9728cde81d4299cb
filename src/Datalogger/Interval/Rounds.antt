-- ===== src/Datalogger/Interval/Rounds.antt =====
-- The captures of a running interval logger.
use iot_edge.Prelude.{
  ℕ, suc, ◌+◌, ◌*◌, ◌/◌, ◌≤◌, ◌≡◌, refl, subst, Bool, true, false, ◌||◌, not, Option, List, [], ◌∷◌,
  ltb, leb, ◌==◌, ok, arith, if-elim, >>=-eq-ok, fail_if-eq-ok, ok-injective, ltb→lt, All,
}
use native.Mathlib.Nat.{suc-mul}
use iot_edge.Datalogger.Interval.{
  SnapshotValue, Logger, invalid_interval_logger, is_past, validate_interval_logger,
  capture_latest_snapshot, capture, elapsed_since, next_interval_run, latest_interval_run, Round,
  cancelled, wakes, catch_up, run_rounds, run, has_tags,
}
use iot_edge.Datalogger.Interval.Grid.{IsDue}

-- Times in a row: each is due, not before the earliest time that is left and not past the end, and
-- the next one comes an interval after it at the earliest.
abbrev pub IsSchedule : ℕ → ℕ → Option ℕ → ℕ → List ℕ → Type 0
IsSchedule start interval end earliest [] = Unit
IsSchedule start interval end earliest (at ∷ times) =
    (earliest ≤ at)
    × IsDue start interval at
    × (is_past end at ≡ false)
    × IsSchedule start interval end (at + interval) times

latest_interval_run-IsDue :
    (start interval now : ℕ) → IsDue start interval (latest_interval_run start interval now)
unfolding latest_interval_run
latest_interval_run-IsDue start interval now =
    if-elim (IsDue start interval) (leb now start) (λ _. (0, omega arith))
      (λ _. (elapsed_since start now / interval, refl))

pub next_interval_run-IsDue :
    (start interval now : ℕ)
    → IsDue start interval (next_interval_run start interval now)
      × (start ≤ next_interval_run start interval now)
unfolding next_interval_run
next_interval_run-IsDue start interval now =
    let q = elapsed_since start now / interval in
    if-elim (λ r. IsDue start interval r × (start ≤ r)) (leb now start)
      (λ _. ((0, omega arith), omega arith))
      (λ _.
        if-elim (λ r. IsDue start interval r × (start ≤ r)) (ltb (start + q * interval) now)
          (λ _. ((suc q, omega (arith, suc-mul q interval)), omega arith))
          (λ _. ((q, refl), omega arith)))

catch_up-IsDue :
    (start interval scheduled now : ℕ)
    → IsDue start interval scheduled
    → IsDue start interval (catch_up start interval scheduled now)
      × (scheduled ≤ catch_up start interval scheduled now)
unfolding catch_up
catch_up-IsDue start interval scheduled now due =
    let latest = latest_interval_run start interval now in
    let Later = λ (r : ℕ). IsDue start interval r × (scheduled ≤ r) in
    if-elim Later (ltb scheduled now)
      (λ _.
        if-elim Later (ltb scheduled latest)
          (λ before. (
            latest_interval_run-IsDue start interval now,
            omega (arith, ltb→lt scheduled latest before),
          ))
          (λ _. (due, omega arith)))
      (λ _. (due, omega arith))

either-false : (a b : Bool) → (a || b) ≡ false → b ≡ false
either-false true b h = cc
either-false false b h = h

first-false : (a b : Bool) → (a || b) ≡ false → a ≡ false
first-false true b h = h
first-false false b h = refl

run_rounds-IsSchedule :
    (start interval : ℕ) (end : Option ℕ) (scheduled earliest : ℕ) (rounds : List Round)
    → IsDue start interval scheduled
    → earliest ≤ scheduled
    → IsSchedule start interval end earliest (run_rounds start interval end scheduled rounds)
unfolding run_rounds
run_rounds-IsSchedule start interval end scheduled earliest [] due h = tt
run_rounds-IsSchedule start interval end scheduled earliest (cancelled ∷ rounds) due h = tt
run_rounds-IsSchedule start interval end scheduled earliest (wakes now done ∷ rounds) due h =
    let at = catch_up start interval scheduled now in
    let ((k, on_grid), later) = catch_up-IsDue start interval scheduled now due in
    let next : IsDue start interval (at + interval) =
      (suc k, omega (arith, on_grid, suc-mul k interval)) in
    if-elim (IsSchedule start interval end earliest) (is_past end scheduled || is_past end at)
      (λ _. tt)
      (λ inside. (
        omega (arith, h, later),
        (k, on_grid),
        either-false (is_past end scheduled) (is_past end at) inside,
        if-elim (IsSchedule start interval end (at + interval)) done (λ _. tt)
            (λ _.
              run_rounds-IsSchedule start interval end (at + interval) (at + interval) rounds next
                (omega arith)),
      ))

validate_interval_logger-started :
    (l : Logger) (interval : ℕ) → validate_interval_logger l ≡ ok interval → 1 ≤ l.start_at
unfolding validate_interval_logger
validate_interval_logger-started l interval h =
    let (checks, _) =
      fail_if-eq-ok ((l.id == 0) || not l.is_interval || (l.start_at == 0) || not (has_tags l.tags))
        invalid_interval_logger _ h in
    let started =
      either-false ((l.id == 0) || not l.is_interval) (l.start_at == 0)
        (first-false _ (not (has_tags l.tags)) checks) in
    ground (arith, started)

capture-inside :
    (l : Logger) (interval at : ℕ) (snapshot : ℕ → Option SnapshotValue)
    → validate_interval_logger l ≡ ok interval
    → l.start_at ≤ at
    → is_past l.end_at at ≡ false
    → capture false snapshot l at ≡ ok (capture_latest_snapshot snapshot l at)
unfolding capture
capture-inside l interval at snapshot valid late inside =
    let started = validate_interval_logger-started l interval valid in
    let not_zero : (at == 0) ≡ false = ground arith in
    let not_before : ltb at l.start_at ≡ false = ground arith in
    rw (valid, not_zero, not_before, inside)

-- A time that Capture accepts, whatever the snapshot.
abbrev pub IsCaptured : Logger → ℕ → Type 0
IsCaptured l at =
    (snapshot : ℕ → Option SnapshotValue)
    → capture false snapshot l at ≡ ok (capture_latest_snapshot snapshot l at)

IsSchedule-IsCaptured :
    (l : Logger) (interval earliest : ℕ) (times : List ℕ)
    → validate_interval_logger l ≡ ok interval
    → l.start_at ≤ earliest
    → IsSchedule l.start_at interval l.end_at earliest times
    → All (IsCaptured l) times
IsSchedule-IsCaptured l interval earliest [] valid late h = tt
IsSchedule-IsCaptured l interval earliest (at ∷ times) valid late (later, due, inside, rest) = (
  λ snapshot. capture-inside l interval at snapshot valid (omega (arith, late, later)) inside,
  IsSchedule-IsCaptured l interval (at + interval) times valid (omega (arith, late, later)) rest,
)

-- Whatever the clock reads and whenever it is cancelled, a logger that runs captures only at due
-- times from its start to its end, one interval apart or more, and Capture accepts each of them.
pub run-IsSchedule :
    (l : Logger) (now : ℕ) (rounds : List Round) (times : List ℕ)
    → run l now rounds ≡ ok times
    → (interval : ℕ) × (validate_interval_logger l ≡ ok interval)
      × IsSchedule l.start_at interval l.end_at l.start_at times
      × All (IsCaptured l) times
unfolding run
run-IsSchedule l now rounds times h =
    let (interval, valid, made) = >>=-eq-ok (validate_interval_logger l) _ h in
    let (due, late) = next_interval_run-IsDue l.start_at interval now in
    let schedule =
      subst (IsSchedule l.start_at interval l.end_at l.start_at) (ok-injective made)
        (run_rounds-IsSchedule l.start_at interval l.end_at _ l.start_at rounds due late) in
    (
      interval,
      valid,
      schedule,
      IsSchedule-IsCaptured l interval l.start_at times valid (omega arith) schedule,
    )

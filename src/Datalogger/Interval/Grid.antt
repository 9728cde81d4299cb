-- ===== src/Datalogger/Interval/Grid.antt =====
-- The times at which an interval logger is due.
use iot_edge.Prelude.{
  ℕ, ◌+◌, ◌-◌, ◌*◌, ◌/◌, ◌%◌, ◌≤◌, ◌<◌, ◌≡◌, refl, ltb, leb, arith, if-elim, ltb→lt, leb→le,
}
use native.Mathlib.Nat.{div-add-mod', mod-lt, mul-le-mul_right, lt_of_mul-lt-mul_right}
use iot_edge.Datalogger.Interval.{
  max_duration, elapsed_since, next_interval_run, latest_interval_run,
}

-- A time of the grid is the start and a number of intervals after it.
abbrev pub IsDue : ℕ → ℕ → ℕ → Type 0
IsDue start interval at = (k : ℕ) × (at ≡ start + k * interval)

elapsed_since-near :
    (start now : ℕ) → now - start ≤ max_duration → elapsed_since start now ≡ now - start
elapsed_since-near start now near = omega arith

-- The whole intervals in a length of time.
pub whole_intervals :
    (length interval : ℕ)
    → 1 ≤ interval
    → (length / interval * interval ≤ length) × (length < length / interval * interval + interval)
whole_intervals length interval some_ =
    let parts = div-add-mod' length interval in
    let small : length % interval < interval = mod-lt length (omega (arith, some_)) in
    (omega (arith, parts), omega (arith, parts, small))

abbrev IsFirst : ℕ → ℕ → ℕ → ℕ → Type 0
IsFirst start interval now r =
    IsDue start interval r × (now ≤ r) × ((at : ℕ) → IsDue start interval at → now ≤ at → r ≤ at)

-- For a positive interval and a time from the start to at most the greatest Duration after it, the
-- latest run is the last due time that is not after now.
pub latest_interval_run-latest :
    (start interval now : ℕ)
    → 1 ≤ interval
    → now - start ≤ max_duration
    → start ≤ now
    → IsDue start interval (latest_interval_run start interval now)
      × (latest_interval_run start interval now ≤ now)
      × (now < latest_interval_run start interval now + interval)
unfolding latest_interval_run
latest_interval_run-latest start interval now some_ near after =
    let same = elapsed_since-near start now near in
    let (low, high) = whole_intervals (now - start) interval some_ in
    if-elim (λ r. IsDue start interval r × (r ≤ now) × (now < r + interval)) (leb now start)
      (λ early. ((0, omega arith), after, omega (arith, leb→le now start early)))
      (λ _. (
        (elapsed_since start now / interval, refl),
        rw same (omega (arith, low, after)),
        rw same (omega (arith, high, after)),
      ))

-- A due time after the q-th is the next one at least.
next_due :
    (q k interval : ℕ)
    → 1 ≤ interval
    → q * interval < k * interval
    → q * interval + interval ≤ k * interval
next_due q k interval some_ h =
    let more = lt_of_mul-lt-mul_right interval h in
    let steps : (q + 1) * interval ≤ k * interval =
      mul-le-mul_right interval (omega (arith, more)) in
    grind (arith, steps)

-- For a positive interval and a time at most the greatest Duration after the start, the next run is
-- the first due time that is not before now.
pub next_interval_run-first :
    (start interval now : ℕ)
    → 1 ≤ interval
    → now - start ≤ max_duration
    → IsDue start interval (next_interval_run start interval now)
      × (now ≤ next_interval_run start interval now)
      × ((at : ℕ) → IsDue start interval at → now ≤ at → next_interval_run start interval now ≤ at)
unfolding next_interval_run
next_interval_run-first start interval now some_ near =
    let q = elapsed_since start now / interval in
    let (low, high) = whole_intervals (now - start) interval some_ in
    let same = elapsed_since-near start now near in
    let low' : q * interval ≤ now - start = rw same low in
    let high' : now - start < q * interval + interval = rw same high in
    if-elim (IsFirst start interval now) (leb now start)
      (λ early. ((0, omega arith), leb→le now start early, λ at (k, due) _. omega (arith, due)))
      (λ late.
        if-elim (IsFirst start interval now) (ltb (start + q * interval) now)
          (λ before. (
            (q + 1, grind arith),
            ground (arith, late, high'),
            λ at (k, due) reached.
                let further =
                  next_due q k interval some_
                    (omega (arith, due, reached, ltb→lt (start + q * interval) now before)) in
                omega (arith, due, further),
          ))
          (λ reached. (
            (q, refl),
            ground (arith, reached),
            λ at (k, due) now_at. ground (arith, low', late, now_at),
          )))

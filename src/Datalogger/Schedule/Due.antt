-- ===== src/Datalogger/Schedule/Due.antt =====
-- The runs of backend/internal/datalogger/calendar_scheduler.go are due by the calendar.
use iot_edge.Prelude.{
  ℕ, zero, suc, ◌+◌, ◌-◌, ◌*◌, ◌/◌, ◌%◌, ◌≤◌, ◌≡◌, refl, subst, Bool, true, false, ◌&&◌, Option,
  none, some, List, [], ◌∷◌, ltb, leb, ◌==◌, if◌then◌else◌, Result, ok, err, if-elim, inl, inr, Any,
  arith,
}
use native.Mathlib.Nat.{div-add-mod', suc-mul}
use iot_edge.Datalogger.Schedule.Config.{ClockTime, sort_numbers}
use iot_edge.Datalogger.Schedule.{
  Location, CalendarError, CalendarDefinition, next_multiple, same_local_minute, earliest,
  resolve_local_occurrence, acceptable, find_time, daily_attempts, find_weekday, weekly_attempts,
  minute_ns, hour_ns, day_ns,
}

-- The wall clock of an instant shows one of the times, on the date.
abbrev pub Shows : Location → ℕ → List ClockTime → ℕ → Type 0
Shows z date times at =
    Any (λ (t : ClockTime). z.local at / minute_ns ≡ date * 1440 + t.hour * 60 + t.minute) times

abbrev pub NotBefore : ℕ → ℕ → ℕ → Type 0
NotBefore start threshold at = (start ≤ at) × (threshold ≤ at)

earliest-same :
    (z : Location) (date : ℕ) (t : ClockTime) (candidate n round first : ℕ)
    → same_local_minute z first date t ≡ true
    → same_local_minute z (earliest z date t candidate n round first) date t ≡ true
unfolding earliest
earliest-same z date t candidate zero round first h = h
earliest-same z date t candidate (suc n) round first h =
    let alternative = candidate + round * minute_ns - 3 * hour_ns in
    earliest-same z date t candidate n (round + 1) _ (
      if-elim (λ (x : ℕ). same_local_minute z x date t ≡ true)
        (ltb alternative first && same_local_minute z alternative date t)
        (λ both. ground (arith, both)) (λ _. h))

if-some :
    {A : Type 0} (b : Bool) {x a : A}
    → ◌≡◌ {A = Option A} (if b then some x else none) (some a)
    → (b ≡ true) × (x ≡ a)
if-some true h = (refl, cc)
if-some false h = cc

same-shows :
    (z : Location) (at date : ℕ) (t : ClockTime)
    → same_local_minute z at date t ≡ true
    → z.local at / minute_ns ≡ date * 1440 + t.hour * 60 + t.minute
unfolding same_local_minute
same-shows z at date t h = ground (arith, h)

resolved-shows :
    (z : Location) (date : ℕ) (t : ClockTime) {at : ℕ}
    → resolve_local_occurrence z date t ≡ some at
    → z.local at / minute_ns ≡ date * 1440 + t.hour * 60 + t.minute
unfolding resolve_local_occurrence
resolved-shows z date t h =
    let candidate = z.of_local (date * day_ns + t.hour * hour_ns + t.minute * minute_ns) in
    let (same, found) = if-some (same_local_minute z candidate date t) h in
    subst (λ at. z.local at / minute_ns ≡ date * 1440 + t.hour * 60 + t.minute) found
      (same-shows z _ date t (earliest-same z date t candidate 361 0 candidate same))

acceptable-some :
    (start threshold : ℕ) (o : Option ℕ) {at : ℕ}
    → acceptable start threshold o ≡ some at
    → (o ≡ some at) × NotBefore start threshold at
acceptable-some start threshold none h = cc
acceptable-some start threshold (some candidate) h = ground arith

-- What a search gives: a time that is shown, and not before the start and the threshold.
abbrev Found : (ℕ → Type 0) → ℕ → ℕ → Option ℕ → Type 0
Found P start threshold none = Unit
Found P start threshold (some at) = P at × NotBefore start threshold at

Found-map :
    (P Q : ℕ → Type 0) (start threshold : ℕ) (o : Option ℕ)
    → ((at : ℕ) → P at → Q at)
    → Found P start threshold o
    → Found Q start threshold o
Found-map P Q start threshold none f h = tt
Found-map P Q start threshold (some at) f h = (f at h.0, h.1)

-- The first of two searches that finds something.
Found-or :
    (P : ℕ → Type 0) (start threshold : ℕ) (o rest : Option ℕ)
    → Found P start threshold o
    → Found P start threshold rest
    → Found P start threshold (elim o [ some at ↦ some at | none ↦ rest ])
Found-or P start threshold none rest h k = k
Found-or P start threshold (some at) rest h k = h

acceptable-Found :
    (z : Location) (start threshold date : ℕ) (t : ClockTime) (o : Option ℕ)
    → resolve_local_occurrence z date t ≡ o
    → Found
        (λ at. z.local at / minute_ns ≡ date * 1440 + t.hour * 60 + t.minute)
        start
        threshold
        (acceptable start threshold o)
acceptable-Found z start threshold date t none e = tt
acceptable-Found z start threshold date t (some candidate) e =
    if-elim
      (Found (λ at. z.local at / minute_ns ≡ date * 1440 + t.hour * 60 + t.minute) start threshold)
      (leb start candidate && leb threshold candidate)
      (λ both. (resolved-shows z date t e, (ground (arith, both), ground (arith, both)))) (λ _. tt)

find_time-Found :
    (z : Location) (start threshold date : ℕ) (times : List ClockTime)
    → Found (Shows z date times) start threshold (find_time z start threshold date times)
unfolding find_time
find_time-Found z start threshold date [] = tt
find_time-Found z start threshold date (t ∷ times) =
    Found-or (Shows z date (t ∷ times)) start threshold
      (acceptable start threshold (resolve_local_occurrence z date t))
      (find_time z start threshold date times)
      (Found-map _ (Shows z date (t ∷ times)) start threshold _ (λ at h. inl h)
        (acceptable-Found z start threshold date t (resolve_local_occurrence z date t) refl))
      (Found-map (Shows z date times) (Shows z date (t ∷ times)) start threshold _ (λ at h. inr h)
        (find_time-Found z start threshold date times))

-- A time on a weekday of a week.
abbrev pub OnWeekday : CalendarDefinition → ℕ → List ℕ → ℕ → Type 0
OnWeekday d week_start weekdays at =
    Any (λ (weekday : ℕ). Shows d.location (week_start + weekday - 1) d.times at) weekdays

find_weekday-Found :
    (d : CalendarDefinition) (start threshold week_start : ℕ) (weekdays : List ℕ)
    → Found
        (OnWeekday d week_start weekdays)
        start
        threshold
        (find_weekday d start threshold week_start weekdays)
unfolding find_weekday
find_weekday-Found d start threshold week_start [] = tt
find_weekday-Found d start threshold week_start (weekday ∷ weekdays) =
    Found-or (OnWeekday d week_start (weekday ∷ weekdays)) start threshold
      (find_time d.location start threshold (week_start + weekday - 1) d.times)
      (find_weekday d start threshold week_start weekdays)
      (Found-map _ (OnWeekday d week_start (weekday ∷ weekdays)) start threshold _ (λ at h. inl h)
        (find_time-Found d.location start threshold (week_start + weekday - 1) d.times))
      (Found-map (OnWeekday d week_start weekdays) (OnWeekday d week_start (weekday ∷ weekdays))
        start threshold _ (λ at h. inr h)
        (find_weekday-Found d start threshold week_start weekdays))

-- A number of days or weeks after the start, by whole steps.
abbrev IsStep : ℕ → ℕ → Type 0
IsStep every cycle = (k : ℕ) × (cycle ≡ k * every)

IsStep-next : (every cycle : ℕ) → IsStep every cycle → IsStep every (cycle + every)
IsStep-next every cycle (k, h) = (suc k, omega (arith, h, suc-mul k every))

pub next_multiple-IsStep : (value every : ℕ) → IsStep every (next_multiple value every)
unfolding next_multiple
next_multiple-IsStep value every =
    let parts = div-add-mod' value every in
    if-elim (IsStep every) (value % every == 0)
      (λ whole. (value / every, ground (arith, whole, parts)))
      (λ _. (suc (value / every), omega (arith, parts, suc-mul (value / every) every)))

-- A date by whole steps of days.
abbrev pub OnDay : CalendarDefinition → ℕ → ℕ → Type 0
OnDay d start_date at = (k : ℕ) × Shows d.location (start_date + k * d.every) d.times at

-- A date by whole steps of weeks.
abbrev pub OnWeek : CalendarDefinition → ℕ → ℕ → Type 0
OnWeek d start_week at =
    (k : ℕ) × OnWeekday d (start_week + k * d.every * 7) (sort_numbers d.weekdays) at

-- What an attempt gives.
abbrev pub Succeeds : (ℕ → Type 0) → ℕ → ℕ → Result CalendarError ℕ → Type 0
Succeeds P start threshold (err e) = Unit
Succeeds P start threshold (ok at) = P at × NotBefore start threshold at

Succeeds-or :
    (P : ℕ → Type 0) (start threshold : ℕ) (o : Option ℕ) (rest : Result CalendarError ℕ)
    → Found P start threshold o
    → Succeeds P start threshold rest
    → Succeeds P start threshold (elim o [ some at ↦ ok at | none ↦ rest ])
Succeeds-or P start threshold none rest h k = k
Succeeds-or P start threshold (some at) rest h k = h

pub daily_attempts-Succeeds :
    (d : CalendarDefinition) (start threshold start_date n cycle : ℕ)
    → IsStep d.every cycle
    → Succeeds
        (OnDay d start_date)
        start
        threshold
        (daily_attempts d start threshold start_date n cycle)
unfolding daily_attempts
daily_attempts-Succeeds d start threshold start_date zero cycle step = tt
daily_attempts-Succeeds d start threshold start_date (suc n) cycle (k, step) =
    Succeeds-or (OnDay d start_date) start threshold
      (find_time d.location start threshold (start_date + cycle) d.times)
      (daily_attempts d start threshold start_date n (cycle + d.every))
      (Found-map _ (OnDay d start_date) start threshold _
        (λ at h. (k, subst (λ c. Shows d.location (start_date + c) d.times at) step h))
        (find_time-Found d.location start threshold (start_date + cycle) d.times))
      (daily_attempts-Succeeds d start threshold start_date n (cycle + d.every)
        (IsStep-next d.every cycle (k, step)))

pub weekly_attempts-Succeeds :
    (d : CalendarDefinition) (start threshold start_week n week : ℕ)
    → IsStep d.every week
    → Succeeds
        (OnWeek d start_week)
        start
        threshold
        (weekly_attempts d (sort_numbers d.weekdays) start threshold start_week n week)
unfolding weekly_attempts
weekly_attempts-Succeeds d start threshold start_week zero week step = tt
weekly_attempts-Succeeds d start threshold start_week (suc n) week (k, step) =
    let weekdays = sort_numbers d.weekdays in
    Succeeds-or (OnWeek d start_week) start threshold
      (find_weekday d start threshold (start_week + week * 7) weekdays)
      (weekly_attempts d weekdays start threshold start_week n (week + d.every))
      (Found-map _ (OnWeek d start_week) start threshold _
        (λ at h. (k, subst (λ c. OnWeekday d (start_week + c * 7) weekdays at) step h))
        (find_weekday-Found d start threshold (start_week + week * 7) weekdays))
      (weekly_attempts-Succeeds d start threshold start_week n (week + d.every)
        (IsStep-next d.every week (k, step)))

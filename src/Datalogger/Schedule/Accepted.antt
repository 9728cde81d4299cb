-- ===== src/Datalogger/Schedule/Accepted.antt =====
-- What a normalized schedule of backend/internal/datalogger/service.go holds.
use iot_edge.Prelude.{
  ℕ, ◌+◌, ◌-◌, ◌*◌, ◌≤◌, ◌<◌, ◌≡◌, refl, subst, false, ◌&&◌, ◌||◌, not, Option, none, some, List,
  [], ◌∷◌, ltb, ◌==◌, ℤ, pos, negsuc, ok, ok-injective, if-elim, arith, >>=-eq-ok, fail_if-eq-ok,
  All,
}
use iot_edge.Value.Text.{text_member, text_lt, Text, trim_space}
use iot_edge.Datalogger.Batch.{member}
use iot_edge.Datalogger.Schedule.Config.{
  ScheduleText, Schedule, ClockTime, invalid_input, is_digit, parse_minutes, parse_clock, in_range,
  is_canonical, insert_text, sort_texts, insert_number, sort_numbers, check_times, normalize_times,
  check_weekdays, normalize_weekdays, max_schedule_every, normalize_every, valid_schedule_unit,
  fits_unit, normalize_schedule,
}
use iot_edge.Datalogger.Schedule.{parse_times}

abbrev pub IsClock : ClockTime → Type 0
IsClock t = (t.hour < 24) × (t.minute < 60)

-- A text that is a time of the day.
abbrev pub IsTime : Text → Type 0
IsTime value = (t : ClockTime) × (parse_clock value ≡ some t) × IsClock t

abbrev pub IsWeekday : ℕ → Type 0
IsWeekday n = (1 ≤ n) × (n ≤ 7)

All-insert_text :
    (P : Text → Type 0) (s : Text) (xs : List Text) → P s → All P xs → All P (insert_text s xs)
All-insert_text P s [] h all = (h, tt)
All-insert_text P s (x ∷ xs) h all =
    if-elim (All P) (text_lt x s) (λ _. (all.0, All-insert_text P s xs h all.1)) (λ _. (h, all))

All-sort_texts : (P : Text → Type 0) (xs : List Text) → All P xs → All P (sort_texts xs)
All-sort_texts P [] h = tt
All-sort_texts P (s ∷ xs) h = All-insert_text P s (sort_texts xs) h.0 (All-sort_texts P xs h.1)

All-insert_number :
    (P : ℕ → Type 0) (n : ℕ) (xs : List ℕ) → P n → All P xs → All P (insert_number n xs)
All-insert_number P n [] h all = (h, tt)
All-insert_number P n (x ∷ xs) h all =
    if-elim (All P) (ltb x n) (λ _. (all.0, All-insert_number P n xs h all.1)) (λ _. (h, all))

All-sort_numbers : (P : ℕ → Type 0) (xs : List ℕ) → All P xs → All P (sort_numbers xs)
All-sort_numbers P [] h = tt
All-sort_numbers P (n ∷ xs) h =
    All-insert_number P n (sort_numbers xs) h.0 (All-sort_numbers P xs h.1)

-- A time that was parsed, if any.
abbrev Parsed : Option ClockTime → Type 0
Parsed none = Unit
Parsed (some t) = IsClock t

in_range-Parsed : (h m : ℕ) → Parsed (in_range h m)
in_range-Parsed h m =
    if-elim Parsed (ltb h 24 && ltb m 60) (λ both. (ground (arith, both), ground (arith, both)))
      (λ _. tt)

parse_minutes-Parsed : (h : ℕ) (rest : Text) → Parsed (parse_minutes h rest)
parse_minutes-Parsed h [] = tt
parse_minutes-Parsed h (c ∷ []) = tt
parse_minutes-Parsed h (c ∷ a ∷ []) = tt
parse_minutes-Parsed h (c ∷ a ∷ b ∷ x ∷ rest) = tt
parse_minutes-Parsed h (c ∷ a ∷ b ∷ []) =
    if-elim Parsed ((c == 58) && is_digit a && is_digit b)
      (λ _. in_range-Parsed h ((a - 48) * 10 + (b - 48))) (λ _. tt)

parse_clock-Parsed : (value : Text) → Parsed (parse_clock value)
unfolding parse_clock
parse_clock-Parsed [] = tt
parse_clock-Parsed (a ∷ []) = tt
parse_clock-Parsed (a ∷ b ∷ rest) =
    if-elim Parsed (is_digit a && is_digit b)
      (λ _. parse_minutes-Parsed ((a - 48) * 10 + (b - 48)) rest)
      (λ _. if-elim Parsed (is_digit a) (λ _. parse_minutes-Parsed (a - 48) (b ∷ rest)) (λ _. tt))

canonical-IsTime :
    (value : Text) (o : Option ClockTime)
    → parse_clock value ≡ o
    → not (is_canonical value o) ≡ false
    → Parsed o
    → IsTime value
canonical-IsTime value none e h clock = cc
canonical-IsTime value (some t) e h clock = (t, e, clock)

check_times-IsTime :
    (seen values : List Text) {times : List Text}
    → check_times seen values ≡ ok times
    → All IsTime times
unfolding check_times
check_times-IsTime seen [] h = subst (All IsTime) (ok-injective h) tt
check_times-IsTime seen (raw ∷ values) h =
    let value = trim_space raw in
    let (canonical, h1) =
      fail_if-eq-ok (not (is_canonical value (parse_clock value))) invalid_input _ h in
    let (_, h2) = fail_if-eq-ok (text_member value seen) invalid_input _ h1 in
    let (rest, checked, whole) = >>=-eq-ok (check_times (value ∷ seen) values) _ h2 in
    subst (All IsTime) (ok-injective whole) (
      canonical-IsTime value (parse_clock value) refl canonical (parse_clock-Parsed value),
      check_times-IsTime (value ∷ seen) values checked,
    )

check_weekdays-IsWeekday :
    (seen : List ℕ) (values : List ℤ) {weekdays : List ℕ}
    → check_weekdays seen values ≡ ok weekdays
    → All IsWeekday weekdays
unfolding check_weekdays
check_weekdays-IsWeekday seen [] h = subst (All IsWeekday) (ok-injective h) tt
check_weekdays-IsWeekday seen (negsuc n ∷ values) h = cc
check_weekdays-IsWeekday seen (pos n ∷ values) h =
    let (range, h1) = fail_if-eq-ok (ltb n 1 || ltb 7 n) invalid_input _ h in
    let (_, h2) = fail_if-eq-ok (member n seen) invalid_input _ h1 in
    let (rest, checked, whole) = >>=-eq-ok (check_weekdays (n ∷ seen) values) _ h2 in
    subst (All IsWeekday) (ok-injective whole) (
      (ground (arith, range), ground (arith, range)),
      check_weekdays-IsWeekday (n ∷ seen) values checked,
    )

normalize_every-range :
    (z : ℤ) {every : ℕ} → normalize_every z ≡ ok every → (1 ≤ every) × (every ≤ max_schedule_every)
unfolding normalize_every
normalize_every-range (pos n) h = ground arith
normalize_every-range (negsuc n) h = cc

-- Texts that are times are all parsed.
parse_times-IsTime :
    (values : List Text)
    → All IsTime values
    → (times : List ClockTime) × (parse_times values ≡ ok times) × All IsClock times
unfolding parse_times
parse_times-IsTime [] h = ([], refl, tt)
parse_times-IsTime (value ∷ values) ((t, parsed, clock), h) =
    let (rest, others, clocks) = parse_times-IsTime values h in
    (t ∷ rest, rw (parsed, others), (clock, clocks))

abbrev Accepts : Schedule → Type 0
Accepts s =
    (1 ≤ s.every)
    × (s.every ≤ max_schedule_every)
    × All IsWeekday s.weekdays
    × ((times : List ClockTime) × (parse_times s.times ≡ ok times) × All IsClock times)

-- A schedule that was accepted has a step in its range and weekdays from 1 to 7, and all of its times
-- are times of the day, which the scheduler parses without an error.
pub normalize_schedule-accepted :
    (text : ScheduleText) {s : Schedule}
    → normalize_schedule text ≡ ok s
    → (1 ≤ s.every)
      × (s.every ≤ max_schedule_every)
      × All IsWeekday s.weekdays
      × ((times : List ClockTime) × (parse_times s.times ≡ ok times) × All IsClock times)
unfolding normalize_schedule normalize_times normalize_weekdays
normalize_schedule-accepted ScheduleText.malformed h = cc
normalize_schedule-accepted (ScheduleText.object config) {s} h =
    let (every, stepped, h1) = >>=-eq-ok (normalize_every config.every) _ h in
    let (_, h2) = fail_if-eq-ok (not (valid_schedule_unit config.unit)) invalid_input _ h1 in
    let (times, timed, h3) = >>=-eq-ok (normalize_times config.times) _ h2 in
    let (weekdays, dated, h4) = >>=-eq-ok (normalize_weekdays config.weekdays) _ h3 in
    let (_, h5) = fail_if-eq-ok (not (fits_unit config.unit times weekdays)) invalid_input _ h4 in
    let (texts, texts_ok, sorted) = >>=-eq-ok (check_times [] config.times) _ timed in
    let (days, days_ok, ordered) = >>=-eq-ok (check_weekdays [] config.weekdays) _ dated in
    let (low, high) = normalize_every-range config.every stepped in
    subst Accepts (ok-injective h5) (
      low,
      high,
      subst (All IsWeekday) (ok-injective ordered)
          (All-sort_numbers IsWeekday days (check_weekdays-IsWeekday [] config.weekdays days_ok)),
      parse_times-IsTime times (
          subst (All IsTime) (ok-injective sorted)
            (All-sort_texts IsTime texts (check_times-IsTime [] config.times texts_ok))),
    )

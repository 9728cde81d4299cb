-- ===== src/Datalogger/Schedule/Config.antt =====
-- backend/internal/datalogger/service.go: the schedule branch of `normalizeConfig`, with
-- `normalizeTimes` and `normalizeWeekdays`; model.go: `ScheduleConfig`. A configuration is what the
-- strict decoder makes of its text.
use iot_edge.Prelude.{
  ℕ, ◌+◌, ◌-◌, ◌*◌, ◌/◌, ◌%◌, Bool, true, false, ◌&&◌, ◌||◌, not, Option, none, some, List, [], ◌∷◌,
  ltb, leb, ◌==◌, if◌then◌else◌, ℤ, pos, negsuc, Result, ok, err, ◌>>=◌, ◌>>◌, fail_if,
}
use iot_edge.Value.Text.{text_member, text_lt, Text, trim_space, text_eq}
use iot_edge.Datalogger.Batch.{member}

-- `ScheduleUnit`, and any other string.
pub data ScheduleUnit : Type 0 where
  minute hour day week other : ScheduleUnit

-- `ScheduleConfig` as decoded; a member that is missing is zero or empty.
pub record ScheduleConfig : Type 0 where
  pub unit : ScheduleUnit
  pub every : ℤ
  pub times : List Text
  pub weekdays : List ℤ

pub data ScheduleText : Type 0 where
  malformed : ScheduleText
  object : ScheduleConfig → ScheduleText

-- A normalized configuration.
pub record Schedule : Type 0 where
  pub unit : ScheduleUnit
  pub every : ℕ
  pub times : List Text
  pub weekdays : List ℕ

pub data ConfigError : Type 0 where
  invalid_input : ConfigError

pub record ClockTime : Type 0 where
  pub hour : ℕ
  pub minute : ℕ

abbrev pub is_digit : ℕ → Bool
is_digit c = leb 48 c && leb c 57

abbrev pub in_range : ℕ → ℕ → Option ClockTime
in_range h m = if ltb h 24 && ltb m 60 then some (record { hour = h; minute = m }) else none

-- The minutes, which are two digits at the end of the text.
abbrev pub parse_minutes : ℕ → Text → Option ClockTime
parse_minutes h (c ∷ a ∷ b ∷ []) =
    if (c == 58) && is_digit a && is_digit b then in_range h ((a - 48) * 10 + (b - 48)) else none
parse_minutes h _ = none

-- `time.Parse("15:04", value)`: an hour of one digit or two, a colon and two digits.
unfoldable pub parse_clock : Text → Option ClockTime
parse_clock (a ∷ b ∷ rest) =
    if is_digit a && is_digit b
    then parse_minutes ((a - 48) * 10 + (b - 48)) rest
    else if is_digit a
    then parse_minutes (a - 48) (b ∷ rest)
    else none
parse_clock _ = none

abbrev two_digits : ℕ → Text → Text
two_digits n rest = (48 + n / 10) ∷ (48 + n % 10) ∷ rest

-- `Format("15:04")`
unfoldable pub format_clock : ClockTime → Text
format_clock t = two_digits t.hour (58 ∷ two_digits t.minute [])

abbrev pub is_canonical : Text → Option ClockTime → Bool
is_canonical value none = false
is_canonical value (some t) = text_eq (format_clock t) value

-- `sort.Strings`
abbrev pub insert_text : Text → List Text → List Text
insert_text s [] = s ∷ []
insert_text s (x ∷ xs) = let rest = insert_text s xs in if text_lt x s then x ∷ rest else s ∷ x ∷ xs

abbrev pub sort_texts : List Text → List Text
sort_texts [] = []
sort_texts (s ∷ xs) = insert_text s (sort_texts xs)

-- `sort.Ints`
abbrev pub insert_number : ℕ → List ℕ → List ℕ
insert_number n [] = n ∷ []
insert_number n (x ∷ xs) = let rest = insert_number n xs in if ltb x n then x ∷ rest else n ∷ x ∷ xs

abbrev pub sort_numbers : List ℕ → List ℕ
sort_numbers [] = []
sort_numbers (n ∷ xs) = insert_number n (sort_numbers xs)

-- The loop of `normalizeTimes`; `seen` holds the times before.
unfoldable pub check_times : List Text → List Text → Result ConfigError (List Text)
unfolding parse_clock format_clock trim_space
check_times seen [] = ok []
check_times seen (raw ∷ values) =
    let value = trim_space raw in
    fail_if (not (is_canonical value (parse_clock value))) invalid_input
    >> fail_if (text_member value seen) invalid_input
    >> (check_times (value ∷ seen) values >>= λ rest. ok (value ∷ rest))

unfoldable pub normalize_times : List Text → Result ConfigError (List Text)
unfolding check_times
normalize_times values = check_times [] values >>= λ times. ok (sort_texts times)

-- The loop of `normalizeWeekdays`.
unfoldable pub check_weekdays : List ℕ → List ℤ → Result ConfigError (List ℕ)
check_weekdays seen [] = ok []
check_weekdays seen (negsuc n ∷ values) = err invalid_input
check_weekdays seen (pos n ∷ values) =
    fail_if (ltb n 1 || ltb 7 n) invalid_input
    >> fail_if (member n seen) invalid_input
    >> (check_weekdays (n ∷ seen) values >>= λ rest. ok (n ∷ rest))

unfoldable pub normalize_weekdays : List ℤ → Result ConfigError (List ℕ)
unfolding check_weekdays
normalize_weekdays values = check_weekdays [] values >>= λ weekdays. ok (sort_numbers weekdays)

abbrev pub max_schedule_every : ℕ
max_schedule_every = 2562047

-- `Every`, which is one where it is zero.
unfoldable pub normalize_every : ℤ → Result ConfigError ℕ
normalize_every (negsuc n) = err invalid_input
normalize_every (pos n) =
    if n == 0 then ok 1 else if ltb max_schedule_every n then err invalid_input else ok n

unfoldable pub valid_schedule_unit : ScheduleUnit → Bool
valid_schedule_unit ScheduleUnit.other = false
valid_schedule_unit _ = true

abbrev no_items {ℓ} : {A : Type ℓ} → List A → Bool
no_items [] = true
no_items (x ∷ xs) = false

-- The `switch` over units: which of times and weekdays a unit takes.
unfoldable pub fits_unit : ScheduleUnit → List Text → List ℕ → Bool
fits_unit ScheduleUnit.minute times weekdays = no_items times && no_items weekdays
fits_unit ScheduleUnit.hour times weekdays = no_items times && no_items weekdays
fits_unit ScheduleUnit.day times weekdays = not (no_items times) && no_items weekdays
fits_unit ScheduleUnit.week times weekdays = not (no_items times) && not (no_items weekdays)
fits_unit ScheduleUnit.other times weekdays = true

unfoldable pub normalize_schedule : ScheduleText → Result ConfigError Schedule
unfolding normalize_every valid_schedule_unit normalize_times normalize_weekdays fits_unit
normalize_schedule ScheduleText.malformed = err invalid_input
normalize_schedule (ScheduleText.object config) = normalize_every config.every >>= λ every.
    fail_if (not (valid_schedule_unit config.unit)) invalid_input
    >> (normalize_times config.times >>= λ times. normalize_weekdays config.weekdays >>= λ weekdays.
        fail_if (not (fits_unit config.unit times weekdays)) invalid_input
        >> ok (record { unit = config.unit; every = every; times = times; weekdays = weekdays }))

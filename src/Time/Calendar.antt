-- ===== src/Time/Calendar.antt =====
-- shared/primitives/calendar.ts. `Date.UTC` and `setUTCFullYear` are JavaScript's; on a valid date
-- they count days by the proleptic Gregorian rules of the language's standard, which
-- `days_before_year` and `days_before_month` state.
use main_acounting_system.Prelude.{
  Bool, all_below, if◌then◌else◌, if◌then◌else◌, if◌then◌else◌, leb, ltb, not, refl, true, ℕ, ◌%◌,
  ◌&&◌, ◌*◌, ◌+◌, ◌-◌, ◌/◌, ◌==◌, ◌||◌, ◌≡◌,
}
use main_acounting_system.Prelude.Outcome.{Outcome, throw_if, ◌>>=◌}
use main_acounting_system.Primitives.Text.{
  InvalidPrimitiveError, invalid_primitive, validate_integer_in_range,
}

-- Days from 0001-01-01 to the first day of a year.
unfoldable pub days_before_year : ℕ → ℕ
days_before_year year = let y = year - 1 in 365 * y + y / 4 - y / 100 + y / 400

unfoldable pub is_leap_year : ℕ → Bool
is_leap_year year = year % 4 == 0 && (not (year % 100 == 0) || year % 400 == 0)

-- `MONTH_LENGTHS[month - 1]`.
unfoldable pub month_length : ℕ → ℕ
month_length month =
    if month == 2
    then 28
    else (if month == 4 || month == 6 || month == 9 || month == 11 then 30 else 31)

unfoldable pub days_in_month : ℕ → ℕ → ℕ
unfolding is_leap_year month_length
days_in_month year month = if month == 2 && is_leap_year year then 29 else month_length month

-- Days of a year before the first of a month.
unfoldable pub days_before_month : ℕ → ℕ → ℕ
unfolding is_leap_year
days_before_month year month =
    let leap : ℕ = if is_leap_year year then 1 else 0 in
    if leb month 1
    then 0
    else (if month == 2 then 31 else 30 * (month - 1) + (month + month / 8) / 2 + leap - 2)

unfoldable pub assert_civil_date : ℕ → ℕ → ℕ → Outcome InvalidPrimitiveError (Unit {0})
unfolding validate_integer_in_range days_in_month
assert_civil_date year month day = validate_integer_in_range year 1 9999 >>= λ _.
    validate_integer_in_range month 1 12 >>= λ _. validate_integer_in_range day 1 31 >>= λ _.
    throw_if (ltb (days_in_month year month) day) invalid_primitive

-- The day of a date, counted from 0001-01-01; `epochDays` is this number less `unix_epoch_day`.
unfoldable pub day_number : ℕ → ℕ → ℕ → ℕ
unfolding days_before_year days_before_month
day_number year month day = days_before_year year + days_before_month year month + (day - 1)

abbrev pub unix_epoch_day : ℕ
unix_epoch_day = 719162

cumulative_table :
    all_below 13 (λ m.
      leb m 0
      || m == 12
      || days_before_month 2023 (m + 1) == days_before_month 2023 m + days_in_month 2023 m
        && days_before_month 2024 (m + 1) == days_before_month 2024 m + days_in_month 2024 m)
    ≡ true
unfolding all_below days_before_month days_in_month
cumulative_table = refl

epoch_test : day_number 1970 1 1 ≡ unix_epoch_day
unfolding day_number
epoch_test = refl

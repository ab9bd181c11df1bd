-- ===== src/Time/Jalali.antt =====
-- shared/time/jalali-calendar.ts: the Jalali calendar on Julian Day Numbers. Time zones are left out.
pub mod Months
pub mod Dates
use main_acounting_system.Prelude.{
  Bool, List, [], if◌then◌else◌, if◌then◌else◌, if◌then◌else◌, leb, suc, ℕ, ◌%◌, ◌&&◌, ◌/◌, ◌∷◌,
}
use main_acounting_system.Prelude.Int.{
  eqb_ℤ, ltb_ℤ, neg, negsuc, pos, ℤ, ◌*ℤ◌, ◌*ℤ◌, ◌+ℤ◌, ◌+ℤ◌, ◌-ℤ◌, ◌-ℤ◌,
}
use main_acounting_system.Prelude.Outcome.{Outcome, ok, ◌>>=◌}
use main_acounting_system.Primitives.Text.{InvalidPrimitiveError, validate_integer_in_range}

-- `div` and `mod`, which truncate toward zero.
abbrev pub div_ℤ : ℤ → ℕ → ℤ
div_ℤ (pos n) divisor = pos (n / divisor)
div_ℤ (negsuc n) divisor = neg (suc n / divisor)

abbrev pub mod_ℤ : ℤ → ℕ → ℤ
mod_ℤ (pos n) divisor = pos (n % divisor)
mod_ℤ (negsuc n) divisor = neg (suc n % divisor)

abbrev pub breaks : List ℤ
breaks =
    pos 9
    ∷ pos 38
    ∷ pos 199
    ∷ pos 426
    ∷ pos 686
    ∷ pos 756
    ∷ pos 818
    ∷ pos 1111
    ∷ pos 1181
    ∷ pos 1210
    ∷ pos 1635
    ∷ pos 2060
    ∷ pos 2097
    ∷ pos 2192
    ∷ pos 2262
    ∷ pos 2324
    ∷ pos 2394
    ∷ pos 2456
    ∷ pos 3178
    ∷ []

-- The loop's variables: `leapJ`, `jp` and `jump`.
pub record Cycle : Type 0 where
  pub leap_j : ℤ
  pub jp : ℤ
  pub jump : ℤ

-- The loop over `BREAKS`, left at the first break after the year.
unfoldable pub find_cycle : ℤ → List ℤ → Cycle → Cycle
unfolding ◌+ℤ◌ ◌-ℤ◌ ◌*ℤ◌
find_cycle year [] cycle = cycle
find_cycle year (jm ∷ rest) cycle =
    let jump = jm -ℤ cycle.jp in
    let others = find_cycle year rest (record {
      leap_j = cycle.leap_j +ℤ div_ℤ jump 33 *ℤ pos 8 +ℤ div_ℤ (mod_ℤ jump 33) 4;
      jp = jm;
      jump = jump;
    }) in
    if ltb_ℤ year jm then record cycle { jump = jump } else others

-- `gregorianDayJdn`.
unfoldable pub gregorian_day_jdn : ℤ → ℤ → ℤ → ℤ
unfolding ◌+ℤ◌ ◌-ℤ◌ ◌*ℤ◌
gregorian_day_jdn year month day =
    let shifted = year +ℤ div_ℤ (month -ℤ pos 8) 6 in
    div_ℤ ((shifted +ℤ pos 100100) *ℤ pos 1461) 4
    +ℤ div_ℤ (pos 153 *ℤ mod_ℤ (month +ℤ pos 9) 12 +ℤ pos 2) 5
    +ℤ day
    -ℤ pos 34840408
    -ℤ div_ℤ (div_ℤ (shifted +ℤ pos 100100) 100 *ℤ pos 3) 4
    +ℤ pos 752

pub record JalaliYearInfo : Type 0 where
  pub leap : ℤ
  pub march_jdn : ℤ

abbrev pub minus_one : ℤ
minus_one = negsuc 0

-- `jalaliYearInfo`, for a year in range.
unfoldable pub jalali_year_info : ℕ → JalaliYearInfo
unfolding find_cycle gregorian_day_jdn ◌+ℤ◌ ◌-ℤ◌ ◌*ℤ◌
jalali_year_info y =
    let year = pos y in
    let gregorian_year = year +ℤ pos 621 in
    let cycle = find_cycle year breaks (record { leap_j = neg 14; jp = neg 61; jump = pos 70 }) in
    let n = year -ℤ cycle.jp in
    let leap_j = cycle.leap_j +ℤ div_ℤ n 33 *ℤ pos 8 +ℤ div_ℤ (mod_ℤ n 33 +ℤ pos 3) 4 in
    let leap_j' =
      if eqb_ℤ (mod_ℤ cycle.jump 33) (pos 4) && eqb_ℤ (cycle.jump -ℤ n) (pos 4)
      then leap_j +ℤ pos 1
      else leap_j in
    let leap_g =
      div_ℤ gregorian_year 4 -ℤ div_ℤ ((div_ℤ gregorian_year 100 +ℤ pos 1) *ℤ pos 3) 4 -ℤ pos 150 in
    let march = pos 20 +ℤ leap_j' -ℤ leap_g in
    let n' =
      if ltb_ℤ (cycle.jump -ℤ n) (pos 6)
      then n -ℤ cycle.jump +ℤ div_ℤ (cycle.jump +ℤ pos 4) 33 *ℤ pos 33
      else n in
    let leap = mod_ℤ (mod_ℤ (n' +ℤ pos 1) 33 -ℤ pos 1) 4 in
    record {
      leap = if eqb_ℤ leap minus_one then pos 4 else leap;
      march_jdn = gregorian_day_jdn gregorian_year (pos 3) march;
    }

-- `isJalaliLeapYear`, for a year in range.
unfoldable pub is_jalali_leap_year : ℕ → Bool
unfolding jalali_year_info
is_jalali_leap_year year = eqb_ℤ (jalali_year_info year).leap (pos 0)

abbrev pub max_jalali_year : ℕ
max_jalali_year = 3177

-- The length of a month in a leap year or another.
abbrev pub month_days : Bool → ℕ → ℕ
month_days leap month =
    if leb month 6 then 31 else (if leb month 11 then 30 else (if leap then 30 else 29))

-- `jalaliDaysInMonth`.
unfoldable pub jalali_days_in_month : ℕ → ℕ → Outcome InvalidPrimitiveError ℕ
unfolding is_jalali_leap_year validate_integer_in_range
jalali_days_in_month year month = validate_integer_in_range year 1 max_jalali_year >>= λ y.
    validate_integer_in_range month 1 12 >>= λ m. ok (month_days (is_jalali_leap_year y) m)

-- `daysBeforeJalaliMonth`; a month is 1 at least.
unfoldable pub days_before_jalali_month : ℕ → ℤ
unfolding ◌-ℤ◌ ◌*ℤ◌
days_before_jalali_month month =
    (pos month -ℤ pos 1) *ℤ pos 31 -ℤ pos (month / 7) *ℤ (pos month -ℤ pos 7)

-- The Julian Day Number that `businessDateFromJalali` computes.
unfoldable pub jalali_day_jdn : ℕ → ℕ → ℕ → ℤ
unfolding jalali_year_info days_before_jalali_month ◌+ℤ◌ ◌-ℤ◌
jalali_day_jdn year month day =
    (jalali_year_info year).march_jdn -ℤ pos 1 +ℤ days_before_jalali_month month +ℤ pos day

-- ===== src/Time/Jalali/Months.antt =====
-- The months of a Jalali year follow one another, and so do the years.
use main_acounting_system.Prelude.{
  Bool, all_below, all_below-at, ap, arith, false, if◌then◌else◌, if◌then◌else◌, if◌then◌else◌,
  refl, sym, true, ℕ, ◌+◌, ◌<◌, ◌∙◌, ◌≡◌,
}
use main_acounting_system.Prelude.Int.{eqb_ℤ, int_laws, pos, ℤ, ◌+ℤ◌, ◌+ℤ◌, ◌-ℤ◌}
use main_acounting_system.Prelude.Outcome.{ok, ◌>>=◌}
use main_acounting_system.Primitives.Text.{validate_integer_in_range}
use main_acounting_system.Time.Jalali.{
  days_before_jalali_month, gregorian_day_jdn, is_jalali_leap_year, jalali_day_jdn,
  jalali_days_in_month, jalali_year_info, max_jalali_year, month_days,
}

-- 1405/1/1 is 2026-03-21.
nowruz_1405 : jalali_day_jdn 1405 1 1 ≡ gregorian_day_jdn (pos 2026) (pos 3) (pos 21)
unfolding jalali_day_jdn gregorian_day_jdn
nowruz_1405 = refl

-- A year has 366 or 365 days, until the next one begins.
abbrev year_step : ℕ → Bool
year_step year =
    eqb_ℤ (jalali_year_info (year + 1)).march_jdn
      ((jalali_year_info year).march_jdn +ℤ pos (if is_jalali_leap_year year then 366 else 365))

year_steps : all_below 3177 year_step ≡ true
unfolding all_below jalali_year_info is_jalali_leap_year ◌+ℤ◌
year_steps = refl

abbrev month_step : ℕ → Bool
month_step month =
    eqb_ℤ (days_before_jalali_month (month + 1))
      (days_before_jalali_month month +ℤ pos (month_days true month))

month_steps : all_below 12 month_step ≡ true
unfolding all_below days_before_jalali_month ◌+ℤ◌
month_steps = refl

eqb_ℤ_sound : (a b : ℤ) → eqb_ℤ a b ≡ true → a ≡ b
eqb_ℤ_sound a b h = ground arith

next_year :
    (year : ℕ)
    → year < 3177
    → (jalali_year_info (year + 1)).march_jdn
      ≡ (jalali_year_info year).march_jdn +ℤ pos (if is_jalali_leap_year year then 366 else 365)
next_year year h = eqb_ℤ_sound _ _ (all_below-at year_step 3177 year h year_steps)

next_month :
    (month : ℕ)
    → month < 12
    → days_before_jalali_month (month + 1)
      ≡ days_before_jalali_month month +ℤ pos (month_days true month)
next_month month h = eqb_ℤ_sound _ _ (all_below-at month_step 12 month h month_steps)

-- What a valid year and month give, with any rule for leap years.
month_days_of :
    (leap : ℕ → Bool) (year month : ℕ) {days : ℕ}
    → (validate_integer_in_range year 1 max_jalali_year >>= λ y.
        validate_integer_in_range month 1 12 >>= λ m. ok (month_days (leap y) m))
      ≡ ok days
    → days ≡ month_days (leap year) month
unfolding validate_integer_in_range
month_days_of leap year month h = ground arith

before_last : (leap : Bool) (month : ℕ) → month < 12 → month_days leap month ≡ month_days true month
before_last leap month h = ground arith

month_sum :
    (march before : ℤ) (days : ℕ)
    → march -ℤ pos 1 +ℤ (before +ℤ pos days) +ℤ pos 1
      ≡ march -ℤ pos 1 +ℤ before +ℤ pos days +ℤ pos 1
month_sum march before days = omega int_laws

year_sum :
    (march : ℤ) (leap : Bool)
    → march +ℤ pos (if leap then 366 else 365) -ℤ pos 1 +ℤ pos 0 +ℤ pos 1
      ≡ march -ℤ pos 1 +ℤ pos 336 +ℤ pos (month_days leap 12) +ℤ pos 1
year_sum march true = omega int_laws
year_sum march false = omega int_laws

first_before : (days_before_jalali_month 1 ≡ pos 0) × (days_before_jalali_month 12 ≡ pos 336)
unfolding days_before_jalali_month
first_before = (refl, refl)

jdn_eq :
    (year month day : ℕ)
    → jalali_day_jdn year month day
      ≡ (jalali_year_info year).march_jdn -ℤ pos 1 +ℤ days_before_jalali_month month +ℤ pos day
unfolding jalali_day_jdn
jdn_eq year month day = refl

days_of :
    (year month : ℕ) {days : ℕ}
    → jalali_days_in_month year month ≡ ok days
    → days ≡ month_days (is_jalali_leap_year year) month
unfolding jalali_days_in_month
days_of year month h = month_days_of is_jalali_leap_year year month h

-- The month after a month of the same year begins on the day after that month's last day.
pub jalali_months_contiguous :
    (year month : ℕ) {days : ℕ}
    → month < 12
    → jalali_days_in_month year month ≡ ok days
    → jalali_day_jdn year (month + 1) 1 ≡ jalali_day_jdn year month days +ℤ pos 1
jalali_months_contiguous year month {days} h k =
    jdn_eq year (month + 1) 1
    ∙ ap (λ x. (jalali_year_info year).march_jdn -ℤ pos 1 +ℤ x +ℤ pos 1) (next_month month h)
    ∙ month_sum (jalali_year_info year).march_jdn (days_before_jalali_month month)
        (month_days true month)
    ∙ ap (λ x. x +ℤ pos 1) (sym (jdn_eq year month (month_days true month)))
    ∙ ap (λ x. jalali_day_jdn year month x +ℤ pos 1)
        (sym (days_of year month k ∙ before_last (is_jalali_leap_year year) month h))

-- The year after a year begins on the day after the last day of that year's twelfth month.
pub jalali_years_contiguous :
    (year : ℕ) {days : ℕ}
    → year < max_jalali_year
    → jalali_days_in_month year 12 ≡ ok days
    → jalali_day_jdn (year + 1) 1 1 ≡ jalali_day_jdn year 12 days +ℤ pos 1
jalali_years_contiguous year {days} h k =
    jdn_eq (year + 1) 1 1
    ∙ ap (λ x. x -ℤ pos 1 +ℤ days_before_jalali_month 1 +ℤ pos 1) (next_year year h)
    ∙ ap
        (λ x.
          (jalali_year_info year).march_jdn
          +ℤ pos (if is_jalali_leap_year year then 366 else 365)
          -ℤ pos 1
          +ℤ x
          +ℤ pos 1)
        first_before.0
    ∙ year_sum (jalali_year_info year).march_jdn (is_jalali_leap_year year)
    ∙ ap
        (λ x.
          (jalali_year_info year).march_jdn
          -ℤ pos 1
          +ℤ x
          +ℤ pos (month_days (is_jalali_leap_year year) 12)
          +ℤ pos 1)
        (sym first_before.1)
    ∙ ap (λ x. x +ℤ pos 1) (sym (jdn_eq year 12 (month_days (is_jalali_leap_year year) 12)))
    ∙ ap (λ x. jalali_day_jdn year 12 x +ℤ pos 1) (sym (days_of year 12 k))

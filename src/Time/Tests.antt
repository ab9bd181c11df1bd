-- ===== src/Time/Tests.antt =====
-- Concrete dates.
use main_acounting_system.Prelude.{arith, refl, ◌≡◌}
use main_acounting_system.Prelude.Int.{pos, ◌+ℤ◌}
use main_acounting_system.Prelude.Outcome.{ok}
use main_acounting_system.Time.BusinessDate.{BusinessDate, parse, to_iso_string}
use main_acounting_system.Time.BusinessDate.Laws.{parse-to_iso_string}
use main_acounting_system.Time.Calendar.{days_in_month}
use main_acounting_system.Time.Jalali.{
  is_jalali_leap_year, jalali_day_jdn, jalali_days_in_month, jalali_year_info,
}
use main_acounting_system.Time.Jalali.Months.{jalali_months_contiguous, jalali_years_contiguous}

abbrev nowruz : BusinessDate
nowruz = record { year = 2024; month = 3; day = 20 }

parse-to_iso_string_example : parse (to_iso_string nowruz) ≡ ok nowruz
unfolding days_in_month
parse-to_iso_string_example =
    parse-to_iso_string nowruz
      (omega arith, omega arith, omega arith, omega arith, omega arith, omega arith)

jalali_months_contiguous_example : jalali_day_jdn 1405 7 1 ≡ jalali_day_jdn 1405 6 31 +ℤ pos 1
unfolding jalali_days_in_month
jalali_months_contiguous_example = jalali_months_contiguous 1405 6 {days = 31} (omega arith) refl

-- 1403 is a leap year.
jalali_years_contiguous_example : jalali_day_jdn 1404 1 1 ≡ jalali_day_jdn 1403 12 30 +ℤ pos 1
unfolding jalali_days_in_month is_jalali_leap_year jalali_year_info
jalali_years_contiguous_example = jalali_years_contiguous 1403 {days = 30} (omega arith) refl

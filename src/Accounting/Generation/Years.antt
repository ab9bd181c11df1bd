-- ===== src/Accounting/Generation/Years.antt =====
-- The Jalali years for which a range of exactly that year is planned.
use main_acounting_system.Prelude.{
  Bool, all_below, all_below-at, ap, arith, false, refl, sym, true, ℕ, ◌+◌, ◌-◌, ◌<◌, ◌∙◌, ◌≡◌, ◌≤◌,
}
use main_acounting_system.Accounting.Generation.{
  FiscalPeriodPlan, Planned, follows, plan, plan_months,
}
use main_acounting_system.Accounting.Generation.Cover.{IsCover, plan-IsCover}
use main_acounting_system.Prelude.Outcome.{Outcome, err, ok}
use main_acounting_system.Primitives.Text.{InvalidPrimitiveError, validate_integer_in_range}
use main_acounting_system.Time.BusinessDate.{date_of, equals}
use main_acounting_system.Time.Calendar.{
  assert_civil_date, day_number, days_before_month, days_before_year, days_in_month,
}
use main_acounting_system.Time.Jalali.{
  days_before_jalali_month, find_cycle, gregorian_day_jdn, is_jalali_leap_year, jalali_day_jdn,
  jalali_days_in_month, jalali_year_info,
}
use main_acounting_system.Time.Jalali.Dates.{
  Bounds, business_date_from_jalali, business_date_to_jalali, day_number_to_jalali,
  jalali_month_bounds, jalali_year_bounds, jdn_to_gregorian_day, previous_day,
}

is_planned_plan : Planned FiscalPeriodPlan → Bool
is_planned_plan (ok (ok p)) = true
is_planned_plan _ = false

-- The year's own range is planned.
plans_bounds : Outcome InvalidPrimitiveError Bounds → Bool
unfolding is_planned_plan plan
plans_bounds (ok b) = is_planned_plan (plan (record { start_date = b.start; end_date = b.end }))
plans_bounds (err e) = false

year_table : all_below 400 (λ k. plans_bounds (jalali_year_bounds (k + 1200))) ≡ true
unfolding all_below plans_bounds is_planned_plan plan plan_months follows previous_day equals
    business_date_to_jalali day_number_to_jalali jalali_year_bounds jalali_month_bounds
    business_date_from_jalali jalali_days_in_month jalali_day_jdn jalali_year_info
    is_jalali_leap_year days_before_jalali_month jdn_to_gregorian_day gregorian_day_jdn find_cycle
    date_of assert_civil_date validate_integer_in_range days_in_month day_number days_before_year
    days_before_month
year_table = refl

of_planned :
    (o : Planned FiscalPeriodPlan)
    → is_planned_plan o ≡ true
    → (p : FiscalPeriodPlan) × (o ≡ ok (ok p))
unfolding is_planned_plan
of_planned (ok (ok p)) h = (p, refl)
of_planned (ok (err e)) h = cc
of_planned (err e) h = cc

-- For each Jalali year from 1200 to 1599, the range of exactly that year is planned, and its plan is the twelve
-- months in order from the range's first day to its last.
pub plan_of_year :
    (year : ℕ) {bounds : Bounds}
    → 1200 ≤ year
    → year < 1600
    → jalali_year_bounds year ≡ ok bounds
    → (p : FiscalPeriodPlan) × (plan (record { start_date = bounds.start; end_date = bounds.end })
        ≡ ok (ok p))
      × IsCover (record { start_date = bounds.start; end_date = bounds.end }) p.periods
unfolding plans_bounds
plan_of_year year {bounds} low high h =
    let row =
      all_below-at (λ k. plans_bounds (jalali_year_bounds (k + 1200))) 400 (year - 1200)
        (omega (arith, low, high)) year_table in
    let here : plans_bounds (ok bounds) ≡ true =
      ap plans_bounds (sym (ap jalali_year_bounds (omega (arith, low)) ∙ h)) ∙ row in
    let (p, found) =
      of_planned (plan (record { start_date = bounds.start; end_date = bounds.end })) here in
    (p, found, plan-IsCover _ p found)

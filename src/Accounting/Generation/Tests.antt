-- ===== src/Accounting/Generation/Tests.antt =====
-- The plan of the Jalali year 1403, and a year that is created with it.
use main_acounting_system.Prelude.{[], arith, length, none, refl, true, ℕ, ◌+◌, ◌∷◌, ◌≡◌}
use main_acounting_system.Accounting.Errors.{DomainError, period_structure}
use main_acounting_system.Accounting.FiscalPeriod.{create_period}
use main_acounting_system.Accounting.FiscalYear.{
  FiscalYear, FiscalYearRange, closed, create_year, evaluate, overlaps, range_of, span,
}
use main_acounting_system.Accounting.Generation.{
  FiscalPeriodPlan, PlannedFiscalPeriod, create_all, create_planned, follows, plan, plan_months,
}
use main_acounting_system.Accounting.Generation.Cover.{IsCover, plan-IsCover}
use main_acounting_system.Accounting.Generation.Years.{plan_of_year}
use main_acounting_system.Accounting.Store.{
  Db, activate, find_year, get_year, lookup_active, period_id_for, record_event, set_active_row,
}
use main_acounting_system.Accounting.Years.{
  add_period, add_periods, add_year, create_body, create_fiscal_year, find_by_tenant, find_by_year,
  generate_body, generate_fiscal_periods, order_by_sequence, seed_active_period, write_plan,
  write_unless_generated,
}
use main_acounting_system.Accounting.Years.Idempotent.{generate_fiscal_periods_idempotent}
use main_acounting_system.Accounting.Years.Replay.{IsGenerated}
use main_acounting_system.Prelude.Outcome.{err, ok}
use main_acounting_system.Primitives.EntityId.{EntityId}
use main_acounting_system.Primitives.Text.{text_eq, validate_integer_in_range}
use main_acounting_system.Tenancy.{
  assert_tenant_criterion, assert_tenant_ownership, available, require_tenant_id,
}
use main_acounting_system.Time.BusinessDate.{BusinessDate, date_of, equals}
use main_acounting_system.Time.Calendar.{
  assert_civil_date, day_number, days_before_month, days_before_year, days_in_month,
}
use main_acounting_system.Time.Jalali.{
  days_before_jalali_month, find_cycle, gregorian_day_jdn, is_jalali_leap_year, jalali_day_jdn,
  jalali_days_in_month, jalali_year_info,
}
use main_acounting_system.Time.Jalali.Dates.{
  business_date_from_jalali, business_date_to_jalali, day_number_to_jalali, jalali_month_bounds,
  jalali_year_bounds, jdn_to_gregorian_day, previous_day,
}
use main_acounting_system.Transaction.{Session, Settled, execute}
use main_acounting_system.Transaction.Atomicity.{is_resolved}

abbrev day_of : ℕ → ℕ → ℕ → BusinessDate
day_of y m d = record { year = y; month = m; day = d }

abbrev month : ℕ → BusinessDate → BusinessDate → PlannedFiscalPeriod
month n a b = record { sequence = n; start_date = a; end_date = b }

abbrev range_1403 : FiscalYearRange
range_1403 = record { start_date = day_of 2024 3 20; end_date = day_of 2025 3 20 }

abbrev short_range : FiscalYearRange
short_range = record { start_date = day_of 2024 3 20; end_date = day_of 2025 3 19 }

abbrev plan_1403 : FiscalPeriodPlan
plan_1403 = record {
  jalali_year = 1403;
  periods =
      month 1 (day_of 2024 3 20) (day_of 2024 4 19)
      ∷ month 2 (day_of 2024 4 20) (day_of 2024 5 20)
      ∷ month 3 (day_of 2024 5 21) (day_of 2024 6 20)
      ∷ month 4 (day_of 2024 6 21) (day_of 2024 7 21)
      ∷ month 5 (day_of 2024 7 22) (day_of 2024 8 21)
      ∷ month 6 (day_of 2024 8 22) (day_of 2024 9 21)
      ∷ month 7 (day_of 2024 9 22) (day_of 2024 10 21)
      ∷ month 8 (day_of 2024 10 22) (day_of 2024 11 20)
      ∷ month 9 (day_of 2024 11 21) (day_of 2024 12 20)
      ∷ month 10 (day_of 2024 12 21) (day_of 2025 1 19)
      ∷ month 11 (day_of 2025 1 20) (day_of 2025 2 18)
      ∷ month 12 (day_of 2025 2 19) (day_of 2025 3 20)
      ∷ [];
}

plan_test : plan range_1403 ≡ ok (ok plan_1403)
unfolding plan plan_months follows previous_day equals business_date_to_jalali day_number_to_jalali
    jalali_year_bounds jalali_month_bounds business_date_from_jalali jalali_days_in_month
    jalali_day_jdn jalali_year_info is_jalali_leap_year days_before_jalali_month
    jdn_to_gregorian_day gregorian_day_jdn find_cycle date_of assert_civil_date
    validate_integer_in_range days_in_month day_number days_before_year days_before_month
plan_test = refl

-- A day short of the year is refused.
plan_short_test : plan short_range ≡ ok (err period_structure)
unfolding plan plan_months follows previous_day equals business_date_to_jalali day_number_to_jalali
    jalali_year_bounds jalali_month_bounds business_date_from_jalali jalali_days_in_month
    jalali_day_jdn jalali_year_info is_jalali_leap_year days_before_jalali_month
    jdn_to_gregorian_day gregorian_day_jdn find_cycle date_of assert_civil_date
    validate_integer_in_range days_in_month day_number days_before_year days_before_month
plan_short_test = refl

year_bounds_test :
    jalali_year_bounds 1403 ≡ ok (record { start = day_of 2024 3 20; end = day_of 2025 3 20 })
unfolding plan plan_months follows previous_day equals business_date_to_jalali day_number_to_jalali
    jalali_year_bounds jalali_month_bounds business_date_from_jalali jalali_days_in_month
    jalali_day_jdn jalali_year_info is_jalali_leap_year days_before_jalali_month
    jdn_to_gregorian_day gregorian_day_jdn find_cycle date_of assert_civil_date
    validate_integer_in_range days_in_month day_number days_before_year days_before_month
year_bounds_test = refl

plan-IsCover_example : IsCover range_1403 plan_1403.periods
plan-IsCover_example = plan-IsCover range_1403 plan_1403 plan_test

plan_of_year_example :
    (p : FiscalPeriodPlan) × (plan range_1403 ≡ ok (ok p)) × IsCover range_1403 p.periods
plan_of_year_example = plan_of_year 1403 (omega arith) (omega arith) year_bounds_test

abbrev empty_db : Db
empty_db = record { years = []; periods = []; active = []; events = []; audit = [] }

abbrev counts : Settled DomainError FiscalYear × Session Db DomainError → ℕ × ℕ × ℕ × ℕ
counts (r, s) =
    (length s.store.years, length s.store.periods, length s.store.active, length s.store.events)

ids_after : ℕ → EntityId
ids_after n = 100 + n

-- A year on an empty store: its row, the twelve periods, the pointer and three events.
create_fiscal_year_test :
    counts (
      create_fiscal_year
        (available 7)
        ids_after
        10
        1
        (b'3' ∷ [])
        range_1403
        (record { store = empty_db; boundary = none }))
    ≡ (1, 12, 1, 3)
unfolding plan plan_months follows previous_day equals business_date_to_jalali day_number_to_jalali
    jalali_year_bounds jalali_month_bounds business_date_from_jalali jalali_days_in_month
    jalali_day_jdn jalali_year_info is_jalali_leap_year days_before_jalali_month
    jdn_to_gregorian_day gregorian_day_jdn find_cycle date_of assert_civil_date
    validate_integer_in_range days_in_month day_number days_before_year days_before_month ids_after
    create_fiscal_year create_body execute require_tenant_id find_by_tenant create_year add_year
    record_event generate_fiscal_periods generate_body get_year find_by_year write_unless_generated
    write_plan create_all create_planned range_of create_period add_periods add_period
    seed_active_period period_id_for activate assert_tenant_criterion assert_tenant_ownership
    order_by_sequence overlaps span text_eq evaluate find_year lookup_active set_active_row
create_fiscal_year_test = refl

-- A store that holds the year 1403, without periods.
abbrev year_session : Session Db DomainError
year_session = record {
  store = record empty_db {
    years =
        record {
          aggregate = record {
            id = 1;
            tenant_id = 7;
            label = b'3' ∷ [];
            range = range_1403;
            status = closed;
            created_at = 5;
            updated_at = 5;
          };
          revision = 1;
        }
        ∷ [];
  };
  boundary = none;
}

generated_test :
    is_resolved (generate_fiscal_periods (available 7) ids_after 10 1 year_session).0 ≡ true
unfolding plan plan_months follows previous_day equals business_date_to_jalali day_number_to_jalali
    jalali_year_bounds jalali_month_bounds business_date_from_jalali jalali_days_in_month
    jalali_day_jdn jalali_year_info is_jalali_leap_year days_before_jalali_month
    jdn_to_gregorian_day gregorian_day_jdn find_cycle date_of assert_civil_date
    validate_integer_in_range days_in_month day_number days_before_year days_before_month ids_after
    create_fiscal_year create_body execute require_tenant_id find_by_tenant create_year add_year
    record_event generate_fiscal_periods generate_body get_year find_by_year write_unless_generated
    write_plan create_all create_planned range_of create_period add_periods add_period
    seed_active_period period_id_for activate assert_tenant_criterion assert_tenant_ownership
    order_by_sequence overlaps span text_eq evaluate find_year lookup_active set_active_row
generated_test = refl

generate_fiscal_periods_idempotent_example :
    let once = (generate_fiscal_periods (available 7) ids_after 10 1 year_session).1 in
    IsGenerated 7 1 once.store
    × ((generate_fiscal_periods (available 7) (λ n. 200 + n) 11 1 once).1.store ≡ once.store)
generate_fiscal_periods_idempotent_example =
    generate_fiscal_periods_idempotent ids_after (λ n. 200 + n) 10 11 7 1 year_session refl
      generated_test

-- ===== src/Accounting/Generation.antt =====
-- modules/accounting/domain/policies/fiscal-period-generation.policy.ts. The policy compares ISO texts of valid
-- dates, which are equal exactly when the dates are. What the calendar throws is the outer outcome, the
-- policy's own refusal the inner one.
pub mod Cover
pub mod Years
mod Tests
use main_acounting_system.Prelude.{
  Bool, List, Option, [], if◌then◌else◌, if◌then◌else◌, if◌then◌else◌, none, not, some, suc, true,
  zero, ℕ, ◌+◌, ◌||◌, ◌∷◌,
}
use main_acounting_system.Accounting.Errors.{DomainError, period_structure}
use main_acounting_system.Accounting.FiscalPeriod.{FiscalPeriod, create_period}
use main_acounting_system.Accounting.FiscalYear.{FiscalYearRange, range_of}
use main_acounting_system.Prelude.Outcome.{Outcome, err, ok, ◌>>=◌}
use main_acounting_system.Primitives.EntityId.{EntityId}
use main_acounting_system.Primitives.Text.{InvalidPrimitiveError}
use main_acounting_system.Time.{DateTime}
use main_acounting_system.Time.BusinessDate.{BusinessDate, equals}
use main_acounting_system.Time.Jalali.Dates.{
  Bounds, business_date_to_jalali, jalali_month_bounds, jalali_year_bounds, previous_day,
}

-- `PlannedFiscalPeriod`.
pub record PlannedFiscalPeriod : Type 0 where
  pub sequence : ℕ
  pub start_date : BusinessDate
  pub end_date : BusinessDate

pub record FiscalPeriodPlan : Type 0 where
  pub jalali_year : ℕ
  pub periods : List PlannedFiscalPeriod

abbrev pub Planned : Type 0 → Type 0
Planned A = Outcome InvalidPrimitiveError (Outcome DomainError A)

-- The end of the month before is the day before the month's first.
unfoldable pub follows : Option BusinessDate → BusinessDate → Outcome InvalidPrimitiveError Bool
follows none start = ok true
follows (some end) start = previous_day start >>= λ expected. ok (equals end expected)

abbrev pub planned : ℕ → Bounds → PlannedFiscalPeriod
planned sequence bounds = record {
  sequence = sequence;
  start_date = bounds.start;
  end_date = bounds.end;
}

abbrev pub with_first :
    PlannedFiscalPeriod
    → Outcome DomainError (List PlannedFiscalPeriod)
    → Outcome DomainError (List PlannedFiscalPeriod)
with_first p (ok ps) = ok (p ∷ ps)
with_first p (err e) = err e

-- The loop over the months that are left, from the month `sequence` on.
unfoldable pub plan_months : ℕ → ℕ → Option BusinessDate → ℕ → Planned (List PlannedFiscalPeriod)
plan_months zero sequence previous year = ok (ok [])
plan_months (suc more) sequence previous year = jalali_month_bounds year sequence >>= λ bounds.
    follows previous bounds.start >>= λ contiguous.
    if not contiguous
    then ok (err period_structure)
    else (plan_months more (sequence + 1) (some bounds.end) year >>= λ rest.
        ok (with_first (planned sequence bounds) rest))

abbrev pub as_plan :
    ℕ → Outcome DomainError (List PlannedFiscalPeriod) → Outcome DomainError FiscalPeriodPlan
as_plan year (ok periods) = ok (record { jalali_year = year; periods = periods })
as_plan year (err e) = err e

-- `FiscalPeriodGenerationPolicy.plan`, with `jalaliYearDeviation`.
unfoldable pub plan : FiscalYearRange → Planned FiscalPeriodPlan
plan range = business_date_to_jalali range.start_date >>= λ first.
    jalali_year_bounds first.j_year >>= λ bounds.
    if not (equals range.start_date bounds.start) || not (equals range.end_date bounds.end)
    then ok (err period_structure)
    else (plan_months 12 1 none first.j_year >>= λ periods. ok (as_plan first.j_year periods))

module _ (ids : ℕ → EntityId) (now : DateTime) (tenant year : EntityId) (jalali_year : ℕ) where
  -- `FiscalPeriod.create` on an entry of the plan; `ids` gives the generated identities.
  unfoldable pub create_planned : PlannedFiscalPeriod → Outcome DomainError FiscalPeriod
  unfolding range_of create_period
  create_planned entry = range_of entry.start_date entry.end_date >>= λ range.
      create_period (ids entry.sequence) tenant year jalali_year entry.sequence range now

  unfoldable pub create_all : List PlannedFiscalPeriod → Outcome DomainError (List FiscalPeriod)
  unfolding create_planned
  create_all [] = ok []
  create_all (entry ∷ entries) =
      create_planned entry >>= λ period. create_all entries >>= λ periods. ok (period ∷ periods)

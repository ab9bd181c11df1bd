-- ===== src/Accounting/FiscalPeriod/Stored.antt =====
-- `snapshot` and `rehydrate` of a fiscal period.
use main_acounting_system.Prelude.{arith, max, min, refl, true, ℕ, ◌≡◌, ◌≤◌}
use main_acounting_system.Accounting.Errors.{DomainError, lift}
use main_acounting_system.Accounting.FiscalPeriod.{
  FiscalPeriod, FiscalPeriodState, closed, opened, state_from, state_value,
}
use main_acounting_system.Accounting.FiscalYear.{FiscalYearRange, range_of}
use main_acounting_system.Prelude.Outcome.{Outcome, ok, ◌>>=◌}
use main_acounting_system.Primitives.EntityId.{EntityId}
use main_acounting_system.Primitives.Text.{Text, validate_integer_in_range}
use main_acounting_system.Time.{DateTime}
use main_acounting_system.Time.BusinessDate.{IsCivil, is_before, parse, to_iso_string}
use main_acounting_system.Time.BusinessDate.Laws.{parse-to_iso_string}

-- `FiscalPeriodSnapshot`.
pub record FiscalPeriodSnapshot : Type 0 where
  pub id : EntityId
  pub tenant_id : EntityId
  pub fiscal_year_id : EntityId
  pub jalali_year : ℕ
  pub sequence : ℕ
  pub start_date : Text
  pub end_date : Text
  pub state : Text
  pub created_at : DateTime
  pub updated_at : DateTime

unfoldable pub snapshot : FiscalPeriod → FiscalPeriodSnapshot
snapshot period = record {
  id = period.id;
  tenant_id = period.tenant_id;
  fiscal_year_id = period.fiscal_year_id;
  jalali_year = period.jalali_year;
  sequence = period.sequence;
  start_date = to_iso_string period.range.start_date;
  end_date = to_iso_string period.range.end_date;
  state = state_value period.state;
  created_at = period.created_at;
  updated_at = period.updated_at;
}

unfoldable pub rehydrate : FiscalPeriodSnapshot → Outcome DomainError FiscalPeriod
unfolding validate_integer_in_range
rehydrate row = lift (parse row.start_date) >>= λ start. lift (parse row.end_date) >>= λ end.
    range_of start end >>= λ range.
    lift (validate_integer_in_range row.jalali_year 1 9999) >>= λ jalali_year.
    lift (validate_integer_in_range row.sequence 1 12) >>= λ sequence.
    state_from row.state >>= λ state. ok (record {
      id = row.id;
      tenant_id = row.tenant_id;
      fiscal_year_id = row.fiscal_year_id;
      jalali_year = jalali_year;
      sequence = sequence;
      range = range;
      state = state;
      created_at = row.created_at;
      updated_at = row.updated_at;
    })

-- What the private constructor and the value objects leave possible.
pub record IsFiscalPeriod (period : FiscalPeriod) : Type 0 where
  pub start_civil : IsCivil period.range.start_date
  pub end_civil : IsCivil period.range.end_date
  pub ordered : is_before period.range.start_date period.range.end_date ≡ true
  pub month : (1 ≤ period.sequence) × (period.sequence ≤ 12)
  pub year : (1 ≤ period.jalali_year) × (period.jalali_year ≤ 9999)

state_from-state_value : (s : FiscalPeriodState) → state_from (state_value s) ≡ ok s
unfolding state_from
state_from-state_value opened = refl
state_from-state_value closed = refl

in_range :
    (value min max : ℕ)
    → (min ≤ value) × (value ≤ max)
    → lift (validate_integer_in_range value min max) ≡ ok value
unfolding validate_integer_in_range
in_range value min max h = ground arith

range_of_ordered :
    (r : FiscalYearRange)
    → is_before r.start_date r.end_date ≡ true
    → range_of r.start_date r.end_date ≡ ok r
unfolding range_of
range_of_ordered r h = rw h

-- Storing a fiscal period and loading it gives the same period.
pub rehydrate-snapshot_period :
    (period : FiscalPeriod) → IsFiscalPeriod period → rehydrate (snapshot period) ≡ ok period
unfolding rehydrate snapshot
rehydrate-snapshot_period period v = rw (
  parse-to_iso_string period.range.start_date v.start_civil,
  parse-to_iso_string period.range.end_date v.end_civil,
  range_of_ordered period.range v.ordered,
  in_range period.jalali_year 1 9999 v.year,
  in_range period.sequence 1 12 v.month,
  state_from-state_value period.state,
)

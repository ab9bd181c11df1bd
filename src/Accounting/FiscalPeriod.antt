-- ===== src/Accounting/FiscalPeriod.antt =====
-- domain/aggregates/fiscal-period.ts and fiscal-period-state.ts.
pub mod Lifecycle
pub mod Stored
mod Tests
use main_acounting_system.Prelude.{
  Bool, [], false, if◌then◌else◌, if◌then◌else◌, if◌then◌else◌, true, ℕ, ◌∷◌,
}
use main_acounting_system.Accounting.Errors.{
  DomainError, lift, malformed, period_state_invalid, reopen_reason_required,
}
use main_acounting_system.Accounting.FiscalYear.{FiscalYearRange}
use main_acounting_system.Prelude.Outcome.{Outcome, err, ok, throw_if, ◌>>=◌, ◌>>◌}
use main_acounting_system.Primitives.EntityId.{EntityId}
use main_acounting_system.Primitives.Text.{Text, is_empty, text_eq, trim, validate_integer_in_range}
use main_acounting_system.Time.{DateTime}

-- `FiscalPeriodState.OPEN` and `FiscalPeriodState.CLOSED`.
pub data FiscalPeriodState : Type 0 where
  opened closed : FiscalPeriodState

abbrev pub is_open : FiscalPeriodState → Bool
is_open opened = true
is_open closed = false

abbrev pub is_closed : FiscalPeriodState → Bool
is_closed opened = false
is_closed closed = true

abbrev pub state_value : FiscalPeriodState → Text
state_value opened = b'o' ∷ b'p' ∷ b'e' ∷ b'n' ∷ []
state_value closed = b'c' ∷ b'l' ∷ b'o' ∷ b's' ∷ b'e' ∷ b'd' ∷ []

-- `FiscalPeriodState.from`.
unfoldable pub state_from : Text → Outcome DomainError FiscalPeriodState
unfolding text_eq
state_from value =
    if text_eq value (state_value opened)
    then ok opened
    else (if text_eq value (state_value closed) then ok closed else err malformed)

pub record FiscalPeriod : Type 0 where
  pub id : EntityId
  pub tenant_id : EntityId
  pub fiscal_year_id : EntityId
  pub jalali_year : ℕ
  pub sequence : ℕ
  pub range : FiscalYearRange
  pub state : FiscalPeriodState
  pub created_at : DateTime
  pub updated_at : DateTime

-- `FiscalPeriod.create`; the caller's `id` stands for the given or the generated one.
unfoldable pub create_period :
    EntityId
    → EntityId
    → EntityId
    → ℕ
    → ℕ
    → FiscalYearRange
    → DateTime
    → Outcome DomainError FiscalPeriod
unfolding validate_integer_in_range
create_period id tenant year jalali_year sequence range now =
    lift (validate_integer_in_range sequence 1 12) >>= λ _.
    lift (validate_integer_in_range jalali_year 1 9999) >>= λ _. ok (record {
      id = id;
      tenant_id = tenant;
      fiscal_year_id = year;
      jalali_year = jalali_year;
      sequence = sequence;
      range = range;
      state = opened;
      created_at = now;
      updated_at = now;
    })

-- `close`.
unfoldable pub close_period : DateTime → FiscalPeriod → Outcome DomainError FiscalPeriod
close_period now period =
    throw_if (is_closed period.state) period_state_invalid
    >> ok (record period { state = closed; updated_at = now })

-- `reopen`: the reason is demanded before the state is looked at.
unfoldable pub reopen_period : Text → DateTime → FiscalPeriod → Outcome DomainError FiscalPeriod
unfolding trim
reopen_period reason now period =
    throw_if (is_empty (trim reason)) reopen_reason_required
    >> throw_if (is_open period.state) period_state_invalid
    >> ok (record period { state = opened; updated_at = now })

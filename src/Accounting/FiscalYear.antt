-- ===== src/Accounting/FiscalYear.antt =====
-- domain/aggregates/fiscal-year.ts with its value objects and the overlap policy.
pub mod Overlap
pub mod Stored
mod Tests
use main_acounting_system.Prelude.{
  Bool, List, [], false, if◌then◌else◌, if◌then◌else◌, if◌then◌else◌, length, ltb, not, true, ◌&&◌,
  ◌==◌, ◌∷◌,
}
use main_acounting_system.Accounting.Errors.{
  DomainError, fiscal_year_already_closed, fiscal_year_invalid_range, fiscal_year_overlap, lift,
  malformed,
}
use main_acounting_system.Prelude.Outcome.{Outcome, err, ok, throw_if, ◌>>=◌, ◌>>◌}
use main_acounting_system.Primitives.EntityId.{EntityId}
use main_acounting_system.Primitives.Text.{Text, text_eq, validate_non_blank}
use main_acounting_system.Time.{DateTime}
use main_acounting_system.Time.BusinessDate.{BusinessDate, is_after, is_before}

pub record FiscalYearRange : Type 0 where
  pub start_date : BusinessDate
  pub end_date : BusinessDate

-- `FiscalYearRange.of`.
unfoldable pub range_of : BusinessDate → BusinessDate → Outcome DomainError FiscalYearRange
unfolding is_before
range_of start end =
    throw_if (not (is_before start end)) fiscal_year_invalid_range
    >> ok (record { start_date = start; end_date = end })

-- `FiscalYearLabel.from`; 100 is `MAX_LENGTH`.
unfoldable pub label_from : Text → Outcome DomainError Text
label_from value = lift (validate_non_blank value) >>= λ trimmed.
    throw_if (ltb 100 (length trimmed)) malformed >> ok trimmed

-- `FiscalYearStatus.OPEN` and `FiscalYearStatus.CLOSED`.
pub data FiscalYearStatus : Type 0 where
  opened closed : FiscalYearStatus

abbrev pub status_value : FiscalYearStatus → Text
status_value opened = b'o' ∷ b'p' ∷ b'e' ∷ b'n' ∷ []
status_value closed = b'c' ∷ b'l' ∷ b'o' ∷ b's' ∷ b'e' ∷ b'd' ∷ []

-- `FiscalYearStatus.from`.
unfoldable pub status_from : Text → Outcome DomainError FiscalYearStatus
unfolding text_eq
status_from value =
    if text_eq value (status_value opened)
    then ok opened
    else (if text_eq value (status_value closed) then ok closed else err malformed)

abbrev pub is_closed : FiscalYearStatus → Bool
is_closed opened = false
is_closed closed = true

pub record FiscalYear : Type 0 where
  pub id : EntityId
  pub tenant_id : EntityId
  pub label : Text
  pub range : FiscalYearRange
  pub status : FiscalYearStatus
  pub created_at : DateTime
  pub updated_at : DateTime

-- `FiscalYearSpan`: what the overlap rule needs.
pub record FiscalYearSpan : Type 0 where
  pub tenant_id : EntityId
  pub range : FiscalYearRange

unfoldable pub span : FiscalYear → FiscalYearSpan
span year = record { tenant_id = year.tenant_id; range = year.range }

-- `FiscalYearOverlapPolicy.overlaps`.
unfoldable pub overlaps : FiscalYearSpan → FiscalYearSpan → Bool
unfolding is_after
overlaps candidate existing =
    if not (candidate.tenant_id == existing.tenant_id)
    then false
    else not (is_after candidate.range.start_date existing.range.end_date)
      && not (is_after existing.range.start_date candidate.range.end_date)

-- `FiscalYearOverlapPolicy.evaluate`.
unfoldable pub evaluate : FiscalYearSpan → List FiscalYearSpan → Outcome DomainError (Unit {0})
evaluate candidate [] = ok tt
evaluate candidate (existing ∷ more) =
    if overlaps candidate existing then err fiscal_year_overlap else evaluate candidate more

-- `FiscalYear.create`; the caller's `id` stands for the given or the generated one.
unfoldable pub create_year :
    EntityId
    → EntityId
    → Text
    → FiscalYearRange
    → DateTime
    → List FiscalYearSpan
    → Outcome DomainError FiscalYear
create_year id tenant label range now existing =
    evaluate (record { tenant_id = tenant; range = range }) existing
    >> ok (record {
      id = id;
      tenant_id = tenant;
      label = label;
      range = range;
      status = opened;
      created_at = now;
      updated_at = now;
    })

-- `close`.
unfoldable pub close_year : DateTime → FiscalYear → Outcome DomainError FiscalYear
close_year now year =
    throw_if (is_closed year.status) fiscal_year_already_closed
    >> ok (record year { status = closed; updated_at = now })

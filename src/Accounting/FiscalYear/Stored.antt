-- ===== src/Accounting/FiscalYear/Stored.antt =====
-- `snapshot` and `rehydrate` of a fiscal year. An identity is its canonical number in both forms.
use main_acounting_system.Prelude.{arith, refl, true, ◌≡◌}
use main_acounting_system.Accounting.Errors.{DomainError, lift}
use main_acounting_system.Accounting.FiscalYear.{
  FiscalYear, FiscalYearRange, FiscalYearStatus, closed, label_from, opened, range_of, status_from,
  status_value,
}
use main_acounting_system.Prelude.Outcome.{Outcome, ok, ◌>>=◌}
use main_acounting_system.Primitives.EntityId.{EntityId}
use main_acounting_system.Primitives.Text.{Text}
use main_acounting_system.Time.{DateTime}
use main_acounting_system.Time.BusinessDate.{IsCivil, is_before, parse, to_iso_string}
use main_acounting_system.Time.BusinessDate.Laws.{parse-to_iso_string}

-- `FiscalYearSnapshot`.
pub record FiscalYearSnapshot : Type 0 where
  pub id : EntityId
  pub tenant_id : EntityId
  pub label : Text
  pub start_date : Text
  pub end_date : Text
  pub status : Text
  pub created_at : DateTime
  pub updated_at : DateTime

unfoldable pub snapshot : FiscalYear → FiscalYearSnapshot
snapshot year = record {
  id = year.id;
  tenant_id = year.tenant_id;
  label = year.label;
  start_date = to_iso_string year.range.start_date;
  end_date = to_iso_string year.range.end_date;
  status = status_value year.status;
  created_at = year.created_at;
  updated_at = year.updated_at;
}

unfoldable pub rehydrate : FiscalYearSnapshot → Outcome DomainError FiscalYear
rehydrate row = lift (parse row.start_date) >>= λ start. lift (parse row.end_date) >>= λ end.
    label_from row.label >>= λ label. range_of start end >>= λ range.
    status_from row.status >>= λ status. ok (record {
      id = row.id;
      tenant_id = row.tenant_id;
      label = label;
      range = range;
      status = status;
      created_at = row.created_at;
      updated_at = row.updated_at;
    })

-- What the private constructor and the value objects leave possible.
pub record IsFiscalYear (year : FiscalYear) : Type 0 where
  pub start_civil : IsCivil year.range.start_date
  pub end_civil : IsCivil year.range.end_date
  pub ordered : is_before year.range.start_date year.range.end_date ≡ true
  pub labelled : label_from year.label ≡ ok year.label

status_from-status_value : (s : FiscalYearStatus) → status_from (status_value s) ≡ ok s
unfolding status_from
status_from-status_value opened = refl
status_from-status_value closed = refl

range_of_ordered :
    (r : FiscalYearRange)
    → is_before r.start_date r.end_date ≡ true
    → range_of r.start_date r.end_date ≡ ok r
unfolding range_of
range_of_ordered r h = rw h

-- Storing a fiscal year and loading it gives the same year.
pub rehydrate-snapshot :
    (year : FiscalYear) → IsFiscalYear year → rehydrate (snapshot year) ≡ ok year
unfolding rehydrate snapshot
rehydrate-snapshot year v = rw (
  parse-to_iso_string year.range.start_date v.start_civil,
  parse-to_iso_string year.range.end_date v.end_civil,
  v.labelled,
  range_of_ordered year.range v.ordered,
  status_from-status_value year.status,
)

-- What is loaded is valid, whatever the row holds.
pub rehydrate-IsFiscalYear :
    (row : FiscalYearSnapshot) {year : FiscalYear}
    → rehydrate row ≡ ok year
    → is_before year.range.start_date year.range.end_date ≡ true
unfolding rehydrate range_of
rehydrate-IsFiscalYear row h = ground arith

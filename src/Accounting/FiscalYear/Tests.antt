-- ===== src/Accounting/FiscalYear/Tests.antt =====
-- Concrete fiscal years.
use main_acounting_system.Prelude.{List, [], arith, refl, true, ◌↔◌, ◌∷◌, ◌≡◌}
use main_acounting_system.Accounting.Errors.{fiscal_year_overlap}
use main_acounting_system.Accounting.FiscalYear.{
  FiscalYear, FiscalYearRange, FiscalYearSpan, create_year, evaluate, label_from, opened, overlaps,
  span,
}
use main_acounting_system.Accounting.FiscalYear.Overlap.{
  Covers, IsDisjoint, create_year-IsDisjoint, create_year_overlap, overlaps_iff,
}
use main_acounting_system.Accounting.FiscalYear.Stored.{
  IsFiscalYear, rehydrate, rehydrate-snapshot, snapshot,
}
use main_acounting_system.Prelude.Outcome.{err, ok}
use main_acounting_system.Primitives.Text.{is_space, trim, validate_non_blank}
use main_acounting_system.Time.BusinessDate.{BusinessDate, is_before}
use main_acounting_system.Time.Calendar.{days_in_month}

abbrev year_1403 : FiscalYearRange
year_1403 = record {
  start_date = record { year = 2024; month = 3; day = 20 };
  end_date = record { year = 2025; month = 3; day = 20 };
}

abbrev year_1404 : FiscalYearRange
year_1404 = record {
  start_date = record { year = 2025; month = 3; day = 21 };
  end_date = record { year = 2026; month = 3; day = 20 };
}

abbrev fiscal_1403 : FiscalYear
fiscal_1403 = record {
  id = 1;
  tenant_id = 7;
  label = b'1' ∷ b'4' ∷ b'0' ∷ b'3' ∷ [];
  range = year_1403;
  status = opened;
  created_at = 5;
  updated_at = 6;
}

abbrev existing : List FiscalYearSpan
existing = record { tenant_id = 7; range = year_1403 } ∷ []

overlaps_iff_example :
    let a : FiscalYearSpan = record { tenant_id = 7; range = year_1403 } in
    let b : FiscalYearSpan = record { tenant_id = 7; range = year_1404 } in
    (overlaps a b ≡ true)
    ↔ ((a.tenant_id ≡ b.tenant_id) × ((d : BusinessDate) × Covers a.range d × Covers b.range d))
unfolding is_before
overlaps_iff_example =
    overlaps_iff (record { tenant_id = 7; range = year_1403 })
      (record { tenant_id = 7; range = year_1404 }) refl refl

abbrev created : FiscalYear
created = record {
  id = 2;
  tenant_id = 7;
  label = b'1' ∷ b'4' ∷ b'0' ∷ b'4' ∷ [];
  range = year_1404;
  status = opened;
  created_at = 9;
  updated_at = 9;
}

create_year-IsDisjoint_example :
    (created.status ≡ opened)
    × (created.label ≡ b'1' ∷ b'4' ∷ b'0' ∷ b'4' ∷ [])
    × (span created ≡ record { tenant_id = 7; range = year_1404 })
    × IsDisjoint (span created ∷ existing)
unfolding create_year evaluate overlaps is_before
create_year-IsDisjoint_example =
    create_year-IsDisjoint 2 7 (b'1' ∷ b'4' ∷ b'0' ∷ b'4' ∷ []) year_1404 9 existing
      {year = created} refl (tt, tt)

create_year_overlap_example : create_year 3 7 [] year_1403 9 existing ≡ err fiscal_year_overlap
unfolding overlaps is_before
create_year_overlap_example = create_year_overlap 3 7 [] year_1403 9 existing refl

fiscal_1403-IsFiscalYear : IsFiscalYear fiscal_1403
unfolding is_before days_in_month label_from validate_non_blank trim is_space
fiscal_1403-IsFiscalYear = record {
  start_civil = (omega arith, omega arith, omega arith, omega arith, omega arith, omega arith);
  end_civil = (omega arith, omega arith, omega arith, omega arith, omega arith, omega arith);
  ordered = refl;
  labelled = refl;
}

rehydrate-snapshot_example : rehydrate (snapshot fiscal_1403) ≡ ok fiscal_1403
rehydrate-snapshot_example = rehydrate-snapshot fiscal_1403 fiscal_1403-IsFiscalYear

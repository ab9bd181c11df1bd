-- ===== src/Accounting/FiscalYear/Overlap.antt =====
-- The overlap rule: fiscal-year-overlap.policy.ts.
use main_acounting_system.Prelude.{
  All, List, [], any, arith, false, if◌then◌else◌, if◌then◌else◌, if◌then◌else◌, refl, true, ◌↔◌,
  ◌∷◌, ◌≡◌,
}
use main_acounting_system.Accounting.Errors.{fiscal_year_overlap}
use main_acounting_system.Accounting.FiscalYear.{
  FiscalYear, FiscalYearRange, FiscalYearSpan, create_year, evaluate, opened, overlaps, span,
}
use main_acounting_system.Prelude.Outcome.{err, ok}
use main_acounting_system.Primitives.EntityId.{EntityId}
use main_acounting_system.Primitives.Text.{Text}
use main_acounting_system.Time.{DateTime}
use main_acounting_system.Time.BusinessDate.{BusinessDate, is_before}

-- A day is in a range if it is neither before its first day nor after its last.
abbrev pub Covers : FiscalYearRange → BusinessDate → Type 0
Covers r d = (is_before d r.start_date ≡ false) × (is_before r.end_date d ≡ false)

-- A range that `FiscalYearRange.of` admits.
abbrev pub IsRange : FiscalYearRange → Type 0
IsRange r = is_before r.start_date r.end_date ≡ true

not_before_trans :
    (a b c : BusinessDate) → is_before b a ≡ false → is_before c b ≡ false → is_before c a ≡ false
unfolding is_before
not_before_trans a b c h k = ground arith

before_asymmetric : (a b : BusinessDate) → is_before a b ≡ true → is_before b a ≡ false
unfolding is_before
before_asymmetric a b h = ground arith

overlaps_parts :
    (a b : FiscalYearSpan)
    → (overlaps a b ≡ true) ↔ (
        (a.tenant_id ≡ b.tenant_id)
        × (is_before b.range.end_date a.range.start_date ≡ false)
        × (is_before a.range.end_date b.range.start_date ≡ false))
unfolding overlaps is_before
overlaps_parts a b = ground arith

later_start : FiscalYearRange → FiscalYearRange → BusinessDate
later_start a b = if is_before a.start_date b.start_date then b.start_date else a.start_date

later_start-Covers :
    (a b : FiscalYearRange)
    → IsRange a
    → IsRange b
    → is_before b.end_date a.start_date ≡ false
    → is_before a.end_date b.start_date ≡ false
    → Covers a (later_start a b) × Covers b (later_start a b)
unfolding later_start is_before
later_start-Covers a b h k p q = ground arith

-- Two spans of valid ranges overlap exactly when one company covers some day twice.
pub overlaps_iff :
    (a b : FiscalYearSpan)
    → IsRange a.range
    → IsRange b.range
    → (overlaps a b ≡ true)
      ↔ ((a.tenant_id ≡ b.tenant_id) × ((d : BusinessDate) × Covers a.range d × Covers b.range d))
overlaps_iff a b h k = (
  λ o.
      let (same_tenant, p, q) = (overlaps_parts a b).0 o in
      let covered = later_start-Covers a.range b.range h k p q in
      (same_tenant, (later_start a.range b.range, covered.0, covered.1)),
  λ (same_tenant, (d, ca, cb)). (overlaps_parts a b).1 (
    same_tenant,
    not_before_trans a.range.start_date d b.range.end_date ca.0 cb.1,
    not_before_trans b.range.start_date d a.range.end_date cb.0 ca.1,
  ),
)

pub overlaps_symmetric : (a b : FiscalYearSpan) → overlaps a b ≡ overlaps b a
unfolding overlaps is_before
overlaps_symmetric a b = ground arith

abbrev pub Disjoint : FiscalYearSpan → FiscalYearSpan → Type 0
Disjoint a b = overlaps a b ≡ false

-- The years of all companies, no two of one company with a day in common.
abbrev pub IsDisjoint : List FiscalYearSpan → Type 0
IsDisjoint [] = Unit
IsDisjoint (a ∷ rest) = All (Disjoint a) rest × IsDisjoint rest

evaluate-Disjoint :
    (candidate : FiscalYearSpan) (existing : List FiscalYearSpan)
    → evaluate candidate existing ≡ ok tt
    → All (Disjoint candidate) existing
unfolding evaluate
evaluate-Disjoint candidate [] h = tt
evaluate-Disjoint candidate (b ∷ rest) h = ground (arith, evaluate-Disjoint candidate rest)

pub evaluate_complete :
    (candidate : FiscalYearSpan) (existing : List FiscalYearSpan)
    → All (Disjoint candidate) existing
    → evaluate candidate existing ≡ ok tt
unfolding evaluate
evaluate_complete candidate [] h = refl
evaluate_complete candidate (b ∷ rest) h = ground (arith, evaluate_complete candidate rest h.1)

evaluate_refuses :
    (candidate : FiscalYearSpan) (existing : List FiscalYearSpan)
    → any (overlaps candidate) existing ≡ true
    → evaluate candidate existing ≡ err fiscal_year_overlap
unfolding evaluate
evaluate_refuses candidate [] h = cc
evaluate_refuses candidate (b ∷ rest) h = ground (arith, evaluate_refuses candidate rest)

module _ (id tenant : EntityId) (label : Text) (range : FiscalYearRange) (now : DateTime)
    (existing : List FiscalYearSpan) where
  create_year_parts :
      {year : FiscalYear}
      → create_year id tenant label range now existing ≡ ok year
      → (evaluate (record { tenant_id = tenant; range = range }) existing ≡ ok tt)
        × (span year ≡ record { tenant_id = tenant; range = range })
        × (year.status ≡ opened)
        × (year.label ≡ label)
  unfolding create_year span
  create_year_parts h = ground arith

  -- A created year is open, carries its input, and keeps the years of every company disjoint.
  pub create_year-IsDisjoint :
      {year : FiscalYear}
      → create_year id tenant label range now existing ≡ ok year
      → IsDisjoint existing
      → (year.status ≡ opened)
        × (year.label ≡ label)
        × (span year ≡ record { tenant_id = tenant; range = range })
        × IsDisjoint (span year ∷ existing)
  create_year-IsDisjoint h v =
      let (accepted, spanned, status, labelled) = create_year_parts h in
      (
        status,
        labelled,
        spanned,
        rw spanned
            (evaluate-Disjoint (record { tenant_id = tenant; range = range }) existing accepted, v),
      )

  -- A year that shares a day with one of its company's years is refused.
  pub create_year_overlap :
      any (overlaps (record { tenant_id = tenant; range = range })) existing ≡ true
      → create_year id tenant label range now existing ≡ err fiscal_year_overlap
  unfolding create_year
  create_year_overlap h =
      rw (evaluate_refuses (record { tenant_id = tenant; range = range }) existing h)

-- ===== src/Accounting/Generation/Cover.antt =====
-- The months of a plan cover its year: in order, with no day left out and no day counted twice.
use main_acounting_system.Prelude.{
  Bool, List, Option, [], ap, arith, false, if◌then◌else◌, if◌then◌else◌, if◌then◌else◌, length,
  ltb, max, min, none, not, refl, some, suc, sym, true, zero, ℕ, ◌+◌, ◌||◌, ◌∙◌, ◌∷◌, ◌≡◌,
}
use main_acounting_system.Accounting.Errors.{DomainError, period_structure}
use main_acounting_system.Accounting.FiscalYear.{FiscalYearRange}
use main_acounting_system.Accounting.Generation.{
  FiscalPeriodPlan, Planned, PlannedFiscalPeriod, as_plan, follows, plan, plan_months, planned,
  with_first,
}
use main_acounting_system.Prelude.Outcome.{
  >>-eq-ok, >>=-eq-ok, Outcome, err, ok, ok-injective, throw_if, ◌>>=◌,
}
use main_acounting_system.Primitives.Text.{
  InvalidPrimitiveError, invalid_primitive, validate_integer_in_range,
}
use main_acounting_system.Time.BusinessDate.{BusinessDate, equals}
use main_acounting_system.Time.BusinessDate.Laws.{equals_iff}
use main_acounting_system.Time.Jalali.{jalali_days_in_month, max_jalali_year}
use main_acounting_system.Time.Jalali.Dates.{
  Bounds, business_date_from_jalali, business_date_to_jalali, jalali_month_bounds,
  jalali_year_bounds, previous_day,
}

-- The first day of a month follows the last day of the month before.
abbrev pub Follows : Option BusinessDate → BusinessDate → Type 0
Follows none start = Unit
Follows (some end) start = previous_day start ≡ ok end

abbrev pub IsChain : Option BusinessDate → ℕ → List PlannedFiscalPeriod → Type 0
IsChain previous sequence [] = Unit
IsChain previous sequence (p ∷ ps) =
    (p.sequence ≡ sequence)
    × Follows previous p.start_date
    × IsChain (some p.end_date) (sequence + 1) ps

abbrev pub first_start : List PlannedFiscalPeriod → Option BusinessDate
first_start [] = none
first_start (p ∷ ps) = some p.start_date

abbrev pub last_end : Option BusinessDate → List PlannedFiscalPeriod → Option BusinessDate
last_end end [] = end
last_end end (p ∷ ps) = last_end (some p.end_date) ps

follows-Follows :
    (previous : Option BusinessDate) (start : BusinessDate)
    → follows previous start ≡ ok true
    → Follows previous start
unfolding follows
follows-Follows none start h = tt
follows-Follows (some end) start h =
    let (expected, e, same) = >>=-eq-ok (previous_day start) _ h in
    e ∙ ap ok (sym ((equals_iff end expected).0 (ok-injective same)))

with_first-ok :
    (p : PlannedFiscalPeriod) (rest : Outcome DomainError (List PlannedFiscalPeriod))
    {ps : List PlannedFiscalPeriod}
    → with_first p rest ≡ ok ps
    → (qs : List PlannedFiscalPeriod) × (rest ≡ ok qs) × (ps ≡ p ∷ qs)
with_first-ok p (ok qs) h = (qs, refl, sym (ok-injective h))
with_first-ok p (err e) h = cc

after_check : ℕ → ℕ → ℕ → Bounds → Bool → Planned (List PlannedFiscalPeriod)
after_check more sequence year bounds contiguous =
    if not contiguous
    then ok (err period_structure)
    else (plan_months more (sequence + 1) (some bounds.end) year >>= λ rest.
        ok (with_first (planned sequence bounds) rest))

after_check-ok :
    (more sequence year : ℕ) (bounds : Bounds) (contiguous : Bool) {ps : List PlannedFiscalPeriod}
    → after_check more sequence year bounds contiguous ≡ ok (ok ps)
    → (contiguous ≡ true)
      × (rest : List PlannedFiscalPeriod) × (plan_months more (sequence + 1) (some bounds.end) year
          ≡ ok (ok rest))
      × (ps ≡ planned sequence bounds ∷ rest)
unfolding after_check
after_check-ok more sequence year bounds false h = cc
after_check-ok more sequence year bounds true h =
    let (inner, e, h1) = >>=-eq-ok (plan_months more (sequence + 1) (some bounds.end) year) _ h in
    let (rest, e', same) = with_first-ok (planned sequence bounds) inner (ok-injective h1) in
    (refl, rest, e ∙ ap ok e', same)

-- One step of the loop that went on.
plan_months-step :
    (more sequence year : ℕ) (previous : Option BusinessDate) {ps : List PlannedFiscalPeriod}
    → plan_months (suc more) sequence previous year ≡ ok (ok ps)
    → (bounds : Bounds) × (rest : List PlannedFiscalPeriod) × (jalali_month_bounds year sequence
        ≡ ok bounds)
      × Follows previous bounds.start
      × (plan_months more (sequence + 1) (some bounds.end) year ≡ ok (ok rest))
      × (ps ≡ planned sequence bounds ∷ rest)
unfolding plan_months after_check
plan_months-step more sequence year previous {ps} h =
    let (bounds, found, h1) = >>=-eq-ok (jalali_month_bounds year sequence) _ h in
    let (contiguous, asked, h2) = >>=-eq-ok (follows previous bounds.start) _ h1 in
    let (went_on, rest, e, same) = after_check-ok more sequence year bounds contiguous h2 in
    (bounds, rest, found, follows-Follows previous bounds.start (asked ∙ ap ok went_on), e, same)

plan_months-end :
    (sequence year : ℕ) (previous : Option BusinessDate) {ps : List PlannedFiscalPeriod}
    → plan_months zero sequence previous year ≡ ok (ok ps)
    → ps ≡ []
unfolding plan_months
plan_months-end sequence year previous h = sym (ok-injective (ok-injective h))

-- The loop's months, from any month on.
plan_months-IsChain :
    (more sequence year : ℕ) (previous : Option BusinessDate) {ps : List PlannedFiscalPeriod}
    → plan_months more sequence previous year ≡ ok (ok ps)
    → (length ps ≡ more) × IsChain previous sequence ps
unfolding plan_months
plan_months-IsChain zero sequence year previous {ps} h =
    rw (plan_months-end sequence year previous h) (refl, tt)
plan_months-IsChain (suc more) sequence year previous {ps} h =
    let (bounds, rest, found, starts, e, same) = plan_months-step more sequence year previous h in
    let (n, chain) = plan_months-IsChain more (sequence + 1) year (some bounds.end) e in
    rw same (ap suc n, (refl, starts, chain))

plan_months-first :
    (more year : ℕ) {ps : List PlannedFiscalPeriod}
    → plan_months (suc more) 1 none year ≡ ok (ok ps)
    → (bounds : Bounds) × (jalali_month_bounds year 1 ≡ ok bounds)
      × (first_start ps ≡ some bounds.start)
plan_months-first more year {ps} h =
    let (bounds, rest, found, starts, e, same) = plan_months-step more 1 year none h in
    (bounds, found, rw same refl)

plan_months-last :
    (more sequence year : ℕ) (previous end : Option BusinessDate) {ps : List PlannedFiscalPeriod}
    → plan_months (suc more) sequence previous year ≡ ok (ok ps)
    → (bounds : Bounds) × (jalali_month_bounds year (sequence + more) ≡ ok bounds)
      × (last_end end ps ≡ some bounds.end)
plan_months-last zero sequence year previous end {ps} h =
    let (bounds, rest, found, starts, e, same) = plan_months-step zero sequence year previous h in
    (
      bounds,
      ap (jalali_month_bounds year) (omega arith) ∙ found,
      rw (same, plan_months-end (sequence + 1) year (some bounds.end) e) refl,
    )
plan_months-last (suc more) sequence year previous end {ps} h =
    let (bounds, rest, found, starts, e, same) =
      plan_months-step (suc more) sequence year previous h in
    let (last, found', ends) =
      plan_months-last more (sequence + 1) year (some bounds.end) (some bounds.end) e in
    (last, ap (jalali_month_bounds year) (omega arith) ∙ found', rw same ends)

validate_integer_in_range-same :
    (value min max : ℕ) {n : ℕ} → validate_integer_in_range value min max ≡ ok n → n ≡ value
unfolding validate_integer_in_range
validate_integer_in_range-same value min max h = sym (
    ok-injective
      (>>-eq-ok (throw_if (ltb value min || ltb max value) invalid_primitive) (ok value) h).1)

-- The two days of a month or of a year.
AreBounds : ℕ → ℕ → ℕ → Bounds → Type 0
AreBounds year first last bounds =
    (business_date_from_jalali year first 1 ≡ ok bounds.start)
    × ((days : ℕ) × (jalali_days_in_month year last ≡ ok days)
        × (business_date_from_jalali year last days ≡ ok bounds.end))

bounds_of : ℕ → ℕ → ℕ → Outcome InvalidPrimitiveError Bounds
bounds_of year first last = business_date_from_jalali year first 1 >>= λ start.
    jalali_days_in_month year last >>= λ days.
    business_date_from_jalali year last days >>= λ end. ok (record { start = start; end = end })

bounds_of-AreBounds :
    (year first last : ℕ) {bounds : Bounds}
    → bounds_of year first last ≡ ok bounds
    → AreBounds year first last bounds
unfolding AreBounds bounds_of
bounds_of-AreBounds year first last h =
    let (start, starts, h1) = >>=-eq-ok (business_date_from_jalali year first 1) _ h in
    let (days, counted, h2) = >>=-eq-ok (jalali_days_in_month year last) _ h1 in
    let (end, ends, h3) = >>=-eq-ok (business_date_from_jalali year last days) _ h2 in
    let same = ok-injective h3 in
    (
      starts ∙ ap (λ (b : Bounds). ok b.start) same,
      (days, counted, ends ∙ ap (λ (b : Bounds). ok b.end) same),
    )

month_bounds-AreBounds :
    (year month : ℕ) {bounds : Bounds}
    → jalali_month_bounds year month ≡ ok bounds
    → AreBounds year month month bounds
unfolding jalali_month_bounds bounds_of
month_bounds-AreBounds year month {bounds} h =
    let (m, valid, h1) = >>=-eq-ok (validate_integer_in_range month 1 12) _ h in
    bounds_of-AreBounds year month month
      (ap (λ k. bounds_of year k k) (sym (validate_integer_in_range-same month 1 12 valid)) ∙ h1)

year_bounds-AreBounds :
    (year : ℕ) {bounds : Bounds} → jalali_year_bounds year ≡ ok bounds → AreBounds year 1 12 bounds
unfolding jalali_year_bounds bounds_of
year_bounds-AreBounds year {bounds} h =
    let (y, valid, h1) = >>=-eq-ok (validate_integer_in_range year 1 max_jalali_year) _ h in
    bounds_of-AreBounds year 1 12 (
      ap (λ k. bounds_of k 1 12) (sym (validate_integer_in_range-same year 1 max_jalali_year valid))
      ∙ h1)

-- The bounds of a year are those of its first and of its last month.
year_bounds-first :
    (year : ℕ) {bounds first : Bounds}
    → jalali_year_bounds year ≡ ok bounds
    → jalali_month_bounds year 1 ≡ ok first
    → first.start ≡ bounds.start
unfolding AreBounds
year_bounds-first year h k =
    ok-injective (sym (month_bounds-AreBounds year 1 k).0 ∙ (year_bounds-AreBounds year h).0)

year_bounds-last :
    (year : ℕ) {bounds last : Bounds}
    → jalali_year_bounds year ≡ ok bounds
    → jalali_month_bounds year 12 ≡ ok last
    → last.end ≡ bounds.end
unfolding AreBounds
year_bounds-last year h k =
    let (days, counted, ends) = (month_bounds-AreBounds year 12 k).1 in
    let (days', counted', ends') = (year_bounds-AreBounds year h).1 in
    ok-injective (
      sym ends
      ∙ ap (business_date_from_jalali year 12) (ok-injective (sym counted ∙ counted'))
      ∙ ends')

-- Twelve months in order that begin and end with the range.
abbrev pub IsCover : FiscalYearRange → List PlannedFiscalPeriod → Type 0
IsCover range periods =
    (length periods ≡ 12)
    × IsChain none 1 periods
    × (first_start periods ≡ some range.start_date)
    × (last_end none periods ≡ some range.end_date)

after_deviation : FiscalYearRange → ℕ → Bool → Planned FiscalPeriodPlan
after_deviation range year deviates =
    if deviates
    then ok (err period_structure)
    else (plan_months 12 1 none year >>= λ periods. ok (as_plan year periods))

as_plan-ok :
    (year : ℕ) (periods : Outcome DomainError (List PlannedFiscalPeriod)) {p : FiscalPeriodPlan}
    → as_plan year periods ≡ ok p
    → periods ≡ ok p.periods
as_plan-ok year (ok ps) h = ap (λ (q : FiscalPeriodPlan). ok q.periods) (ok-injective h)
as_plan-ok year (err e) h = cc

after_deviation-ok :
    (range : FiscalYearRange) (year : ℕ) (deviates : Bool) {p : FiscalPeriodPlan}
    → after_deviation range year deviates ≡ ok (ok p)
    → (deviates ≡ false) × (plan_months 12 1 none year ≡ ok (ok p.periods))
unfolding after_deviation
after_deviation-ok range year true h = cc
after_deviation-ok range year false h =
    let (inner, e, h1) = >>=-eq-ok (plan_months 12 1 none year) _ h in
    (refl, e ∙ ap ok (as_plan-ok year inner (ok-injective h1)))

same_days :
    (a b c d : BusinessDate) → (not (equals a b) || not (equals c d)) ≡ false → (a ≡ b) × (c ≡ d)
same_days a b c d h =
    ((equals_iff a b).0 (ground (arith, h)), (equals_iff c d).0 (ground (arith, h)))

-- A plan that the policy answers has the year's twelve months in order: the first begins with the range, each
-- later one begins on the day after the one before ends, and the last ends with the range.
pub plan-IsCover :
    (range : FiscalYearRange) (p : FiscalPeriodPlan)
    → plan range ≡ ok (ok p)
    → IsCover range p.periods
unfolding plan after_deviation
plan-IsCover range p h =
    let (first, converted, h1) = >>=-eq-ok (business_date_to_jalali range.start_date) _ h in
    let (bounds, found, h2) = >>=-eq-ok (jalali_year_bounds first.j_year) _ h1 in
    let (fits, months) =
      after_deviation-ok range first.j_year
        (not (equals range.start_date bounds.start) || not (equals range.end_date bounds.end)) h2 in
    let (starts, ends) = same_days range.start_date bounds.start range.end_date bounds.end fits in
    let (n, chain) = plan_months-IsChain 12 1 first.j_year none months in
    let (first_month, found1, begins) = plan_months-first 11 first.j_year months in
    let (last_month, found12, closes) = plan_months-last 11 1 first.j_year none none months in
    (
      n,
      chain,
      begins ∙ ap some (year_bounds-first first.j_year found found1 ∙ sym starts),
      closes ∙ ap some (year_bounds-last first.j_year found found12 ∙ sym ends),
    )

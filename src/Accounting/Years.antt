-- ===== src/Accounting/Years.antt =====
-- modules/accounting/application/use-cases: generate-fiscal-periods.use-case.ts and
-- create-fiscal-year.use-case.ts, with the statements of the repositories that only they use. The clock and the
-- generated identities are arguments; a view holds the aggregates themselves.
pub mod Idempotent
pub mod Replay
pub mod Written
use main_acounting_system.Prelude.{
  Bool, List, Option, [], any, false, filter, if◌then◌else◌, if◌then◌else◌, if◌then◌else◌, leb, map,
  none, some, true, ℕ, ◌&&◌, ◌++◌, ◌==◌, ◌||◌, ◌∷◌,
}
use main_acounting_system.Accounting.Errors.{
  DomainError, fiscal_year_label_duplicate, fiscal_year_overlap, lift, period_duplicate,
  period_year_not_found,
}
use main_acounting_system.Accounting.FiscalPeriod.{FiscalPeriod}
use main_acounting_system.Accounting.FiscalYear.{
  FiscalYear, FiscalYearRange, create_year, overlaps, span,
}
use main_acounting_system.Accounting.Generation.{FiscalPeriodPlan, create_all, plan}
use main_acounting_system.Accounting.Store.{
  Action, FiscalPeriodRow, FiscalYearRow, activate, active_period_selected,
  fiscal_periods_generated, fiscal_year_created, get_year, period_id_for, record_event,
}
use main_acounting_system.Prelude.Outcome.{Outcome, err, ok}
use main_acounting_system.Primitives.EntityId.{EntityId}
use main_acounting_system.Primitives.Text.{Text, text_eq}
use main_acounting_system.Tenancy.{
  TenantContext, assert_tenant_criterion, assert_tenant_ownership, require_tenant_id,
}
use main_acounting_system.Time.{DateTime}
use main_acounting_system.Transaction.{
  Settled, and_then, decline_if, declined, execute, or_decline, or_throw, pure, raised, read,
  rejected, resolved, throw_work_if, write, ◌>>=◌, ◌>>◌,
}

-- The view of both answers of a generation.
pub record FiscalPeriodListView : Type 0 where
  pub fiscal_year_id : EntityId
  pub jalali_year : ℕ
  pub periods : List FiscalPeriod

abbrev pub of_year : EntityId → EntityId → FiscalPeriodRow → Bool
of_year year tenant row = row.aggregate.tenant_id == tenant && row.aggregate.fiscal_year_id == year

-- `ORDER BY sequence`.
unfoldable pub insert_by_sequence : FiscalPeriodRow → List FiscalPeriodRow → List FiscalPeriodRow
insert_by_sequence row [] = row ∷ []
insert_by_sequence row (r ∷ rows) =
    if leb row.aggregate.sequence r.aggregate.sequence
    then row ∷ r ∷ rows
    else r ∷ insert_by_sequence row rows

unfoldable pub order_by_sequence : List FiscalPeriodRow → List FiscalPeriodRow
unfolding insert_by_sequence
order_by_sequence [] = []
order_by_sequence (row ∷ rows) = insert_by_sequence row (order_by_sequence rows)

-- The primary key and `fiscal_periods_year_sequence_unique`.
abbrev pub collides : FiscalPeriod → FiscalPeriodRow → Bool
collides period row =
    row.aggregate.id == period.id
    || of_year period.fiscal_year_id period.tenant_id row
      && row.aggregate.sequence == period.sequence

-- The overlap trigger of fiscal_years, and its keys.
abbrev pub overlaps_row : FiscalYear → FiscalYearRow → Bool
unfolding overlaps span
overlaps_row year row = overlaps (span year) (span row.aggregate)

abbrev pub duplicates_row : FiscalYear → FiscalYearRow → Bool
unfolding text_eq
duplicates_row year row =
    row.aggregate.id == year.id
    || row.aggregate.tenant_id == year.tenant_id && text_eq row.aggregate.label year.label

module _ (scope : TenantContext) where
  -- `FiscalPeriodRepository.findByYear`.
  unfoldable pub find_by_year : EntityId → EntityId → Action (List FiscalPeriodRow)
  find_by_year year tenant =
      or_throw (assert_tenant_criterion scope tenant)
      >> read (λ db. order_by_sequence (filter (of_year year tenant) db.periods))

  -- `FiscalYearRepository.findByTenant`; its order is not looked at.
  unfoldable pub find_by_tenant : EntityId → Action (List FiscalYearRow)
  find_by_tenant tenant =
      or_throw (assert_tenant_criterion scope tenant)
      >> read (λ db. filter (λ (row : FiscalYearRow). row.aggregate.tenant_id == tenant) db.years)

  -- `FiscalPeriodRepository.add`, with the use case's `store`: a duplicate key is thrown.
  unfoldable pub add_period : FiscalPeriod → Action (Unit {0})
  add_period period =
      or_throw (assert_tenant_ownership scope period.tenant_id)
      >> read (λ db. any (collides period) db.periods)
      >>= λ taken.
          throw_work_if taken period_duplicate
          >> write (λ db. record db {
            periods = db.periods ++ record { aggregate = period; revision = 1 } ∷ [];
          })

  unfoldable pub add_periods : List FiscalPeriod → Action (Unit {0})
  unfolding add_period
  add_periods [] = pure tt
  add_periods (period ∷ periods) = add_period period >> add_periods periods

  -- `FiscalYearRepository.add`.
  unfoldable pub add_year : FiscalYear → Action (Unit {0})
  unfolding overlaps_row duplicates_row
  add_year year =
      or_throw (assert_tenant_ownership scope year.tenant_id)
      >> read (λ db. any (overlaps_row year) db.years)
      >>= λ overlapping.
          throw_work_if overlapping fiscal_year_overlap
          >> read (λ db. any (duplicates_row year) db.years)
          >>= λ taken.
              throw_work_if taken fiscal_year_label_duplicate
              >> write (λ db. record db {
                years = db.years ++ record { aggregate = year; revision = 1 } ∷ [];
              })

  abbrev pub seed : EntityId → List FiscalPeriod → Option EntityId → Action Bool
  unfolding activate
  seed tenant periods (some current) = pure false
  seed tenant [] none = pure false
  seed tenant (first ∷ periods) none = activate scope tenant first.id >> pure true

  -- `seedActivePeriod`.
  unfoldable pub seed_active_period : EntityId → List FiscalPeriod → Action Bool
  unfolding period_id_for activate
  seed_active_period tenant periods = period_id_for scope tenant >>= seed tenant periods

-- `ActivePeriodSelected`, of the first period.
abbrev pub record_selected : EntityId → List FiscalPeriod → Action (Unit {0})
unfolding record_event
record_selected tenant [] = pure tt
record_selected tenant (first ∷ periods) =
    record_event (active_period_selected tenant first.id first.fiscal_year_id first.sequence)

-- `loadedYear === undefined || loadedYear.aggregate.tenantId.value !== tenantId.value`
abbrev pub year_owned_by : EntityId → Option FiscalYearRow → Outcome DomainError FiscalYearRow
year_owned_by tenant none = err period_year_not_found
year_owned_by tenant (some row) =
    if row.aggregate.tenant_id == tenant then ok row else err period_year_not_found

abbrev pub list_view : EntityId → ℕ → List FiscalPeriod → FiscalPeriodListView
list_view year jalali_year periods = record {
  fiscal_year_id = year;
  jalali_year = jalali_year;
  periods = periods;
}

abbrev pub has_label : Text → FiscalYearRow → Bool
unfolding text_eq
has_label label row = text_eq row.aggregate.label label

-- `asFiscalYearConflict`: a conflict of the write is returned, any other error passes.
abbrev pub as_conflict : Settled DomainError (Unit {0}) → Action (Unit {0})
as_conflict (resolved done) s = (resolved done, s)
as_conflict (declined e) s = (declined e, s)
as_conflict (rejected (raised fiscal_year_overlap)) s = (declined fiscal_year_overlap, s)
as_conflict (rejected (raised fiscal_year_label_duplicate)) s =
    (declined fiscal_year_label_duplicate, s)
as_conflict (rejected e) s = (rejected e, s)

-- The events, and the answer.
unfoldable pub announce :
    EntityId → EntityId → ℕ → List FiscalPeriod → Bool → Action FiscalPeriodListView
unfolding record_event
announce tenant year jalali_year periods seeded =
    record_event
      (fiscal_periods_generated tenant year jalali_year (map (λ (q : FiscalPeriod). q.id) periods))
    >> (if seeded then record_selected tenant periods else pure tt)
    >> pure (list_view year jalali_year periods)

module _ (scope : TenantContext) (ids : ℕ → EntityId) (now : DateTime) where
  -- The periods that are written, the pointer and the events.
  unfoldable pub write_plan : EntityId → EntityId → FiscalPeriodPlan → Action FiscalPeriodListView
  unfolding create_all add_periods seed_active_period announce
  write_plan tenant year p =
      or_throw (create_all ids now tenant year p.jalali_year p.periods) >>= λ periods.
      add_periods scope periods
      >> seed_active_period scope tenant periods
      >>= announce tenant year p.jalali_year periods

  -- What exists already is the truth, and nothing is written.
  unfoldable pub write_unless_generated :
      EntityId → EntityId → FiscalPeriodPlan → List FiscalPeriodRow → Action FiscalPeriodListView
  unfolding write_plan
  write_unless_generated tenant year p [] = write_plan tenant year p
  write_unless_generated tenant year p (row ∷ rows) =
      pure (list_view year p.jalali_year (map (λ (r : FiscalPeriodRow). r.aggregate) (row ∷ rows)))

  -- The boundary of `GenerateFiscalPeriodsUseCase.execute`.
  unfoldable pub generate_body : EntityId → EntityId → Action FiscalPeriodListView
  unfolding get_year find_by_year write_unless_generated
  generate_body tenant year = get_year scope year >>= λ loaded.
      or_decline (year_owned_by tenant loaded) >>= λ row.
      or_throw (lift (plan row.aggregate.range)) >>= λ outcome. or_decline outcome >>= λ p.
      find_by_year scope year tenant >>= write_unless_generated tenant year p

  -- `GenerateFiscalPeriodsUseCase.execute`, on an identity that is well formed.
  unfoldable pub generate_fiscal_periods : EntityId → Action FiscalPeriodListView
  unfolding generate_body execute require_tenant_id
  generate_fiscal_periods year =
      or_throw (require_tenant_id scope) >>= λ tenant. execute (generate_body tenant year)

  -- The boundary of `CreateFiscalYearUseCase.execute`; the nested generation joins it.
  unfoldable pub create_body : EntityId → EntityId → Text → FiscalYearRange → Action FiscalYear
  unfolding find_by_tenant create_year add_year record_event generate_fiscal_periods
  create_body tenant id label range = find_by_tenant scope tenant >>= λ existing.
      decline_if (any (has_label label) existing) fiscal_year_label_duplicate
      >> or_decline (
          create_year id tenant label range now
            (map (λ (row : FiscalYearRow). span row.aggregate) existing))
      >>= λ year. or_throw (lift (plan range)) >>= λ outcome. or_decline outcome >>= λ p.
          and_then (add_year scope year) as_conflict
          >> record_event (fiscal_year_created tenant year.id year.label year.range)
          >> generate_fiscal_periods year.id
          >>= λ periods. pure year

  -- `CreateFiscalYearUseCase.execute`, on a label and a range that were parsed.
  unfoldable pub create_fiscal_year : EntityId → Text → FiscalYearRange → Action FiscalYear
  unfolding create_body execute require_tenant_id
  create_fiscal_year id label range =
      or_throw (require_tenant_id scope) >>= λ tenant. execute (create_body tenant id label range)

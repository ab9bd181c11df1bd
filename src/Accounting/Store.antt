-- ===== src/Accounting/Store.antt =====
-- The module's tables and the repositories over them: infrastructure/persistence, with the outbox rows
-- and audit entries that its use cases write. A row holds its aggregate: what `rehydrate` gives back.
pub mod Rows
use main_acounting_system.Prelude.{
  Bool, List, Option, [], any, if◌then◌else◌, if◌then◌else◌, if◌then◌else◌, ltb, map, none, not,
  some, ℕ, ◌&&◌, ◌++◌, ◌+◌, ◌==◌, ◌∷◌,
}
use main_acounting_system.Accounting.Errors.{
  DomainError, malformed, outbox_transaction_required, stale_revision,
}
use main_acounting_system.Accounting.FiscalPeriod.{FiscalPeriod}
use main_acounting_system.Accounting.FiscalYear.{FiscalYear, FiscalYearRange}
use main_acounting_system.Primitives.EntityId.{EntityId}
use main_acounting_system.Primitives.Text.{Text}
use main_acounting_system.Tenancy.{
  TenantContext, assert_tenant_criterion, assert_tenant_ownership, require_tenant_id,
}
use main_acounting_system.Time.BusinessDate.{BusinessDate, is_after, is_before}
use main_acounting_system.Transaction.{
  Work, or_throw, raised, read, rejected, throw_work_if, write, ◌>>=◌, ◌>>◌,
}

pub record FiscalYearRow : Type 0 where
  pub aggregate : FiscalYear
  pub revision : ℕ

pub record FiscalPeriodRow : Type 0 where
  pub aggregate : FiscalPeriod
  pub revision : ℕ

-- The domain events, domain/events, with the fields of their payloads.
pub data Event : Type 0 where
  fiscal_year_created : (tenant year : EntityId) (label : Text) (range : FiscalYearRange) → Event
  fiscal_periods_generated :
      (tenant year : EntityId) (jalali_year : ℕ) (ids : List EntityId) → Event
  active_period_selected : (tenant period year : EntityId) (sequence : ℕ) → Event
  fiscal_period_closed : (tenant period year : EntityId) (sequence : ℕ) (user : EntityId) → Event
  fiscal_period_reopened :
      (tenant period year : EntityId) (sequence : ℕ) (reason : Text) (user : EntityId) → Event

pub data AuditAction : Type 0 where
  close_action reopen_action : AuditAction

-- The text of a request, or the identity of an aggregate.
pub data AuditTarget : Type 0 where
  given_id : Text → AuditTarget
  aggregate_id : EntityId → AuditTarget

pub record AuditEntry : Type 0 where
  pub action : AuditAction
  pub succeeded : Bool
  pub actor : EntityId
  pub target : AuditTarget

pub record Db : Type 0 where
  pub years : List FiscalYearRow
  pub periods : List FiscalPeriodRow
  -- tenant_active_periods: tenant and period
  pub active : List (EntityId × EntityId)
  pub events : List Event
  pub audit : List AuditEntry

abbrev pub Action : Type 0 → Type 0
Action A = Work Db DomainError A

-- `WHERE id = … AND tenant_id = … LIMIT 1`.
unfoldable pub find_period : EntityId → EntityId → List FiscalPeriodRow → Option FiscalPeriodRow
find_period id tenant [] = none
find_period id tenant (row ∷ rows) =
    if row.aggregate.id == id && row.aggregate.tenant_id == tenant
    then some row
    else find_period id tenant rows

unfoldable pub find_year : EntityId → EntityId → List FiscalYearRow → Option FiscalYearRow
find_year id tenant [] = none
find_year id tenant (row ∷ rows) =
    if row.aggregate.id == id && row.aggregate.tenant_id == tenant
    then some row
    else find_year id tenant rows

-- Both ends are inclusive.
unfoldable pub find_for_date :
    EntityId → BusinessDate → List FiscalPeriodRow → Option FiscalPeriodRow
find_for_date tenant date [] = none
find_for_date tenant date (row ∷ rows) =
    if row.aggregate.tenant_id == tenant
      && not (is_after row.aggregate.range.start_date date)
      && not (is_before row.aggregate.range.end_date date)
    then some row
    else find_for_date tenant date rows

-- The compare-and-swap of `update`: identity, expected revision and tenant.
unfoldable pub swaps : FiscalPeriod → ℕ → EntityId → FiscalPeriodRow → Bool
swaps period expected tenant row =
    row.aggregate.id == period.id && row.revision == expected && row.aggregate.tenant_id == tenant

unfoldable pub swap_row : FiscalPeriod → ℕ → EntityId → FiscalPeriodRow → FiscalPeriodRow
unfolding swaps
swap_row period expected tenant row =
    if swaps period expected tenant row
    then record row {
      aggregate = record (row.aggregate) { state = period.state; updated_at = period.updated_at };
      revision = expected + 1;
    }
    else row

unfoldable pub lookup_active : EntityId → List (EntityId × EntityId) → Option EntityId
lookup_active tenant [] = none
lookup_active tenant ((t, period) ∷ rest) =
    if t == tenant then some period else lookup_active tenant rest

-- `INSERT … ON DUPLICATE KEY UPDATE`.
unfoldable pub set_active_row :
    EntityId → EntityId → List (EntityId × EntityId) → List (EntityId × EntityId)
set_active_row tenant period [] = (tenant, period) ∷ []
set_active_row tenant period ((t, p) ∷ rest) =
    if t == tenant then (tenant, period) ∷ rest else (t, p) ∷ set_active_row tenant period rest

abbrev pub max_revision : ℕ
max_revision = 2147483647

module _ (scope : TenantContext) where
  -- `FiscalPeriodRepository.get`.
  unfoldable pub get_period : EntityId → Action (Option FiscalPeriodRow)
  get_period id =
      or_throw (require_tenant_id scope) >>= λ tenant. read (λ db. find_period id tenant db.periods)

  unfoldable pub get_year : EntityId → Action (Option FiscalYearRow)
  get_year id =
      or_throw (require_tenant_id scope) >>= λ tenant. read (λ db. find_year id tenant db.years)

  unfoldable pub find_period_for_date : EntityId → BusinessDate → Action (Option FiscalPeriodRow)
  find_period_for_date tenant date =
      or_throw (assert_tenant_criterion scope tenant)
      >> read (λ db. find_for_date tenant date db.periods)

  -- `FiscalPeriodRepository.update`: no row affected is a stale revision.
  unfoldable pub update_period : FiscalPeriod → ℕ → Action (Unit {0})
  update_period period expected =
      or_throw (assert_tenant_ownership scope period.tenant_id)
      >> or_throw (require_tenant_id scope)
      >>= λ tenant. read (λ db. any (swaps period expected tenant) db.periods) >>= λ affected.
          throw_work_if (not affected) stale_revision
          >> write (λ db. record db { periods = map (swap_row period expected tenant) db.periods })
          >> throw_work_if (ltb max_revision (expected + 1)) malformed

  unfoldable pub period_id_for : EntityId → Action (Option EntityId)
  period_id_for tenant =
      or_throw (assert_tenant_criterion scope tenant) >> read (λ db. lookup_active tenant db.active)

  unfoldable pub activate : EntityId → EntityId → Action (Unit {0})
  activate tenant period =
      or_throw (assert_tenant_ownership scope tenant)
      >> write (λ db. record db { active = set_active_row tenant period db.active })

-- `OutboxRecorder.record`: refused outside a transaction.
unfoldable pub record_event : Event → Action (Unit {0})
record_event event s = elim s.boundary [
  | none ↦ (rejected (raised outbox_transaction_required), s)
  | some state ↦ write (λ db. record db { events = db.events ++ event ∷ [] }) s
]

unfoldable pub record_audit : AuditEntry → Action (Unit {0})
record_audit entry = write (λ db. record db { audit = db.audit ++ entry ∷ [] })

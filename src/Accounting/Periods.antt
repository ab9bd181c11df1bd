-- ===== src/Accounting/Periods.antt =====
-- The period use cases: application/use-cases/close-fiscal-period, reopen-fiscal-period and
-- select-active-period, and the posting guard, application/services/default-period-guard.service.ts.
-- The ambient scope, the clock and the authorization component are arguments, without what the component
-- itself writes to the audit trail; views are left out.
pub mod Effects
pub mod Command
pub mod ActiveIsOpen
pub mod Isolation
pub mod Answers
mod Tests
use main_acounting_system.Prelude.{
  Bool, Option, false, if◌then◌else◌, if◌then◌else◌, if◌then◌else◌, none, not, some, true, ◌==◌,
}
use main_acounting_system.Accounting.Errors.{
  DomainError, period_closed, period_not_defined, period_not_found, period_not_open,
  period_state_invalid, reopen_reason_required, validation,
}
use main_acounting_system.Accounting.FiscalPeriod.{
  FiscalPeriod, close_period, is_closed, is_open, reopen_period,
}
use main_acounting_system.Accounting.Store.{
  Action, AuditAction, AuditEntry, AuditTarget, FiscalPeriodRow, activate, active_period_selected,
  aggregate_id, close_action, find_period_for_date, fiscal_period_closed, fiscal_period_reopened,
  get_period, given_id, period_id_for, record_audit, record_event, reopen_action, update_period,
}
use main_acounting_system.Prelude.Outcome.{Outcome, err, ok}
use main_acounting_system.Primitives.EntityId.{EntityId, entity_id_from}
use main_acounting_system.Primitives.Text.{Text, is_empty, trim}
use main_acounting_system.Tenancy.{TenantContext, require_tenant_id}
use main_acounting_system.Time.{DateTime}
use main_acounting_system.Time.BusinessDate.{BusinessDate}
use main_acounting_system.Transaction.{
  decline, decline_if, execute, or_decline, or_throw, pure, throw_work_if, ◌>>=◌, ◌>>◌,
}
use main_acounting_system.Transaction.Atomicity.{succeeded}

-- `parseFiscalPeriodId`: a malformed identity is an expected failure.
unfoldable pub parse_fiscal_period_id : Text → Outcome DomainError EntityId
parse_fiscal_period_id raw = elim (entity_id_from raw) [ ok id ↦ ok id | err e ↦ err validation ]

-- `loaded === undefined || loaded.aggregate.tenantId.value !== tenantId.value`
unfoldable pub owned_by : EntityId → Option FiscalPeriodRow → Outcome DomainError FiscalPeriodRow
owned_by tenant none = err period_not_found
owned_by tenant (some row) =
    if row.aggregate.tenant_id == tenant then ok row else err period_not_found

abbrev pub is_active : Option EntityId → EntityId → Bool
is_active none id = false
is_active (some active) id = active == id

abbrev pub audit_entry : AuditAction → Bool → EntityId → AuditTarget → AuditEntry
audit_entry action succeeded actor target = record {
  action = action;
  succeeded = succeeded;
  actor = actor;
  target = target;
}

-- A refusal of the authorization is written to the audit trail outside any boundary.
abbrev pub check_authorized : Outcome DomainError (Unit {0}) → AuditEntry → Action (Unit {0})
check_authorized (ok _) denied = pure tt
check_authorized (err e) denied = record_audit denied >> decline e

abbrev defined : Option FiscalPeriodRow → Outcome DomainError FiscalPeriod
defined none = err period_not_defined
defined (some row) = ok row.aggregate

module _ (scope : TenantContext) where
  -- The boundary of `CloseFiscalPeriodUseCase.execute`.
  unfoldable pub close_body : EntityId → EntityId → EntityId → DateTime → Action FiscalPeriod
  unfolding owned_by
  close_body tenant id user now = get_period scope id >>= λ loaded.
      or_decline (owned_by tenant loaded) >>= λ row.
      decline_if (is_closed row.aggregate.state) period_state_invalid
      >> period_id_for scope tenant
      >>= λ active.
          decline_if (is_active active row.aggregate.id) period_state_invalid
          >> or_throw (close_period now row.aggregate)
          >>= λ period.
              update_period scope period row.revision
              >> record_event
                  (fiscal_period_closed tenant period.id period.fiscal_year_id period.sequence user)
              >> record_audit (audit_entry close_action true user (aggregate_id period.id))
              >> pure period

  -- The boundary of `ReopenFiscalPeriodUseCase.execute`.
  unfoldable pub reopen_body :
      EntityId → EntityId → Text → EntityId → DateTime → Action FiscalPeriod
  unfolding owned_by
  reopen_body tenant id reason user now = get_period scope id >>= λ loaded.
      or_decline (owned_by tenant loaded) >>= λ row.
      decline_if (is_open row.aggregate.state) period_state_invalid
      >> or_throw (reopen_period reason now row.aggregate)
      >>= λ period.
          update_period scope period row.revision
          >> record_event (
              fiscal_period_reopened tenant period.id period.fiscal_year_id period.sequence
                (trim reason) user)
          >> record_audit (audit_entry reopen_action true user (aggregate_id period.id))
          >> pure period

  -- The boundary of `SelectActivePeriodUseCase.execute`.
  unfoldable pub select_body : EntityId → EntityId → Action FiscalPeriod
  unfolding owned_by
  select_body tenant id = get_period scope id >>= λ loaded.
      or_decline (owned_by tenant loaded) >>= λ row.
      decline_if (not (is_open row.aggregate.state)) period_not_open
      >> activate scope tenant row.aggregate.id
      >> record_event (
          active_period_selected tenant row.aggregate.id row.aggregate.fiscal_year_id
            row.aggregate.sequence)
      >> pure row.aggregate

  -- `SelectActivePeriodUseCase.execute`.
  unfoldable pub select_active_period : Text → Action FiscalPeriod
  select_active_period raw = or_throw (require_tenant_id scope) >>= λ tenant.
      or_decline (parse_fiscal_period_id raw) >>= λ id. execute (select_body tenant id)

  -- `DefaultPeriodGuard.assertPostable`.
  unfoldable pub assert_postable : EntityId → BusinessDate → Action FiscalPeriod
  assert_postable tenant date = find_period_for_date scope tenant date >>= λ loaded.
      or_throw (defined loaded) >>= λ period.
      throw_work_if (not (is_open period.state)) period_closed >> pure period

  module _ (authorize : EntityId → EntityId → Outcome DomainError (Unit {0})) where
    -- `CloseFiscalPeriodUseCase.execute`.
    unfoldable pub close_fiscal_period : Text → EntityId → DateTime → Action FiscalPeriod
    unfolding record_audit
    close_fiscal_period raw user now = or_throw (require_tenant_id scope) >>= λ tenant.
        or_decline (parse_fiscal_period_id raw) >>= λ id.
        check_authorized (authorize user tenant)
          (audit_entry close_action false user (given_id raw))
        >> execute (close_body tenant id user now)

    -- `ReopenFiscalPeriodUseCase.execute`.
    unfoldable pub reopen_fiscal_period : Text → Text → EntityId → DateTime → Action FiscalPeriod
    unfolding record_audit
    reopen_fiscal_period raw reason user now = or_throw (require_tenant_id scope) >>= λ tenant.
        decline_if (is_empty (trim reason)) reopen_reason_required
        >> or_decline (parse_fiscal_period_id raw)
        >>= λ id.
            check_authorized (authorize user tenant)
              (audit_entry reopen_action false user (given_id raw))
            >> execute (reopen_body tenant id reason user now)

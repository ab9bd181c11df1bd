-- ===== src/Accounting/Periods/Command.antt =====
-- The period commands that a company's users send, and a history of them.
use main_acounting_system.Prelude.{Bool-cases, List, [], inl, inr, none, refl, ◌∷◌, ◌≡◌}
use main_acounting_system.Accounting.Errors.{DomainError}
use main_acounting_system.Accounting.FiscalPeriod.{FiscalPeriod}
use main_acounting_system.Accounting.Periods.{
  check_authorized, close_body, close_fiscal_period, parse_fiscal_period_id, reopen_body,
  reopen_fiscal_period, select_active_period, select_body,
}
use main_acounting_system.Accounting.Periods.Effects.{
  Effect, Effect-same, close_body-Effect, reopen_body-Effect, select_body-Effect, unchanged,
}
use main_acounting_system.Accounting.Store.{Action, AuditEntry, Db, record_audit}
use main_acounting_system.Prelude.Outcome.{Outcome, Outcome-cases}
use main_acounting_system.Primitives.EntityId.{EntityId}
use main_acounting_system.Primitives.Text.{Text, is_empty, trim}
use main_acounting_system.Tenancy.{TenantContext, available, missing, require_tenant_id, system}
use main_acounting_system.Time.{DateTime}
use main_acounting_system.Transaction.{Session, execute, or_decline, ◌>>=◌, ◌>>◌}
use main_acounting_system.Transaction.Atomicity.{Relates, execute-Relates}

pub data Command : Type 0 where
  select : (raw : Text) → Command
  close : (raw : Text) (user : EntityId) → Command
  reopen : (raw reason : Text) (user : EntityId) → Command

module _ (authorize : EntityId → EntityId → Outcome DomainError (Unit {0})) where
  -- The use case of a command, in the scope and at the time of its request.
  unfoldable pub handle : TenantContext → DateTime → Command → Action FiscalPeriod
  handle scope now (select raw) = select_active_period scope raw
  handle scope now (close raw user) = close_fiscal_period scope authorize raw user now
  handle scope now (reopen raw reason user) =
      reopen_fiscal_period scope authorize raw reason user now

  -- One request after the other, each with a call stack of its own.
  unfoldable pub serve : List (TenantContext × DateTime × Command) → Db → Db
  serve [] db = db
  serve ((scope, now, command) ∷ rest) db =
      serve rest (handle scope now command (record { store = db; boundary = none })).1.store

-- The company of a scope; outside a company's scope there is none.
abbrev pub HasEffect : TenantContext → Db → Db → Type 0
HasEffect (available tenant) db db' = Effect tenant db db'
HasEffect system db db' = db' ≡ db
HasEffect missing db db' = db' ≡ db

module _ (authorize : EntityId → EntityId → Outcome DomainError (Unit {0})) where
  -- The use case after its first checks.
  authorized_Effect :
      (tenant user : EntityId) (denied : AuditEntry) (body : Action FiscalPeriod)
      → Relates (Effect tenant) body
      → Relates (Effect tenant) (check_authorized (authorize user tenant) denied >> execute body)
  unfolding record_audit
  authorized_Effect tenant user denied body relates s =
      elim (Outcome-cases (authorize user tenant)) [
        | inl (x, e) ↦ rw e (execute-Relates (Effect tenant) body (Effect-same tenant) relates s)
        | inr (x, e) ↦ rw e (unchanged refl refl)
      ]

  parsed_Effect :
      (tenant : EntityId) (raw : Text) (rest : EntityId → Action FiscalPeriod)
      → ((id : EntityId) → Relates (Effect tenant) (rest id))
      → Relates (Effect tenant) (or_decline (parse_fiscal_period_id raw) >>= rest)
  parsed_Effect tenant raw rest relates s = elim (Outcome-cases (parse_fiscal_period_id raw)) [
    | inl (id, e) ↦ rw e (relates id s)
    | inr (x, e) ↦ rw e (Effect-same tenant s.store)
  ]

  handle_available :
      (tenant : EntityId) (now : DateTime) (command : Command)
      → Relates (Effect tenant) (handle authorize (available tenant) now command)
  unfolding handle select_active_period close_fiscal_period reopen_fiscal_period require_tenant_id
  handle_available tenant now (select raw) s =
      parsed_Effect tenant raw _
        (λ id.
          execute-Relates (Effect tenant) (select_body (available tenant) tenant id)
            (Effect-same tenant) (select_body-Effect tenant id))
        s
  handle_available tenant now (close raw user) s =
      parsed_Effect tenant raw _
        (λ id.
          authorized_Effect tenant user _ (close_body (available tenant) tenant id user now)
            (close_body-Effect tenant id user now))
        s
  handle_available tenant now (reopen raw reason user) s =
      elim (Bool-cases (is_empty (trim reason))) [
        | inl blank ↦ rw blank (Effect-same tenant s.store)
        | inr stated ↦ rw stated (
            parsed_Effect tenant raw _
              (λ id.
                authorized_Effect tenant user _
                  (reopen_body (available tenant) tenant id reason user now)
                  (reopen_body-Effect tenant id reason user now))
              s)
      ]

  pub handle-HasEffect :
      (scope : TenantContext) (now : DateTime) (command : Command) (s : Session Db DomainError)
      → HasEffect scope s.store (handle authorize scope now command s).1.store
  unfolding handle select_active_period close_fiscal_period reopen_fiscal_period require_tenant_id
  handle-HasEffect (available tenant) now command s = handle_available tenant now command s
  handle-HasEffect system now (select raw) s = refl
  handle-HasEffect system now (close raw user) s = refl
  handle-HasEffect system now (reopen raw reason user) s = refl
  handle-HasEffect missing now (select raw) s = refl
  handle-HasEffect missing now (close raw user) s = refl
  handle-HasEffect missing now (reopen raw reason user) s = refl

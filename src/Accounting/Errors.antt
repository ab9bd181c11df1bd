-- ===== src/Accounting/Errors.antt =====
-- The errors of the accounting module (domain/errors) and those of the kernel that its code throws or
-- returns. Messages and details are not modelled.
use main_acounting_system.Prelude.Outcome.{Outcome, err, ok}
use main_acounting_system.Primitives.Text.{InvalidPrimitiveError}

pub data DomainError : Type 0 where
  -- domain/errors/fiscal-year.errors.ts
  fiscal_year_overlap fiscal_year_label_duplicate fiscal_year_invalid_range : DomainError
  fiscal_year_already_closed : DomainError
  -- domain/errors/fiscal-period.errors.ts
  period_not_found period_not_open period_duplicate period_year_not_found : DomainError
  period_structure period_state_invalid reopen_reason_required : DomainError
  period_closed period_not_defined : DomainError
  -- domain/errors/account.errors.ts
  account_invalid_parent account_type_mismatch account_normal_balance_mismatch : DomainError
  account_postable_with_children account_postable_not_leaf account_system_protected : DomainError
  -- shared: ValidationError, InvalidPrimitiveError, an authorization refusal
  validation malformed forbidden : DomainError
  -- shared/tenant/tenant.errors.ts
  tenant_context_missing tenant_isolation_violation : DomainError
  -- PersistenceError(CONFLICT) caused by a stale revision, and the outbox without a transaction
  stale_revision outbox_transaction_required : DomainError

-- A primitive's error as an error of the module.
abbrev pub lift : {A : Type 0} → Outcome InvalidPrimitiveError A → Outcome DomainError A
lift (ok a) = ok a
lift (err e) = err malformed

-- ===== src/Tenancy.antt =====
-- The tenant scope: shared/tenant/tenant-scope.ts and infrastructure/database/tenant-scoped.ts. The
-- ambient scope of a call is an argument.
use main_acounting_system.Prelude.{not, ◌==◌}
use main_acounting_system.Accounting.Errors.{
  DomainError, tenant_context_missing, tenant_isolation_violation,
}
use main_acounting_system.Prelude.Outcome.{Outcome, err, ok, throw_if, ◌>>=◌}
use main_acounting_system.Primitives.EntityId.{EntityId}

-- `TenantContext`; an identity is canonical, so `isSameTenant` is equality.
pub data TenantContext : Type 0 where
  available : EntityId → TenantContext
  system missing : TenantContext

-- `TenantScope.requireTenantId`.
unfoldable pub require_tenant_id : TenantContext → Outcome DomainError EntityId
require_tenant_id (available t) = ok t
require_tenant_id system = err tenant_context_missing
require_tenant_id missing = err tenant_context_missing

-- `assertTenantOwnership`: a write belongs to the tenant of the scope.
unfoldable pub assert_tenant_ownership : TenantContext → EntityId → Outcome DomainError (Unit {0})
unfolding require_tenant_id
assert_tenant_ownership scope owner = require_tenant_id scope >>= λ active.
    throw_if (not (active == owner)) tenant_isolation_violation

-- `assertTenantCriterion`: a read may name another tenant only in the system scope.
unfoldable pub assert_tenant_criterion : TenantContext → EntityId → Outcome DomainError (Unit {0})
assert_tenant_criterion (available t) criterion =
    throw_if (not (t == criterion)) tenant_isolation_violation
assert_tenant_criterion system criterion = ok tt
assert_tenant_criterion missing criterion = err tenant_context_missing

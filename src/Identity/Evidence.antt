-- ===== src/Identity/Evidence.antt =====
-- modules/identity/application/use-cases/authorize-action.use-case.ts: resolving the evidence, with the
-- adapter infrastructure/authorization.
use main_acounting_system.Prelude.{
  List, Option, [], filter, if◌then◌else◌, if◌then◌else◌, if◌then◌else◌, none, some, true, ◌∷◌,
}
use main_acounting_system.Identity.{IdentityError}
use main_acounting_system.Identity.Membership.{Membership, is_active_membership}
use main_acounting_system.Identity.PermissionKey.{KeySet, add_keys}
use main_acounting_system.Identity.Permissions.{resolve_effective_permission_keys}
use main_acounting_system.Identity.Policy.{Evidence}
use main_acounting_system.Identity.Store.{Db, Loaded, find_by_user_and_tenant, find_by_user_id}
use main_acounting_system.Prelude.Outcome.{Outcome, ok, ◌>>=◌}
use main_acounting_system.Primitives.EntityId.{EntityId}
use main_acounting_system.Tenancy.{TenantContext, available, missing, system}

abbrev pub active_only : Option (Loaded Membership) → Option Membership
active_only none = none
active_only (some row) =
    if is_active_membership row.aggregate.status then some row.aggregate else none

-- `findActiveForUserAndTenant`.
unfoldable pub find_active_for_user_and_tenant :
    TenantContext → EntityId → EntityId → Db → Outcome IdentityError (Option Membership)
unfolding find_by_user_and_tenant
find_active_for_user_and_tenant scope user tenant db =
    find_by_user_and_tenant scope user tenant db >>= λ found. ok (active_only found)

-- The scope in which `inSystemScope` runs its work.
abbrev pub in_system_scope : TenantContext → TenantContext
in_system_scope (available t) = available t
in_system_scope system = system
in_system_scope missing = system

unfoldable pub tenant_evidence : EntityId → Option Membership → Db → Outcome IdentityError Evidence
unfolding resolve_effective_permission_keys
tenant_evidence target none db =
    ok (record { target_tenant_id = some target; membership = none; permissions = [] })
tenant_evidence target (some m) db =
    resolve_effective_permission_keys (available m.tenant_id) db (m.id ∷ []) >>= λ keys.
    ok (record {
      target_tenant_id = some target;
      membership = some (record { membership_id = m.id; tenant_id = m.tenant_id; active = true });
      permissions = keys;
    })

module _ (scope : TenantContext) (db : Db) where
  -- `resolveTenantEvidence` on a target that `isTenantReference` admits.
  unfoldable pub resolve_tenant_evidence : EntityId → EntityId → Outcome IdentityError Evidence
  unfolding find_active_for_user_and_tenant tenant_evidence
  resolve_tenant_evidence user target =
      find_active_for_user_and_tenant scope user target db >>= λ m. tenant_evidence target m db

  -- The union over the memberships, each read in its own tenant's scope.
  unfoldable pub union_of : List (Loaded Membership) → KeySet → Outcome IdentityError KeySet
  unfolding resolve_effective_permission_keys add_keys
  union_of [] keys = ok keys
  union_of (row ∷ rows) keys =
      resolve_effective_permission_keys (available row.aggregate.tenant_id) db
        (row.aggregate.id ∷ [])
      >>= λ granted. union_of rows (add_keys granted keys)

  -- `resolvePlatformEvidence`.
  unfoldable pub resolve_platform_evidence : EntityId → Outcome IdentityError Evidence
  unfolding find_by_user_id union_of
  resolve_platform_evidence user = find_by_user_id scope user db >>= λ loaded.
      union_of
        (filter (λ (row : Loaded Membership). is_active_membership row.aggregate.status) loaded) []
      >>= λ keys. ok (record { target_tenant_id = none; membership = none; permissions = keys })

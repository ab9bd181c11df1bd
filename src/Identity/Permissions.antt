-- ===== src/Identity/Permissions.antt =====
-- modules/identity/application/services/effective-permissions.ts: the union of the keys of the active roles
-- that a membership's active assignments name, each role read once.
pub mod Cache
use main_acounting_system.Prelude.{
  List, Option, [], if◌then◌else◌, if◌then◌else◌, if◌then◌else◌, none, not, some, ◌==◌, ◌∷◌,
}
use main_acounting_system.Identity.{IdentityError}
use main_acounting_system.Identity.Membership.{MembershipRole, is_active_assignment}
use main_acounting_system.Identity.PermissionKey.{KeySet, add_keys, sort_keys}
use main_acounting_system.Identity.Role.{Role, is_active_status, permissions_of}
use main_acounting_system.Identity.Store.{Db, Loaded, find_by_membership_id, get_role}
use main_acounting_system.Prelude.Outcome.{Outcome, ok, ◌>>=◌}
use main_acounting_system.Primitives.EntityId.{EntityId}
use main_acounting_system.Primitives.Text.{Text}
use main_acounting_system.Tenancy.{TenantContext}

-- The loop's variables: `granted` and `resolvedRoles`.
pub record Resolution : Type 0 where
  pub granted : KeySet
  pub resolved_roles : List (EntityId × Option (List Text))

unfoldable pub cached :
    EntityId → List (EntityId × Option (List Text)) → Option (Option (List Text))
cached role [] = none
cached role ((id, keys) ∷ rest) = if id == role then some keys else cached role rest

-- The keys of a role that is there and active.
unfoldable pub role_keys : Option (Loaded Role) → Option (List Text)
unfolding sort_keys
role_keys none = none
role_keys (some row) =
    if is_active_status row.aggregate.status then some (permissions_of row.aggregate) else none

abbrev pub keys_or_none : Option (List Text) → List Text
keys_or_none none = []
keys_or_none (some keys) = keys

module _ (scope : TenantContext) (db : Db) where
  unfoldable pub grant_role :
      Resolution → EntityId → Option (Option (List Text)) → Outcome IdentityError Resolution
  unfolding add_keys get_role role_keys
  grant_role r role (some keys) = ok (record r { granted = add_keys (keys_or_none keys) r.granted })
  grant_role r role none = get_role scope role db >>= λ found.
      let keys = role_keys found in
      ok (record {
        granted = add_keys (keys_or_none keys) r.granted;
        resolved_roles = (role, keys) ∷ r.resolved_roles;
      })

  unfoldable pub resolve_assignments :
      List (Loaded MembershipRole) → Resolution → Outcome IdentityError Resolution
  unfolding cached grant_role
  resolve_assignments [] r = ok r
  resolve_assignments (row ∷ rows) r =
      if not (is_active_assignment row.aggregate.status)
      then resolve_assignments rows r
      else (grant_role r row.aggregate.role_id (cached row.aggregate.role_id r.resolved_roles)
          >>= resolve_assignments rows)

  unfoldable pub resolve_memberships : List EntityId → Resolution → Outcome IdentityError Resolution
  unfolding find_by_membership_id resolve_assignments
  resolve_memberships [] r = ok r
  resolve_memberships (membership ∷ rest) r =
      find_by_membership_id scope membership db >>= λ loaded.
      resolve_assignments loaded r >>= resolve_memberships rest

  -- `resolveEffectivePermissionKeys`.
  unfoldable pub resolve_effective_permission_keys : List EntityId → Outcome IdentityError KeySet
  unfolding resolve_memberships
  resolve_effective_permission_keys memberships =
      resolve_memberships memberships (record { granted = []; resolved_roles = [] }) >>= λ r.
      ok r.granted

-- ===== src/Identity/Role.antt =====
-- modules/identity/domain/aggregates/role.ts. The name is the text that `RoleName` holds.
use main_acounting_system.Prelude.{Bool, List, [], false, not, true}
use main_acounting_system.Identity.{
  IdentityError, duplicate_role_permission, inactive_role, invalid_role_status_transition,
  role_permission_not_found,
}
use main_acounting_system.Identity.PermissionKey.{
  KeySet, add_key, add_keys, delete_key, has_key, sort_keys,
}
use main_acounting_system.Prelude.Outcome.{Outcome, ok, throw_if, ◌>>◌}
use main_acounting_system.Primitives.EntityId.{EntityId}
use main_acounting_system.Primitives.Text.{Text}
use main_acounting_system.Time.{DateTime}

pub data RoleStatus : Type 0 where
  role_active role_inactive : RoleStatus

abbrev pub is_active_status : RoleStatus → Bool
is_active_status role_active = true
is_active_status role_inactive = false

abbrev pub is_inactive_status : RoleStatus → Bool
is_inactive_status role_active = false
is_inactive_status role_inactive = true

pub record Role : Type 0 where
  pub id : EntityId
  pub tenant_id : EntityId
  pub name : Text
  pub status : RoleStatus
  pub permissions : KeySet
  pub created_at : DateTime
  pub updated_at : DateTime

-- `Role.create`; the identity is given or generated before.
unfoldable pub create_role : EntityId → EntityId → Text → List Text → DateTime → Role
unfolding add_keys
create_role id tenant name keys now = record {
  id = id;
  tenant_id = tenant;
  name = name;
  status = role_active;
  permissions = add_keys keys [];
  created_at = now;
  updated_at = now;
}

-- `Role.permissions`: sorted.
abbrev pub permissions_of : Role → List Text
permissions_of role = sort_keys role.permissions

-- `assertActive`.
abbrev pub assert_active_role : Role → Outcome IdentityError (Unit {0})
assert_active_role role = throw_if (not (is_active_status role.status)) inactive_role

unfoldable pub rename_role : Text → DateTime → Role → Outcome IdentityError Role
rename_role name now role =
    assert_active_role role >> ok (record role { name = name; updated_at = now })

unfoldable pub grant_permission : Text → DateTime → Role → Outcome IdentityError Role
unfolding has_key add_key
grant_permission key now role =
    assert_active_role role
    >> throw_if (has_key role.permissions key) duplicate_role_permission
    >> ok (record role { permissions = add_key key role.permissions; updated_at = now })

unfoldable pub revoke_permission : Text → DateTime → Role → Outcome IdentityError Role
unfolding has_key delete_key
revoke_permission key now role =
    assert_active_role role
    >> throw_if (not (has_key role.permissions key)) role_permission_not_found
    >> ok (record role { permissions = delete_key key role.permissions; updated_at = now })

unfoldable pub deactivate_role : DateTime → Role → Outcome IdentityError Role
deactivate_role now role =
    throw_if (not (is_active_status role.status)) invalid_role_status_transition
    >> ok (record role { status = role_inactive; updated_at = now })

unfoldable pub activate_role : DateTime → Role → Outcome IdentityError Role
activate_role now role =
    throw_if (not (is_inactive_status role.status)) invalid_role_status_transition
    >> ok (record role { status = role_active; updated_at = now })

-- ===== src/Identity/Policy.antt =====
-- modules/identity/domain/authorization: the decision on evidence that was resolved before. An identity is
-- never blank text, so the target is missing only where it is absent.
use main_acounting_system.Prelude.{
  Bool, Option, if◌then◌else◌, if◌then◌else◌, if◌then◌else◌, none, not, some, ◌==◌,
}
use main_acounting_system.Identity.{
  IdentityError, authorization_context_invalid, authorization_denied, tenant_access_denied,
  tenant_context_required,
}
use main_acounting_system.Identity.PermissionKey.{KeySet, has_key}
use main_acounting_system.Primitives.EntityId.{EntityId}
use main_acounting_system.Primitives.Text.{Text}

pub data DenialReason : Type 0 where
  context_missing membership_missing membership_inactive : DenialReason
  permission_missing context_inconsistent : DenialReason

pub data Decision : Type 0 where
  allowed : Decision
  denied : DenialReason → Decision

pub record MembershipEvidence : Type 0 where
  pub membership_id : EntityId
  pub tenant_id : EntityId
  pub active : Bool

pub record Evidence : Type 0 where
  pub target_tenant_id : Option EntityId
  pub membership : Option MembershipEvidence
  pub permissions : KeySet

pub record Requirement : Type 0 where
  pub permission : Text
  pub tenant_scoped : Bool

unfoldable pub decide_permission : Text → KeySet → Decision
unfolding has_key
decide_permission key keys = if not (has_key keys key) then denied permission_missing else allowed

-- The checks of a tenant-scoped requirement, and then the permission.
unfoldable pub decide_membership :
    Text → KeySet → Option EntityId → Option MembershipEvidence → Decision
unfolding decide_permission
decide_membership key keys none m = denied context_missing
decide_membership key keys (some target) none = denied membership_missing
decide_membership key keys (some target) (some m) =
    if not (m.tenant_id == target)
    then denied context_inconsistent
    else (if not m.active then denied membership_inactive else decide_permission key keys)

-- `decideAuthorization`.
unfoldable pub decide_authorization : Requirement → Evidence → Decision
unfolding decide_membership decide_permission
decide_authorization requirement evidence =
    if requirement.tenant_scoped
    then decide_membership requirement.permission evidence.permissions evidence.target_tenant_id
        evidence.membership
    else decide_permission requirement.permission evidence.permissions

-- `authorizationErrorFor`.
abbrev pub authorization_error_for : DenialReason → IdentityError
authorization_error_for context_missing = tenant_context_required
authorization_error_for membership_missing = tenant_access_denied
authorization_error_for membership_inactive = tenant_access_denied
authorization_error_for context_inconsistent = authorization_context_invalid
authorization_error_for permission_missing = authorization_denied

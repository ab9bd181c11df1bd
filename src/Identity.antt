-- ===== src/Identity.antt =====
-- modules/identity: the errors of its domain, domain/errors, and the kernel's that its code throws or returns.
-- Messages and details are not modelled.
pub mod PermissionKey
pub mod Role
pub mod Membership
pub mod User
pub mod Policy
pub mod Session
pub mod Store
pub mod Permissions
pub mod Evidence
pub mod Authorize
pub mod Input
pub mod SignIn
pub mod Authenticate
mod Tests

pub data IdentityError : Type 0 where
  -- domain/errors/role.errors.ts and membership-role.errors.ts
  inactive_role duplicate_role_permission role_permission_not_found : IdentityError
  invalid_role_status_transition invalid_role_assignment_transition : IdentityError
  -- domain/errors/membership.errors.ts and user.errors.ts
  invalid_membership_status_transition inactive_user invalid_user_status_transition : IdentityError
  -- domain/errors/authorization.errors.ts
  authorization_denied tenant_context_required tenant_access_denied : IdentityError
  authorization_context_invalid : IdentityError
  -- domain/errors/authentication.errors.ts
  invalid_credentials account_not_authenticatable user_locked_out : IdentityError
  authentication_required authentication_state_rejected : IdentityError
  session_expired session_revoked session_already_revoked : IdentityError
  -- application/services: ValidationError and PasswordPolicyViolationError
  validation password_policy_violation : IdentityError
  -- of shared/tenant, and a stale revision
  tenant_isolation tenant_scope_missing stale_write malformed_value : IdentityError

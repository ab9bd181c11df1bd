-- ===== src/Identity/Authorize.antt =====
-- modules/identity/application/use-cases/authorize-action.use-case.ts: the decision and
-- the audit of denials. The ambient tenant scope is an argument.
pub mod Meaning
pub mod Tenant
pub mod Audited
use main_acounting_system.Prelude.{
  Bool, List, Option, [], false, if◌then◌else◌, if◌then◌else◌, if◌then◌else◌, none, not, some, true,
  ◌++◌, ◌∷◌,
}
use main_acounting_system.Identity.{
  IdentityError, account_not_authenticatable, authorization_context_invalid, authorization_denied,
  tenant_access_denied, tenant_context_required,
}
use main_acounting_system.Identity.Evidence.{
  in_system_scope, resolve_platform_evidence, resolve_tenant_evidence,
}
use main_acounting_system.Identity.PermissionKey.{KeySet, has_key, permission_catalog, sort_keys}
use main_acounting_system.Identity.Policy.{
  Decision, Evidence, MembershipEvidence, allowed, authorization_error_for, decide_authorization,
  denied,
}
use main_acounting_system.Identity.Store.{Db, Loaded, denial, get_user, has_system_admin}
use main_acounting_system.Identity.User.{User, is_active_user}
use main_acounting_system.Prelude.Outcome.{Outcome, err, is_ok, ok}
use main_acounting_system.Primitives.EntityId.{EntityId, entity_id_from}
use main_acounting_system.Primitives.Text.{InvalidPrimitiveError, Text}
use main_acounting_system.Tenancy.{TenantContext}
use main_acounting_system.Transaction.{Work, decline, or_throw, pure, read, write, ◌>>=◌, ◌>>◌}

-- `AuthorizationRequest`; a correlation id is left out.
pub record AuthorizationRequest : Type 0 where
  pub user_id : Text
  pub required_permission : Text
  pub target_tenant_id : Option Text
  pub tenant_claim_conflict : Bool

-- The tenant of a context: a membership's, or the text that a system administrator gave.
pub data ContextTenant : Type 0 where
  membership_tenant : EntityId → ContextTenant
  given_tenant : Text → ContextTenant

-- `AuthorizationContextView`.
pub record AuthorizationContextView : Type 0 where
  pub user_id : EntityId
  pub tenant_id : Option ContextTenant
  pub membership_id : Option EntityId
  pub membership_active : Option Bool
  pub system_admin : Bool
  pub permissions : List Text

abbrev pub Action : Type 0 → Type 0
Action A = Work Db IdentityError A

-- `toContext`.
abbrev pub to_context : EntityId → KeySet → Option MembershipEvidence → AuthorizationContextView
to_context user keys none = record {
  user_id = user;
  tenant_id = none;
  membership_id = none;
  membership_active = none;
  system_admin = false;
  permissions = sort_keys keys;
}
to_context user keys (some m) = record {
  user_id = user;
  tenant_id = some (membership_tenant m.tenant_id);
  membership_id = some m.membership_id;
  membership_active = some m.active;
  system_admin = false;
  permissions = sort_keys keys;
}

abbrev pub is_tenant_scoped : AuthorizationRequest → Bool
is_tenant_scoped request = elim (request.target_tenant_id) [ none ↦ false | some t ↦ true ]

module _ (scope : TenantContext) (request : AuthorizationRequest) (user : EntityId) where
  -- `deny`: the audit entry, and then the failed result.
  unfoldable pub deny : IdentityError → Action AuthorizationContextView
  deny error =
      write (λ db. record db {
        audit =
            db.audit
            ++ denial (in_system_scope scope) user request.required_permission error
                (is_tenant_scoped request) request.tenant_claim_conflict
              ∷ [];
      })
      >> decline error

  abbrev pub admin_view : Option Text → AuthorizationContextView
  admin_view target = record {
    user_id = user;
    tenant_id = elim target [ none ↦ none | some t ↦ some (given_tenant t) ];
    membership_id = none;
    membership_active = none;
    system_admin = true;
    permissions = sort_keys permission_catalog;
  }

  abbrev pub is_malformed_target : Option Text → Bool
  unfolding entity_id_from
  is_malformed_target none = false
  is_malformed_target (some t) = not (is_ok (entity_id_from t))

  unfoldable pub authorize_admin : Action AuthorizationContextView
  unfolding deny entity_id_from has_key
  authorize_admin =
      if is_malformed_target request.target_tenant_id
      then deny tenant_context_required
      else (if not (has_key permission_catalog request.required_permission)
          then deny authorization_denied
          else pure (admin_view request.target_tenant_id))

  abbrev pub settle_decision :
      Option MembershipEvidence → KeySet → Decision → Action AuthorizationContextView
  unfolding deny
  settle_decision m keys allowed = pure (to_context user keys m)
  settle_decision m keys (denied reason) = deny (authorization_error_for reason)

  unfoldable pub decide : Evidence → Action AuthorizationContextView
  unfolding decide_authorization deny
  decide evidence =
      settle_decision (if is_tenant_scoped request then evidence.membership else none)
        evidence.permissions
        (decide_authorization
          (record {
            permission = request.required_permission;
            tenant_scoped = is_tenant_scoped request;
          })
          evidence)

  abbrev pub authorize_target :
      Outcome InvalidPrimitiveError EntityId → Action AuthorizationContextView
  unfolding deny decide resolve_tenant_evidence
  authorize_target (err e) = deny tenant_context_required
  authorize_target (ok target) =
      read (λ db. resolve_tenant_evidence (in_system_scope scope) db user target)
      >>= or_throw
      >>= decide

  abbrev pub authorize_member : Option Text → Action AuthorizationContextView
  unfolding deny decide resolve_tenant_evidence resolve_platform_evidence entity_id_from
  authorize_member none =
      read (λ db. resolve_platform_evidence (in_system_scope scope) db user) >>= or_throw >>= decide
  authorize_member (some claim) = authorize_target (entity_id_from claim)

  unfoldable pub authorize_subject : Action AuthorizationContextView
  unfolding deny authorize_admin has_system_admin decide resolve_tenant_evidence
      resolve_platform_evidence entity_id_from
  authorize_subject = read (has_system_admin user) >>= λ admin.
      if request.tenant_claim_conflict
      then deny tenant_access_denied
      else (if admin then authorize_admin else authorize_member request.target_tenant_id)

abbrev pub is_authenticatable : Option (Loaded User) → Bool
is_authenticatable none = false
is_authenticatable (some row) = is_active_user row.aggregate.status

module _ (scope : TenantContext) (request : AuthorizationRequest) where
  abbrev pub authorize_identity :
      Outcome InvalidPrimitiveError EntityId → Action AuthorizationContextView
  unfolding get_user authorize_subject
  authorize_identity (err e) = decline authorization_context_invalid
  authorize_identity (ok user) = read (get_user user) >>= λ found.
      if not (is_authenticatable found)
      then decline account_not_authenticatable
      else authorize_subject scope request user

  -- `authorize`.
  unfoldable pub authorize : Action AuthorizationContextView
  unfolding entity_id_from get_user authorize_subject
  authorize = authorize_identity (entity_id_from request.user_id)

-- `permits`.
abbrev pub permits : AuthorizationContextView → Text → Bool
permits context key = has_key context.permissions key

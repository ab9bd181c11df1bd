-- ===== src/Identity/Store.antt =====
-- modules/identity/infrastructure/persistence: the module's tables and the statements on them. A row holds
-- its aggregate, what `rehydrate` gives back, and its revision.
use main_acounting_system.Prelude.{Bool, List, Option, any, filter, find, ℕ, ◌&&◌, ◌==◌}
use main_acounting_system.Accounting.Errors.{DomainError, tenant_isolation_violation}
use main_acounting_system.Identity.{IdentityError, tenant_isolation, tenant_scope_missing}
use main_acounting_system.Identity.Membership.{Membership, MembershipRole}
use main_acounting_system.Identity.Role.{Role}
use main_acounting_system.Identity.Session.{AuthSession}
use main_acounting_system.Identity.User.{User}
use main_acounting_system.Prelude.Outcome.{Outcome, err, ok, ◌>>=◌, ◌>>◌}
use main_acounting_system.Primitives.EntityId.{EntityId}
use main_acounting_system.Primitives.Text.{Text, text_eq}
use main_acounting_system.Tenancy.{
  TenantContext, assert_tenant_criterion, available, missing, require_tenant_id, system,
}
use main_acounting_system.Time.{DateTime}

-- `Loaded<T>`.
pub record Loaded (A : Type 0) : Type 0 where
  pub aggregate : A
  pub revision : ℕ

pub record Credential : Type 0 where
  pub user_id : EntityId
  pub password_hash : Text

-- What the audit recorders are given.
pub data AuditFact : Type 0 where
  denial :
      (scope : TenantContext) (actor : EntityId) (permission : Text) (reason : IdentityError)
      (tenant_scoped conflict : Bool)
      → AuditFact
  sign_in_failed : (email : Text) (reason : IdentityError) (user : Option EntityId) → AuditFact
  user_account_locked locked_out_account_targeted : (user : EntityId) → AuditFact
  user_authenticated : (user session : EntityId) (expires_at : DateTime) → AuditFact
  authentication_ended : (user session : EntityId) → AuditFact
  authentication_rejected : (reason : IdentityError) (session : Option EntityId) → AuditFact

pub record Db : Type 0 where
  pub users : List (Loaded User)
  pub credentials : List Credential
  pub sessions : List (Loaded AuthSession)
  pub memberships : List (Loaded Membership)
  pub assignments : List (Loaded MembershipRole)
  pub roles : List (Loaded Role)
  -- platform_authorizations of the role system-admin
  pub system_admins : List EntityId
  pub audit : List AuditFact

-- The errors of shared/tenant as errors of this module.
abbrev pub lift_scope : {A : Type 0} → Outcome DomainError A → Outcome IdentityError A
lift_scope (ok a) = ok a
lift_scope (err tenant_isolation_violation) = err tenant_isolation
lift_scope (err _) = err tenant_scope_missing

-- `requireSystemScope`.
unfoldable pub require_system_scope : TenantContext → Outcome IdentityError (Unit {0})
require_system_scope (available t) = err tenant_isolation
require_system_scope system = ok tt
require_system_scope missing = err tenant_isolation

-- The conditions of the statements.
abbrev pub user_is : EntityId → Loaded User → Bool
user_is id row = row.aggregate.id == id

abbrev pub has_email : Text → Loaded User → Bool
has_email email row = text_eq row.aggregate.email email

abbrev pub joins : EntityId → EntityId → Loaded Membership → Bool
joins user tenant row = row.aggregate.user_id == user && row.aggregate.tenant_id == tenant

abbrev pub belongs_to : EntityId → EntityId → Loaded MembershipRole → Bool
belongs_to membership tenant row =
    row.aggregate.membership_id == membership && row.aggregate.tenant_id == tenant

abbrev pub role_is : EntityId → EntityId → Loaded Role → Bool
role_is id tenant row = row.aggregate.id == id && row.aggregate.tenant_id == tenant

-- `DrizzleUserRepository.get`, and `findByEmail` on the lower-cased email.
unfoldable pub get_user : EntityId → Db → Option (Loaded User)
get_user id db = find (user_is id) db.users

unfoldable pub find_by_email : Text → Db → Option (Loaded User)
unfolding text_eq
find_by_email email db = find (has_email email) db.users

-- `hasSystemAdmin`.
unfoldable pub has_system_admin : EntityId → Db → Bool
has_system_admin user db = any (λ id. id == user) db.system_admins

module _ (scope : TenantContext) where
  -- `DrizzleMembershipRepository.findByUserAndTenant`.
  unfoldable pub find_by_user_and_tenant :
      EntityId → EntityId → Db → Outcome IdentityError (Option (Loaded Membership))
  unfolding assert_tenant_criterion
  find_by_user_and_tenant user tenant db =
      lift_scope (assert_tenant_criterion scope tenant)
      >> ok (find (joins user tenant) db.memberships)

  -- `findByUserId`, over all tenants.
  unfoldable pub find_by_user_id : EntityId → Db → Outcome IdentityError (List (Loaded Membership))
  unfolding require_system_scope
  find_by_user_id user db =
      require_system_scope scope
      >> ok (filter (λ (row : Loaded Membership). row.aggregate.user_id == user) db.memberships)

  -- `DrizzleMembershipRoleRepository.findByMembershipId`.
  unfoldable pub find_by_membership_id :
      EntityId → Db → Outcome IdentityError (List (Loaded MembershipRole))
  unfolding require_tenant_id
  find_by_membership_id membership db = lift_scope (require_tenant_id scope) >>= λ tenant.
      ok (filter (belongs_to membership tenant) db.assignments)

  -- `DrizzleRoleRepository.get`.
  unfoldable pub get_role : EntityId → Db → Outcome IdentityError (Option (Loaded Role))
  unfolding require_tenant_id
  get_role id db =
      lift_scope (require_tenant_id scope) >>= λ tenant. ok (find (role_is id tenant) db.roles)

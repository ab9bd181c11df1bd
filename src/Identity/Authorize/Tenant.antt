-- ===== src/Identity/Authorize/Tenant.antt =====
-- What authorize-action answers for an operation of one tenant.
use main_acounting_system.Prelude.{
  ==_iff, AtMostOne, Bool, Bool-cases, Option, arith, both_true, false, find, find_complete,
  find_holds, find_sound, inl, inr, none, refl, some, subst, sym, true, ◌==◌, ◌↔◌, ◌∙◌, ◌≡◌,
}
use main_acounting_system.Identity.{IdentityError}
use main_acounting_system.Identity.Authorize.{
  AuthorizationRequest, authorize, authorize_subject, decide, deny, is_authenticatable,
  is_tenant_scoped, settle_decision,
}
use main_acounting_system.Identity.Authorize.Meaning.{
  HasUniqueKeys, IsActiveUser, MembershipOffers, UserHolds, gives_complete, gives_sound,
}
use main_acounting_system.Identity.Evidence.{
  active_only, find_active_for_user_and_tenant, in_system_scope, resolve_tenant_evidence,
  tenant_evidence,
}
use main_acounting_system.Identity.Membership.{Membership, is_active_membership}
use main_acounting_system.Identity.PermissionKey.{KeySet, has_key}
use main_acounting_system.Identity.Permissions.Cache.{resolve_effective_permission_keys_lem}
use main_acounting_system.Identity.Policy.{
  Decision, Evidence, MembershipEvidence, allowed, decide_authorization, decide_membership,
  decide_permission, denied,
}
use main_acounting_system.Identity.Store.{
  Db, Loaded, find_by_user_and_tenant, get_user, has_system_admin, joins, user_is,
}
use main_acounting_system.Identity.User.{User, is_active_user}
use main_acounting_system.Prelude.Outcome.{ok}
use main_acounting_system.Primitives.EntityId.{EntityId, entity_id_from}
use main_acounting_system.Primitives.Text.{Text}
use main_acounting_system.Tenancy.{TenantContext, assert_tenant_criterion}
use main_acounting_system.Transaction.{Session}
use main_acounting_system.Transaction.Atomicity.{is_resolved}

abbrev pub is_allowed : Decision → Bool
is_allowed allowed = true
is_allowed (denied reason) = false

active_cases :
    (found : Option (Loaded User))
    → is_authenticatable found ≡ true
    → (row : Loaded User) × (found ≡ some row) × (is_active_user row.aggregate.status ≡ true)
active_cases none h = absurd (ground (arith, h))
active_cases (some row) h = (row, refl, h)

get_user-active :
    (db : Db) (user : EntityId)
    → AtMostOne (user_is user) db.users
    → (is_authenticatable (get_user user db) ≡ true) ↔ IsActiveUser user db
unfolding get_user
get_user-active db user one = (
  λ h.
      let (row, e, active) = active_cases (find (user_is user) db.users) h in
      find_sound (user_is user) _ db.users e active,
  λ h. let (row, e, active) = find_complete (user_is user) _ db.users one h in rw e active,
)

-- The decision on a membership of the target tenant is that on the permission.
decide-member :
    (key : Text) (tenant id owner : EntityId) (keys : KeySet)
    → (owner == tenant) ≡ true
    → is_allowed (
        decide_membership key keys
          (some tenant)
          (some (record { membership_id = id; tenant_id = owner; active = true })))
      ≡ has_key keys key
unfolding decide_membership decide_permission
decide-member key tenant id owner keys h = ground arith

module _ (db : Db) (user tenant : EntityId) (key : Text) where
  -- The evidence of an answer of the membership port allows the key exactly when the type holds.
  unfoldable pub Decides : Option Membership → Type 0 → Type 0
  Decides m Holds =
      (e : Evidence) × (tenant_evidence tenant m db ≡ ok e)
      × ((is_allowed (decide_authorization (record { permission = key; tenant_scoped = true }) e)
            ≡ true)
          ↔ Holds)

  tenant_evidence-member :
      (m : Membership)
      → HasUniqueKeys db
      → (m.tenant_id == tenant) ≡ true
      → Decides (some m) (MembershipOffers db tenant key m.id)
  unfolding Decides tenant_evidence decide_authorization
  tenant_evidence-member m unique same =
      let (keys, found, grants) = resolve_effective_permission_keys_lem db m.tenant_id m.id in
      let is_tenant = (==_iff m.tenant_id tenant).0 same in
      rw found (
        _,
        refl,
        (
          λ h.
              subst (λ t. MembershipOffers db t key m.id) is_tenant
                (gives_sound db m.tenant_id m.id key db.assignments (
                  sym (grants key)
                  ∙ sym (decide-member key tenant m.id m.tenant_id keys same)
                  ∙ h)),
          λ h.
              decide-member key tenant m.id m.tenant_id keys same
              ∙ grants key
              ∙ gives_complete db m.tenant_id m.id key db.assignments
                  (λ role. unique.2 role m.tenant_id)
                  (subst (λ t. MembershipOffers db t key m.id) (sym is_tenant) h),
        ),
      )

  tenant_evidence-none :
      (UserHolds db tenant key user → ⊥) → Decides none (UserHolds db tenant key user)
  unfolding Decides tenant_evidence decide_authorization decide_membership
  tenant_evidence-none nobody = (_, refl, (λ h. absurd (ground (arith, h)), λ h. absurd (nobody h)))

  found-holds :
      (row : Loaded Membership)
      → find (joins user tenant) db.memberships ≡ some row
      → HasUniqueKeys db
      → UserHolds db tenant key user
      → (is_active_membership row.aggregate.status ≡ true)
        × MembershipOffers db tenant key row.aggregate.id
  found-holds row h unique holds =
      let (row', e, both) =
        find_complete (joins user tenant) _ db.memberships (unique.1 user tenant) holds in
      let same : row' ≡ row = ground (arith, e, h) in
      subst
        (λ (r : Loaded Membership).
          (is_active_membership r.aggregate.status ≡ true)
          × MembershipOffers db tenant key r.aggregate.id)
        same both

  -- The evidence of a membership that was found, and the decision on it.
  pub tenant_evidence-decides :
      (found : Option (Loaded Membership))
      → find (joins user tenant) db.memberships ≡ found
      → HasUniqueKeys db
      → Decides (active_only found) (UserHolds db tenant key user)
  unfolding Decides
  tenant_evidence-decides none h unique = tenant_evidence-none (λ holds.
      let (row, e, both) =
        find_complete (joins user tenant) _ db.memberships (unique.1 user tenant) holds in
      cc)
  tenant_evidence-decides (some row) h unique =
      elim (Bool-cases (is_active_membership row.aggregate.status)) [
        | inr off ↦ rw off (
            tenant_evidence-none
              (λ holds. absurd (ground (arith, off, (found-holds row h unique holds).0))))
        | inl on ↦
            let same = (both_true _ _ (find_holds (joins user tenant) db.memberships h)).1 in
            let (e, eq, iff) = tenant_evidence-member row.aggregate unique same in
            rw on (
              e,
              eq,
              (
                λ a. find_sound (joins user tenant) _ db.memberships h (on, iff.0 a),
                λ holds. iff.1 (found-holds row h unique holds).1,
              ),
            )
      ]

  -- The evidence in a scope that may ask about the tenant.
  pub resolve_tenant_evidence-decides :
      (scope : TenantContext)
      → assert_tenant_criterion scope tenant ≡ ok tt
      → HasUniqueKeys db
      → (e : Evidence) × (resolve_tenant_evidence scope db user tenant ≡ ok e)
        × ((is_allowed (decide_authorization (record { permission = key; tenant_scoped = true }) e)
              ≡ true)
            ↔ UserHolds db tenant key user)
  unfolding resolve_tenant_evidence find_active_for_user_and_tenant find_by_user_and_tenant Decides
  resolve_tenant_evidence-decides scope admits unique =
      rw admits (tenant_evidence-decides (find (joins user tenant) db.memberships) refl unique)

settle_decision-resolved :
    (scope : TenantContext) (request : AuthorizationRequest) (user : EntityId)
    (m : Option MembershipEvidence) (keys : KeySet) (d : Decision) (s : Session Db IdentityError)
    → is_resolved (settle_decision scope request user m keys d s).0 ≡ is_allowed d
unfolding settle_decision deny
settle_decision-resolved scope request user m keys allowed s = refl
settle_decision-resolved scope request user m keys (denied reason) s = refl

decide-resolved :
    (scope : TenantContext) (request : AuthorizationRequest) (user : EntityId) (e : Evidence)
    (s : Session Db IdentityError)
    → is_tenant_scoped request ≡ true
    → is_resolved (decide scope request user e s).0
      ≡ is_allowed (
          decide_authorization
            (record { permission = request.required_permission; tenant_scoped = true })
            e)
unfolding decide
decide-resolved scope request user e s h =
    rw (h, decide) (settle_decision-resolved scope request user e.membership e.permissions _ s)

-- A request for a tenant's operation of a user who is not a system administrator.
abbrev pub IsTenantRequest : AuthorizationRequest → EntityId → EntityId → Db → Type 0
IsTenantRequest request user tenant db =
    (entity_id_from request.user_id ≡ ok user)
    × ((claim : Text) × (request.target_tenant_id ≡ some claim)
        × (entity_id_from claim ≡ ok tenant))
    × (request.tenant_claim_conflict ≡ false)
    × (has_system_admin user db ≡ false)

authorize_subject-resolved :
    (scope : TenantContext) (request : AuthorizationRequest) (s : Session Db IdentityError)
    (user tenant : EntityId)
    → IsTenantRequest request user tenant s.store
    → assert_tenant_criterion (in_system_scope scope) tenant ≡ ok tt
    → HasUniqueKeys s.store
    → (is_resolved (authorize_subject scope request user s).0 ≡ true)
      ↔ UserHolds s.store tenant request.required_permission user
unfolding authorize_subject
authorize_subject-resolved scope request s user tenant
      (subject, (claim, target, is_tenant), clear, plain) admits unique =
    let (e, found, iff) =
      resolve_tenant_evidence-decides s.store user tenant request.required_permission
        (in_system_scope scope) admits unique in
    rw (plain, clear, target, is_tenant, found)
      (
        λ h. iff.0 (
            sym (
              decide-resolved scope
                (record request { target_tenant_id = some claim; tenant_claim_conflict = false })
                user e s refl)
            ∙ h),
        λ h.
            decide-resolved scope
              (record request { target_tenant_id = some claim; tenant_claim_conflict = false }) user
              e s refl
            ∙ iff.1 h,
      )

-- Under the unique keys of the tables, a user who is no system administrator is allowed a tenant's operation
-- exactly when the user is active, is an active member of that tenant, and an active assignment in that
-- tenant names an active role of it that has the permission. The scope of the call is that tenant, the system or none.
pub authorize_iff :
    (scope : TenantContext) (request : AuthorizationRequest) (s : Session Db IdentityError)
    (user tenant : EntityId)
    → IsTenantRequest request user tenant s.store
    → assert_tenant_criterion (in_system_scope scope) tenant ≡ ok tt
    → HasUniqueKeys s.store
    → (is_resolved (authorize scope request s).0 ≡ true)
      ↔ (IsActiveUser user s.store × UserHolds s.store tenant request.required_permission user)
unfolding authorize
authorize_iff scope request s user tenant is_request admits unique =
    elim (Bool-cases (is_authenticatable (get_user user s.store))) [
      | inl e ↦
          let both =
            authorize_subject-resolved scope request s user tenant is_request admits unique in
          rw (is_request.0, e)
            (λ h. ((get_user-active s.store user (unique.0 user)).0 e, both.0 h), λ h. both.1 h.1)
      | inr e ↦
          rw (is_request.0, e)
            (
              λ h. absurd (ground (arith, h)),
              λ h. absurd (ground (arith, e, (get_user-active s.store user (unique.0 user)).1 h.0)),
            )
    ]

-- ===== src/Identity/Authorize/Audited.antt =====
-- What authorize-action writes, and what the contexts that it gives permit.
use main_acounting_system.Prelude.{
  Bool, Bool-cases, Option, [], arith, false, if◌then◌else◌, if◌then◌else◌, if◌then◌else◌, inl, inr,
  none, not, refl, some, true, ◌++◌, ◌∙◌, ◌∷◌, ◌≡◌,
}
use main_acounting_system.Identity.{
  IdentityError, account_not_authenticatable, authorization_denied, tenant_access_denied,
  tenant_context_required,
}
use main_acounting_system.Identity.Authorize.{
  Action, AuthorizationContextView, AuthorizationRequest, authorize, authorize_admin,
  authorize_member, authorize_subject, authorize_target, decide, deny, is_authenticatable,
  is_malformed_target, is_tenant_scoped, permits, settle_decision, to_context,
}
use main_acounting_system.Identity.Evidence.{
  in_system_scope, resolve_platform_evidence, resolve_tenant_evidence,
}
use main_acounting_system.Identity.PermissionKey.{KeySet, has_key, permission_catalog}
use main_acounting_system.Identity.PermissionKey.Laws.{has_key-sort_keys}
use main_acounting_system.Identity.Policy.{
  Decision, Evidence, MembershipEvidence, Requirement, allowed, authorization_error_for,
  decide_authorization, decide_membership, decide_permission, denied,
}
use main_acounting_system.Identity.Store.{Db, denial, get_user, has_system_admin}
use main_acounting_system.Prelude.Outcome.{Outcome, err, ok}
use main_acounting_system.Primitives.EntityId.{EntityId, entity_id_from}
use main_acounting_system.Primitives.Text.{InvalidPrimitiveError, Text}
use main_acounting_system.Tenancy.{TenantContext}
use main_acounting_system.Transaction.{
  Session, Settled, declined, or_throw, rejected, resolved, ◌>>=◌,
}

-- The store after the audit entry of a denial.
abbrev pub with_denial :
    TenantContext
    → AuthorizationRequest
    → EntityId
    → IdentityError
    → Session Db IdentityError
    → Session Db IdentityError
with_denial scope request user e s = record s {
  store = record (s.store) {
    audit =
        s.store.audit
        ++ denial (in_system_scope scope) user request.required_permission e
            (is_tenant_scoped request) request.tenant_claim_conflict
          ∷ [];
  };
}

-- An answer leaves the store alone and permits what was asked, a refusal writes its entry and no more, and
-- a thrown error writes nothing.
abbrev pub IsAccounted :
    TenantContext
    → AuthorizationRequest
    → EntityId
    → Session Db IdentityError
    → Settled IdentityError AuthorizationContextView
    → Session Db IdentityError
    → Type 0
IsAccounted scope request user s (resolved view) s' =
    (s' ≡ s) × (permits view request.required_permission ≡ true)
IsAccounted scope request user s (declined e) s' = s' ≡ with_denial scope request user e s
IsAccounted scope request user s (rejected e) s' = s' ≡ s

unnegated : (b : Bool) → not b ≡ false → b ≡ true
unnegated b h = ground arith

of_permission :
    (key : Text) (keys : KeySet) → decide_permission key keys ≡ allowed → has_key keys key ≡ true
unfolding decide_permission
of_permission key keys h = ground arith

of_membership :
    (key : Text) (keys : KeySet) (target : Option EntityId) (m : Option MembershipEvidence)
    → decide_membership key keys target m ≡ allowed
    → has_key keys key ≡ true
unfolding decide_membership
of_membership key keys none m h = cc
of_membership key keys (some target) none h = cc
of_membership key keys (some target) (some m) h = of_permission key keys (ground (arith, h))

allowed-has_key :
    (requirement : Requirement) (evidence : Evidence)
    → decide_authorization requirement evidence ≡ allowed
    → has_key evidence.permissions requirement.permission ≡ true
unfolding decide_authorization
allowed-has_key requirement evidence h = elim (Bool-cases (requirement.tenant_scoped)) [
  | inl e ↦
      of_membership requirement.permission evidence.permissions evidence.target_tenant_id
        evidence.membership (ground (arith, h, e))
  | inr e ↦ of_permission requirement.permission evidence.permissions (ground (arith, h, e))
]

module _ (scope : TenantContext) (request : AuthorizationRequest) (user : EntityId) where
  abbrev Accounts : Session Db IdentityError → Action AuthorizationContextView → Type 0
  Accounts s work = let (r, s') = work s in IsAccounted scope request user s r s'

  deny-Accounts :
      (e : IdentityError) (s : Session Db IdentityError) → Accounts s (deny scope request user e)
  unfolding deny
  deny-Accounts e s = refl

  decision-permits :
      (evidence : Evidence) (m : Option MembershipEvidence)
      → decide_authorization
          (record {
            permission = request.required_permission;
            tenant_scoped = is_tenant_scoped request;
          })
          evidence
        ≡ allowed
      → permits (to_context user evidence.permissions m) request.required_permission ≡ true
  decision-permits evidence none h =
      has_key-sort_keys evidence.permissions request.required_permission
      ∙ allowed-has_key _ evidence h
  decision-permits evidence (some m) h =
      has_key-sort_keys evidence.permissions request.required_permission
      ∙ allowed-has_key _ evidence h

  -- Of two works, the one that a test chooses.
  if-Accounts :
      (b : Bool) (work other : Action AuthorizationContextView) (s : Session Db IdentityError)
      → (b ≡ true → Accounts s work)
      → (b ≡ false → Accounts s other)
      → Accounts s (if b then work else other)
  if-Accounts true work other s h k = h refl
  if-Accounts false work other s h k = k refl

  settle_decision-Accounts :
      (m : Option MembershipEvidence) (keys : KeySet) (d : Decision) (s : Session Db IdentityError)
      → (d ≡ allowed → permits (to_context user keys m) request.required_permission ≡ true)
      → Accounts s (settle_decision scope request user m keys d)
  unfolding settle_decision
  settle_decision-Accounts m keys allowed s h = (refl, h refl)
  settle_decision-Accounts m keys (denied reason) s h =
      deny-Accounts (authorization_error_for reason) s

  decide-Accounts :
      (e : Evidence) (s : Session Db IdentityError) → Accounts s (decide scope request user e)
  unfolding decide
  decide-Accounts e s = settle_decision-Accounts _ e.permissions _ s (decision-permits e _)

  authorize_admin-Accounts :
      (s : Session Db IdentityError) → Accounts s (authorize_admin scope request user)
  unfolding authorize_admin
  authorize_admin-Accounts s =
      if-Accounts (is_malformed_target scope request user request.target_tenant_id) _ _ s
        (λ e. deny-Accounts tenant_context_required s)
        (λ e.
          if-Accounts (not (has_key permission_catalog request.required_permission)) _ _ s
            (λ unknown. deny-Accounts authorization_denied s)
            (λ known. (
              refl,
              has_key-sort_keys permission_catalog request.required_permission ∙ unnegated _ known,
            )))

  resolved-Accounts :
      (found : Outcome IdentityError Evidence) (s : Session Db IdentityError)
      → Accounts s (or_throw found >>= decide scope request user)
  resolved-Accounts (ok e) s = decide-Accounts e s
  resolved-Accounts (err e) s = refl

  authorize_target-Accounts :
      (target : Outcome InvalidPrimitiveError EntityId) (s : Session Db IdentityError)
      → Accounts s (authorize_target scope request user target)
  unfolding authorize_target
  authorize_target-Accounts (err e) s = deny-Accounts tenant_context_required s
  authorize_target-Accounts (ok target) s =
      resolved-Accounts (resolve_tenant_evidence (in_system_scope scope) s.store user target) s

  authorize_member-Accounts :
      (target : Option Text) (s : Session Db IdentityError)
      → Accounts s (authorize_member scope request user target)
  unfolding authorize_member
  authorize_member-Accounts none s =
      resolved-Accounts (resolve_platform_evidence (in_system_scope scope) s.store user) s
  authorize_member-Accounts (some claim) s = authorize_target-Accounts (entity_id_from claim) s

  authorize_subject-Accounts :
      (s : Session Db IdentityError) → Accounts s (authorize_subject scope request user)
  unfolding authorize_subject
  authorize_subject-Accounts s =
      if-Accounts request.tenant_claim_conflict _ _ s (λ e. deny-Accounts tenant_access_denied s)
        (λ e.
          if-Accounts (has_system_admin user s.store) (authorize_admin scope request user) _ s
            (λ admin. authorize_admin-Accounts s)
            (λ plain. authorize_member-Accounts request.target_tenant_id s))

-- For a well-formed caller's identity: where it names an active user, an answer of authorize-action changes
-- nothing and permits the permission that was asked for, a refusal writes exactly one audit entry with that
-- refusal's error, and a thrown error writes nothing. Any other user is declined and nothing is written.
pub authorize_accounts :
    (scope : TenantContext) (request : AuthorizationRequest) (s : Session Db IdentityError)
    (user : EntityId)
    → entity_id_from request.user_id ≡ ok user
    → let (r, s') = authorize scope request s in
      if is_authenticatable (get_user user s.store)
      then IsAccounted scope request user s r s'
      else (r ≡ declined account_not_authenticatable) × (s' ≡ s)
unfolding authorize
authorize_accounts scope request s user subject =
    elim (Bool-cases (is_authenticatable (get_user user s.store))) [
      | inl e ↦ rw (subject, e) (authorize_subject-Accounts scope request user s)
      | inr e ↦ rw (subject, e) (refl, refl)
    ]

-- ===== src/Identity/Tests.antt =====
-- One company with a member, her role and her account, and requests against it.
use main_acounting_system.Prelude.{
  List, [], any, arith, false, filter, if◌then◌else◌, if◌then◌else◌, if◌then◌else◌, inl, ltb, none,
  refl, some, suc, true, zero, ℕ, ◌++◌, ◌↔◌, ◌∷◌, ◌≡◌,
}
use main_acounting_system.Identity.{
  IdentityError, account_not_authenticatable, session_revoked, user_locked_out,
}
use main_acounting_system.Identity.Authenticate.{
  get_authenticated_session, sign_out, sign_out_session, sign_out_work, update_session,
}
use main_acounting_system.Identity.Authenticate.Ends.{sign_out_ends}
use main_acounting_system.Identity.Authorize.{AuthorizationRequest, authorize, is_authenticatable}
use main_acounting_system.Identity.Authorize.Audited.{IsAccounted, authorize_accounts}
use main_acounting_system.Identity.Authorize.Meaning.{HasUniqueKeys, IsActiveUser, UserHolds}
use main_acounting_system.Identity.Authorize.Tenant.{IsTenantRequest, authorize_iff}
use main_acounting_system.Identity.Input.{parse_plain_password, parse_user_email}
use main_acounting_system.Identity.Membership.{assign, create_membership}
use main_acounting_system.Identity.PermissionKey.{KeySet, add_key, add_keys, has_key}
use main_acounting_system.Identity.Permissions.{resolve_effective_permission_keys}
use main_acounting_system.Identity.Permissions.Cache.{gives, resolve_effective_permission_keys_lem}
use main_acounting_system.Identity.Role.{create_role}
use main_acounting_system.Identity.Session.{AuthSession, is_expired, is_revoked, revoke}
use main_acounting_system.Identity.SignIn.{Ports, get_credential, sign_in}
use main_acounting_system.Identity.SignIn.BruteForce.{
  IsBruteForce, IsNormal, series, sign_in_brute_force, try_all,
}
use main_acounting_system.Identity.SignIn.Recovery.{IsSignedIn, new_session, sign_in_recovers}
use main_acounting_system.Identity.Store.{
  Credential, Db, Loaded, belongs_to, get_user, has_system_admin,
}
use main_acounting_system.Identity.User.{LockoutPolicy, User, create_user, is_locked}
use main_acounting_system.Identity.User.Lockout.{fail_all, fail_all_locks}
use main_acounting_system.Prelude.Outcome.{ok}
use main_acounting_system.Primitives.EntityId.{entity_id_from}
use main_acounting_system.Primitives.Text.{Text, is_space, text_eq, trim}
use main_acounting_system.Tenancy.{assert_tenant_criterion, available, missing}
use main_acounting_system.Time.{DateTime}
use main_acounting_system.Transaction.{Session, declined, execute}
use main_acounting_system.Transaction.Atomicity.{is_resolved}

abbrev repeated : ℕ → ℕ → Text → Text
repeated zero c rest = rest
repeated (suc n) c rest = c ∷ repeated n c rest

-- 00000000-0000-0000-0000-00000000000d
abbrev id_text : ℕ → Text
id_text d = repeated 8 b'0' (
    b'-'
    ∷ repeated 4 b'0'
        (b'-' ∷ repeated 4 b'0' (b'-' ∷ repeated 4 b'0' (b'-' ∷ repeated 11 b'0' (d ∷ [])))))

abbrev company_read : Text
company_read =
    b'c' ∷ b'o' ∷ b'm' ∷ b'p' ∷ b'a' ∷ b'n' ∷ b'y' ∷ b'.' ∷ b'r' ∷ b'e' ∷ b'a' ∷ b'd' ∷ []

-- "a@b.c"
abbrev her_email : Text
her_email = b'a' ∷ b'@' ∷ b'b' ∷ b'.' ∷ b'c' ∷ []

abbrev her_account : User
her_account = create_user 7 (b'A' ∷ []) her_email 10

abbrev her_row : Loaded User
her_row = record { aggregate = her_account; revision = 1 }

abbrev right_password : Text
right_password = repeated 12 b'r' []

abbrev wrong_password : Text
wrong_password = repeated 12 b'w' []

abbrev her_credential : Credential
her_credential = record { user_id = 7; password_hash = right_password }

abbrev her_db : Db
her_db = record {
  users = her_row ∷ [];
  credentials = her_credential ∷ [];
  sessions = [];
  memberships = record { aggregate = create_membership 3 7 5 10; revision = 1 } ∷ [];
  assignments = record { aggregate = assign 4 5 3 9 10; revision = 1 } ∷ [];
  roles =
      record { aggregate = create_role 9 5 (b'R' ∷ []) (company_read ∷ []) 10; revision = 1 } ∷ [];
  system_admins = [];
  audit = [];
}

abbrev her_session : Session Db IdentityError
her_session = record { store = her_db; boundary = none }

abbrev her_request : AuthorizationRequest
her_request = record {
  user_id = id_text b'7';
  required_permission = company_read;
  target_tenant_id = some (id_text b'5');
  tenant_claim_conflict = false;
}

her_id : entity_id_from (id_text b'7') ≡ ok 7
unfolding entity_id_from trim
her_id = refl

her_tenant : entity_id_from (id_text b'5') ≡ ok 5
unfolding entity_id_from trim
her_tenant = refl

her_db-HasUniqueKeys : HasUniqueKeys her_db
her_db-HasUniqueKeys =
    (λ user. (λ e. tt, tt), λ user tenant. (λ e. tt, tt), λ role tenant. (λ e. tt, tt))

her_request-IsTenantRequest : IsTenantRequest her_request 7 5 her_db
unfolding has_system_admin
her_request-IsTenantRequest = (her_id, (id_text b'5', refl, her_tenant), refl, refl)

authorize_iff_example :
    (is_resolved (authorize missing her_request her_session).0 ≡ true)
    ↔ (IsActiveUser 7 her_db × UserHolds her_db 5 company_read 7)
unfolding assert_tenant_criterion
authorize_iff_example =
    authorize_iff missing her_request her_session 7 5 her_request-IsTenantRequest refl
      her_db-HasUniqueKeys

-- She is allowed.
she_is_allowed : is_resolved (authorize missing her_request her_session).0 ≡ true
unfolding create_user create_membership create_role assign add_keys add_key has_key text_eq
she_is_allowed =
    authorize_iff_example.1
      (inl (refl, refl), inl (refl, (refl, inl (refl, (refl, inl (refl, (refl, refl)))))))

authorize_accounts_example :
    let (r, s') = authorize missing her_request her_session in
    if is_authenticatable (get_user 7 her_db)
    then IsAccounted missing her_request 7 her_session r s'
    else (r ≡ declined account_not_authenticatable) × (s' ≡ her_session)
authorize_accounts_example = authorize_accounts missing her_request her_session 7 her_id

abbrev two_strikes : LockoutPolicy
two_strikes = record { threshold = 2; duration_ms = 100 }

fail_all_locks_example :
    is_locked 150 (fail_all two_strikes ((20 ∷ 60 ∷ []) ++ 90 ∷ []) her_account) ≡ ltb 150 160
unfolding create_user
fail_all_locks_example =
    fail_all_locks two_strikes (20 ∷ []) (90 ∷ []) 60 150 her_account refl refl (omega arith, tt)

-- Passwords are compared as they are.
abbrev plain_ports : Ports
plain_ports = record {
  verify = text_eq;
  lower_case = λ s. s;
  issued_token = b't' ∷ [];
  issued_hash = b'h' ∷ [];
  session_id = 8;
  session_ttl_minutes = 60;
  lockout = two_strikes;
  others = λ n db. db;
}

wrong_is_parsed : parse_plain_password wrong_password ≡ ok wrong_password
unfolding parse_plain_password
wrong_is_parsed = refl

right_is_parsed : parse_plain_password right_password ≡ ok right_password
unfolding parse_plain_password
right_is_parsed = refl

her_email-IsNormal : IsNormal plain_ports her_email her_email
unfolding parse_user_email
her_email-IsNormal = (refl, refl)

abbrev strikes_before : List (DateTime × Text)
strikes_before = (20, wrong_password) ∷ []

abbrev strikes_during : List (DateTime × Text)
strikes_during = (90, wrong_password) ∷ []

her_account-IsBruteForce :
    IsBruteForce plain_ports her_email her_email her_credential her_row strikes_before
      (60, wrong_password)
      strikes_during
      her_session
unfolding create_user text_eq get_credential
her_account-IsBruteForce = (
  (her_email-IsNormal, λ n db. refl),
  (refl, (refl, (λ e. tt, tt), refl, omega arith)),
  refl,
  refl,
  ((wrong_is_parsed, refl), ((wrong_is_parsed, refl), ((wrong_is_parsed, refl), tt))),
  (omega arith, tt),
)

sign_in_brute_force_example :
    (sign_in plain_ports 159 her_email right_password (
      try_all plain_ports her_email
        (series strikes_before (60, wrong_password) strikes_during)
        her_session)).0
    ≡ declined user_locked_out
sign_in_brute_force_example =
    sign_in_brute_force plain_ports her_email her_email her_credential her_row strikes_before
      strikes_during (60, wrong_password) 159 right_password her_session her_account-IsBruteForce
      right_is_parsed (omega arith)

sign_in_recovers_example :
    let s =
      try_all plain_ports her_email
        (series strikes_before (60, wrong_password) strikes_during)
        her_session in
    IsSignedIn plain_ports 160 7 s (sign_in plain_ports 160 her_email right_password s)
unfolding create_user text_eq
sign_in_recovers_example =
    sign_in_recovers plain_ports her_email her_email her_credential her_row strikes_before
      strikes_during (60, wrong_password) 160 right_password her_session her_account-IsBruteForce
      right_is_parsed refl refl (omega arith) (omega arith)

abbrev her_login : AuthSession
her_login = new_session plain_ports 20 7

abbrev her_login_row : Loaded AuthSession
her_login_row = record { aggregate = her_login; revision = 1 }

abbrev logged_in : Session Db IdentityError
logged_in = record { store = record her_db { sessions = her_login_row ∷ [] }; boundary = none }

sign_out_ends_example :
    (get_authenticated_session 40
      (λ t. b'h' ∷ [])
      (b't' ∷ [])
      (sign_out 30 (id_text b'8') logged_in).1).0
    ≡ declined session_revoked
unfolding text_eq trim is_space entity_id_from sign_out sign_out_session sign_out_work revoke
    update_session is_revoked is_expired execute
sign_out_ends_example =
    sign_out_ends 30 40 (id_text b'8') (b't' ∷ []) (λ t. b'h' ∷ []) 8 her_login_row logged_in refl
      refl (λ e. tt, tt) refl refl refl refl

resolve_effective_permission_keys_lem_example :
    (keys : KeySet) × (resolve_effective_permission_keys (available 5) her_db (3 ∷ []) ≡ ok keys)
    × ((key : Text)
        → has_key keys key ≡ any (gives her_db 5 key) (filter (belongs_to 3 5) her_db.assignments))
resolve_effective_permission_keys_lem_example = resolve_effective_permission_keys_lem her_db 5 3

-- ===== src/Identity/SignIn.antt =====
-- modules/identity/application/use-cases/sign-in.use-case.ts, with the statements of the repositories that it
-- writes with. The security log is left out. What other requests commit while this one runs is an argument.
pub mod Answers
pub mod BruteForce
pub mod Recovery
use main_acounting_system.Prelude.{
  Bool, Option, [], any, false, find, if◌then◌else◌, if◌then◌else◌, if◌then◌else◌, ltb, map, none,
  not, some, suc, true, zero, ℕ, ◌&&◌, ◌*◌, ◌++◌, ◌+◌, ◌==◌, ◌||◌, ◌∷◌,
}
use main_acounting_system.Identity.{
  IdentityError, account_not_authenticatable, invalid_credentials, malformed_value, stale_write,
  user_locked_out,
}
use main_acounting_system.Identity.Authorize.{Action}
use main_acounting_system.Identity.Input.{parse_plain_password, parse_user_email}
use main_acounting_system.Identity.Session.{AuthSession, create_session}
use main_acounting_system.Identity.Store.{
  AuditFact, Credential, Db, Loaded, find_by_email, get_user, locked_out_account_targeted,
  sign_in_failed, user_account_locked, user_authenticated,
}
use main_acounting_system.Identity.User.{
  LockoutPolicy, User, clear_failed_authentications, is_active_user, is_locked, is_set,
  record_failed_authentication,
}
use main_acounting_system.Primitives.EntityId.{EntityId}
use main_acounting_system.Primitives.Text.{Text}
use main_acounting_system.Time.{DateTime}
use main_acounting_system.Transaction.{
  Settled, Thrown, and_then, decline, declined, execute, or_decline, or_throw, pure, raised, read,
  rejected, resolved, throw, throw_work_if, write, ◌>>=◌, ◌>>◌,
}

-- What the use case is given: the hasher's `verify`, the token service's answer, the generated identity of
-- the session, the configuration, the clock, and the other requests.
pub record Ports : Type 0 where
  pub verify : Text → Text → Bool
  pub lower_case : Text → Text
  pub issued_token : Text
  pub issued_hash : Text
  pub session_id : EntityId
  pub session_ttl_minutes : ℕ
  pub lockout : LockoutPolicy
  pub others : ℕ → Db → Db

-- `SignedInView`; the principal is named by its identity.
pub record SignedInView : Type 0 where
  pub token : Text
  pub expires_at : DateTime
  pub principal : EntityId

abbrev pub swaps_user : User → ℕ → Loaded User → Bool
swaps_user user expected row = row.aggregate.id == user.id && row.revision == expected

unfoldable pub swap_user : User → ℕ → Loaded User → Loaded User
swap_user user expected row =
    if swaps_user user expected row
    then record {
      aggregate = record (row.aggregate) {
        display_name = user.display_name;
        email = user.email;
        status = user.status;
        updated_at = user.updated_at;
        failed_auth_attempts = user.failed_auth_attempts;
        locked_until = user.locked_until;
      };
      revision = expected + 1;
    }
    else row

-- `Revision.MAX`.
abbrev pub max_revision : ℕ
max_revision = 2147483647

-- `DrizzleUserRepository.update`: no row affected is a stale revision.
unfoldable pub update_user : User → ℕ → Action (Unit {0})
unfolding swap_user
update_user user expected = read (λ db. any (swaps_user user expected) db.users) >>= λ affected.
    throw_work_if (not affected) stale_write
    >> write (λ db. record db { users = map (swap_user user expected) db.users })
    >> throw_work_if (ltb max_revision (expected + 1)) malformed_value

-- The recorder of authentication events.
abbrev pub record_fact : AuditFact → Action (Unit {0})
record_fact fact = write (λ db. record db { audit = db.audit ++ fact ∷ [] })

-- `DrizzleCredentialRepository.get`.
unfoldable pub get_credential : EntityId → Db → Option Credential
get_credential user db = find (λ (c : Credential). c.user_id == user) db.credentials

-- `DrizzleAuthSessionRepository.add`; a new identity and a new token.
abbrev add_session : AuthSession → Action (Unit {0})
add_session session = write (λ db. record db {
  sessions = db.sessions ++ record { aggregate = session; revision = 1 } ∷ [];
})

-- `staleRevisionOf(error) !== undefined`.
abbrev pub is_stale : Thrown IdentityError → Bool
is_stale (raised stale_write) = true
is_stale _ = false

-- `reject`.
abbrev pub reject : {A : Type 0} → AuditFact → IdentityError → Action A
reject fact error = record_fact fact >> decline error

abbrev pub max_lockout_write_attempts : ℕ
max_lockout_write_attempts = 3

module _ (ports : Ports) (now : DateTime) where
  -- One attempt's unit of work in `recordFailedAttempt`.
  unfoldable pub failure_work : Text → Loaded User → Action (Unit {0})
  unfolding record_failed_authentication is_locked update_user
  failure_work email row =
      let user = record_failed_authentication ports.lockout now row.aggregate in
      update_user user row.revision
      >> record_fact (sign_in_failed email invalid_credentials (some user.id))
      >> (if is_locked now user then record_fact (user_account_locked user.id) else pure tt)

  -- The end of an attempt: a stale revision is read again while attempts are left.
  unfoldable pub after_failure :
      ℕ
      → (Option (Loaded User) → Action (Unit {0}))
      → EntityId
      → Settled IdentityError (Unit {0})
      → Action (Unit {0})
  unfolding get_user
  after_failure more again user (resolved done) = pure tt
  after_failure more again user (declined e) = decline e
  after_failure more again user (rejected e) =
      if not (is_stale e)
      then (λ s. (rejected e, s))
      else (if more == 0 then pure tt else (read (get_user user) >>= again))

  -- `recordFailedAttempt`, with the attempts that are left.
  unfoldable pub record_failed_attempt : ℕ → Text → Option (Loaded User) → Action (Unit {0})
  unfolding is_locked failure_work execute after_failure
  record_failed_attempt zero email current = pure tt
  record_failed_attempt (suc more) email none = pure tt
  record_failed_attempt (suc more) email (some row) =
      if is_locked now row.aggregate
      then pure tt
      else (write (ports.others more)
          >> and_then (execute (failure_work email row))
              (after_failure more (record_failed_attempt more email) row.aggregate.id))

  -- One attempt's unit of work in `establish`.
  unfoldable pub establish_work : Loaded User → Action SignedInView
  unfolding clear_failed_authentications update_user create_session
  establish_work row =
      let expires = now + ports.session_ttl_minutes * 60000 in
      let user = row.aggregate in
      (if ltb 0 user.failed_auth_attempts || is_set user.locked_until
        then update_user (clear_failed_authentications now user) row.revision
        else pure tt)
      >> or_throw (create_session ports.session_id user.id ports.issued_hash expires now)
      >>= λ session.
          add_session session
          >> record_fact (user_authenticated session.user_id session.id expires)
          >> pure (record { token = ports.issued_token; expires_at = expires; principal = user.id })

  abbrev pub establish_again :
      (Loaded User → Action SignedInView)
      → Thrown IdentityError
      → Option (Loaded User)
      → Action SignedInView
  establish_again again e none s = (rejected e, s)
  establish_again again e (some row) s = again row s

  unfoldable pub after_establish :
      ℕ
      → (Loaded User → Action SignedInView)
      → EntityId
      → Settled IdentityError SignedInView
      → Action SignedInView
  unfolding get_user
  after_establish more again user (resolved view) = pure view
  after_establish more again user (declined e) = decline e
  after_establish more again user (rejected e) =
      if not (is_stale e) || more == 0
      then (λ s. (rejected e, s))
      else (read (get_user user) >>= establish_again again e)

  -- `establish`, with the attempts that are left.
  unfoldable pub establish : ℕ → Loaded User → Action SignedInView
  unfolding establish_work execute after_establish
  establish zero row = throw malformed_value
  establish (suc more) row =
      write (ports.others more)
      >> and_then (execute (establish_work row))
          (after_establish more (establish more) row.aggregate.id)

  -- The account is not locked; its credential was looked up.
  unfoldable pub check_credential :
      Text → Text → Loaded User → Option Credential → Action SignedInView
  unfolding record_failed_attempt establish
  check_credential email secret row none =
      reject (sign_in_failed email invalid_credentials none) invalid_credentials
  check_credential email secret row (some credential) =
      if not (ports.verify secret credential.password_hash)
      then (record_failed_attempt max_lockout_write_attempts email (some row)
          >> decline invalid_credentials)
      else (if not (is_active_user row.aggregate.status)
          then reject (sign_in_failed email account_not_authenticatable (some row.aggregate.id))
              account_not_authenticatable
          else establish max_lockout_write_attempts row)

  unfoldable pub check_account : Text → Text → Option (Loaded User) → Action SignedInView
  unfolding is_locked get_credential check_credential
  check_account email secret none =
      reject (sign_in_failed email invalid_credentials none) invalid_credentials
  check_account email secret (some row) =
      if is_locked now row.aggregate
      then reject (locked_out_account_targeted row.aggregate.id) user_locked_out
      else (read (get_credential row.aggregate.id) >>= check_credential email secret row)

  -- `execute`.
  unfoldable pub sign_in : Text → Text → Action SignedInView
  unfolding parse_user_email parse_plain_password find_by_email check_account
  sign_in email password = or_decline (parse_user_email ports.lower_case email) >>= λ normalized.
      or_decline (parse_plain_password password) >>= λ secret.
      read (find_by_email (ports.lower_case normalized)) >>= check_account normalized secret

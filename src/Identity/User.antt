-- ===== src/Identity/User.antt =====
-- modules/identity/domain/aggregates/user.ts. Name and email are the texts that their value objects hold.
pub mod Lockout
use main_acounting_system.Prelude.{
  Bool, Option, false, if◌then◌else◌, if◌then◌else◌, if◌then◌else◌, leb, ltb, none, not, some, true,
  ℕ, ◌&&◌, ◌+◌, ◌==◌,
}
use main_acounting_system.Identity.{IdentityError, inactive_user, invalid_user_status_transition}
use main_acounting_system.Prelude.Outcome.{Outcome, ok, throw_if, ◌>>◌}
use main_acounting_system.Primitives.EntityId.{EntityId}
use main_acounting_system.Primitives.Text.{Text}
use main_acounting_system.Time.{DateTime}

pub data UserStatus : Type 0 where
  user_active user_inactive : UserStatus

abbrev pub is_active_user : UserStatus → Bool
is_active_user user_active = true
is_active_user user_inactive = false

pub record LockoutPolicy : Type 0 where
  pub threshold : ℕ
  pub duration_ms : ℕ

pub record User : Type 0 where
  pub id : EntityId
  pub display_name : Text
  pub email : Text
  pub status : UserStatus
  pub created_at : DateTime
  pub updated_at : DateTime
  pub failed_auth_attempts : ℕ
  pub locked_until : Option DateTime

-- `User.create`, of values that were validated.
unfoldable pub create_user : EntityId → Text → Text → DateTime → User
create_user id name email now = record {
  id = id;
  display_name = name;
  email = email;
  status = user_active;
  created_at = now;
  updated_at = now;
  failed_auth_attempts = 0;
  locked_until = none;
}

abbrev pub before_lock : DateTime → Option DateTime → Bool
before_lock now none = false
before_lock now (some until) = ltb now until

unfoldable pub is_locked : DateTime → User → Bool
is_locked now user = before_lock now user.locked_until

abbrev pub is_set : Option DateTime → Bool
is_set none = false
is_set (some at) = true

-- The counter after one more failure of a user whose lock, if any, has passed.
unfoldable pub count_failure : LockoutPolicy → DateTime → User → User
count_failure policy now user =
    let attempts = user.failed_auth_attempts + 1 in
    record user {
      failed_auth_attempts = attempts;
      locked_until =
          if leb policy.threshold attempts
          then some (now + policy.duration_ms)
          else user.locked_until;
      updated_at = now;
    }

unfoldable pub record_failed_authentication : LockoutPolicy → DateTime → User → User
unfolding is_locked count_failure
record_failed_authentication policy now user =
    if is_locked now user
    then user
    else (if is_set user.locked_until
        then count_failure policy now
            (record user { locked_until = none; failed_auth_attempts = 0 })
        else count_failure policy now user)

unfoldable pub clear_failed_authentications : DateTime → User → User
clear_failed_authentications now user =
    if user.failed_auth_attempts == 0 && not (is_set user.locked_until)
    then user
    else record user { failed_auth_attempts = 0; locked_until = none; updated_at = now }

abbrev assert_active_user : User → Outcome IdentityError (Unit {0})
assert_active_user user = throw_if (not (is_active_user user.status)) inactive_user

unfoldable pub rename_user : Text → DateTime → User → Outcome IdentityError User
rename_user name now user =
    assert_active_user user >> ok (record user { display_name = name; updated_at = now })

unfoldable pub change_email : Text → DateTime → User → Outcome IdentityError User
change_email email now user =
    assert_active_user user >> ok (record user { email = email; updated_at = now })

unfoldable pub deactivate_user : DateTime → User → Outcome IdentityError User
deactivate_user now user =
    throw_if (not (is_active_user user.status)) invalid_user_status_transition
    >> ok (record user { status = user_inactive; updated_at = now })

unfoldable pub activate_user : DateTime → User → Outcome IdentityError User
activate_user now user =
    throw_if (is_active_user user.status) invalid_user_status_transition
    >> ok (record user { status = user_active; updated_at = now })

-- ===== src/Identity/User/Lockout.antt =====
-- The lockout of an account over many failed attempts.
use main_acounting_system.Prelude.{
  All, Bool-cases, List, [], arith, false, inl, inr, leb, length, ltb, none, refl, some, true, ◌++◌,
  ◌+◌, ◌<◌, ◌∙◌, ◌∷◌, ◌≡◌,
}
use main_acounting_system.Identity.User.{
  LockoutPolicy, User, count_failure, is_locked, is_set, record_failed_authentication,
}
use main_acounting_system.Time.{DateTime}

-- The attempts of one account, each at its instant.
unfoldable pub fail_all : LockoutPolicy → List DateTime → User → User
fail_all policy [] user = user
fail_all policy (now ∷ times) user =
    fail_all policy times (record_failed_authentication policy now user)

-- The lock and the counter agree: a lock is set exactly from the threshold on.
abbrev pub IsCounted : LockoutPolicy → User → Type 0
IsCounted policy user = is_set user.locked_until ≡ leb policy.threshold user.failed_auth_attempts

count_failure-IsCounted :
    (policy : LockoutPolicy) (now : DateTime) (user : User)
    → is_set user.locked_until ≡ false
    → IsCounted policy (count_failure policy now user)
unfolding count_failure
count_failure-IsCounted policy now user h = ground arith

record_failed_authentication-IsCounted :
    (policy : LockoutPolicy) (now : DateTime) (user : User)
    → IsCounted policy user
    → IsCounted policy (record_failed_authentication policy now user)
unfolding record_failed_authentication
record_failed_authentication-IsCounted policy now user h = elim (Bool-cases (is_locked now user)) [
  | inl locked ↦ rw locked h
  | inr free ↦ elim (Bool-cases (is_set user.locked_until)) [
    | inl e ↦
        rw (free, e)
          (count_failure-IsCounted policy now
            (record user { locked_until = none; failed_auth_attempts = 0 }) refl)
    | inr e ↦ rw (free, e) (count_failure-IsCounted policy now user e)
  ]
]

-- Failed attempts keep the lock and the counter in agreement.
pub fail_all-IsCounted :
    (policy : LockoutPolicy) (times : List DateTime) (user : User)
    → IsCounted policy user
    → IsCounted policy (fail_all policy times user)
unfolding fail_all
fail_all-IsCounted policy [] user h = h
fail_all-IsCounted policy (now ∷ times) user h =
    fail_all-IsCounted policy times _ (record_failed_authentication-IsCounted policy now user h)

-- Attempts during a lock change nothing.
pub fail_all_locked :
    (policy : LockoutPolicy) (times : List DateTime) (user : User) (until : DateTime)
    → user.locked_until ≡ some until
    → All (λ now. now < until) times
    → fail_all policy times user ≡ user
unfolding fail_all record_failed_authentication is_locked
fail_all_locked policy [] user until h early = refl
fail_all_locked policy (now ∷ times) user until h early =
    let locked : is_locked now user ≡ true = rw (h, is_locked) (ground (arith, early.0)) in
    rw (locked, record_failed_authentication) (fail_all_locked policy times user until h early.1)

fail_all_append :
    (policy : LockoutPolicy) (times more : List DateTime) (user : User)
    → fail_all policy (times ++ more) user ≡ fail_all policy more (fail_all policy times user)
unfolding fail_all
fail_all_append policy [] more user = refl
fail_all_append policy (now ∷ times) more user = fail_all_append policy times more _

record_failed_authentication_unlocked :
    (policy : LockoutPolicy) (now : DateTime) (user : User)
    → user.locked_until ≡ none
    → record_failed_authentication policy now user ≡ count_failure policy now user
unfolding record_failed_authentication is_locked
record_failed_authentication_unlocked policy now user h =
    rw (h, record_failed_authentication, is_locked) refl

fail_all_last :
    (policy : LockoutPolicy) (early : List DateTime) (last : DateTime) (user : User)
    → user.locked_until ≡ none
    → user.failed_auth_attempts + length early + 1 ≡ policy.threshold
    → (fail_all policy (early ++ last ∷ []) user).locked_until ≡ some (last + policy.duration_ms)
unfolding fail_all count_failure
fail_all_last policy [] last user h n =
    rw (record_failed_authentication_unlocked policy last user h) (ground (arith, n))
fail_all_last policy (now ∷ early) last user h n =
    rw (record_failed_authentication_unlocked policy now user h, fail_all)
      (fail_all_last policy early last (count_failure policy now user) (ground (arith, n, h))
        (omega (arith, n)))

-- An account with no lock, whose counter reaches the threshold with the last of a series of failures, is locked
-- from then until exactly the policy's duration after that failure, whatever attempts are made during the lock.
pub fail_all_locks :
    (policy : LockoutPolicy) (early during : List DateTime) (last now : DateTime) (user : User)
    → user.locked_until ≡ none
    → user.failed_auth_attempts + length early + 1 ≡ policy.threshold
    → All (λ at. at < last + policy.duration_ms) during
    → is_locked now (fail_all policy ((early ++ last ∷ []) ++ during) user)
      ≡ ltb now (last + policy.duration_ms)
unfolding is_locked
fail_all_locks policy early during last now user h n in_lock =
    let lock = fail_all_last policy early last user h n in
    let held =
      fail_all_append policy (early ++ last ∷ []) during user
      ∙ fail_all_locked policy during _ (last + policy.duration_ms) lock in_lock in
    rw (held, lock) refl

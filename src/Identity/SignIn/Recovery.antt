-- ===== src/Identity/SignIn/Recovery.antt =====
-- Signing in with the right password, once no lock is in force.
use main_acounting_system.Prelude.{
  Bool-cases, List, [], any, ap, arith, false, inl, inr, ltb, none, not, refl, subst, true, ◌&&◌,
  ◌*◌, ◌++◌, ◌+◌, ◌<◌, ◌==◌, ◌||◌, ◌∙◌, ◌∷◌, ◌≡◌, ◌≤◌,
}
use main_acounting_system.Identity.{IdentityError}
use main_acounting_system.Identity.Input.{parse_plain_password}
use main_acounting_system.Identity.Session.{AuthSession, create_session}
use main_acounting_system.Identity.SignIn.{
  Ports, SignedInView, after_establish, check_account, check_credential, establish, establish_work,
  max_lockout_write_attempts, max_revision, sign_in, swaps_user, update_user,
}
use main_acounting_system.Identity.SignIn.Answers.{IsAlone, execute_resolved, frame, find-IsSwapped}
use main_acounting_system.Identity.SignIn.BruteForce.{
  IsBruteForce, IsNormal, IsReady, brute_force-locks, check_account_free, series, sign_in_known,
  times_of, try_all,
}
use main_acounting_system.Identity.Store.{Credential, Db, Loaded}
use main_acounting_system.Identity.User.{
  LockoutPolicy, User, clear_failed_authentications, is_active_user, is_locked, is_set,
  record_failed_authentication,
}
use main_acounting_system.Identity.User.Lockout.{fail_all}
use main_acounting_system.Prelude.Outcome.{ok}
use main_acounting_system.Primitives.EntityId.{EntityId}
use main_acounting_system.Primitives.Text.{Text}
use main_acounting_system.Time.{DateTime}
use main_acounting_system.Transaction.{Session, Settled, execute, opened, resolved}

-- The session that signing in establishes.
abbrev pub new_session : Ports → DateTime → EntityId → AuthSession
new_session ports now user = record {
  id = ports.session_id;
  user_id = user;
  token_hash = ports.issued_hash;
  expires_at = now + ports.session_ttl_minutes * 60000;
  revoked_at = none;
  created_at = now;
  updated_at = now;
}

abbrev pub new_view : Ports → DateTime → EntityId → SignedInView
new_view ports now user = record {
  token = ports.issued_token;
  expires_at = now + ports.session_ttl_minutes * 60000;
  principal = user;
}

-- What an establishing work answers and adds.
abbrev IsEstablished :
    Ports
    → DateTime
    → EntityId
    → Session Db IdentityError
    → Settled IdentityError SignedInView × Session Db IdentityError
    → Type 0
IsEstablished ports now user s after =
    (after.0 ≡ resolved (new_view ports now user))
    × (after.1.boundary ≡ s.boundary)
    × (after.1.store.sessions
        ≡ s.store.sessions ++ record { aggregate = new_session ports now user; revision = 1 } ∷ [])

establish_work_lem :
    (ports : Ports) (now : DateTime) (row : Loaded User) (s : Session Db IdentityError)
    → 0 < ports.session_ttl_minutes
    → any (swaps_user (clear_failed_authentications now row.aggregate) row.revision) s.store.users
      ≡ true
    → row.revision + 1 ≤ max_revision
    → IsEstablished ports now row.aggregate.id s (establish_work ports now row s)
unfolding establish_work update_user create_session
establish_work_lem ports now row s ttl hit room =
    let fits : ltb max_revision (row.revision + 1) ≡ false = ground (arith, room) in
    let lasts : ltb now (now + ports.session_ttl_minutes * 60000) ≡ true = ground (arith, ttl) in
    elim (Bool-cases
      (ltb 0 row.aggregate.failed_auth_attempts || is_set row.aggregate.locked_until)) [
        | inl e ↦ rw (e, hit, fits, lasts) (refl, refl, refl)
        | inr e ↦ rw (e, lasts) (refl, refl, refl)
      ]

clear-frame :
    (now : DateTime) (user : User)
    → let user' = clear_failed_authentications now user in
      (user'.id ≡ user.id) × (user'.email ≡ user.email) × (user'.created_at ≡ user.created_at)
unfolding clear_failed_authentications
clear-frame now user =
    elim (Bool-cases (user.failed_auth_attempts == 0 && not (is_set user.locked_until))) [
      | inl e ↦ rw e (refl, refl, refl)
      | inr e ↦ rw e (refl, refl, refl)
    ]

-- An answer that adds one session and gives its token.
abbrev pub IsSignedIn :
    Ports
    → DateTime
    → EntityId
    → Session Db IdentityError
    → Settled IdentityError SignedInView × Session Db IdentityError
    → Type 0
IsSignedIn ports now user s after =
    (after.0 ≡ resolved (new_view ports now user))
    × (after.1.store.sessions
        ≡ s.store.sessions ++ record { aggregate = new_session ports now user; revision = 1 } ∷ [])

module _ (ports : Ports) (raw email : Text) (normal : IsNormal ports raw email)
    (alone : IsAlone ports) where
  establish-IsSignedIn :
      (now : DateTime) (row : Loaded User) (s : Session Db IdentityError)
      → s.boundary ≡ none
      → 0 < ports.session_ttl_minutes
      → any (swaps_user (clear_failed_authentications now row.aggregate) row.revision) s.store.users
        ≡ true
      → row.revision + 1 ≤ max_revision
      → IsSignedIn ports now row.aggregate.id s
          (establish ports now max_lockout_write_attempts row s)
  unfolding establish after_establish
  establish-IsSignedIn now row s b ttl hit room =
      let (view, kept, sessions) = establish_work_lem ports now row (opened s) ttl hit room in
      let quiet : record s { store = ports.others 2 s.store } ≡ s =
        ap (λ (db : Db). record s { store = db }) (alone 2 s.store) in
      let done =
        ap (execute (establish_work ports now row)) quiet
        ∙ execute_resolved (establish_work ports now row) s b view kept in
      rw done (refl, sessions)

  -- The right password of an active, unlocked account.
  pub sign_in-IsSignedIn :
      (now : DateTime) (password : Text) (row : Loaded User) (credential : Credential)
      (s : Session Db IdentityError)
      → parse_plain_password password ≡ ok password
      → ports.verify password credential.password_hash ≡ true
      → is_locked now row.aggregate ≡ false
      → is_active_user row.aggregate.status ≡ true
      → 0 < ports.session_ttl_minutes
      → IsReady email row credential 1 s
      → IsSignedIn ports now row.aggregate.id s (sign_in ports now raw password s)
  unfolding check_credential
  sign_in-IsSignedIn now password row credential s parsed right free active ttl
        (b, (found, one, cred, fits)) =
      let (i, m, c) = clear-frame now row.aggregate in
      let hit =
        (find-IsSwapped email (clear_failed_authentications now row.aggregate) s.store.users found
          one i m c).0 in
      let known =
        sign_in_known ports raw email normal now password s parsed
        ∙ ap (λ found. check_account ports now email password found s) found
        ∙ check_account_free ports raw email normal now password row credential s free cred in
      rw (known, right, active) (establish-IsSignedIn now row s b ttl hit fits)

fail_all-frame :
    (policy : LockoutPolicy) (times : List DateTime) (user : User)
    → ((fail_all policy times user).status ≡ user.status)
      × ((fail_all policy times user).id ≡ user.id)
unfolding fail_all
fail_all-frame policy [] user = (refl, refl)
fail_all-frame policy (now ∷ times) user =
    let (i, m, c, st) = frame policy now user in
    let rest = fail_all-frame policy times (record_failed_authentication policy now user) in
    (rest.0 ∙ st, rest.1 ∙ i)

-- The lock that a brute force leaves ends by itself: from the policy's duration after the attempt that reached
-- the threshold on, the right password of an active account signs in and adds its one session.
pub sign_in_recovers :
    (ports : Ports) (raw email : Text) (credential : Credential) (row : Loaded User)
    (early during : List (DateTime × Text)) (last : DateTime × Text) (now : DateTime)
    (password : Text) (s : Session Db IdentityError)
    → IsBruteForce ports raw email credential row early last during s
    → parse_plain_password password ≡ ok password
    → ports.verify password credential.password_hash ≡ true
    → is_active_user row.aggregate.status ≡ true
    → 0 < ports.session_ttl_minutes
    → last.0 + ports.lockout.duration_ms ≤ now
    → IsSignedIn ports now row.aggregate.id
        (try_all ports raw (series early last during) s)
        (sign_in ports now raw password (try_all ports raw (series early last during) s))
sign_in_recovers ports raw email credential row early during last now password s force parsed right
      active ttl late =
    let (row', fails, locks, ready) =
      brute_force-locks ports raw email credential row early during last s force in
    let (st, i) =
      fail_all-frame ports.lockout (times_of (series early last during)) row.aggregate in
    let same = ap (λ (u : User). u.id) fails ∙ i in
    let active' =
      ap (λ (u : User). is_active_user u.status) fails ∙ ap is_active_user st ∙ active in
    let after = try_all ports raw (series early last during) s in
    subst (λ id. IsSignedIn ports now id after (sign_in ports now raw password after)) same
      (sign_in-IsSignedIn ports raw email force.0.0 force.0.1 now password row' credential after
        parsed right (ground (arith, locks now, late)) active' ttl ready)

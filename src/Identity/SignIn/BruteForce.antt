-- ===== src/Identity/SignIn/BruteForce.antt =====
-- A series of wrong passwords against one account: the stored account follows the aggregate's lockout, and
-- from the threshold on every attempt is refused until the lock has passed.
use main_acounting_system.Prelude.{
  All, AtMostOne-map, Bool-cases, List, [], ap, arith, false, find, inl, inr, length, ltb, none,
  refl, some, subst, suc, true, ℕ, ◌++◌, ◌+◌, ◌<◌, ◌∙◌, ◌∷◌, ◌≡◌, ◌≤◌,
}
use main_acounting_system.Identity.{IdentityError, user_locked_out}
use main_acounting_system.Identity.Authorize.{Action}
use main_acounting_system.Identity.Input.{parse_plain_password, parse_user_email}
use main_acounting_system.Identity.SignIn.{
  Ports, SignedInView, check_account, check_credential, get_credential, max_revision, reject,
  sign_in, swap_user,
}
use main_acounting_system.Identity.SignIn.Answers.{
  IsAccount, IsAlone, failed_row, failure_work_lem, frame, if_false, if_true, swap_user-id,
  find-IsSwapped, wrong_secret,
}
use main_acounting_system.Identity.Store.{
  Credential, Db, Loaded, find_by_email, has_email, locked_out_account_targeted, user_is,
}
use main_acounting_system.Identity.User.{User, is_locked, record_failed_authentication}
use main_acounting_system.Identity.User.Lockout.{fail_all, fail_all_locks}
use main_acounting_system.Prelude.Outcome.{ok}
use main_acounting_system.Primitives.Text.{Text}
use main_acounting_system.Time.{DateTime}
use main_acounting_system.Transaction.{Session, Settled, declined, opened}

-- The attempts, each with its instant and password, one request after the other.
unfoldable pub try_all :
    Ports → Text → List (DateTime × Text) → Session Db IdentityError → Session Db IdentityError
unfolding sign_in
try_all ports email [] s = s
try_all ports email ((now, password) ∷ attempts) s =
    try_all ports email attempts (sign_in ports now email password s).1

abbrev pub times_of : List (DateTime × Text) → List DateTime
times_of [] = []
times_of ((now, password) ∷ attempts) = now ∷ times_of attempts

-- A password that is well formed and does not match.
abbrev pub AreWrong : Ports → Credential → List (DateTime × Text) → Type 0
AreWrong ports credential = All (λ (a : DateTime × Text).
    (parse_plain_password a.1 ≡ ok a.1) × (ports.verify a.1 credential.password_hash ≡ false))

-- The email is accepted as the normal form, which lower-casing keeps.
abbrev pub IsNormal : Ports → Text → Text → Type 0
IsNormal ports raw email =
    (parse_user_email ports.lower_case raw ≡ ok email) × (ports.lower_case email ≡ email)

-- What holds between two attempts.
abbrev pub IsReady : Text → Loaded User → Credential → ℕ → Session Db IdentityError → Type 0
IsReady email row credential room s =
    (s.boundary ≡ none) × IsAccount email row credential room s.store

module _ (ports : Ports) (raw email : Text) (normal : IsNormal ports raw email) where
  pub sign_in_known :
      (now : DateTime) (password : Text) (s : Session Db IdentityError)
      → parse_plain_password password ≡ ok password
      → sign_in ports now raw password s
        ≡ check_account ports now email password (find (has_email email) s.store.users) s
  unfolding sign_in find_by_email
  sign_in_known now password s p = rw (normal.0, p, normal.1) refl

  pub check_account_locked :
      (now : DateTime) (password : Text) (row : Loaded User) (s : Session Db IdentityError)
      → is_locked now row.aggregate ≡ true
      → check_account ports now email password (some row) s
        ≡ reject (locked_out_account_targeted row.aggregate.id) user_locked_out s
  unfolding check_account
  check_account_locked now password row s locked =
      ap (λ (f : Action SignedInView). f s) (if_true _ _ locked)

  pub check_account_free :
      (now : DateTime) (password : Text) (row : Loaded User) (credential : Credential)
      (s : Session Db IdentityError)
      → is_locked now row.aggregate ≡ false
      → get_credential row.aggregate.id s.store ≡ some credential
      → check_account ports now email password (some row) s
        ≡ check_credential ports now email password row (some credential) s
  unfolding check_account
  check_account_free now password row credential s free found =
      ap (λ (f : Action SignedInView). f s) (if_false _ _ free)
      ∙ ap (λ c. check_credential ports now email password row c s) found

  module _ (credential : Credential) (alone : IsAlone ports) where
    IsAfter :
        DateTime
        → Loaded User
        → ℕ
        → Settled IdentityError SignedInView × Session Db IdentityError
        → Type 0
    IsAfter now row room after =
        (row' : Loaded User) × (row'.aggregate
          ≡ record_failed_authentication ports.lockout now row.aggregate)
        × IsReady email row' credential room after.1

    attempt_locked :
        (now : DateTime) (password : Text) (row : Loaded User) (room : ℕ)
        (s : Session Db IdentityError)
        → is_locked now row.aggregate ≡ true
        → IsReady email row credential (suc room) s
        → IsAfter now row room (check_account ports now email password (some row) s)
    unfolding IsAfter record_failed_authentication get_credential
    attempt_locked now password row room s locked ready =
        rw (check_account_locked now password row s locked) (
          row,
          rw locked refl,
          (ready.0, (ready.1.0, ready.1.1, ready.1.2, omega (arith, ready.1.3))),
        )

    attempt_free :
        (now : DateTime) (password : Text) (row : Loaded User) (room : ℕ)
        (s : Session Db IdentityError)
        → is_locked now row.aggregate ≡ false
        → ports.verify password credential.password_hash ≡ false
        → IsReady email row credential (suc room) s
        → IsAfter now row room (check_account ports now email password (some row) s)
    unfolding IsAfter get_credential
    attempt_free now password row room s free wrong (b, (found, one, cred, fits)) =
        let (i, m, c, st) = frame ports.lockout now row.aggregate in
        let user = record_failed_authentication ports.lockout now row.aggregate in
        let (hit, after) = find-IsSwapped email user s.store.users found one i m c in
        let fits_one : row.revision + 1 ≤ max_revision = omega (arith, fits) in
        let (done, kept, credentials, users) =
          failure_work_lem ports email password now row (opened s) hit fits_one in
        let still =
          AtMostOne-map (user_is row.aggregate.id) (swap_user user row.revision)
            (swap_user-id user row.revision row.aggregate.id) s.store.users one in
        rw
          (check_account_free now password row credential s free cred
            ∙ wrong_secret ports email password now row credential s alone b wrong free hit
                fits_one)
          (
            failed_row ports.lockout now row,
            refl,
            (
              refl,
              (
                ap (find (has_email email)) users ∙ after,
                rw (i, users) still,
                rw (i, credentials) cred,
                omega (arith, fits),
              ),
            ),
          )

    attempt-IsAfter :
        (now : DateTime) (password : Text) (row : Loaded User) (room : ℕ)
        (s : Session Db IdentityError)
        → parse_plain_password password ≡ ok password
        → ports.verify password credential.password_hash ≡ false
        → IsReady email row credential (suc room) s
        → IsAfter now row room (sign_in ports now raw password s)
    attempt-IsAfter now password row room s parsed wrong ready =
        let known =
          sign_in_known now password s parsed
          ∙ ap (λ found. check_account ports now email password found s) ready.1.0 in
        elim (Bool-cases (is_locked now row.aggregate)) [
          | inl locked ↦ rw known (attempt_locked now password row room s locked ready)
          | inr free ↦ rw known (attempt_free now password row room s free wrong ready)
        ]

    -- The account after any series of wrong passwords is the aggregate after these failures.
    pub try_all-fails :
        (attempts : List (DateTime × Text)) (row : Loaded User) (room : ℕ)
        (s : Session Db IdentityError)
        → AreWrong ports credential attempts
        → IsReady email row credential (length attempts + room) s
        → (row' : Loaded User) × (row'.aggregate
            ≡ fail_all ports.lockout (times_of attempts) row.aggregate)
          × IsReady email row' credential room (try_all ports raw attempts s)
    unfolding try_all fail_all IsAfter
    try_all-fails [] row room s wrong ready =
        (row, refl, subst (λ n. IsReady email row credential n s) (omega arith) ready)
    try_all-fails ((now, password) ∷ attempts) row room s wrong ready =
        let (row', one, ready') =
          attempt-IsAfter now password row (length attempts + room) s wrong.0.0 wrong.0.1
            (subst (λ n. IsReady email row credential n s) (omega arith) ready) in
        let (row'', rest, ready'') =
          try_all-fails attempts row' room (sign_in ports now raw password s).1 wrong.1 ready' in
        (row'', rest ∙ ap (fail_all ports.lockout (times_of attempts)) one, ready'')

times_of-append :
    (xs ys : List (DateTime × Text)) → times_of (xs ++ ys) ≡ times_of xs ++ times_of ys
times_of-append [] ys = refl
times_of-append ((now, password) ∷ xs) ys = ap (λ ts. now ∷ ts) (times_of-append xs ys)

length-times_of : (xs : List (DateTime × Text)) → length (times_of xs) ≡ length xs
length-times_of [] = refl
length-times_of ((now, password) ∷ xs) = ap suc (length-times_of xs)

-- The series of attempts of a brute force: the last of the first part reaches the threshold.
abbrev pub series :
    List (DateTime × Text) → DateTime × Text → List (DateTime × Text) → List (DateTime × Text)
series early last during = (early ++ last ∷ []) ++ during

-- A brute force against an unlocked account: the last of its first part reaches the threshold, and the
-- attempts after it are made before the lock's end.
abbrev pub IsBruteForce :
    Ports
    → Text
    → Text
    → Credential
    → Loaded User
    → List (DateTime × Text)
    → DateTime × Text
    → List (DateTime × Text)
    → Session Db IdentityError
    → Type 0
IsBruteForce ports raw email credential row early last during s =
    (IsNormal ports raw email × IsAlone ports)
    × IsReady email row credential (length (series early last during) + 1) s
    × (row.aggregate.locked_until ≡ none)
    × (row.aggregate.failed_auth_attempts + length early + 1 ≡ ports.lockout.threshold)
    × AreWrong ports credential (series early last during)
    × All (λ at. at < last.0 + ports.lockout.duration_ms) (times_of during)

-- The account after a brute force: locked until the duration after the attempt that reached the threshold.
pub brute_force-locks :
    (ports : Ports) (raw email : Text) (credential : Credential) (row : Loaded User)
    (early during : List (DateTime × Text)) (last : DateTime × Text) (s : Session Db IdentityError)
    → IsBruteForce ports raw email credential row early last during s
    → (row' : Loaded User) × (row'.aggregate
        ≡ fail_all ports.lockout (times_of (series early last during)) row.aggregate)
      × ((now : DateTime)
          → is_locked now row'.aggregate ≡ ltb now (last.0 + ports.lockout.duration_ms))
      × IsReady email row' credential 1 (try_all ports raw (series early last during) s)
brute_force-locks ports raw email credential row early during last s
      ((normal, alone), ready, fresh, n, wrong, in_lock) =
    let (row', fails, ready') =
      try_all-fails ports raw email normal credential alone (series early last during) row 1 s wrong
        ready in
    let times : times_of (series early last during)
        ≡ (times_of early ++ last.0 ∷ []) ++ times_of during =
      times_of-append (early ++ last ∷ []) during
      ∙ ap (λ ts. ts ++ times_of during) (times_of-append early (last ∷ [])) in
    (
      row',
      fails,
      λ now.
          ap (is_locked now) (fails ∙ ap (λ ts. fail_all ports.lockout ts row.aggregate) times)
          ∙ fail_all_locks ports.lockout (times_of early) (times_of during) last.0 now row.aggregate
              fresh (omega (arith, n, length-times_of early)) in_lock,
      ready',
    )

-- After a brute force, every attempt before the lock's end is refused as locked out, with the right password
-- too, whatever wrong attempts were made during the lock.
pub sign_in_brute_force :
    (ports : Ports) (raw email : Text) (credential : Credential) (row : Loaded User)
    (early during : List (DateTime × Text)) (last : DateTime × Text) (now : DateTime)
    (password : Text) (s : Session Db IdentityError)
    → IsBruteForce ports raw email credential row early last during s
    → parse_plain_password password ≡ ok password
    → now < last.0 + ports.lockout.duration_ms
    → (sign_in ports now raw password (try_all ports raw (series early last during) s)).0
      ≡ declined user_locked_out
sign_in_brute_force ports raw email credential row early during last now password s force parsed
      soon =
    let (row', fails, locks, (b, ready)) =
      brute_force-locks ports raw email credential row early during last s force in
    let after = try_all ports raw (series early last during) s in
    ap (λ (p : Settled IdentityError SignedInView × Session Db IdentityError). p.0)
      (sign_in_known ports raw email force.0.0 now password after parsed
        ∙ ap (λ found. check_account ports now email password found after) ready.0
        ∙ check_account_locked ports raw email force.0.0 now password row' after
            (ground (arith, locks now, soon)))

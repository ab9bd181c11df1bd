-- ===== src/Identity/SignIn/Answers.antt =====
-- What failed attempts at signing in write: the stored account follows the aggregate's lockout.
use main_acounting_system.Prelude.{
  All-find, AtMostOne, Bool, Bool-cases, List, [], any, ap, arith, false, find, if◌then◌else◌,
  if◌then◌else◌, if◌then◌else◌, inl, inr, ltb, map, none, not, refl, some, subst, sym, true, ℕ,
  ◌&&◌, ◌+◌, ◌==◌, ◌∙◌, ◌∷◌, ◌≡◌, ◌≤◌,
}
use main_acounting_system.Identity.{IdentityError, invalid_credentials}
use main_acounting_system.Identity.Authorize.{Action}
use main_acounting_system.Identity.SignIn.{
  Ports, SignedInView, after_failure, check_credential, failure_work, get_credential,
  max_lockout_write_attempts, max_revision, record_failed_attempt, swap_user, swaps_user,
  update_user,
}
use main_acounting_system.Identity.Store.{Credential, Db, Loaded, has_email, user_is}
use main_acounting_system.Identity.User.{
  LockoutPolicy, User, count_failure, is_locked, is_set, record_failed_authentication,
}
use main_acounting_system.Primitives.EntityId.{EntityId}
use main_acounting_system.Primitives.Text.{Text, text_eq}
use main_acounting_system.Time.{DateTime}
use main_acounting_system.Transaction.{
  Session, Settled, continue, decline, declined, execute, fresh_boundary, opened, resolved,
}

-- No other request commits while one runs.
abbrev pub IsAlone : Ports → Type 0
IsAlone ports = (n : ℕ) (db : Db) → ports.others n db ≡ db

-- The account with a credential that the email names, at a revision that leaves room for more.
abbrev pub IsAccount : Text → Loaded User → Credential → ℕ → Db → Type 0
IsAccount email row credential room db =
    (find (has_email email) db.users ≡ some row)
    × AtMostOne (user_is row.aggregate.id) db.users
    × (get_credential row.aggregate.id db ≡ some credential)
    × (row.revision + room ≤ max_revision)

pub frame :
    (policy : LockoutPolicy) (now : DateTime) (user : User)
    → let user' = record_failed_authentication policy now user in
      (user'.id ≡ user.id)
      × (user'.email ≡ user.email)
      × (user'.created_at ≡ user.created_at)
      × (user'.status ≡ user.status)
unfolding record_failed_authentication count_failure
frame policy now user = elim (Bool-cases (is_locked now user)) [
  | inl e ↦ rw e (refl, refl, refl, refl)
  | inr e ↦ elim (Bool-cases (is_set user.locked_until)) [
    | inl k ↦ rw (e, k) (refl, refl, refl, refl)
    | inr k ↦ rw (e, k) (refl, refl, refl, refl)
  ]
]

-- The row that the write leaves in place of the one that was read.
abbrev pub failed_row : LockoutPolicy → DateTime → Loaded User → Loaded User
failed_row policy now row = record {
  aggregate = record_failed_authentication policy now row.aggregate;
  revision = row.revision + 1;
}

swap_user-own :
    (user : User) (row : Loaded User)
    → user.id ≡ row.aggregate.id
    → user.created_at ≡ row.aggregate.created_at
    → swap_user user row.revision row ≡ record { aggregate = user; revision = row.revision + 1 }
unfolding swap_user
swap_user-own user row i c =
    let hit : (row.aggregate.id == user.id && row.revision == row.revision) ≡ true =
      ground (arith, i) in
    rw (hit, sym i, sym c) refl

pub swap_user-id :
    (user : User) (revision : ℕ) (id : EntityId) (row : Loaded User)
    → user_is id (swap_user user revision row) ≡ user_is id row
unfolding swap_user
swap_user-id user revision id row = ground arith

swap_user-other :
    (user : User) (revision : ℕ) (y : Loaded User)
    → user_is user.id y ≡ false
    → (swap_user user revision y ≡ y) × (swaps_user user revision y ≡ false)
unfolding swap_user
swap_user-other user revision y h =
    let misses : swaps_user user revision y ≡ false = ground (arith, h) in (rw misses refl, misses)

-- The write finds the row that was read, and leaves the new one where the email led.
abbrev pub IsSwapped : Text → User → List (Loaded User) → Loaded User → Type 0
IsSwapped email user users row =
    (any (swaps_user user row.revision) users ≡ true)
    × (find (has_email email) (map (swap_user user row.revision) users)
        ≡ some (record { aggregate = user; revision = row.revision + 1 }))

IsSwapped-first :
    (email : Text) (user : User) (y : Loaded User) (users : List (Loaded User))
    → has_email email y ≡ true
    → user.id ≡ y.aggregate.id
    → user.email ≡ y.aggregate.email
    → user.created_at ≡ y.aggregate.created_at
    → IsSwapped email user (y ∷ users) y
IsSwapped-first email user y users e i m c =
    let hit : swaps_user user y.revision y ≡ true = ground (arith, i) in
    let mail : text_eq user.email email ≡ true = rw m e in
    (
      rw (hit, any) refl,
      rw (swap_user-own user y i c, mail, find, map) (ap some (swap_user-own user y i c)),
    )

pub find-IsSwapped :
    (email : Text) (user : User) (users : List (Loaded User)) {row : Loaded User}
    → find (has_email email) users ≡ some row
    → AtMostOne (user_is row.aggregate.id) users
    → user.id ≡ row.aggregate.id
    → user.email ≡ row.aggregate.email
    → user.created_at ≡ row.aggregate.created_at
    → IsSwapped email user users row
find-IsSwapped email user [] h one i m c = cc
find-IsSwapped email user (y ∷ users) {row} h one i m c = elim (Bool-cases (has_email email y)) [
  | inl e ↦
      let here : y ≡ row = ground (arith, h, e) in
      subst
        (λ (r : Loaded User).
          user.id ≡ r.aggregate.id
          → user.email ≡ r.aggregate.email
          → user.created_at ≡ r.aggregate.created_at
          → IsSwapped email user (y ∷ users) r)
        here (IsSwapped-first email user y users e) i m c
  | inr e ↦
      let later : find (has_email email) users ≡ some row = ground (arith, h, e) in
      let apart : user_is row.aggregate.id y ≡ false =
        elim (Bool-cases (user_is row.aggregate.id y)) [
          | inr k ↦ k
          | inl k ↦ absurd (
              ground (
                arith,
                All-find (λ z. user_is row.aggregate.id z ≡ false) (has_email email) users (one.0 k)
                    later,
              ))
        ] in
      let other = swap_user-other user row.revision y (rw i apart) in
      let (hit, found) = find-IsSwapped email user users later one.1 i m c in
      (rw (other.1, any) hit, rw (other.0, e, find, map) found)
]

pub if_true : {A : Type 0} {b : Bool} (x y : A) → b ≡ true → (if b then x else y) ≡ x
if_true x y h = rw h refl

pub if_false : {A : Type 0} {b : Bool} (x y : A) → b ≡ false → (if b then x else y) ≡ y
if_false x y h = rw h refl

pub negated : {b : Bool} → b ≡ false → not b ≡ true
negated h = rw h refl

-- The outermost work that answers, with the boundary as it was opened.
pub execute_resolved :
    {A : Type 0} {a : A} (work : Action A) (s : Session Db IdentityError)
    → s.boundary ≡ none
    → (work (opened s)).0 ≡ resolved a
    → (work (opened s)).1.boundary ≡ some fresh_boundary
    → execute work s ≡ (resolved a, record { store = (work (opened s)).1.store; boundary = none })
unfolding execute
execute_resolved work s b r kept = rw (b, r, kept) refl

module _ (ports : Ports) (email secret : Text) where
  -- The work of one failure, on the account that the email names.
  pub failure_work_lem :
      (now : DateTime) (row : Loaded User) (s : Session Db IdentityError)
      → any
          (swaps_user (record_failed_authentication ports.lockout now row.aggregate) row.revision)
          s.store.users
        ≡ true
      → row.revision + 1 ≤ max_revision
      → let (r, s') = failure_work ports now email row s in
        (r ≡ resolved tt)
        × (s'.boundary ≡ s.boundary)
        × (s'.store.credentials ≡ s.store.credentials)
        × (s'.store.users
            ≡ map
                (swap_user
                  (record_failed_authentication ports.lockout now row.aggregate)
                  row.revision)
                s.store.users)
  unfolding failure_work update_user
  failure_work_lem now row s hit room =
      let fits : ltb max_revision (row.revision + 1) ≡ false = ground (arith, room) in
      elim (Bool-cases
        (is_locked now (record_failed_authentication ports.lockout now row.aggregate))) [
          | inl e ↦ rw (hit, fits, e) (refl, refl, refl, refl)
          | inr e ↦ rw (hit, fits, e) (refl, refl, refl, refl)
        ]

  -- A wrong secret against an account that is not locked.
  pub wrong_secret :
      (now : DateTime) (row : Loaded User) (credential : Credential) (s : Session Db IdentityError)
      → IsAlone ports
      → s.boundary ≡ none
      → ports.verify secret credential.password_hash ≡ false
      → is_locked now row.aggregate ≡ false
      → any
          (swaps_user (record_failed_authentication ports.lockout now row.aggregate) row.revision)
          s.store.users
        ≡ true
      → row.revision + 1 ≤ max_revision
      → check_credential ports now email secret row (some credential) s ≡ (
        declined invalid_credentials,
        record { store = (failure_work ports now email row (opened s)).1.store; boundary = none },
      )
  unfolding check_credential record_failed_attempt after_failure
  wrong_secret now row credential s alone b v free hit room =
      let work = failure_work_lem now row (opened s) hit room in
      let quiet : record s { store = ports.others 2 s.store } ≡ s =
        ap (λ (db : Db). record s { store = db }) (alone 2 s.store) in
      let done =
        ap (execute (failure_work ports now email row)) quiet
        ∙ execute_resolved (failure_work ports now email row) s b work.0 work.1 in
      let recorded : record_failed_attempt ports now max_lockout_write_attempts email (some row) s
          ≡ _ =
        ap (λ (f : Action (Unit {0})). f s) (if_false _ _ free)
        ∙ ap
            (λ (p : Settled IdentityError (Unit {0}) × Session Db IdentityError).
              after_failure ports now 2 (record_failed_attempt ports now 2 email) row.aggregate.id
                p.0 p.1)
            done in
      ap (λ (f : Action SignedInView). f s) (if_true _ _ (negated v))
      ∙ ap
          (λ (p : Settled IdentityError (Unit {0}) × Session Db IdentityError).
            continue p.0 (λ _. decline invalid_credentials) p.1)
          recorded

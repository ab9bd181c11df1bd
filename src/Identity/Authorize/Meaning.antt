-- ===== src/Identity/Authorize/Meaning.antt =====
-- When authorize-action allows a tenant's operation, told by the tables alone.
use main_acounting_system.Prelude.{
  Any, AtMostOne, Bool, Bool-cases, List, Option, [], any, arith, both_true, false, filter, find,
  find_complete, find_sound, inl, inr, none, refl, some, sym, true, ◌&&◌, ◌||◌, ◌∙◌, ◌∷◌, ◌≡◌,
}
use main_acounting_system.Identity.Membership.{
  Membership, MembershipRole, is_active_assignment, is_active_membership,
}
use main_acounting_system.Identity.PermissionKey.{has_key}
use main_acounting_system.Identity.PermissionKey.Laws.{has_key-sort_keys}
use main_acounting_system.Identity.Permissions.{role_keys}
use main_acounting_system.Identity.Permissions.Cache.{gives, offers}
use main_acounting_system.Identity.Role.{Role, is_active_status, permissions_of}
use main_acounting_system.Identity.Store.{Db, Loaded, belongs_to, joins, role_is, user_is}
use main_acounting_system.Identity.User.{User, is_active_user}
use main_acounting_system.Primitives.EntityId.{EntityId}
use main_acounting_system.Primitives.Text.{Text}

module _ (db : Db) (tenant : EntityId) (key : Text) where
  -- A role of the tenant that is active and has the key.
  abbrev pub RoleOffers : EntityId → Type 0
  RoleOffers role =
      Any
        (λ (row : Loaded Role).
          (role_is role tenant row ≡ true)
          × ((is_active_status row.aggregate.status ≡ true)
              × (has_key row.aggregate.permissions key ≡ true)))
        db.roles

  -- An assignment of the membership, in the tenant, that is active and names such a role.
  abbrev pub MembershipOffers : EntityId → Type 0
  MembershipOffers membership =
      Any
        (λ (row : Loaded MembershipRole).
          (belongs_to membership tenant row ≡ true)
          × ((is_active_assignment row.aggregate.status ≡ true) × RoleOffers row.aggregate.role_id))
        db.assignments

  -- The user's active membership of the tenant offers the key.
  abbrev pub UserHolds : EntityId → Type 0
  UserHolds user =
      Any
        (λ (row : Loaded Membership).
          (joins user tenant row ≡ true)
          × ((is_active_membership row.aggregate.status ≡ true)
              × MembershipOffers row.aggregate.id))
        db.memberships

-- The user is there and active.
abbrev pub IsActiveUser : EntityId → Db → Type 0
IsActiveUser user db =
    Any
      (λ (row : Loaded User).
        (user_is user row ≡ true) × (is_active_user row.aggregate.status ≡ true))
      db.users

-- The primary keys of users and roles and the unique pair of a membership.
abbrev pub HasUniqueKeys : Db → Type 0
HasUniqueKeys db =
    ((user : EntityId) → AtMostOne (user_is user) db.users)
    × ((user tenant : EntityId) → AtMostOne (joins user tenant) db.memberships)
    × ((role tenant : EntityId) → AtMostOne (role_is role tenant) db.roles)

role_offer :
    (key : Text) (row : Loaded Role) (b : Bool)
    → is_active_status row.aggregate.status ≡ b
    → offers (role_keys (some row)) key ≡ (b && has_key (permissions_of row.aggregate) key)
unfolding role_keys has_key
role_offer key row true e = rw (e, role_keys) refl
role_offer key row false e = rw (e, role_keys) refl

offer_cases :
    (key : Text) (found : Option (Loaded Role))
    → offers (role_keys found) key ≡ true
    → (row : Loaded Role) × (found ≡ some row)
      × ((is_active_status row.aggregate.status ≡ true)
          × (has_key row.aggregate.permissions key ≡ true))
unfolding role_keys has_key
offer_cases key none h = cc
offer_cases key (some row) h = elim (Bool-cases (is_active_status row.aggregate.status)) [
  | inl e ↦ (
    row,
    refl,
    (
      e,
      sym (has_key-sort_keys row.aggregate.permissions key) ∙ sym (role_offer key row true e) ∙ h,
    ),
  )
  | inr e ↦ absurd (ground (arith, role_offer key row false e, h))
]

offer_of :
    (key : Text) (row : Loaded Role)
    → is_active_status row.aggregate.status ≡ true
    → has_key row.aggregate.permissions key ≡ true
    → offers (role_keys (some row)) key ≡ true
unfolding role_keys has_key
offer_of key row active has =
    rw (active, role_keys) (has_key-sort_keys row.aggregate.permissions key ∙ has)

offers_sound :
    (db : Db) (tenant role : EntityId) (key : Text)
    → offers (role_keys (find (role_is role tenant) db.roles)) key ≡ true
    → RoleOffers db tenant key role
offers_sound db tenant role key h =
    let (row, e, both) = offer_cases key (find (role_is role tenant) db.roles) h in
    find_sound (role_is role tenant) _ db.roles e both

offers_complete :
    (db : Db) (tenant role : EntityId) (key : Text)
    → AtMostOne (role_is role tenant) db.roles
    → RoleOffers db tenant key role
    → offers (role_keys (find (role_is role tenant) db.roles)) key ≡ true
offers_complete db tenant role key one h =
    let (row, e, both) = find_complete (role_is role tenant) _ db.roles one h in
    rw e (offer_of key row both.0 both.1)

module _ {A : Type 0} (p q : A → Bool) (x : A) (xs : List A) where
  skipped : p x ≡ false → any q (filter p xs) ≡ any q (filter p (x ∷ xs))
  skipped e = rw (e, filter) refl

  taken : p x ≡ true → (q x || any q (filter p xs)) ≡ any q (filter p (x ∷ xs))
  taken e = rw (e, filter) refl

pub gives_sound :
    (db : Db) (tenant membership : EntityId) (key : Text) (rows : List (Loaded MembershipRole))
    → any (gives db tenant key) (filter (belongs_to membership tenant) rows) ≡ true
    → Any
        (λ (row : Loaded MembershipRole).
          (belongs_to membership tenant row ≡ true)
          × ((is_active_assignment row.aggregate.status ≡ true)
              × RoleOffers db tenant key row.aggregate.role_id))
        rows
gives_sound db tenant membership key [] h = cc
gives_sound db tenant membership key (row ∷ rows) h =
    elim (Bool-cases (belongs_to membership tenant row)) [
      | inr e ↦ inr (
          gives_sound db tenant membership key rows
            (skipped (belongs_to membership tenant) (gives db tenant key) row rows e ∙ h))
      | inl e ↦ elim (Bool-cases (gives db tenant key row)) [
        | inl g ↦
            let both = both_true _ _ g in
            inl (e, (both.0, offers_sound db tenant row.aggregate.role_id key both.1))
        | inr g ↦ inr (
            gives_sound db tenant membership key rows (
              ground (
                arith,
                g,
                h,
                taken (belongs_to membership tenant) (gives db tenant key) row rows e,
              )))
      ]
    ]

pub gives_complete :
    (db : Db) (tenant membership : EntityId) (key : Text) (rows : List (Loaded MembershipRole))
    → ((role : EntityId) → AtMostOne (role_is role tenant) db.roles)
    → Any
        (λ (row : Loaded MembershipRole).
          (belongs_to membership tenant row ≡ true)
          × ((is_active_assignment row.aggregate.status ≡ true)
              × RoleOffers db tenant key row.aggregate.role_id))
        rows
    → any (gives db tenant key) (filter (belongs_to membership tenant) rows) ≡ true
gives_complete db tenant membership key [] one h = absurd h
gives_complete db tenant membership key (row ∷ rows) one (inl (b, (a, offer))) =
    rw
      (
        b,
        filter,
        any,
        a,
        offers_complete db tenant row.aggregate.role_id key (one row.aggregate.role_id) offer,
      )
      refl
gives_complete db tenant membership key (row ∷ rows) one (inr h) =
    let later = gives_complete db tenant membership key rows one h in
    elim (Bool-cases (belongs_to membership tenant row)) [
      | inl e ↦
          ground
            (arith, later, taken (belongs_to membership tenant) (gives db tenant key) row rows e)
      | inr e ↦
          sym (skipped (belongs_to membership tenant) (gives db tenant key) row rows e) ∙ later
    ]

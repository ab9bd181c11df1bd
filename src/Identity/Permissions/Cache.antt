-- ===== src/Identity/Permissions/Cache.antt =====
-- What the resolution of permissions grants: the reading of each role once changes nothing.
use main_acounting_system.Prelude.{
  ==_iff, All, Bool, Bool-cases, List, Option, [], any, ap, arith, filter, find, if◌then◌else◌,
  if◌then◌else◌, if◌then◌else◌, inl, inr, none, refl, some, sym, ◌&&◌, ◌==◌, ◌||◌, ◌∙◌, ◌∷◌, ◌≡◌,
}
use main_acounting_system.Identity.{IdentityError}
use main_acounting_system.Identity.Membership.{MembershipRole, is_active_assignment}
use main_acounting_system.Identity.PermissionKey.{KeySet, has_key}
use main_acounting_system.Identity.PermissionKey.Laws.{has_key-add_keys}
use main_acounting_system.Identity.Permissions.{
  Resolution, cached, grant_role, keys_or_none, resolve_assignments,
  resolve_effective_permission_keys, role_keys,
}
use main_acounting_system.Identity.Store.{Db, Loaded, belongs_to, role_is}
use main_acounting_system.Prelude.Outcome.{Outcome, ok}
use main_acounting_system.Primitives.EntityId.{EntityId}
use main_acounting_system.Primitives.Text.{Text}
use main_acounting_system.Tenancy.{available}

-- A key of a set that may be absent.
abbrev pub offers : Option (List Text) → Text → Bool
offers keys key = has_key (keys_or_none keys) key

-- The assignment is active, and its role as it stands in the table offers the key.
abbrev pub gives : Db → EntityId → Text → Loaded MembershipRole → Bool
gives db tenant key row =
    is_active_assignment row.aggregate.status
    && offers (role_keys (find (role_is row.aggregate.role_id tenant) db.roles)) key

-- Every role that was read is remembered as it stands in the table.
unfoldable pub IsCurrent : Db → EntityId → List (EntityId × Option (List Text)) → Type 0
IsCurrent db tenant =
    All
      (λ (e : EntityId × Option (List Text)). e.1 ≡ role_keys (find (role_is e.0 tenant) db.roles))

cached_step :
    (role id : EntityId) (keys : Option (List Text)) (rest : List (EntityId × Option (List Text)))
    → cached role ((id, keys) ∷ rest) ≡ (if id == role then some keys else cached role rest)
unfolding cached
cached_step role id keys rest = refl

cached-current :
    (db : Db) (tenant role : EntityId) (cache : List (EntityId × Option (List Text)))
    {keys : Option (List Text)}
    → IsCurrent db tenant cache
    → cached role cache ≡ some keys
    → keys ≡ role_keys (find (role_is role tenant) db.roles)
unfolding cached IsCurrent
cached-current db tenant role [] c h = cc
cached-current db tenant role ((id, k) ∷ rest) {keys} c h = elim (Bool-cases (id == role)) [
  | inl e ↦
      sym (ground (arith, cached_step role id k rest))
      ∙ c.0
      ∙ ap (λ i. role_keys (find (role_is i tenant) db.roles)) ((==_iff id role).0 e)
  | inr e ↦ cached-current db tenant role rest c.1 (ground (arith, cached_step role id k rest))
]

-- The step of a loop, over a cache that is current.
unfoldable pub IsStep :
    Db → EntityId → Resolution → (Text → Bool) → Outcome IdentityError Resolution → Type 0
IsStep db tenant r offered after =
    (r' : Resolution) × (after ≡ ok r')
    × IsCurrent db tenant r'.resolved_roles
    × ((key : Text) → has_key r'.granted key ≡ (has_key r.granted key || offered key))

grant_role-grants :
    (db : Db) (tenant role : EntityId) (r : Resolution) (hit : Option (Option (List Text)))
    → IsCurrent db tenant r.resolved_roles
    → cached role r.resolved_roles ≡ hit
    → IsStep db tenant r
        (offers (role_keys (find (role_is role tenant) db.roles)))
        (grant_role (available tenant) db r role hit)
unfolding IsStep IsCurrent grant_role
grant_role-grants db tenant role r (some keys) c h = (
  _,
  refl,
  c,
  λ key.
      has_key-add_keys (keys_or_none keys) r.granted key
      ∙ ap (λ k. has_key r.granted key || offers k key)
          (cached-current db tenant role r.resolved_roles c h),
)
grant_role-grants db tenant role r none c h =
    (_, refl, (refl, c), λ key. has_key-add_keys _ r.granted key)

-- The loop over a membership's assignments, over any cache that is current.
pub resolve_assignments-grants :
    (db : Db) (tenant : EntityId) (rows : List (Loaded MembershipRole)) (r : Resolution)
    → IsCurrent db tenant r.resolved_roles
    → IsStep db tenant r
        (λ key. any (gives db tenant key) rows)
        (resolve_assignments (available tenant) db rows r)
unfolding resolve_assignments IsStep IsCurrent
resolve_assignments-grants db tenant [] r c = (r, refl, c, λ key. ground arith)
resolve_assignments-grants db tenant (row ∷ rows) r c =
    elim (Bool-cases (is_active_assignment row.aggregate.status)) [
      | inr e ↦ let later = resolve_assignments-grants db tenant rows r c in rw e later
      | inl e ↦
          let (r', now, c', grants) =
            grant_role-grants db tenant row.aggregate.role_id r
              (cached row.aggregate.role_id r.resolved_roles) c refl in
          let (r'', rest, c'', all) = resolve_assignments-grants db tenant rows r' c' in
          rw (e, now, rest) (r'', refl, c'', λ key. ground (arith, grants key, all key))
    ]

-- The keys that one membership's assignments give, in the scope of its tenant, are those of the tables.
pub resolve_effective_permission_keys_lem :
    (db : Db) (tenant membership : EntityId)
    → (keys : KeySet) × (resolve_effective_permission_keys (available tenant) db (membership ∷ [])
        ≡ ok keys)
      × ((key : Text)
          → has_key keys key
            ≡ any (gives db tenant key) (filter (belongs_to membership tenant) db.assignments))
unfolding resolve_effective_permission_keys IsStep IsCurrent
resolve_effective_permission_keys_lem db tenant membership =
    let (r, done, c, grants) =
      resolve_assignments-grants db tenant (filter (belongs_to membership tenant) db.assignments)
        (record { granted = []; resolved_roles = [] }) tt in
    rw done (r.granted, refl, grants)

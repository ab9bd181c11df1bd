-- ===== src/Accounting/Periods/Isolation.antt =====
-- One company's requests do not reach another company's periods.
use main_acounting_system.Prelude.{
  All, List, Option-cases, [], arith, inl, inr, none, refl, ℕ, ◌∙◌, ◌∷◌, ◌≡◌, ◌≢◌,
}
use main_acounting_system.Accounting.Errors.{DomainError}
use main_acounting_system.Accounting.FiscalPeriod.{FiscalPeriod}
use main_acounting_system.Accounting.Periods.Command.{
  Command, HasEffect, handle, handle-HasEffect, serve,
}
use main_acounting_system.Accounting.Periods.Effects.{Effect, selected, swapped, unchanged, wrote}
use main_acounting_system.Accounting.Store.{
  Db, FiscalPeriodRow, find_period, lookup_active, swap_row,
}
use main_acounting_system.Accounting.Store.Rows.{
  find_period-swap_row, find_period_sound, lookup_active-set_active_row,
}
use main_acounting_system.Prelude.Outcome.{Outcome}
use main_acounting_system.Primitives.EntityId.{EntityId}
use main_acounting_system.Tenancy.{TenantContext, available, missing, system}
use main_acounting_system.Time.{DateTime}
use main_acounting_system.Transaction.{Session}

-- A company reads the same periods and the same active period from two stores.
abbrev pub SameFor : EntityId → Db → Db → Type 0
SameFor t db db' =
    ((id : EntityId) → find_period id t db'.periods ≡ find_period id t db.periods)
    × (lookup_active t db'.active ≡ lookup_active t db.active)

swap_row_other :
    (period : FiscalPeriod) (revision : ℕ) (tenant : EntityId) (row : FiscalPeriodRow)
    → tenant ≢ row.aggregate.tenant_id
    → swap_row period revision tenant row ≡ row
unfolding swap_row
swap_row_other period revision tenant row h = ground arith

find_period-swapped_other :
    (id t tenant : EntityId) (period : FiscalPeriod) (revision : ℕ) (rows : List FiscalPeriodRow)
    → tenant ≢ t
    → find_period id t (swapped period revision tenant rows) ≡ find_period id t rows
find_period-swapped_other id t tenant period revision rows h =
    elim (Option-cases (find_period id t rows)) [
      | inl e ↦ ground (arith, find_period-swap_row id t period revision tenant rows)
      | inr (row, e) ↦ ground (
        arith,
        find_period-swap_row id t period revision tenant rows,
        find_period_sound id t rows e,
        swap_row_other period revision tenant row,
      )
    ]

Effect-SameFor :
    (t tenant : EntityId) (db db' : Db) → tenant ≢ t → Effect tenant db db' → SameFor t db db'
Effect-SameFor t tenant db db' ne (unchanged h k) = (λ id. rw h, rw k)
Effect-SameFor t tenant db db' ne (selected id is_so h k) =
    (λ id'. rw h, ground (arith, lookup_active-set_active_row t tenant id db.active))
Effect-SameFor t tenant db db' ne (wrote period revision allowed h k) =
    (λ id. rw h (find_period-swapped_other id t tenant period revision db.periods ne), rw k)

-- A request in the scope of another company, of the system or of none.
abbrev pub IsForeign : EntityId → TenantContext → Type 0
IsForeign t (available tenant) = tenant ≢ t
IsForeign t system = Unit
IsForeign t missing = Unit

HasEffect-SameFor :
    (t : EntityId) (scope : TenantContext) (db db' : Db)
    → IsForeign t scope
    → HasEffect scope db db'
    → SameFor t db db'
HasEffect-SameFor t (available tenant) db db' ne e = Effect-SameFor t tenant db db' ne e
HasEffect-SameFor t system db db' ne e = rw e (λ id. refl, refl)
HasEffect-SameFor t missing db db' ne e = rw e (λ id. refl, refl)

SameFor-trans : (t : EntityId) (a b c : Db) → SameFor t a b → SameFor t b c → SameFor t a c
SameFor-trans t a b c h k = (λ id. k.0 id ∙ h.0 id, k.1 ∙ h.1)

module _ (authorize : EntityId → EntityId → Outcome DomainError (Unit {0})) (t : EntityId) where
  -- Requests of others leave a company's periods and its active period as they were.
  pub serve-SameFor :
      (requests : List (TenantContext × DateTime × Command)) (db : Db)
      → All (λ request. IsForeign t request.0) requests
      → SameFor t db (serve authorize requests db)
  unfolding serve
  serve-SameFor [] db _ = (λ id. refl, refl)
  serve-SameFor ((scope, now, command) ∷ rest) db (foreign, others) =
      let s : Session Db DomainError = record { store = db; boundary = none } in
      let db' = (handle authorize scope now command s).1.store in
      SameFor-trans t db db' (serve authorize rest db')
        (HasEffect-SameFor t scope db db' foreign (handle-HasEffect authorize scope now command s))
        (serve-SameFor rest db' others)

-- ===== src/Accounting/Periods/ActiveIsOpen.antt =====
-- The active period of a company is one of its open periods, whatever the three use cases do.
use main_acounting_system.Prelude.{List, [], arith, none, some, true, ℕ, ◌∷◌, ◌≡◌, ◌≢◌, ◌⊎◌}
use main_acounting_system.Accounting.Errors.{DomainError}
use main_acounting_system.Accounting.FiscalPeriod.{FiscalPeriod, is_open}
use main_acounting_system.Accounting.Periods.Command.{Command, HasEffect, handle-HasEffect, serve}
use main_acounting_system.Accounting.Periods.Effects.{Effect, selected, swapped, unchanged, wrote}
use main_acounting_system.Accounting.Store.{Db, find_period, lookup_active, set_active_row}
use main_acounting_system.Accounting.Store.Rows.{
  is_open_row, is_open_row-swap_row, lookup_active-set_active_row,
}
use main_acounting_system.Prelude.Outcome.{Outcome}
use main_acounting_system.Primitives.EntityId.{EntityId}
use main_acounting_system.Tenancy.{TenantContext, available, missing, system}
use main_acounting_system.Time.{DateTime}

abbrev pub ActiveIsOpen : Db → Type 0
ActiveIsOpen db =
    (t p : EntityId)
    → lookup_active t db.active ≡ some p
    → is_open_row (find_period p t db.periods) ≡ true

ActiveIsOpen-same :
    (db db' : Db)
    → db'.periods ≡ db.periods
    → db'.active ≡ db.active
    → ActiveIsOpen db
    → ActiveIsOpen db'
ActiveIsOpen-same db db' h k v t p e = rw h (v t p (rw k at e))

ActiveIsOpen-select :
    (db db' : Db) (tenant id : EntityId)
    → is_open_row (find_period id tenant db.periods) ≡ true
    → db'.periods ≡ db.periods
    → db'.active ≡ set_active_row tenant id db.active
    → ActiveIsOpen db
    → ActiveIsOpen db'
ActiveIsOpen-select db db' tenant id is_so h k v t p e =
    ground (arith, v t p, lookup_active-set_active_row t tenant id db.active)

ActiveIsOpen-swap :
    (db db' : Db) (tenant : EntityId) (period : FiscalPeriod) (revision : ℕ)
    → db'.active ≡ db.active
    → db'.periods ≡ swapped period revision tenant db.periods
    → (is_open period.state ≡ true) ⊎ (lookup_active tenant db.active ≢ some period.id)
    → ActiveIsOpen db
    → ActiveIsOpen db'
ActiveIsOpen-swap db db' tenant period revision h k allowed v t p e =
    let listed : lookup_active t db.active ≡ some p = rw h at e in
    rw k (is_open_row-swap_row p t period revision tenant db.periods (v t p listed) (ground arith))

Effect-ActiveIsOpen :
    (tenant : EntityId) (db db' : Db) → Effect tenant db db' → ActiveIsOpen db → ActiveIsOpen db'
Effect-ActiveIsOpen tenant db db' (unchanged h k) v = ActiveIsOpen-same db db' h k v
Effect-ActiveIsOpen tenant db db' (selected id is_so h k) v =
    ActiveIsOpen-select db db' tenant id is_so h k v
Effect-ActiveIsOpen tenant db db' (wrote period revision allowed h k) v =
    ActiveIsOpen-swap db db' tenant period revision k h allowed v

HasEffect-ActiveIsOpen :
    (scope : TenantContext) (db db' : Db)
    → HasEffect scope db db'
    → ActiveIsOpen db
    → ActiveIsOpen db'
HasEffect-ActiveIsOpen (available tenant) db db' e v = Effect-ActiveIsOpen tenant db db' e v
HasEffect-ActiveIsOpen system db db' e v = rw e v
HasEffect-ActiveIsOpen missing db db' e v = rw e v

module _ (authorize : EntityId → EntityId → Outcome DomainError (Unit {0})) where
  -- After any requests of any companies, served one after the other, the active period of every company
  -- is one of its own periods and open, if it was so at the start.
  pub serve-ActiveIsOpen :
      (requests : List (TenantContext × DateTime × Command)) (db : Db)
      → ActiveIsOpen db
      → ActiveIsOpen (serve authorize requests db)
  unfolding serve
  serve-ActiveIsOpen [] db v = v
  serve-ActiveIsOpen ((scope, now, command) ∷ rest) db v = serve-ActiveIsOpen rest _ (
      HasEffect-ActiveIsOpen scope db _
        (handle-HasEffect authorize scope now command (record { store = db; boundary = none })) v)

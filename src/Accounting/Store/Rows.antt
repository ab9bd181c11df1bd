-- ===== src/Accounting/Store/Rows.antt =====
-- Laws of the tables.
use main_acounting_system.Prelude.{
  Bool, List, Option, Option-cases, [], arith, false, if◌then◌else◌, if◌then◌else◌, if◌then◌else◌,
  inl, inr, map, none, refl, some, true, ℕ, ◌==◌, ◌∷◌, ◌≡◌, ◌≢◌, ◌⊎◌,
}
use main_acounting_system.Accounting.FiscalPeriod.{FiscalPeriod, is_open}
use main_acounting_system.Accounting.Store.{
  FiscalPeriodRow, find_period, lookup_active, set_active_row, swap_row,
}
use main_acounting_system.Primitives.EntityId.{EntityId}

abbrev pub is_open_row : Option FiscalPeriodRow → Bool
is_open_row none = false
is_open_row (some row) = is_open row.aggregate.state

pub lookup_active-set_active_row :
    (t tenant period : EntityId) (rows : List (EntityId × EntityId))
    → lookup_active t (set_active_row tenant period rows)
      ≡ (if tenant == t then some period else lookup_active t rows)
unfolding lookup_active set_active_row
lookup_active-set_active_row t tenant period [] = ground arith
lookup_active-set_active_row t tenant period (e ∷ rows) =
    ground (arith, lookup_active-set_active_row t tenant period rows)

-- A row that is found has the identity and the tenant that were asked for.
pub find_period_sound :
    (id tenant : EntityId) (rows : List FiscalPeriodRow) {row : FiscalPeriodRow}
    → find_period id tenant rows ≡ some row
    → (row.aggregate.id ≡ id) × (row.aggregate.tenant_id ≡ tenant)
unfolding find_period
find_period_sound id tenant [] h = cc
find_period_sound id tenant (r ∷ rows) {row} h =
    ground (arith, find_period_sound id tenant rows {row = row})

swap_row_frame :
    (period : FiscalPeriod) (expected : ℕ) (tenant : EntityId) (row : FiscalPeriodRow)
    → let row' = swap_row period expected tenant row in
      (row'.aggregate.id ≡ row.aggregate.id)
      × (row'.aggregate.tenant_id ≡ row.aggregate.tenant_id)
      × (row'.aggregate.range ≡ row.aggregate.range)
unfolding swap_row
swap_row_frame period expected tenant row = ground arith

abbrev pub map_row :
    (FiscalPeriodRow → FiscalPeriodRow) → Option FiscalPeriodRow → Option FiscalPeriodRow
map_row f none = none
map_row f (some row) = some (f row)

pub find_period-swap_row :
    (id t : EntityId) (period : FiscalPeriod) (expected : ℕ) (tenant : EntityId)
    (rows : List FiscalPeriodRow)
    → find_period id t (map (swap_row period expected tenant) rows)
      ≡ map_row (swap_row period expected tenant) (find_period id t rows)
unfolding find_period
find_period-swap_row id t period expected tenant [] = refl
find_period-swap_row id t period expected tenant (row ∷ rows) = ground (
  arith,
  swap_row_frame period expected tenant row,
  find_period-swap_row id t period expected tenant rows,
)

-- An open period stays open under a write to another period, and under a write that opens.
pub is_open_row-swap_row :
    (id t : EntityId) (period : FiscalPeriod) (expected : ℕ) (tenant : EntityId)
    (rows : List FiscalPeriodRow)
    → is_open_row (find_period id t rows) ≡ true
    → (is_open period.state ≡ true) ⊎ (tenant ≢ t) ⊎ (period.id ≢ id)
    → is_open_row (find_period id t (map (swap_row period expected tenant) rows)) ≡ true
unfolding swap_row
is_open_row-swap_row id t period expected tenant rows h k =
    elim (Option-cases (find_period id t rows)) [
      | inl e ↦ ground arith
      | inr (row, e) ↦ ground (
        arith,
        find_period-swap_row id t period expected tenant rows,
        find_period_sound id t rows e,
      )
    ]

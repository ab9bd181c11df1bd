-- ===== src/Accounting/Periods/Effects.antt =====
-- What the bodies of the use cases do to the tables, in the scope of their tenant.
use main_acounting_system.Prelude.{
  List, Option-cases, [], arith, inl, inr, map, none, refl, some, true, ℕ, ◌≡◌, ◌≢◌, ◌⊎◌,
}
use main_acounting_system.Accounting.Errors.{DomainError, period_not_found}
use main_acounting_system.Accounting.FiscalPeriod.{
  FiscalPeriod, close_period, closed, is_open, opened, reopen_period,
}
use main_acounting_system.Accounting.Periods.{close_body, reopen_body, select_body}
use main_acounting_system.Accounting.Store.{
  Db, FiscalPeriodRow, activate, find_period, get_period, lookup_active, period_id_for,
  record_audit, record_event, set_active_row, swap_row, update_period,
}
use main_acounting_system.Accounting.Store.Rows.{find_period_sound, is_open_row}
use main_acounting_system.Primitives.EntityId.{EntityId}
use main_acounting_system.Primitives.Text.{Text}
use main_acounting_system.Tenancy.{
  assert_tenant_criterion, assert_tenant_ownership, available, require_tenant_id,
}
use main_acounting_system.Time.{DateTime}
use main_acounting_system.Transaction.{Session, declined}
use main_acounting_system.Transaction.Atomicity.{Relates}

-- The write that the compare-and-swap of `update` makes on every row that fits.
abbrev pub swapped : FiscalPeriod → ℕ → EntityId → List FiscalPeriodRow → List FiscalPeriodRow
swapped period expected tenant rows = map (swap_row period expected tenant) rows

abbrev pub shut : FiscalPeriod → DateTime → FiscalPeriod
shut period now = record period { state = closed; updated_at = now }

abbrev pub reopened : FiscalPeriod → DateTime → FiscalPeriod
reopened period now = record period { state = opened; updated_at = now }

-- A period that its tenant does not have is declined, and nothing is written.
module _ (tenant id user : EntityId) (reason : Text) (now : DateTime)
    (s : Session Db DomainError) where
  pub bodies_not_found :
      find_period id tenant s.store.periods ≡ none
      → (select_body (available tenant) tenant id s ≡ (declined period_not_found, s))
        × (close_body (available tenant) tenant id user now s ≡ (declined period_not_found, s))
        × (reopen_body (available tenant) tenant id reason user now s
            ≡ (declined period_not_found, s))
  unfolding select_body close_body reopen_body get_period require_tenant_id
  bodies_not_found h = (rw h, rw h, rw h)

module _ (tenant id : EntityId) (s : Session Db DomainError) {row : FiscalPeriodRow}
    (found : find_period id tenant s.store.periods ≡ some row) where
  pub select_body_effect :
      let db = s.store in
      let db' = (select_body (available tenant) tenant id s).1.store in
      (db'.periods ≡ db.periods)
      × ((db'.active ≡ db.active)
          ⊎ ((db'.active ≡ set_active_row tenant id db.active) × (row.aggregate.state ≡ opened)))
  unfolding select_body get_period activate record_event assert_tenant_ownership
  select_body_effect = ground (arith, find_period_sound id tenant s.store.periods found)

  pub close_body_effect :
      (user : EntityId) (now : DateTime)
      → let db = s.store in
        let db' = (close_body (available tenant) tenant id user now s).1.store in
        (db'.active ≡ db.active)
        × ((db'.periods ≡ db.periods)
            ⊎ ((db'.periods ≡ swapped (shut row.aggregate now) row.revision tenant db.periods)
                × (lookup_active tenant db.active ≢ some id)))
  unfolding close_body get_period update_period period_id_for record_event record_audit
      assert_tenant_ownership assert_tenant_criterion close_period
  close_body_effect user now = ground (arith, find_period_sound id tenant s.store.periods found)

  pub reopen_body_effect :
      (reason : Text) (user : EntityId) (now : DateTime)
      → let db = s.store in
        let db' = (reopen_body (available tenant) tenant id reason user now s).1.store in
        (db'.active ≡ db.active)
        × ((db'.periods ≡ db.periods)
            ⊎ (db'.periods ≡ swapped (reopened row.aggregate now) row.revision tenant db.periods))
  unfolding reopen_body get_period update_period record_event record_audit assert_tenant_ownership
      reopen_period
  reopen_body_effect reason user now =
      ground (arith, find_period_sound id tenant s.store.periods found)

-- What a use case may do to the periods and the active period of its company.
pub data Effect (tenant : EntityId) (db db' : Db) : Type 0 where
  unchanged : db'.periods ≡ db.periods → db'.active ≡ db.active → Effect tenant db db'
  selected :
      (id : EntityId)
      → is_open_row (find_period id tenant db.periods) ≡ true
      → db'.periods ≡ db.periods
      → db'.active ≡ set_active_row tenant id db.active
      → Effect tenant db db'
  wrote :
      (period : FiscalPeriod) (revision : ℕ)
      → (is_open period.state ≡ true) ⊎ (lookup_active tenant db.active ≢ some period.id)
      → db'.periods ≡ swapped period revision tenant db.periods
      → db'.active ≡ db.active
      → Effect tenant db db'

pub Effect-same : (tenant : EntityId) (db : Db) → Effect tenant db db
Effect-same tenant db = unchanged refl refl

module _ (tenant id : EntityId) where
  pub select_body-Effect : Relates (Effect tenant) (select_body (available tenant) tenant id)
  select_body-Effect s = elim (Option-cases (find_period id tenant s.store.periods)) [
    | inl none_found ↦
        let (e, _, _) = bodies_not_found tenant id 0 [] 0 s none_found in
        rw e (Effect-same tenant s.store)
    | inr (row, found) ↦
        let (periods, choice) = select_body_effect tenant id s found in
        elim choice [
          | inl same ↦ unchanged periods same
          | inr (moved, is_so) ↦ selected id (rw (found, is_so)) periods moved
        ]
  ]

  pub close_body-Effect :
      (user : EntityId) (now : DateTime)
      → Relates (Effect tenant) (close_body (available tenant) tenant id user now)
  close_body-Effect user now s = elim (Option-cases (find_period id tenant s.store.periods)) [
    | inl none_found ↦
        let (_, e, _) = bodies_not_found tenant id user [] now s none_found in
        rw e (Effect-same tenant s.store)
    | inr (row, found) ↦
        let (active, choice) = close_body_effect tenant id s found user now in
        elim choice [
          | inl same ↦ unchanged same active
          | inr (closed_row, other) ↦
              wrote (shut row.aggregate now) row.revision
                (inr (rw (find_period_sound id tenant s.store.periods found).0 other)) closed_row
                active
        ]
  ]

  pub reopen_body-Effect :
      (reason : Text) (user : EntityId) (now : DateTime)
      → Relates (Effect tenant) (reopen_body (available tenant) tenant id reason user now)
  reopen_body-Effect reason user now s =
      elim (Option-cases (find_period id tenant s.store.periods)) [
        | inl none_found ↦
            let (_, _, e) = bodies_not_found tenant id user reason now s none_found in
            rw e (Effect-same tenant s.store)
        | inr (row, found) ↦
            let (active, choice) = reopen_body_effect tenant id s found reason user now in
            elim choice [
              | inl same ↦ unchanged same active
              | inr opened_row ↦
                  wrote (reopened row.aggregate now) row.revision (inl refl) opened_row active
            ]
      ]

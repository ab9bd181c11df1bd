-- ===== src/Accounting/Periods/Answers.antt =====
-- What the close use case answers on each of its branches, and what it writes.
use main_acounting_system.Prelude.{
  Bool, Bool-cases, List, Option, Option-cases, [], any, ap, arith, false, if◌then◌else◌,
  if◌then◌else◌, if◌then◌else◌, inl, inr, none, not, refl, some, true, ◌&&◌, ◌++◌, ◌+◌, ◌<◌, ◌==◌,
  ◌∙◌, ◌∷◌, ◌≡◌, ◌≢◌, ◌⊎◌,
}
use main_acounting_system.Accounting.Errors.{DomainError, period_state_invalid}
use main_acounting_system.Accounting.FiscalPeriod.{
  FiscalPeriod, FiscalPeriodState, close_period, closed, opened,
}
use main_acounting_system.Accounting.Periods.{
  audit_entry, close_body, close_fiscal_period, parse_fiscal_period_id,
}
use main_acounting_system.Accounting.Periods.Effects.{shut, swapped}
use main_acounting_system.Accounting.Store.{
  Db, FiscalPeriodRow, aggregate_id, close_action, find_period, fiscal_period_closed, get_period,
  lookup_active, max_revision, period_id_for, record_audit, record_event, swap_row, swaps,
  update_period,
}
use main_acounting_system.Accounting.Store.Rows.{find_period-swap_row, find_period_sound}
use main_acounting_system.Prelude.Outcome.{Outcome, ok}
use main_acounting_system.Primitives.EntityId.{EntityId}
use main_acounting_system.Primitives.Text.{Text}
use main_acounting_system.Tenancy.{
  assert_tenant_criterion, assert_tenant_ownership, available, require_tenant_id,
}
use main_acounting_system.Time.{DateTime}
use main_acounting_system.Transaction.{declined, execute, fresh_boundary, resolved}
use main_acounting_system.Transaction.Atomicity.{execute_failure, is_resolved}

swaps_found :
    (id tenant : EntityId) (rows : List FiscalPeriodRow) {row : FiscalPeriodRow} (now : DateTime)
    → find_period id tenant rows ≡ some row
    → any (swaps (shut row.aggregate now) row.revision tenant) rows ≡ true
unfolding find_period swaps
swaps_found id tenant [] now h = cc
swaps_found id tenant (r ∷ rows) {row} now h =
    ground (arith, swaps_found id tenant rows {row = row} now)

-- A closed period, or the active one.
abbrev pub blocks : FiscalPeriodState → Option EntityId → EntityId → Bool
blocks closed active id = true
blocks opened none id = false
blocks opened (some active) id = active == id

blocked_cases :
    (state : FiscalPeriodState) (active : Option EntityId) (id : EntityId)
    → blocks state active id ≡ true
    → (state ≡ closed) ⊎ (active ≡ some id)
blocked_cases state active id h = ground arith

free_cases :
    (state : FiscalPeriodState) (active : Option EntityId) (id : EntityId)
    → blocks state active id ≡ false
    → (state ≡ opened) × (active ≢ some id)
free_cases state active id h = ground arith

-- Every row after a close.
find_period-shut :
    (id tenant : EntityId) (now : DateTime) (rows : List FiscalPeriodRow) {row : FiscalPeriodRow}
    → find_period id tenant rows ≡ some row
    → (k t : EntityId)
    → find_period k t (swapped (shut row.aggregate now) row.revision tenant rows) ≡ (
        if k == id && t == tenant
        then some (record { aggregate = shut row.aggregate now; revision = row.revision + 1 })
        else find_period k t rows)
unfolding swap_row swaps
find_period-shut id tenant now rows {row} found k t = elim (Option-cases (find_period k t rows)) [
  | inl e ↦
      ground (arith, find_period-swap_row k t (shut row.aggregate now) row.revision tenant rows)
  | inr (r, e) ↦ ground (
    arith,
    find_period-swap_row k t (shut row.aggregate now) row.revision tenant rows,
    find_period_sound k t rows e,
    find_period_sound id tenant rows found,
  )
]

-- The tables after a close.
abbrev pub after_close : EntityId → EntityId → DateTime → FiscalPeriodRow → Db → Db
after_close tenant user now row db =
    let period = shut row.aggregate now in
    record db {
      periods = swapped period row.revision tenant db.periods;
      events =
          db.events
          ++ fiscal_period_closed tenant period.id period.fiscal_year_id period.sequence user ∷ [];
      audit = db.audit ++ audit_entry close_action true user (aggregate_id period.id) ∷ [];
    }

module _ (tenant id user : EntityId) (now : DateTime) (db : Db) {row : FiscalPeriodRow}
    (found : find_period id tenant db.periods ≡ some row) where
  close_body_resolves :
      row.aggregate.state ≡ opened
      → lookup_active tenant db.active ≢ some id
      → row.revision < max_revision
      → close_body
          (available tenant)
          tenant
          id
          user
          now
          (record { store = db; boundary = some fresh_boundary })
        ≡ (
          resolved (shut row.aggregate now),
          record { store = after_close tenant user now row db; boundary = some fresh_boundary },
        )
  unfolding close_body get_period update_period period_id_for record_event record_audit
      assert_tenant_ownership assert_tenant_criterion close_period
  close_body_resolves is_so other small = ground (
    arith,
    find_period_sound id tenant db.periods found,
    swaps_found id tenant db.periods now found,
  )

  close_body_declines :
      (row.aggregate.state ≡ closed) ⊎ (lookup_active tenant db.active ≡ some id)
      → (close_body
          (available tenant)
          tenant
          id
          user
          now
          (record { store = db; boundary = some fresh_boundary })).0
        ≡ declined period_state_invalid
  unfolding close_body get_period update_period period_id_for record_event record_audit
      assert_tenant_ownership assert_tenant_criterion close_period
  close_body_declines reason = ground (arith, find_period_sound id tenant db.periods found)

module _ (authorize : EntityId → EntityId → Outcome DomainError (Unit {0})) (tenant user : EntityId)
    (raw : Text) (now : DateTime) (db : Db) {id : EntityId}
    (parsed : parse_fiscal_period_id raw ≡ ok id) where
  -- The two ways to answer.
  close_fiscal_period_branches :
      {row : FiscalPeriodRow}
      → authorize user tenant ≡ ok tt
      → find_period id tenant db.periods ≡ some row
      → let answer =
          close_fiscal_period
            (available tenant)
            authorize
            raw
            user
            now
            (record { store = db; boundary = none }) in
        (row.aggregate.state ≡ opened
          → lookup_active tenant db.active ≢ some id
          → row.revision < max_revision
          → answer ≡ (
            resolved (shut row.aggregate now),
            record { store = after_close tenant user now row db; boundary = none },
          ))
        × ((row.aggregate.state ≡ closed) ⊎ (lookup_active tenant db.active ≡ some id)
            → answer ≡ (declined period_state_invalid, record { store = db; boundary = none }))
  unfolding close_fiscal_period require_tenant_id execute
  close_fiscal_period_branches {row} allowed found = (
    λ is_so other small.
        rw (parsed, allowed, close_body_resolves tenant id user now db found is_so other small),
    λ reason.
        let declines = close_body_declines tenant id user now db found reason in
        rw (parsed, allowed)
          (execute_failure (close_body (available tenant) tenant id user now)
              (record { store = db; boundary = none }) refl (ap is_resolved declines)
            ∙ ap (λ r. (r, record { store = db; boundary = none })) declines),
  )

  close_fiscal_period_runs :
      {row : FiscalPeriodRow}
      → authorize user tenant ≡ ok tt
      → find_period id tenant db.periods ≡ some row
      → row.revision < max_revision
      → close_fiscal_period
          (available tenant)
          authorize
          raw
          user
          now
          (record { store = db; boundary = none })
        ≡ (if blocks row.aggregate.state (lookup_active tenant db.active) id
            then (declined period_state_invalid, record { store = db; boundary = none })
            else (
              resolved (shut row.aggregate now),
              record { store = after_close tenant user now row db; boundary = none },
            ))
  close_fiscal_period_runs {row} allowed found small =
      let (closes, declines) = close_fiscal_period_branches {row = row} allowed found in
      elim (Bool-cases (blocks row.aggregate.state (lookup_active tenant db.active) id)) [
        | inl e ↦
            rw e
              (declines (blocked_cases row.aggregate.state (lookup_active tenant db.active) id e))
        | inr e ↦
            let (is_so, other) =
              free_cases row.aggregate.state (lookup_active tenant db.active) id e in
            rw e (closes is_so other small)
      ]

  -- In the scope of a company, where no boundary is open, with the permission, an identity that can be read and a
  -- period of the company below the last revision: it is closed when it is open and not the company's active
  -- one. Then the answer is the closed period, its row has that state, the time and the next revision, every row of
  -- another identity or company stays, and one event and one audit entry are written. A closed or an active
  -- period is declined and nothing is written. The active periods and the years stay in any case.
  pub close_fiscal_period_answers :
      {row : FiscalPeriodRow} (k t : EntityId)
      → authorize user tenant ≡ ok tt
      → find_period id tenant db.periods ≡ some row
      → row.revision < max_revision
      → let blocked = blocks row.aggregate.state (lookup_active tenant db.active) id in
        let period : FiscalPeriod = record (row.aggregate) { state = closed; updated_at = now } in
        let closed_row : FiscalPeriodRow = record {
          aggregate = period;
          revision = row.revision + 1;
        } in
        let (answer, s) =
          close_fiscal_period
            (available tenant)
            authorize
            raw
            user
            now
            (record { store = db; boundary = none }) in
        (answer ≡ (if blocked then declined period_state_invalid else resolved period))
        × (find_period k t s.store.periods ≡ (
            if not blocked && (k == id && t == tenant)
            then some closed_row
            else find_period k t db.periods))
        × (s.store.events ≡ (
            if blocked
            then db.events
            else db.events
              ++ fiscal_period_closed tenant id row.aggregate.fiscal_year_id row.aggregate.sequence
                  user
                ∷ []))
        × (s.store.audit ≡ (
            if blocked
            then db.audit
            else db.audit
              ++ record {
                action = close_action;
                succeeded = true;
                actor = user;
                target = aggregate_id id;
              }
                ∷ []))
        × (s.store.active ≡ db.active)
        × (s.store.years ≡ db.years)
        × (s.boundary ≡ none)
  close_fiscal_period_answers {row} k t allowed found small =
      let runs = close_fiscal_period_runs {row = row} allowed found small in
      let (same, own) = find_period_sound id tenant db.periods found in
      elim (Bool-cases (blocks row.aggregate.state (lookup_active tenant db.active) id)) [
        | inl e ↦ rw (runs, e) (refl, refl, refl, refl, refl, refl, refl)
        | inr e ↦
            rw (runs, e)
              (
                refl,
                find_period-shut id tenant now db.periods found k t,
                ap
                    (λ i.
                      db.events
                      ++ fiscal_period_closed tenant i row.aggregate.fiscal_year_id
                          row.aggregate.sequence user
                        ∷ [])
                    same,
                ap (λ i. db.audit ++ audit_entry close_action true user (aggregate_id i) ∷ []) same,
                refl,
                refl,
                refl,
              )
      ]

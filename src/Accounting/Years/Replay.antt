-- ===== src/Accounting/Years/Replay.antt =====
-- Generating the periods of a year that has periods already.
use main_acounting_system.Prelude.{
  ==_iff, Bool, Bool-cases, List, [], any, ap, filter, inl, inr, leb, refl, true, ℕ, ◌∷◌, ◌≡◌,
}
use main_acounting_system.Accounting.Errors.{DomainError}
use main_acounting_system.Accounting.Generation.{FiscalPeriodPlan, plan}
use main_acounting_system.Accounting.Store.{Db, FiscalPeriodRow, find_year, get_year}
use main_acounting_system.Accounting.Years.{
  find_by_year, generate_body, generate_fiscal_periods, insert_by_sequence, of_year,
  order_by_sequence, write_unless_generated, year_owned_by,
}
use main_acounting_system.Prelude.Outcome.{Outcome-cases}
use main_acounting_system.Primitives.EntityId.{EntityId}
use main_acounting_system.Tenancy.{assert_tenant_criterion, available, require_tenant_id}
use main_acounting_system.Time.{DateTime}
use main_acounting_system.Transaction.{Session}
use main_acounting_system.Transaction.Atomicity.{execute-Relates}

-- The year has periods of the tenant.
abbrev pub IsGenerated : EntityId → EntityId → Db → Type 0
IsGenerated tenant year db = any (of_year year tenant) db.periods ≡ true

-- There is a first one.
abbrev IsNonempty : List FiscalPeriodRow → Type 0
IsNonempty rows = (row : FiscalPeriodRow) × (rest : List FiscalPeriodRow) × (rows ≡ row ∷ rest)

insert-IsNonempty :
    (row : FiscalPeriodRow) (rows : List FiscalPeriodRow) → IsNonempty (insert_by_sequence row rows)
unfolding insert_by_sequence
insert-IsNonempty row [] = (row, [], refl)
insert-IsNonempty row (r ∷ rows) =
    elim (Bool-cases (leb row.aggregate.sequence r.aggregate.sequence)) [
      | inl e ↦ rw e (row, r ∷ rows, refl)
      | inr e ↦ rw e (r, insert_by_sequence row rows, refl)
    ]

order-IsNonempty :
    (rows : List FiscalPeriodRow) → IsNonempty rows → IsNonempty (order_by_sequence rows)
unfolding order_by_sequence
order-IsNonempty [] (row, rest, e) = cc
order-IsNonempty (row ∷ rows) h = insert-IsNonempty row (order_by_sequence rows)

filter-IsNonempty :
    (p : FiscalPeriodRow → Bool) (rows : List FiscalPeriodRow)
    → any p rows ≡ true
    → IsNonempty (filter p rows)
filter-IsNonempty p [] h = cc
filter-IsNonempty p (row ∷ rows) h = elim (Bool-cases (p row)) [
  | inl e ↦ rw (e, filter) (row, filter p rows, refl)
  | inr e ↦ rw (e, filter) (filter-IsNonempty p rows (rw e at h))
]

module _ (ids : ℕ → EntityId) (now : DateTime) (tenant year : EntityId) where
  -- Periods that are there are answered, and the session stays.
  write_unless-kept :
      (p : FiscalPeriodPlan) (rows : List FiscalPeriodRow) (s : Session Db DomainError)
      → IsNonempty rows
      → (write_unless_generated (available tenant) ids now tenant year p rows s).1 ≡ s
  unfolding write_unless_generated
  write_unless-kept p [] s (row, rest, e) = cc
  write_unless-kept p (row ∷ rows) s h = refl

  pub generate_body-kept :
      (s : Session Db DomainError)
      → IsGenerated tenant year s.store
      → (generate_body (available tenant) ids now tenant year s).1.store ≡ s.store
  unfolding generate_body get_year require_tenant_id find_by_year assert_tenant_criterion
  generate_body-kept s h =
      elim (Outcome-cases (year_owned_by tenant (find_year year tenant s.store.years))) [
        | inr (e, refused) ↦ rw refused refl
        | inl (row, owned) ↦ rw owned (elim (Outcome-cases (plan row.aggregate.range)) [
          | inr (e, thrown) ↦ rw thrown refl
          | inl (outcome, planned) ↦ rw planned (elim (Outcome-cases outcome) [
            | inr (e, declines) ↦ rw declines refl
            | inl (p, answers) ↦
                rw (answers, (==_iff tenant tenant).1 refl)
                  (ap (λ (t : Session Db DomainError). t.store)
                    (write_unless-kept p
                      (order_by_sequence (filter (of_year year tenant) s.store.periods)) s
                      (order-IsNonempty _
                        (filter-IsNonempty (of_year year tenant) s.store.periods h))))
          ])
        ])
      ]

-- Once a year has a period of the company, generating its periods, with whatever new identities and at
-- whatever time, changes nothing in the store: no period, no active period and no event, inside another boundary or
-- in its own.
pub generate_fiscal_periods_replay :
    (ids : ℕ → EntityId) (now : DateTime) (tenant year : EntityId) (s : Session Db DomainError)
    → IsGenerated tenant year s.store
    → (generate_fiscal_periods (available tenant) ids now year s).1.store ≡ s.store
unfolding generate_fiscal_periods require_tenant_id
generate_fiscal_periods_replay ids now tenant year s h =
    execute-Relates (λ (before after : Db). IsGenerated tenant year before → after ≡ before)
      (generate_body (available tenant) ids now tenant year) (λ before g. refl)
      (generate_body-kept ids now tenant year) s h

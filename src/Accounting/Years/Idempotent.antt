-- ===== src/Accounting/Years/Idempotent.antt =====
-- Generating the periods of a year twice.
use main_acounting_system.Prelude.{
  ==_iff, Bool-cases, List, [], any, ap, arith, false, filter, inl, inr, length, none, refl, sym,
  true, ℕ, ◌∙◌, ◌∷◌, ◌≡◌,
}
use main_acounting_system.Accounting.Errors.{DomainError}
use main_acounting_system.Accounting.Generation.{FiscalPeriodPlan, PlannedFiscalPeriod, plan}
use main_acounting_system.Accounting.Generation.Cover.{plan-IsCover}
use main_acounting_system.Accounting.Store.{Db, find_year, get_year}
use main_acounting_system.Accounting.Years.{
  find_by_year, generate_body, generate_fiscal_periods, of_year, order_by_sequence,
  write_unless_generated, year_owned_by,
}
use main_acounting_system.Accounting.Years.Replay.{
  IsGenerated, generate_body-kept, generate_fiscal_periods_replay,
}
use main_acounting_system.Accounting.Years.Written.{Ensures, filter-none, write_plan-Ensures}
use main_acounting_system.Prelude.Outcome.{Outcome-cases, ok}
use main_acounting_system.Primitives.EntityId.{EntityId}
use main_acounting_system.Tenancy.{assert_tenant_criterion, available, require_tenant_id}
use main_acounting_system.Time.{DateTime}
use main_acounting_system.Transaction.{Session, opened}
use main_acounting_system.Transaction.Atomicity.{execute_all_or_nothing, is_resolved, succeeded}

twelve-first :
    (periods : List PlannedFiscalPeriod)
    → length periods ≡ 12
    → (entry : PlannedFiscalPeriod) × (entries : List PlannedFiscalPeriod) × (periods
        ≡ entry ∷ entries)
twelve-first [] h = cc
twelve-first (entry ∷ entries) h = (entry, entries, refl)

module _ (ids : ℕ → EntityId) (now : DateTime) (tenant year : EntityId) where
  write_unless-Ensures :
      (p : FiscalPeriodPlan) {entry : PlannedFiscalPeriod} {entries : List PlannedFiscalPeriod}
      (s : Session Db DomainError)
      → p.periods ≡ entry ∷ entries
      → any (of_year year tenant) s.store.periods ≡ false
      → Ensures tenant year (
          write_unless_generated
            (available tenant)
            ids
            now
            tenant
            year
            p
            (order_by_sequence (filter (of_year year tenant) s.store.periods))
            s)
  unfolding write_unless_generated order_by_sequence
  write_unless-Ensures p s e none_yet =
      rw (filter-none (of_year year tenant) s.store.periods none_yet)
        (write_plan-Ensures tenant year (available tenant) ids now p s e)

  fresh_body-Ensures :
      (s : Session Db DomainError)
      → any (of_year year tenant) s.store.periods ≡ false
      → Ensures tenant year (generate_body (available tenant) ids now tenant year s)
  unfolding generate_body get_year require_tenant_id find_by_year assert_tenant_criterion
  fresh_body-Ensures s h =
      elim (Outcome-cases (year_owned_by tenant (find_year year tenant s.store.years))) [
        | inr (e, refused) ↦ rw refused (λ g. cc)
        | inl (row, owned) ↦ rw owned (elim (Outcome-cases (plan row.aggregate.range)) [
          | inr (e, thrown) ↦ rw thrown (λ g. cc)
          | inl (outcome, planned) ↦ rw planned (elim (Outcome-cases outcome) [
            | inr (e, declines) ↦ rw declines (λ g. cc)
            | inl (p, answers) ↦
                let (entry, entries, e) =
                  twelve-first p.periods
                    (plan-IsCover row.aggregate.range p (planned ∙ ap ok answers)).0 in
                rw (answers, (==_iff tenant tenant).1 refl) (write_unless-Ensures p s e h)
          ])
        ])
      ]

  generate_body-Ensures :
      (s : Session Db DomainError)
      → Ensures tenant year (generate_body (available tenant) ids now tenant year s)
  generate_body-Ensures s g = elim (Bool-cases (any (of_year year tenant) s.store.periods)) [
    | inl there ↦
        ap (λ (db : Db). any (of_year year tenant) db.periods)
          (generate_body-kept ids now tenant year s there)
        ∙ there
    | inr absent ↦ fresh_body-Ensures s absent g
  ]

  generate-Ensures :
      (s : Session Db DomainError)
      → s.boundary ≡ none
      → Ensures tenant year (generate_fiscal_periods (available tenant) ids now year s)
  unfolding generate_fiscal_periods require_tenant_id
  generate-Ensures s h g =
      let body = generate_body (available tenant) ids now tenant year in
      let (ended, answer, stored) = execute_all_or_nothing body s h in
      let good : succeeded (body (opened s)) ≡ true = sym answer ∙ g in
      ap (λ (db : Db). any (of_year year tenant) db.periods) (rw good at stored)
      ∙ generate_body-Ensures (opened s) (ground (arith, good))

-- In the scope of a company, where no boundary is open: generation that answers leaves a year that has a
-- period of the company, and generating again, with whatever new identities and at whatever time, then
-- changes nothing in the store.
pub generate_fiscal_periods_idempotent :
    (ids ids' : ℕ → EntityId) (now now' : DateTime) (tenant year : EntityId)
    (s : Session Db DomainError)
    → s.boundary ≡ none
    → is_resolved (generate_fiscal_periods (available tenant) ids now year s).0 ≡ true
    → let once = (generate_fiscal_periods (available tenant) ids now year s).1 in
      IsGenerated tenant year once.store
      × ((generate_fiscal_periods (available tenant) ids' now' year once).1.store ≡ once.store)
generate_fiscal_periods_idempotent ids ids' now now' tenant year s h g =
    let there = generate-Ensures ids now tenant year s h g in
    (there, generate_fiscal_periods_replay ids' now' tenant year _ there)

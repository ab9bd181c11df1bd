-- ===== src/Accounting/Years/Written.antt =====
-- After the periods of a plan are written, the year has one.
use main_acounting_system.Prelude.{
  ==_iff, Bool, Bool-cases, List, [], any, ap, arith, false, filter, inl, inr, refl, sym, true, ℕ,
  ◌++◌, ◌||◌, ◌∙◌, ◌∷◌, ◌≡◌,
}
use main_acounting_system.Accounting.Errors.{DomainError, lift}
use main_acounting_system.Accounting.FiscalPeriod.{FiscalPeriod, create_period}
use main_acounting_system.Accounting.FiscalYear.{range_of}
use main_acounting_system.Accounting.Generation.{
  FiscalPeriodPlan, PlannedFiscalPeriod, create_all, create_planned,
}
use main_acounting_system.Accounting.Store.{
  Action, Db, FiscalPeriodRow, activate, period_id_for, record_event,
}
use main_acounting_system.Accounting.Years.{
  FiscalPeriodListView, add_period, add_periods, announce, collides, of_year, seed_active_period,
  write_plan,
}
use main_acounting_system.Accounting.Years.Replay.{IsGenerated}
use main_acounting_system.Prelude.Outcome.{>>=-eq-ok, Outcome-cases, ok, ok-injective}
use main_acounting_system.Primitives.EntityId.{EntityId}
use main_acounting_system.Primitives.Text.{validate_integer_in_range}
use main_acounting_system.Tenancy.{TenantContext, assert_tenant_ownership}
use main_acounting_system.Time.{DateTime}
use main_acounting_system.Transaction.{
  Session, Settled, continue, declined, rejected, resolved, ◌>>=◌, ◌>>◌,
}
use main_acounting_system.Transaction.Atomicity.{is_resolved}

any-append :
    {A : Type 0} (p : A → Bool) (xs ys : List A) → any p (xs ++ ys) ≡ (any p xs || any p ys)
any-append p [] ys = refl
any-append p (x ∷ xs) ys = ground (arith, any-append p xs ys)

pub filter-none :
    (p : FiscalPeriodRow → Bool) (rows : List FiscalPeriodRow)
    → any p rows ≡ false
    → filter p rows ≡ []
filter-none p [] h = refl
filter-none p (row ∷ rows) h = elim (Bool-cases (p row)) [
  | inl e ↦ cc (rw e at h)
  | inr e ↦ rw (e, filter) (filter-none p rows (rw e at h))
]

-- The first part of work that answers has answered.
continue-answers :
    {A B : Type 0} (r : Settled DomainError A) (k : A → Action B) (s : Session Db DomainError)
    → is_resolved (continue r k s).0 ≡ true
    → (a : A) × (r ≡ resolved a)
continue-answers (resolved a) k s h = (a, refl)
continue-answers (declined e) k s h = cc
continue-answers (rejected e) k s h = cc

module _ (tenant year : EntityId) where
  abbrev pub Ensures : {A : Type 0} → Settled DomainError A × Session Db DomainError → Type 0
  Ensures (r, s) = is_resolved r ≡ true → IsGenerated tenant year s.store

  -- What is ensured stays so through work that keeps the periods.
  continue-Ensures :
      {A B : Type 0} (r : Settled DomainError A) (k : A → Action B) (s : Session Db DomainError)
      → Ensures (r, s)
      → ((a : A) (t : Session Db DomainError)
          → IsGenerated tenant year t.store
          → IsGenerated tenant year (k a t).1.store)
      → Ensures (continue r k s)
  continue-Ensures (resolved a) k s h keep e = keep a s (h refl)
  continue-Ensures (declined x) k s h keep e = cc
  continue-Ensures (rejected x) k s h keep e = cc

  -- Whether or not it is refused, an insert keeps what is there.
  add_period-keeps :
      (scope : TenantContext) (period : FiscalPeriod) (s : Session Db DomainError)
      → IsGenerated tenant year s.store
      → IsGenerated tenant year (add_period scope period s).1.store
  unfolding add_period
  add_period-keeps scope period s g =
      elim (Outcome-cases (assert_tenant_ownership scope period.tenant_id)) [
        | inr (e, refused) ↦ rw refused g
        | inl (done, owned) ↦ rw owned (elim (Bool-cases (any (collides period) s.store.periods)) [
          | inl taken ↦ rw taken g
          | inr fresh ↦
              rw fresh (any-append (of_year year tenant) s.store.periods _ ∙ ground (arith, g))
        ])
      ]

  add_periods-keeps :
      (scope : TenantContext) (periods : List FiscalPeriod) (s : Session Db DomainError)
      → IsGenerated tenant year s.store
      → IsGenerated tenant year (add_periods scope periods s).1.store
  unfolding add_periods
  add_periods-keeps scope [] s g = g
  add_periods-keeps scope (period ∷ periods) s g =
      then_keeps (add_period scope period s).0 (add_periods scope periods)
        (add_period scope period s).1 (add_periods-keeps scope periods)
        (add_period-keeps scope period s g)
    where
      then_keeps :
          (r : Settled DomainError (Unit {0})) (k : Action (Unit {0})) (t : Session Db DomainError)
          → ((u : Session Db DomainError)
              → IsGenerated tenant year u.store
              → IsGenerated tenant year (k u).1.store)
          → IsGenerated tenant year t.store
          → IsGenerated tenant year (continue r (λ _. k) t).1.store
      then_keeps (resolved a) k t keep g = keep t g
      then_keeps (declined e) k t keep g = g
      then_keeps (rejected e) k t keep g = g

  add_period-Ensures :
      (scope : TenantContext) (period : FiscalPeriod) (s : Session Db DomainError)
      → of_year year tenant (record { aggregate = period; revision = 1 }) ≡ true
      → Ensures (add_period scope period s)
  unfolding add_period
  add_period-Ensures scope period s own =
      elim (Outcome-cases (assert_tenant_ownership scope period.tenant_id)) [
        | inr (e, refused) ↦ rw refused (λ h. cc)
        | inl (done, owned) ↦ rw owned (elim (Bool-cases (any (collides period) s.store.periods)) [
          | inl taken ↦ rw taken (λ h. cc)
          | inr fresh ↦
              rw fresh
                (λ h. any-append (of_year year tenant) s.store.periods _ ∙ ground (arith, own))
        ])
      ]

  -- The first period that is written is one of the year.
  add_periods-Ensures :
      (scope : TenantContext) (period : FiscalPeriod) (periods : List FiscalPeriod)
      (s : Session Db DomainError)
      → of_year year tenant (record { aggregate = period; revision = 1 }) ≡ true
      → Ensures (add_periods scope (period ∷ periods) s)
  unfolding add_periods
  add_periods-Ensures scope period periods s own =
      continue-Ensures (add_period scope period s).0 (λ _. add_periods scope periods)
        (add_period scope period s).1 (add_period-Ensures scope period s own)
        (λ a t. add_periods-keeps scope periods t)

  seed_active_period-keeps :
      (scope : TenantContext) (t : EntityId) (periods : List FiscalPeriod)
      (s : Session Db DomainError)
      → (seed_active_period scope t periods s).1.store.periods ≡ s.store.periods
  unfolding seed_active_period period_id_for activate
  seed_active_period-keeps scope t periods s = ground arith

  announce-keeps :
      (t y : EntityId) (jalali_year : ℕ) (periods : List FiscalPeriod) (seeded : Bool)
      (s : Session Db DomainError)
      → (announce t y jalali_year periods seeded s).1.store.periods ≡ s.store.periods
  unfolding announce record_event
  announce-keeps t y jalali_year periods seeded s = ground arith

  -- A plan that is not empty begins with a period of the year.
  create_all-owned :
      (ids : ℕ → EntityId) (now : DateTime) (jalali_year : ℕ) (entry : PlannedFiscalPeriod)
      (entries : List PlannedFiscalPeriod) {periods : List FiscalPeriod}
      → create_all ids now tenant year jalali_year (entry ∷ entries) ≡ ok periods
      → (period : FiscalPeriod) × (rest : List FiscalPeriod) × (periods ≡ period ∷ rest)
        × (of_year year tenant (record { aggregate = period; revision = 1 }) ≡ true)
  unfolding create_all create_planned range_of create_period
  create_all-owned ids now jalali_year entry entries h =
      let (period, created, h1) =
        >>=-eq-ok (create_planned ids now tenant year jalali_year entry) _ h in
      let (rest, others, h2) =
        >>=-eq-ok (create_all ids now tenant year jalali_year entries) _ h1 in
      let (range, ranged, h3) = >>=-eq-ok (range_of entry.start_date entry.end_date) _ created in
      let (a, valid, h4) = >>=-eq-ok (lift (validate_integer_in_range entry.sequence 1 12)) _ h3 in
      let (b, valid', h5) = >>=-eq-ok (lift (validate_integer_in_range jalali_year 1 9999)) _ h4 in
      let same = ok-injective h5 in
      (
        period,
        rest,
        sym (ok-injective h2),
        ap (λ (q : FiscalPeriod). of_year year tenant (record { aggregate = q; revision = 1 }))
              (sym same)
            ∙ rw ((==_iff tenant tenant).1 refl, (==_iff year year).1 refl) refl,
      )

  abbrev store_plan : TenantContext → ℕ → List FiscalPeriod → Action FiscalPeriodListView
  store_plan scope jalali_year periods =
      add_periods scope periods
      >> seed_active_period scope tenant periods
      >>= announce tenant year jalali_year periods

  store_plan-Ensures :
      (scope : TenantContext) (jalali_year : ℕ) (period : FiscalPeriod) (rest : List FiscalPeriod)
      (s : Session Db DomainError)
      → of_year year tenant (record { aggregate = period; revision = 1 }) ≡ true
      → Ensures (store_plan scope jalali_year (period ∷ rest) s)
  store_plan-Ensures scope jalali_year period rest s own =
      let periods = period ∷ rest in
      let (r, t) = add_periods scope periods s in
      let (q, u) = continue r (λ _. seed_active_period scope tenant periods) t in
      continue-Ensures q (announce tenant year jalali_year periods) u
        (continue-Ensures r (λ _. seed_active_period scope tenant periods) t
          (add_periods-Ensures scope period rest s own)
          (λ a v g.
            ap (any (of_year year tenant)) (seed_active_period-keeps scope tenant periods v) ∙ g))
        (λ b v g.
          ap (any (of_year year tenant)) (announce-keeps tenant year jalali_year periods b v) ∙ g)

  pub write_plan-Ensures :
      (scope : TenantContext) (ids : ℕ → EntityId) (now : DateTime) (p : FiscalPeriodPlan)
      {entry : PlannedFiscalPeriod} {entries : List PlannedFiscalPeriod}
      (s : Session Db DomainError)
      → p.periods ≡ entry ∷ entries
      → Ensures (write_plan scope ids now tenant year p s)
  unfolding write_plan
  write_plan-Ensures scope ids now p {entry} {entries} s e =
      elim (Outcome-cases (create_all ids now tenant year p.jalali_year p.periods)) [
        | inr (x, refused) ↦ rw refused (λ h. cc)
        | inl (periods, created) ↦
            let (period, rest, same, own) =
              create_all-owned ids now p.jalali_year entry entries
                (ap (create_all ids now tenant year p.jalali_year) (sym e) ∙ created) in
            rw (created, same) (store_plan-Ensures scope p.jalali_year period rest s own)
      ]

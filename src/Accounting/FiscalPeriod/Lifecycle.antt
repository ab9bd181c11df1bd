-- ===== src/Accounting/FiscalPeriod/Lifecycle.antt =====
-- The two transitions of a period: fiscal-period.ts, `close` and `reopen`.
use main_acounting_system.Prelude.{
  Bool-cases, any, arith, false, if◌then◌else◌, if◌then◌else◌, if◌then◌else◌, inl, inr, not, refl,
  ◌≡◌,
}
use main_acounting_system.Accounting.Errors.{period_state_invalid, reopen_reason_required}
use main_acounting_system.Accounting.FiscalPeriod.{
  FiscalPeriod, FiscalPeriodState, close_period, closed, opened, reopen_period,
}
use main_acounting_system.Prelude.Outcome.{err, is_ok, ok, ◌>>=◌}
use main_acounting_system.Primitives.Text.{Text, is_space}
use main_acounting_system.Primitives.Text.Laws.{is_empty-trim}
use main_acounting_system.Time.{DateTime}

-- A period takes one of the two transitions.
pub data Transition : FiscalPeriod → FiscalPeriod → Type 0 where
  close : (p q : FiscalPeriod) (now : DateTime) → close_period now p ≡ ok q → Transition p q
  reopen :
      (p q : FiscalPeriod) (reason : Text) (now : DateTime)
      → reopen_period reason now p ≡ ok q
      → Transition p q

pub data History (p : FiscalPeriod) : FiscalPeriod → Type 0 where
  start : History p p
  next : {q r : FiscalPeriod} → History p q → Transition q r → History p r

-- The facts of a period that no operation changes.
abbrev pub SameFrame : FiscalPeriod → FiscalPeriod → Type 0
SameFrame p q =
    (p.id ≡ q.id)
    × (p.tenant_id ≡ q.tenant_id)
    × (p.fiscal_year_id ≡ q.fiscal_year_id)
    × (p.jalali_year ≡ q.jalali_year)
    × (p.sequence ≡ q.sequence)
    × (p.range ≡ q.range)
    × (p.created_at ≡ q.created_at)

abbrev pub opposite : FiscalPeriodState → FiscalPeriodState
opposite opened = closed
opposite closed = opened

Transition-facts :
    {p q : FiscalPeriod} → Transition p q → SameFrame p q × (q.state ≡ opposite p.state)
unfolding close_period reopen_period
Transition-facts (close p q now h) = ground arith
Transition-facts (reopen p q reason now h) = ground arith

History_step :
    (p q r : FiscalPeriod)
    → SameFrame p q
    → SameFrame q r × (r.state ≡ opposite q.state)
    → SameFrame p r
History_step p q r h k = ground arith

-- Through any history a period keeps its identity, owner, year, month and days, and each transition
-- turns its state over.
pub History-SameFrame : {p q : FiscalPeriod} → History p q → SameFrame p q
History-SameFrame {p} start = (refl, refl, refl, refl, refl, refl, refl)
History-SameFrame {p} (next {q} {r} h t) =
    History_step p q r (History-SameFrame h) (Transition-facts t)

-- Closing an open period and then reopening it restores it but for its last change when the reason has a
-- character that is not white space, and is refused for want of a reason otherwise; closing it twice, and
-- reopening it while it is open, for whatever reason, are refused.
pub close-reopen :
    (p : FiscalPeriod) (reason : Text) (closing reopening : DateTime)
    → p.state ≡ opened
    → ((close_period closing p >>= reopen_period reason reopening) ≡ (
        if any (λ c. not (is_space c)) reason
        then ok (record p { updated_at = reopening })
        else err reopen_reason_required))
      × ((close_period closing p >>= close_period reopening) ≡ err period_state_invalid)
      × (is_ok (reopen_period reason reopening p) ≡ false)
unfolding close_period reopen_period
close-reopen p reason closing reopening h = elim (Bool-cases (any (λ c. not (is_space c)) reason)) [
  | inl e ↦ rw (h, is_empty-trim reason, e) (refl, refl, refl)
  | inr e ↦ rw (h, is_empty-trim reason, e) (refl, refl, refl)
]

-- ===== src/Accounting/FiscalPeriod/Tests.antt =====
-- Concrete fiscal periods.
use main_acounting_system.Prelude.{[], arith, false, refl, ◌∷◌, ◌≡◌}
use main_acounting_system.Accounting.Errors.{period_state_invalid}
use main_acounting_system.Accounting.FiscalPeriod.{
  FiscalPeriod, close_period, closed, opened, reopen_period,
}
use main_acounting_system.Accounting.FiscalPeriod.Lifecycle.{
  History-SameFrame, SameFrame, close, close-reopen, next, start,
}
use main_acounting_system.Accounting.FiscalPeriod.Stored.{
  IsFiscalPeriod, rehydrate, rehydrate-snapshot_period, snapshot,
}
use main_acounting_system.Prelude.Outcome.{err, is_ok, ok, ◌>>=◌}
use main_acounting_system.Primitives.Text.{Text, is_space}
use main_acounting_system.Time.BusinessDate.{is_before}
use main_acounting_system.Time.Calendar.{days_in_month}

abbrev farvardin : FiscalPeriod
farvardin = record {
  id = 5;
  tenant_id = 7;
  fiscal_year_id = 1;
  jalali_year = 1403;
  sequence = 1;
  range = record {
    start_date = record { year = 2024; month = 3; day = 20 };
    end_date = record { year = 2024; month = 4; day = 19 };
  };
  state = opened;
  created_at = 5;
  updated_at = 6;
}

abbrev a_reason : Text
a_reason = 65 ∷ []

close-reopen_example :
    ((close_period 10 farvardin >>= reopen_period a_reason 20)
      ≡ ok (record farvardin { updated_at = 20 }))
    × ((close_period 10 farvardin >>= close_period 20) ≡ err period_state_invalid)
    × (is_ok (reopen_period a_reason 20 farvardin) ≡ false)
unfolding is_space
close-reopen_example = close-reopen farvardin a_reason 10 20 refl

History-SameFrame_example :
    SameFrame farvardin (record farvardin { state = closed; updated_at = 10 })
unfolding close_period
History-SameFrame_example =
    History-SameFrame
      (next start (close farvardin (record farvardin { state = closed; updated_at = 10 }) 10 refl))

farvardin-IsFiscalPeriod : IsFiscalPeriod farvardin
unfolding is_before days_in_month
farvardin-IsFiscalPeriod = record {
  start_civil = (omega arith, omega arith, omega arith, omega arith, omega arith, omega arith);
  end_civil = (omega arith, omega arith, omega arith, omega arith, omega arith, omega arith);
  ordered = refl;
  month = (omega arith, omega arith);
  year = (omega arith, omega arith);
}

rehydrate-snapshot_period_example : rehydrate (snapshot farvardin) ≡ ok farvardin
rehydrate-snapshot_period_example = rehydrate-snapshot_period farvardin farvardin-IsFiscalPeriod

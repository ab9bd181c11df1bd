-- ===== src/Accounting/Periods/Tests.antt =====
-- Concrete requests on the periods of one company.
use main_acounting_system.Prelude.{List, [], arith, none, refl, some, true, ◌∷◌, ◌≡◌}
use main_acounting_system.Accounting.Errors.{DomainError}
use main_acounting_system.Accounting.FiscalPeriod.{FiscalPeriod, closed, opened}
use main_acounting_system.Accounting.Periods.{close_fiscal_period, parse_fiscal_period_id}
use main_acounting_system.Accounting.Periods.ActiveIsOpen.{ActiveIsOpen, serve-ActiveIsOpen}
use main_acounting_system.Accounting.Periods.Answers.{close_fiscal_period_answers}
use main_acounting_system.Accounting.Periods.Command.{Command, close, select, serve}
use main_acounting_system.Accounting.Periods.Isolation.{SameFor, serve-SameFor}
use main_acounting_system.Accounting.Store.{
  Db, FiscalPeriodRow, aggregate_id, close_action, find_period, fiscal_period_closed, lookup_active,
}
use main_acounting_system.Prelude.Outcome.{Outcome, ok}
use main_acounting_system.Primitives.EntityId.{EntityId, entity_id_from, hex_value}
use main_acounting_system.Primitives.Text.{Text, is_space, trim}
use main_acounting_system.Tenancy.{TenantContext, available}
use main_acounting_system.Time.{DateTime}
use main_acounting_system.Transaction.{resolved}

abbrev raw_five : Text
raw_five =
    b'0' ∷ b'0' ∷ b'0' ∷ b'0' ∷ b'0' ∷ b'0' ∷ b'0' ∷ b'0' ∷ b'-' ∷ b'0' ∷ b'0' ∷ b'0' ∷ b'0' ∷ b'-'
    ∷ b'0' ∷ b'0' ∷ b'0' ∷ b'0' ∷ b'-' ∷ b'0' ∷ b'0' ∷ b'0' ∷ b'0' ∷ b'-' ∷ b'0' ∷ b'0' ∷ b'0'
    ∷ b'0' ∷ b'0' ∷ b'0' ∷ b'0' ∷ b'0' ∷ b'0' ∷ b'0' ∷ b'0' ∷ b'5' ∷ []

abbrev allow : EntityId → EntityId → Outcome DomainError (Unit {0})
allow user tenant = ok tt

abbrev farvardin_row : FiscalPeriodRow
farvardin_row = record {
  aggregate = record {
    id = 5;
    tenant_id = 7;
    fiscal_year_id = 1;
    jalali_year = 1403;
    sequence = 1;
    range = record {
      start_date = record { year = 2024; month = 3; day = 20 };
      end_date = record { year = 2024; month = 4; day = 19 };
    };
    state = opened;
    created_at = 5;
    updated_at = 6;
  };
  revision = 1;
}

abbrev a_db : Db
a_db = record { years = []; periods = farvardin_row ∷ []; active = []; events = []; audit = [] }

abbrev requests : List (TenantContext × DateTime × Command)
requests = (available 7, 10, select raw_five) ∷ (available 7, 11, close raw_five 3) ∷ []

raw_five_test : parse_fiscal_period_id raw_five ≡ ok 5
unfolding parse_fiscal_period_id entity_id_from trim is_space hex_value
raw_five_test = refl

a_db-ActiveIsOpen : ActiveIsOpen a_db
unfolding lookup_active
a_db-ActiveIsOpen t p h = cc

serve-ActiveIsOpen_example : ActiveIsOpen (serve allow requests a_db)
serve-ActiveIsOpen_example = serve-ActiveIsOpen allow requests a_db a_db-ActiveIsOpen

serve-SameFor_example : SameFor 8 a_db (serve allow requests a_db)
serve-SameFor_example =
    serve-SameFor allow 8 requests a_db (λ e. ground arith, (λ e. ground arith, tt))

close_fiscal_period_answers_example :
    let period : FiscalPeriod = record (farvardin_row.aggregate) {
      state = closed;
      updated_at = 10;
    } in
    let (answer, s) =
      close_fiscal_period
        (available 7)
        allow
        raw_five
        3
        10
        (record { store = a_db; boundary = none }) in
    (answer ≡ resolved period)
    × (find_period 5 7 s.store.periods ≡ some (record { aggregate = period; revision = 2 }))
    × (s.store.events ≡ fiscal_period_closed 7 5 1 1 3 ∷ [])
    × (s.store.audit
        ≡ record { action = close_action; succeeded = true; actor = 3; target = aggregate_id 5 }
          ∷ [])
    × (s.store.active ≡ [])
    × (s.store.years ≡ [])
    × (s.boundary ≡ none)
unfolding find_period lookup_active
close_fiscal_period_answers_example =
    close_fiscal_period_answers allow 7 3 raw_five 10 a_db {id = 5} raw_five_test
      {row = farvardin_row} 5 7 refl refl (omega arith)

-- ===== src/Jobs/Tests.antt =====
-- Concrete dispatches.
use main_acounting_system.Prelude.{
  Bool, Option, [], ap, arith, false, inl, inr, none, refl, some, true, ℕ, ◌∷◌, ◌≡◌,
}
use main_acounting_system.Jobs.{
  JobEnvelope, JobError, JobId, JobRecord, JobStore, absent, completed, execution_error, failed,
  retryable, retrying, string,
}
use main_acounting_system.Jobs.Dispatcher.{
  JobDefinition, dispatch, execute_job, is_safe, is_safe_char, named_tenant, payload_disagrees,
  payload_tenant_id, run_claimed, run_in_tenant_scope, scope_is_valid,
}
use main_acounting_system.Jobs.Dispatcher.Agreement.{Disagrees, by_tenant}
use main_acounting_system.Jobs.Dispatcher.Once.{dispatch_once}
use main_acounting_system.Jobs.Dispatcher.Runs.{RanAtMostOnce, dispatch_refused, dispatch_runs}
use main_acounting_system.Jobs.Dispatcher.Settles.{IsSettled, dispatch-IsSettled, has_entry}
use main_acounting_system.Jobs.Queue.{is_claimed, load_state}
use main_acounting_system.Primitives.EntityId.{entity_id_from, hex_value}
use main_acounting_system.Primitives.Text.{Text, is_space, trim}
use main_acounting_system.Retry.{RetryPolicy}

abbrev company_a : Text
company_a = b'A' ∷ []

abbrev an_envelope : Option Text → ℕ → JobEnvelope
an_envelope company attempt = record {
  job_id = 1;
  type_name = [];
  version = 1;
  payload = record { tenant_id = absent; company_id = absent; body = [] };
  attempt = attempt;
  max_attempts = 3;
  correlation_id = company_a;
  company_id = company;
  created_at = 0;
  enqueued_by = [];
}

abbrev a_definition : Bool → Option JobError → JobDefinition
a_definition scoped thrown = record {
  tenant_scoped = scoped;
  idempotency_key = λ envelope. some company_a;
  execute = λ envelope scope. thrown;
}

abbrev an_empty_store : JobStore
an_empty_store = record {
  next_stream_id = 8;
  stream = [];
  pending = (7, an_envelope none 1) ∷ [];
  states = [];
  delayed = [];
  claims = [];
  runs = [];
}

abbrev plain : Text → Text
plain text = text

abbrev jitterless : JobId → ℕ
jitterless id = 0

abbrev a_policy : RetryPolicy
a_policy = record { max_attempts = 3; base_delay_ms = 1000; max_delay_ms = 60000 }

abbrev transient : JobError
transient = execution_error retryable [] []

dispatch-IsSettled_example : IsSettled 7 (an_envelope none 1) (
    dispatch plain jitterless a_policy
      (some (a_definition false (some transient)))
      100
      7
      (an_envelope none 1)
      an_empty_store)
dispatch-IsSettled_example =
    dispatch-IsSettled plain jitterless a_policy (some (a_definition false (some transient))) 100 7
      (an_envelope none 1) an_empty_store

dispatch_runs_example :
    RanAtMostOnce
      (a_definition true none)
      (an_envelope (some company_a) 1)
      an_empty_store
      (dispatch plain jitterless a_policy
        (some (a_definition true none))
        100
        7
        (an_envelope (some company_a) 1)
        an_empty_store).1
dispatch_runs_example =
    dispatch_runs plain jitterless a_policy (a_definition true none) 100 7
      (an_envelope (some company_a) 1) an_empty_store

-- An envelope of the company A with a payload of the tenant B.
abbrev crossed : JobEnvelope
crossed = record (an_envelope (some company_a) 1) {
  payload = record { tenant_id = string (b'B' ∷ []); company_id = absent; body = [] };
}

first_unit : Text → ℕ
first_unit [] = 0
first_unit (c ∷ text) = c

crossed-Disagrees : Disagrees crossed
unfolding first_unit is_space trim entity_id_from hex_value
crossed-Disagrees = (
  b'B' ∷ [],
  company_a,
  by_tenant (b'B' ∷ []) refl refl,
  refl,
  λ same. elim same [ inl e ↦ absurd (omega (arith, ap first_unit e)) | inr (id, e, f) ↦ cc e ],
)

dispatch_refused_example :
    let (status, after) =
      dispatch plain jitterless a_policy
        (some (a_definition true none))
        100
        7
        crossed
        an_empty_store in
    (status ≡ failed)
    × ((value : JobRecord) × (load_state 1 after ≡ some value) × (value.status ≡ failed))
    × (has_entry 7 after.pending ≡ false)
    × (after.runs ≡ [])
    × (after.claims ≡ [])
dispatch_refused_example =
    dispatch_refused plain jitterless a_policy (a_definition true none) 100 7 crossed an_empty_store
      (inr crossed-Disagrees)

-- A first transient failure is retried, and the third is the last.
retry_test :
    (dispatch plain jitterless a_policy
      (some (a_definition false (some transient)))
      100
      7
      (an_envelope none 1)
      an_empty_store).0
    ≡ retrying
unfolding dispatch
retry_test = refl

exhausted_test :
    (dispatch plain jitterless a_policy
      (some (a_definition false (some transient)))
      100
      7
      (an_envelope none 3)
      an_empty_store).0
    ≡ failed
unfolding dispatch
exhausted_test = refl

-- The first delivery of a job, which completes.
first_test :
    (dispatch plain jitterless a_policy
      (some (a_definition true none))
      100
      7
      (an_envelope (some company_a) 1)
      an_empty_store).0
    ≡ completed
unfolding dispatch execute_job payload_disagrees payload_tenant_id named_tenant is_claimed
    run_claimed run_in_tenant_scope scope_is_valid is_safe is_safe_char trim is_space
first_test = refl

-- Another delivery of it.
dispatch_once_example :
    let once =
      (dispatch plain jitterless a_policy
        (some (a_definition true none))
        100
        7
        (an_envelope (some company_a) 1)
        an_empty_store).1 in
    (dispatch plain jitterless a_policy
      (some (a_definition true none))
      200
      8
      (an_envelope (some company_a) 2)
      once).1.runs
    ≡ once.runs
dispatch_once_example =
    dispatch_once plain jitterless a_policy (a_definition true none) (a_definition true none) 100
      200 7 8 (an_envelope (some company_a) 1) (an_envelope (some company_a) 2) an_empty_store
      {key = company_a} refl refl first_test

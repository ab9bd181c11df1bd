-- ===== src/Jobs/Dispatcher/Runs.antt =====
-- What a dispatch runs, and under which scope.
use main_acounting_system.Prelude.{
  Bool-cases, Option, Option-cases, [], ap, arith, false, inl, inr, none, refl, some, subst, true,
  ℕ, ◌&&◌, ◌++◌, ◌∙◌, ◌∷◌, ◌≡◌, ◌⊎◌,
}
use main_acounting_system.Identity.Authenticate.Ends.{ended}
use main_acounting_system.Jobs.{
  JobEnvelope, JobError, JobId, JobRecord, JobScope, JobStore, classify_job_error, company_scope,
  failed, is_retryable, system_scope,
}
use main_acounting_system.Jobs.Dispatcher.{
  JobDefinition, dispatch, execute_job, fail_terminally, payload_disagrees, run_claimed,
  run_in_tenant_scope, running_record, scope_is_valid, scope_of, settle_job_failure,
  tenant_context_missing_error, tenant_isolation_error,
}
use main_acounting_system.Jobs.Dispatcher.Agreement.{
  Agrees, Disagrees, Disagrees-payload_disagrees, payload_disagrees-Agrees,
}
use main_acounting_system.Jobs.Dispatcher.Settles.{dispatch-IsSettled, has_entry}
use main_acounting_system.Jobs.Queue.{
  acknowledge, claim_key, is_claimed, load_state, release_key, save_state, schedule_retry,
}
use main_acounting_system.Outbox.{is_failed}
use main_acounting_system.Outbox.Store.Sound.{is_none}
use main_acounting_system.Primitives.Text.{Text}
use main_acounting_system.Retry.{RetryPolicy, has_attempts_remaining}

-- The scope in which a job may run: the company of its envelope, which its payload agrees with, or the system
-- for a job that is not of one company.
pub data RunsUnder (definition : JobDefinition) (envelope : JobEnvelope) : JobScope → Type 0 where
  as_system :
      definition.tenant_scoped ≡ false
      → envelope.company_id ≡ none
      → RunsUnder definition envelope system_scope
  as_company :
      (company : Text)
      → envelope.company_id ≡ some company
      → Agrees envelope.payload company
      → RunsUnder definition envelope (company_scope company)

abbrev pub RanAtMostOnce : JobDefinition → JobEnvelope → JobStore → JobStore → Type 0
RanAtMostOnce definition envelope before after =
    (after.runs ≡ before.runs)
    ⊎ ((scope : JobScope) × RunsUnder definition envelope scope
        × (after.runs ≡ before.runs ++ (envelope.job_id, scope) ∷ []))

-- The scope that belongs to a company.
abbrev scope_with : Option Text → JobScope
scope_with none = system_scope
scope_with (some company) = company_scope company

scope_of-RunsUnder :
    (definition : JobDefinition) (envelope : JobEnvelope)
    → (definition.tenant_scoped && is_none envelope.company_id) ≡ false
    → payload_disagrees envelope ≡ false
    → RunsUnder definition envelope (scope_of envelope)
scope_of-RunsUnder definition envelope h d = elim (Option-cases envelope.company_id) [
  | inl e ↦ subst (RunsUnder definition envelope) (scope (none) e) (as_system (ground (arith, h)) e)
  | inr (company, e) ↦
      subst (RunsUnder definition envelope) (scope (some company) e)
        (as_company company e (payload_disagrees-Agrees envelope e d))
]
  where
    scope : (o : Option Text) → envelope.company_id ≡ o → scope_with o ≡ scope_of envelope
    scope o e = rw e refl

module _ (definition : JobDefinition) (envelope : JobEnvelope)
    (h : (definition.tenant_scoped && is_none envelope.company_id) ≡ false)
    (d : payload_disagrees envelope ≡ false) where
  run_in_tenant_scope-runs :
      (store : JobStore)
      → RanAtMostOnce definition envelope store (run_in_tenant_scope definition envelope store).1
  unfolding run_in_tenant_scope
  run_in_tenant_scope-runs store = elim (Bool-cases (scope_is_valid envelope)) [
    | inl e ↦
        rw (e, run_in_tenant_scope)
          (inr (scope_of envelope, scope_of-RunsUnder definition envelope h d, refl))
    | inr e ↦ rw (e, run_in_tenant_scope) (inl refl)
  ]

  run_claimed-runs :
      (key : Text) (store : JobStore)
      → RanAtMostOnce definition envelope store (run_claimed key definition envelope store).1
  unfolding run_claimed release_key
  run_claimed-runs key store =
      elim (Option-cases (run_in_tenant_scope definition envelope store).0) [
        | inl e ↦ rw (e, run_claimed) (run_in_tenant_scope-runs store)
        | inr (error, e) ↦ rw (e, run_claimed) (run_in_tenant_scope-runs store)
      ]

execute_job-runs :
    (definition : JobDefinition) (envelope : JobEnvelope) (store : JobStore)
    → RanAtMostOnce definition envelope store (execute_job definition envelope store).1
unfolding execute_job claim_key
execute_job-runs definition envelope store =
    elim (Bool-cases (definition.tenant_scoped && is_none envelope.company_id)) [
      | inl e ↦ rw (e, execute_job) (inl refl)
      | inr e ↦ elim (Bool-cases (payload_disagrees envelope)) [
        | inl f ↦ rw (e, f, execute_job) (inl refl)
        | inr f ↦ elim (Option-cases (definition.idempotency_key envelope)) [
          | inl g ↦
              rw (e, f, g, execute_job) (run_in_tenant_scope-runs definition envelope e f store)
          | inr (key, g) ↦ elim (Bool-cases (is_claimed key store)) [
            | inl h ↦ rw (e, f, g, h, execute_job) (inl refl)
            | inr h ↦
                rw (e, f, g, h, execute_job)
                  (run_claimed-runs definition envelope e f key (claim_key key store))
          ]
        ]
      ]
    ]

-- A job of one company without a company in its envelope, or with a payload that names another one.
abbrev pub Refusal : JobDefinition → JobEnvelope → Type 0
Refusal definition envelope =
    ((definition.tenant_scoped ≡ true) × (envelope.company_id ≡ none)) ⊎ Disagrees envelope

-- A refusal throws an error that is not retried.
execute_job_refused :
    (definition : JobDefinition) (envelope : JobEnvelope) (store : JobStore)
    → Refusal definition envelope
    → (error : JobError) × (execute_job definition envelope store ≡ (some error, store))
      × (is_retryable (classify_job_error error).category ≡ false)
unfolding execute_job classify_job_error
execute_job_refused definition envelope store h =
    elim (Bool-cases (definition.tenant_scoped && is_none envelope.company_id)) [
      | inl e ↦ (tenant_context_missing_error, rw (e, execute_job) refl, refl)
      | inr e ↦ elim h [
        | inl (scoped, absent') ↦ cc (rw (scoped, absent') at e)
        | inr d ↦ (
          tenant_isolation_error,
          rw (e, Disagrees-payload_disagrees envelope d, execute_job) refl,
          refl,
        )
      ]
    ]

module _ (redact : Text → Text) (jitter : JobId → ℕ) (policy : RetryPolicy) where
  settle_job_failure-runs :
      (now stream_id : ℕ) (value : JobRecord) (error : JobError) (store : JobStore)
      → (settle_job_failure redact jitter policy now stream_id value error store).1.runs
        ≡ store.runs
  unfolding settle_job_failure schedule_retry save_state acknowledge fail_terminally
  settle_job_failure-runs now stream_id value error store =
      elim (Bool-cases (
        is_retryable (classify_job_error error).category
        && has_attempts_remaining value.envelope.attempt value.envelope.max_attempts)) [
          | inl e ↦ rw (e, settle_job_failure) refl
          | inr e ↦ rw (e, settle_job_failure) refl
        ]

  pub dispatch-runs :
      (definition : JobDefinition) (now stream_id : ℕ) (envelope : JobEnvelope) (store : JobStore)
      → (dispatch redact jitter policy (some definition) now stream_id envelope store).1.runs
        ≡ (execute_job definition envelope (save_state (running_record now envelope) store)).1.runs
  unfolding dispatch acknowledge save_state
  dispatch-runs definition now stream_id envelope store =
      elim (Option-cases
        (execute_job definition envelope (save_state (running_record now envelope) store)).0) [
          | inl e ↦ rw (e, dispatch) refl
          | inr (error, e) ↦
              rw (e, dispatch)
                (settle_job_failure-runs now stream_id (running_record now envelope) error
                  (execute_job definition envelope
                    (save_state (running_record now envelope) store)).1)
        ]

  refused_parts :
      (definition : JobDefinition) (now stream_id : ℕ) (envelope : JobEnvelope) (store : JobStore)
      → Refusal definition envelope
      → let (status, after) =
          dispatch redact jitter policy (some definition) now stream_id envelope store in
        (status ≡ failed) × (after.runs ≡ store.runs) × (after.claims ≡ store.claims)
  unfolding dispatch settle_job_failure fail_terminally save_state acknowledge
  refused_parts definition now stream_id envelope store h =
      let (error, e, r) =
        execute_job_refused definition envelope (save_state (running_record now envelope) store)
          h in
      rw (e, dispatch)
        (rw (r, settle_job_failure) (refl, ap (λ x. x.1.runs) e, ap (λ x. x.1.claims) e))

  -- A job of one company whose envelope names no company, and a job whose payload names another company than its
  -- envelope, is recorded as failed, acknowledged, and not run, and its idempotency key is not claimed.
  pub dispatch_refused :
      (definition : JobDefinition) (now stream_id : ℕ) (envelope : JobEnvelope) (store : JobStore)
      → Refusal definition envelope
      → let (status, after) =
          dispatch redact jitter policy (some definition) now stream_id envelope store in
        (status ≡ failed)
        × ((value : JobRecord) × (load_state envelope.job_id after ≡ some value)
            × (value.status ≡ failed))
        × (has_entry stream_id after.pending ≡ false)
        × (after.runs ≡ store.runs)
        × (after.claims ≡ store.claims)
  dispatch_refused definition now stream_id envelope store h =
      let (is_failed, runs, claims) = refused_parts definition now stream_id envelope store h in
      let (ended, (value, found, status, same), acknowledged, scheduled) =
        dispatch-IsSettled redact jitter policy (some definition) now stream_id envelope store in
      (is_failed, (value, found, status ∙ is_failed), acknowledged, runs, claims)

  -- A job runs at most once in a dispatch. It runs as the system only when it is not of one company and its
  -- envelope names none, and otherwise under the company of its envelope, and then its payload names no company
  -- or the same one.
  pub dispatch_runs :
      (definition : JobDefinition) (now stream_id : ℕ) (envelope : JobEnvelope) (store : JobStore)
      → RanAtMostOnce definition envelope store
          (dispatch redact jitter policy (some definition) now stream_id envelope store).1
  unfolding save_state
  dispatch_runs definition now stream_id envelope store =
      rw (dispatch-runs definition now stream_id envelope store)
        (execute_job-runs definition envelope (save_state (running_record now envelope) store))

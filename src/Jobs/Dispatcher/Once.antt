-- ===== src/Jobs/Dispatcher/Once.antt =====
-- A key that a completed dispatch leaves claimed.
use main_acounting_system.Prelude.{
  Bool-cases, Option-cases, any, ap, inl, inr, none, refl, some, true, ℕ, ◌&&◌, ◌∙◌, ◌≡◌,
}
use main_acounting_system.Jobs.{
  JobEnvelope, JobError, JobId, JobRecord, JobStore, classify_job_error, completed, is_retryable,
}
use main_acounting_system.Jobs.Dispatcher.{
  JobDefinition, dispatch, execute_job, fail_terminally, payload_disagrees, run_claimed,
  run_in_tenant_scope, running_record, scope_is_valid, settle_job_failure,
}
use main_acounting_system.Jobs.Dispatcher.Runs.{dispatch-runs}
use main_acounting_system.Jobs.Queue.{acknowledge, claim_key, is_claimed, save_state}
use main_acounting_system.Outbox.Store.Sound.{is_none}
use main_acounting_system.Primitives.Text.{Text, text_eq}
use main_acounting_system.Primitives.Text.Laws.{text_eq_refl}
use main_acounting_system.Retry.{RetryPolicy, has_attempts_remaining}

is_claimed-claim_key : (key : Text) (store : JobStore) → is_claimed key (claim_key key store) ≡ true
unfolding is_claimed claim_key
is_claimed-claim_key key store = rw (text_eq_refl key) refl

run_in_tenant_scope-claims :
    (definition : JobDefinition) (envelope : JobEnvelope) (store : JobStore)
    → (run_in_tenant_scope definition envelope store).1.claims ≡ store.claims
unfolding run_in_tenant_scope
run_in_tenant_scope-claims definition envelope store = elim (Bool-cases (scope_is_valid envelope)) [
  | inl e ↦ rw (e, run_in_tenant_scope) refl
  | inr e ↦ rw (e, run_in_tenant_scope) refl
]

run_claimed-claims :
    (key : Text) (definition : JobDefinition) (envelope : JobEnvelope) (store : JobStore)
    → (run_claimed key definition envelope store).0 ≡ none
    → (run_claimed key definition envelope store).1.claims ≡ store.claims
unfolding run_claimed
run_claimed-claims key definition envelope store h =
    elim (Option-cases (run_in_tenant_scope definition envelope store).0) [
      | inl e ↦ rw (e, run_claimed) (run_in_tenant_scope-claims definition envelope store)
      | inr (error, e) ↦ cc (rw (e, run_claimed) at h)
    ]

-- A job that answers leaves its key claimed.
execute_job-claims :
    (definition : JobDefinition) (envelope : JobEnvelope) (store : JobStore) {key : Text}
    → definition.idempotency_key envelope ≡ some key
    → (execute_job definition envelope store).0 ≡ none
    → is_claimed key (execute_job definition envelope store).1 ≡ true
unfolding execute_job is_claimed
execute_job-claims definition envelope store {key} g h =
    elim (Bool-cases (definition.tenant_scoped && is_none envelope.company_id)) [
      | inl e ↦ cc (rw (e, execute_job) at h)
      | inr e ↦ elim (Bool-cases (payload_disagrees envelope)) [
        | inl f ↦ cc (rw (e, f, execute_job) at h)
        | inr f ↦ elim (Bool-cases (is_claimed key store)) [
          | inl k ↦ rw (e, f, g, k, execute_job) k
          | inr k ↦
              let answered = rw (e, f, g, k, execute_job) at h in
              rw (e, f, g, k, execute_job)
                (ap (any (text_eq key))
                    (run_claimed-claims key definition envelope (claim_key key store) answered)
                  ∙ is_claimed-claim_key key store)
        ]
      ]
    ]

-- Under a key that is claimed nothing runs.
execute_job-claimed_runs :
    (definition : JobDefinition) (envelope : JobEnvelope) (store : JobStore) {key : Text}
    → definition.idempotency_key envelope ≡ some key
    → is_claimed key store ≡ true
    → (execute_job definition envelope store).1 ≡ store
unfolding execute_job
execute_job-claimed_runs definition envelope store {key} g k =
    elim (Bool-cases (definition.tenant_scoped && is_none envelope.company_id)) [
      | inl e ↦ rw (e, execute_job) refl
      | inr e ↦ elim (Bool-cases (payload_disagrees envelope)) [
        | inl f ↦ rw (e, f, execute_job) refl
        | inr f ↦ rw (e, f, g, k, execute_job) refl
      ]
    ]

module _ (redact : Text → Text) (jitter : JobId → ℕ) (policy : RetryPolicy) where
  settle_job_failure-open :
      (now stream_id : ℕ) (value : JobRecord) (error : JobError) (store : JobStore)
      → (settle_job_failure redact jitter policy now stream_id value error store).0 ≡ completed
      → ⊥
  unfolding settle_job_failure fail_terminally
  settle_job_failure-open now stream_id value error store h =
      elim (Bool-cases (
        is_retryable (classify_job_error error).category
        && has_attempts_remaining value.envelope.attempt value.envelope.max_attempts)) [
          | inl e ↦ cc (rw (e, settle_job_failure) at h)
          | inr e ↦ cc (rw (e, settle_job_failure) at h)
        ]

  -- A dispatch that completes leaves the key claimed.
  dispatch-claims :
      (definition : JobDefinition) (now stream_id : ℕ) (envelope : JobEnvelope) (store : JobStore)
      {key : Text}
      → definition.idempotency_key envelope ≡ some key
      → (dispatch redact jitter policy (some definition) now stream_id envelope store).0 ≡ completed
      → is_claimed key
          (dispatch redact jitter policy (some definition) now stream_id envelope store).1
        ≡ true
  unfolding dispatch save_state acknowledge is_claimed
  dispatch-claims definition now stream_id envelope store {key} g h =
      let started = save_state (running_record now envelope) store in
      elim (Option-cases (execute_job definition envelope started).0) [
        | inl e ↦ rw (e, dispatch) (execute_job-claims definition envelope started g e)
        | inr (error, e) ↦ absurd (
            settle_job_failure-open now stream_id (running_record now envelope) error
              (execute_job definition envelope started).1 (rw (e, dispatch) at h))
      ]

  -- After a dispatch that ends as completed, and as long as its idempotency key does not expire, a dispatch of a
  -- job with the same key runs nothing, whatever its definition, its envelope and the clock are.
  pub dispatch_once :
      (definition definition' : JobDefinition) (now now' stream_id stream_id' : ℕ)
      (envelope envelope' : JobEnvelope) (store : JobStore) {key : Text}
      → definition.idempotency_key envelope ≡ some key
      → definition'.idempotency_key envelope' ≡ some key
      → (dispatch redact jitter policy (some definition) now stream_id envelope store).0 ≡ completed
      → let once =
          (dispatch redact jitter policy (some definition) now stream_id envelope store).1 in
        (dispatch redact jitter policy (some definition') now' stream_id' envelope' once).1.runs
        ≡ once.runs
  unfolding save_state is_claimed
  dispatch_once definition definition' now now' stream_id stream_id' envelope envelope' store g g'
        done =
      let once = (dispatch redact jitter policy (some definition) now stream_id envelope store).1 in
      let claimed = dispatch-claims definition now stream_id envelope store g done in
      dispatch-runs redact jitter policy definition' now' stream_id' envelope' once
      ∙ ap (λ (s : JobStore). s.runs)
          (execute_job-claimed_runs definition' envelope'
            (save_state (running_record now' envelope') once) g' claimed)

-- ===== src/Jobs/Dispatcher.antt =====
-- infrastructure/jobs/job-dispatcher.ts: one claimed job, from `running` to its next state. The registry's
-- definitions, the redaction and the jitter are parameters; `now` is the clock at every reading of the
-- dispatch, and logging is left out.
pub mod Settles
pub mod Agreement
pub mod Runs
pub mod Once
use main_acounting_system.Prelude.{
  Bool, Option, [], any, false, if◌then◌else◌, if◌then◌else◌, if◌then◌else◌, leb, length, none, not,
  some, true, ℕ, ◌&&◌, ◌++◌, ◌==◌, ◌||◌, ◌∷◌,
}
use main_acounting_system.Jobs.{
  JobEnvelope, JobError, JobFailure, JobId, JobRecord, JobScope, JobStatus, JobStore, Payload,
  PayloadField, absent, classify_job_error, company_scope, completed, failed, is_retryable, other,
  plain_error, retrying, running, string, system_scope, terminal,
}
use main_acounting_system.Jobs.Queue.{
  acknowledge, claim_key, is_claimed, release_key, save_state, schedule_retry,
}
use main_acounting_system.Outbox.Store.Sound.{is_none}
use main_acounting_system.Prelude.Outcome.{err, ok}
use main_acounting_system.Primitives.EntityId.{EntityId, entity_id_from}
use main_acounting_system.Primitives.Text.{Text, is_empty, text_eq, trim}
use main_acounting_system.Retry.{RetryPolicy, compute_backoff_delay, has_attempts_remaining}

-- A `RegisteredJob`: `execute` answers with nothing, or with what it threw. What it does is its own.
pub record JobDefinition : Type 0 where
  pub tenant_scoped : Bool
  pub idempotency_key : JobEnvelope → Option Text
  pub execute : JobEnvelope → JobScope → Option JobError

-- `canonicalTenantId`: a UUID in canonical form, or the trimmed text.
pub data TenantName : Type 0 where
  uuid : EntityId → TenantName
  label : Text → TenantName

unfoldable pub canonical_tenant_id : Text → TenantName
unfolding trim entity_id_from
canonical_tenant_id value = elim (entity_id_from (trim value)) [
  | ok id ↦ uuid id
  | err e ↦ label (trim value)
]

abbrev pub same_name : TenantName → TenantName → Bool
same_name (uuid a) (uuid b) = a == b
same_name (label a) (label b) = text_eq a b
same_name _ _ = false

unfoldable pub is_same_tenant : Text → Text → Bool
unfolding canonical_tenant_id
is_same_tenant a b = same_name (canonical_tenant_id a) (canonical_tenant_id b)

-- `typeof claimed === 'string' && claimed.trim() !== ''`.
unfoldable pub named_tenant : PayloadField → Option Text
unfolding trim
named_tenant absent = none
named_tenant other = none
named_tenant (string text) = if is_empty (trim text) then none else some text

-- `payloadTenantId`: `tenantId ?? companyId`.
unfoldable pub payload_tenant_id : Payload → Option Text
unfolding named_tenant
payload_tenant_id payload = elim payload.tenant_id [
  | absent ↦ named_tenant payload.company_id
  | other ↦ none
  | string text ↦ named_tenant (string text)
]

-- `assertPayloadAgreesWithEnvelope`, as whether it throws.
unfoldable pub payload_disagrees : JobEnvelope → Bool
unfolding payload_tenant_id is_same_tenant
payload_disagrees envelope = elim (payload_tenant_id envelope.payload) [
  | none ↦ false
  | some claimed ↦ elim envelope.company_id [
    | none ↦ false
    | some company ↦ not (is_same_tenant claimed company)
  ]
]

-- What the refusals throw: errors by their names, without messages.
abbrev pub tenant_context_missing_error : JobError
tenant_context_missing_error =
    plain_error
      (b'T' ∷ b'e' ∷ b'n' ∷ b'a' ∷ b'n' ∷ b't' ∷ b'C' ∷ b'o' ∷ b'n' ∷ b't' ∷ b'e' ∷ b'x' ∷ b't'
        ∷ b'M' ∷ b'i' ∷ b's' ∷ b's' ∷ b'i' ∷ b'n' ∷ b'g' ∷ b'E' ∷ b'r' ∷ b'r' ∷ b'o' ∷ b'r' ∷ [])
      []

abbrev pub tenant_isolation_error : JobError
tenant_isolation_error =
    plain_error
      (b'T' ∷ b'e' ∷ b'n' ∷ b'a' ∷ b'n' ∷ b't' ∷ b'I' ∷ b's' ∷ b'o' ∷ b'l' ∷ b'a' ∷ b't' ∷ b'i'
        ∷ b'o' ∷ b'n' ∷ b'V' ∷ b'i' ∷ b'o' ∷ b'l' ∷ b'a' ∷ b't' ∷ b'i' ∷ b'o' ∷ b'n' ∷ b'E' ∷ b'r'
        ∷ b'r' ∷ b'o' ∷ b'r' ∷ [])
      []

abbrev pub tenant_context_error : JobError
tenant_context_error =
    plain_error
      (b'I' ∷ b'n' ∷ b'v' ∷ b'a' ∷ b'l' ∷ b'i' ∷ b'd' ∷ b'P' ∷ b'r' ∷ b'i' ∷ b'm' ∷ b'i' ∷ b't'
        ∷ b'i' ∷ b'v' ∷ b'e' ∷ b'E' ∷ b'r' ∷ b'r' ∷ b'o' ∷ b'r' ∷ [])
      []

abbrev pub scope_of : JobEnvelope → JobScope
scope_of envelope = elim envelope.company_id [
  | none ↦ system_scope
  | some company ↦ company_scope company
]

-- `SAFE_IDENTIFIER`, on the trimmed value: what `createTenantContext` accepts.
unfoldable pub is_safe_char : ℕ → Bool
is_safe_char c =
    leb b'A' c && leb c b'Z'
    || leb b'a' c && leb c b'z'
    || leb b'0' c && leb c b'9'
    || c == b'.'
    || c == b'_'
    || c == b':'
    || c == b'-'

unfoldable pub is_safe : Text → Bool
unfolding trim is_safe_char
is_safe value =
    let text = trim value in
    leb 1 (length text) && leb (length text) 128 && not (any (λ c. not (is_safe_char c)) text)

unfoldable pub scope_is_valid : JobEnvelope → Bool
unfolding is_safe
scope_is_valid envelope = elim envelope.company_id [
  | none ↦ true
  | some company ↦ is_safe company && is_safe envelope.correlation_id
]

-- `runInTenantScope`; the store keeps the scope that the definition is run in.
unfoldable pub run_in_tenant_scope :
    JobDefinition → JobEnvelope → JobStore → Option JobError × JobStore
unfolding scope_is_valid
run_in_tenant_scope definition envelope store =
    let scope = scope_of envelope in
    if scope_is_valid envelope
    then (
      definition.execute envelope scope,
      record store { runs = store.runs ++ (envelope.job_id, scope) ∷ [] },
    )
    else (some tenant_context_error, store)

-- The run under a claimed key: a failure releases the claim.
unfoldable pub run_claimed :
    Text → JobDefinition → JobEnvelope → JobStore → Option JobError × JobStore
unfolding run_in_tenant_scope release_key
run_claimed key definition envelope store =
    let (thrown, store') = run_in_tenant_scope definition envelope store in
    elim thrown [ none ↦ (none, store') | some error ↦ (some error, release_key key store') ]

-- `execute`.
unfoldable pub execute_job : JobDefinition → JobEnvelope → JobStore → Option JobError × JobStore
unfolding payload_disagrees run_claimed run_in_tenant_scope is_claimed claim_key
execute_job definition envelope store =
    if definition.tenant_scoped && is_none envelope.company_id
    then (some tenant_context_missing_error, store)
    else (if payload_disagrees envelope
        then (some tenant_isolation_error, store)
        else (elim (definition.idempotency_key envelope) [
          | none ↦ run_in_tenant_scope definition envelope store
          | some key ↦
              if is_claimed key store
              then (none, store)
              else run_claimed key definition envelope (claim_key key store)
        ]))

abbrev pub running_record : ℕ → JobEnvelope → JobRecord
running_record now envelope = record {
  envelope = envelope;
  status = running;
  updated_at = now;
  started_at = some now;
  completed_at = none;
  last_error = none;
}

-- `failTerminally`.
unfoldable pub fail_terminally : ℕ → ℕ → JobRecord → JobFailure → JobStore → JobStatus × JobStore
unfolding save_state acknowledge
fail_terminally now stream_id value failure store = (
  failed,
  acknowledge stream_id (
      save_state
        (record value { status = failed; completed_at = some now; last_error = some failure })
        store),
)

abbrev pub unknown_type_failure : JobFailure
unknown_type_failure = record {
  name =
      b'U' ∷ b'n' ∷ b'k' ∷ b'n' ∷ b'o' ∷ b'w' ∷ b'n' ∷ b'J' ∷ b'o' ∷ b'b' ∷ b'T' ∷ b'y' ∷ b'p'
      ∷ b'e' ∷ b'E' ∷ b'r' ∷ b'r' ∷ b'o' ∷ b'r' ∷ [];
  message = [];
  category = terminal;
}

module _ (redact : Text → Text) (jitter : JobId → ℕ) (policy : RetryPolicy) where
  -- The `catch` of `dispatch`.
  unfoldable pub settle_job_failure : ℕ → ℕ → JobRecord → JobError → JobStore → JobStatus × JobStore
  unfolding classify_job_error has_attempts_remaining compute_backoff_delay schedule_retry
      acknowledge fail_terminally
  settle_job_failure now stream_id value error store =
      let classified = classify_job_error error in
      let failure : JobFailure = record classified { message = redact classified.message } in
      if is_retryable failure.category
        && has_attempts_remaining value.envelope.attempt value.envelope.max_attempts
      then (
        retrying,
        acknowledge stream_id (
            schedule_retry now (record value { status = retrying; last_error = some failure })
              (compute_backoff_delay value.envelope.attempt policy (jitter value.envelope.job_id))
              store),
      )
      else fail_terminally now stream_id value failure store

  -- `dispatch`, with what the registry has for the job's type.
  unfoldable pub dispatch :
      Option JobDefinition → ℕ → ℕ → JobEnvelope → JobStore → JobStatus × JobStore
  unfolding save_state fail_terminally execute_job settle_job_failure acknowledge
  dispatch registered now stream_id envelope store =
      let value : JobRecord = running_record now envelope in
      let started = save_state value store in
      elim registered [
        | none ↦ fail_terminally now stream_id value unknown_type_failure started
        | some definition ↦
            let (thrown, store') = execute_job definition envelope started in
            elim thrown [
              | none ↦ (
                completed,
                acknowledge stream_id (
                    save_state (record value { status = completed; completed_at = some now })
                      store'),
              )
              | some error ↦ settle_job_failure now stream_id value error store'
            ]
      ]

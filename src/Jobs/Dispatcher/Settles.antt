-- ===== src/Jobs/Dispatcher/Settles.antt =====
-- Every dispatch ends in one recorded state, with its stream entry acknowledged.
use main_acounting_system.Prelude.{
  Bool, Bool-cases, List, Option, Option-cases, [], arith, false, inl, inr, ltb, none, refl, some,
  true, ℕ, ◌&&◌, ◌+◌, ◌<◌, ◌==◌, ◌||◌, ◌∷◌, ◌≡◌, ◌⊎◌,
}
use main_acounting_system.Jobs.{
  JobEnvelope, JobError, JobFailure, JobId, JobRecord, JobStatus, JobStore, classify_job_error,
  completed, failed, is_retryable, retrying,
}
use main_acounting_system.Jobs.Dispatcher.{
  JobDefinition, dispatch, execute_job, fail_terminally, running_record, settle_job_failure,
  unknown_type_failure,
}
use main_acounting_system.Jobs.Queue.{
  acknowledge, insert_delayed, is_delayed, load_state, lookup_state, put_state, remove_delayed,
  save_state, schedule_retry, without_entry,
}
use main_acounting_system.Primitives.Text.{Text}
use main_acounting_system.Retry.{RetryPolicy, compute_backoff_delay, has_attempts_remaining}

abbrev pub has_entry : ℕ → List (ℕ × JobEnvelope) → Bool
has_entry id [] = false
has_entry id ((k, envelope) ∷ rest) = k == id || has_entry id rest

lookup_state-put_state :
    (id : JobId) (value : JobRecord) (states : List (JobId × JobRecord))
    → lookup_state id (put_state id value states) ≡ some value
unfolding lookup_state put_state
lookup_state-put_state id value [] = ground arith
lookup_state-put_state id value ((k, old) ∷ rest) = elim (Bool-cases (k == id)) [
  | inl e ↦ rw e (ground arith)
  | inr e ↦ rw e (rw e (lookup_state-put_state id value rest))
]

pub has_entry-without_entry :
    (id : ℕ) (entries : List (ℕ × JobEnvelope)) → has_entry id (without_entry id entries) ≡ false
unfolding without_entry
has_entry-without_entry id [] = refl
has_entry-without_entry id ((k, envelope) ∷ rest) = elim (Bool-cases (k == id)) [
  | inl e ↦ rw e (has_entry-without_entry id rest)
  | inr e ↦ rw e (rw e (has_entry-without_entry id rest))
]

is_delayed-insert_delayed :
    (id : JobId) (score : ℕ) (delayed : List (JobId × ℕ))
    → is_delayed id (insert_delayed id score delayed) ≡ true
unfolding insert_delayed
is_delayed-insert_delayed id score [] = ground arith
is_delayed-insert_delayed id score ((k, s) ∷ rest) =
    elim (Bool-cases (ltb score s || score == s && ltb id k)) [
      | inl e ↦ rw e (ground arith)
      | inr e ↦ rw e (ground (arith, is_delayed-insert_delayed id score rest))
    ]

-- What a dispatch leaves of a job: the recorded state is the answer, one of the three that end a dispatch,
-- and the entry is acknowledged; a retry is scheduled, and within the budget.
abbrev pub IsFinal : JobStatus → Type 0
IsFinal status = (status ≡ completed) ⊎ (status ≡ retrying) ⊎ (status ≡ failed)

abbrev pub IsScheduled : JobEnvelope → JobStore → JobStatus → Type 0
IsScheduled envelope store retrying =
    (envelope.attempt < envelope.max_attempts) × (is_delayed envelope.job_id store.delayed ≡ true)
IsScheduled envelope store _ = Unit

abbrev pub IsSettled : ℕ → JobEnvelope → JobStatus × JobStore → Type 0
IsSettled stream_id envelope (status, store) =
    IsFinal status
    × ((value : JobRecord) × (load_state envelope.job_id store ≡ some value)
        × (value.status ≡ status)
        × (value.envelope ≡ envelope))
    × (has_entry stream_id store.pending ≡ false)
    × IsScheduled envelope store status

fail_terminally-IsSettled :
    (now stream_id : ℕ) (value : JobRecord) (failure : JobFailure) (store : JobStore)
    → IsSettled stream_id value.envelope (fail_terminally now stream_id value failure store)
unfolding fail_terminally save_state acknowledge load_state
fail_terminally-IsSettled now stream_id value failure store = (
  inr (inr refl),
  (_, lookup_state-put_state value.envelope.job_id _ store.states, refl, refl),
  has_entry-without_entry stream_id store.pending,
  tt,
)

completed-IsSettled :
    (now stream_id : ℕ) (envelope : JobEnvelope) (store : JobStore)
    → let value : JobRecord = record (running_record now envelope) {
      status = completed;
      completed_at = some now;
    } in
      IsSettled stream_id envelope (completed, acknowledge stream_id (save_state value store))
unfolding save_state acknowledge load_state
completed-IsSettled now stream_id envelope store = (
  inl refl,
  (_, lookup_state-put_state envelope.job_id _ store.states, refl, refl),
  has_entry-without_entry stream_id store.pending,
  tt,
)

module _ (redact : Text → Text) (jitter : JobId → ℕ) (policy : RetryPolicy) where
  settle_job_failure-IsSettled :
      (now stream_id : ℕ) (value : JobRecord) (error : JobError) (store : JobStore)
      → IsSettled stream_id value.envelope
          (settle_job_failure redact jitter policy now stream_id value error store)
  unfolding settle_job_failure schedule_retry save_state acknowledge load_state
      has_attempts_remaining
  settle_job_failure-IsSettled now stream_id value error store =
      elim (Bool-cases (
        is_retryable (classify_job_error error).category
        && has_attempts_remaining value.envelope.attempt value.envelope.max_attempts)) [
          | inl e ↦
              rw (e, settle_job_failure)
                (
                  inr (inl refl),
                  (_, lookup_state-put_state value.envelope.job_id _ store.states, refl, refl),
                  has_entry-without_entry stream_id store.pending,
                  (
                    ground arith,
                    is_delayed-insert_delayed value.envelope.job_id
                        (now
                          + compute_backoff_delay value.envelope.attempt policy
                              (jitter value.envelope.job_id))
                        (remove_delayed value.envelope.job_id store.delayed),
                  ),
                )
          | inr e ↦
              rw (e, settle_job_failure) (fail_terminally-IsSettled now stream_id value _ store)
        ]

  -- A dispatch always answers, and it settles the job: the lifecycle record holds the answer (completed,
  -- retrying or failed) beside the job's own envelope, the entry is no longer pending, and a job is retrying
  -- only with attempts left and its retry scheduled.
  pub dispatch-IsSettled :
      (registered : Option JobDefinition) (now stream_id : ℕ) (envelope : JobEnvelope)
      (store : JobStore)
      → IsSettled stream_id envelope
          (dispatch redact jitter policy registered now stream_id envelope store)
  unfolding dispatch
  dispatch-IsSettled none now stream_id envelope store =
      fail_terminally-IsSettled now stream_id (running_record now envelope) unknown_type_failure
        (save_state (running_record now envelope) store)
  dispatch-IsSettled (some definition) now stream_id envelope store =
      elim (Option-cases (execute_job definition envelope started).0) [
        | inl e ↦
            rw (e, dispatch)
              (completed-IsSettled now stream_id envelope
                (execute_job definition envelope started).1)
        | inr (error, e) ↦
            rw (e, dispatch)
              (settle_job_failure-IsSettled now stream_id (running_record now envelope) error
                (execute_job definition envelope started).1)
      ]
    where
      started : JobStore
      started = save_state (running_record now envelope) store

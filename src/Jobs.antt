-- ===== src/Jobs.antt =====
-- infrastructure/jobs: job.types.ts, job.errors.ts, and the stores that jobs are kept in.
pub mod Queue
pub mod Dispatcher
mod Tests
use main_acounting_system.Prelude.{Bool, List, Option, [], false, true, ℕ, ◌∷◌}
use main_acounting_system.Primitives.Text.{Text}

abbrev pub JobId : Type 0
JobId = ℕ

-- A field of a payload, which is opaque: absent or null, another value that is no string, or a string.
pub data PayloadField : Type 0 where
  absent other : PayloadField
  string : Text → PayloadField

-- What the dispatcher looks at in a payload, and the rest.
pub record Payload : Type 0 where
  pub tenant_id : PayloadField
  pub company_id : PayloadField
  pub body : Text

pub record JobEnvelope : Type 0 where
  pub job_id : JobId
  pub type_name : Text
  pub version : ℕ
  pub payload : Payload
  pub attempt : ℕ
  pub max_attempts : ℕ
  pub correlation_id : Text
  pub company_id : Option Text
  pub created_at : ℕ
  pub enqueued_by : Text

pub data JobStatus : Type 0 where
  queued running completed retrying failed : JobStatus

pub data JobErrorCategory : Type 0 where
  retryable terminal unknown : JobErrorCategory

pub record JobFailure : Type 0 where
  pub name : Text
  pub message : Text
  pub category : JobErrorCategory

pub record JobRecord : Type 0 where
  pub envelope : JobEnvelope
  pub status : JobStatus
  pub updated_at : ℕ
  pub started_at : Option ℕ
  pub completed_at : Option ℕ
  pub last_error : Option JobFailure

-- The values that are thrown: a JobExecutionError with its category, another Error, or no Error at all.
pub data JobError : Type 0 where
  execution_error : JobErrorCategory → (name message : Text) → JobError
  plain_error : (name message : Text) → JobError
  non_error : Text → JobError

abbrev pub non_error_name : Text
non_error_name = 78 ∷ 111 ∷ 110 ∷ 69 ∷ 114 ∷ 114 ∷ 111 ∷ 114 ∷ 84 ∷ 104 ∷ 114 ∷ 111 ∷ 119 ∷ 110 ∷ []

-- `classifyJobError`: only an explicit retryable error is retryable.
unfoldable pub classify_job_error : JobError → JobFailure
classify_job_error (execution_error category name message) = record {
  name = name;
  message = message;
  category = category;
}
classify_job_error (plain_error name message) = record {
  name = name;
  message = message;
  category = unknown;
}
classify_job_error (non_error message) = record {
  name = non_error_name;
  message = message;
  category = unknown;
}

abbrev pub is_retryable : JobErrorCategory → Bool
is_retryable retryable = true
is_retryable terminal = false
is_retryable unknown = false

-- The scope that a job runs under.
pub data JobScope : Type 0 where
  company_scope : Text → JobScope
  system_scope : JobScope

-- Redis as the jobs use it: the stream's entries still to deliver and those delivered but not acknowledged,
-- the lifecycle records, the delayed set by score, the idempotency claims; and the executions so far.
pub record JobStore : Type 0 where
  pub next_stream_id : ℕ
  pub stream : List (ℕ × JobEnvelope)
  pub pending : List (ℕ × JobEnvelope)
  pub states : List (JobId × JobRecord)
  pub delayed : List (JobId × ℕ)
  pub claims : List Text
  pub runs : List (JobId × JobScope)

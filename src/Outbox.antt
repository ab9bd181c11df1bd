-- ===== src/Outbox.antt =====
-- infrastructure/outbox/outbox.types.ts and outbox.errors.ts: the record of an event to publish.
pub mod Store
pub mod Publisher
mod Tests
use main_acounting_system.Prelude.{
  Bool, Option, [], false, if◌then◌else◌, if◌then◌else◌, if◌then◌else◌, length, ltb, suc, true,
  zero, ℕ, ◌++◌, ◌-◌, ◌∷◌,
}
use main_acounting_system.Primitives.EntityId.{EntityId}
use main_acounting_system.Primitives.Text.{Text}

-- `OutboxPublicationState`.
pub data PublicationState : Type 0 where
  pending publishing published retrying failed : PublicationState

-- Moments are milliseconds since the epoch.
abbrev pub Moment : Type 0
Moment = ℕ

pub record OutboxRecord : Type 0 where
  pub id : EntityId
  pub event_id : EntityId
  pub event_type : Text
  pub event_version : ℕ
  pub payload : Text
  pub tenant_id : Option EntityId
  pub correlation_id : Option Text
  pub causation_id : Option Text
  pub created_at : Moment
  pub state : PublicationState
  pub attempt_count : ℕ
  pub last_attempt_at : Option Moment
  pub last_failure : Option Text
  pub published_at : Option Moment
  pub next_attempt_at : Option Moment
  pub claim_id : Option EntityId

pub record NewOutboxRecord : Type 0 where
  pub id : EntityId
  pub event_id : EntityId
  pub event_type : Text
  pub event_version : ℕ
  pub payload : Text
  pub tenant_id : Option EntityId
  pub correlation_id : Option Text
  pub causation_id : Option Text
  pub created_at : Moment

-- `OUTBOX_CLAIMABLE_STATES`.
abbrev pub is_claimable : PublicationState → Bool
is_claimable pending = true
is_claimable publishing = false
is_claimable published = false
is_claimable retrying = true
is_claimable failed = false

abbrev pub is_publishing : PublicationState → Bool
is_publishing pending = false
is_publishing publishing = true
is_publishing published = false
is_publishing retrying = false
is_publishing failed = false

abbrev pub is_failed : PublicationState → Bool
is_failed pending = false
is_failed publishing = false
is_failed published = false
is_failed retrying = false
is_failed failed = true

-- What a publisher may throw: `PermanentPublishError` or any other error, with its name and message.
pub record PublishFailure : Type 0 where
  pub permanent : Bool
  pub name : Text
  pub message : Text

abbrev pub max_failure_length : ℕ
max_failure_length = 500

abbrev pub slice : ℕ → Text → Text
slice zero text = []
slice (suc n) [] = []
slice (suc n) (c ∷ text) = c ∷ slice n text

-- `describeFailure`, with the name and the message joined by ": ".
unfoldable pub describe_failure : PublishFailure → (Text → Text) → Text
describe_failure failure redact =
    let line = failure.name ++ 58 ∷ 32 ∷ redact failure.message in
    if ltb max_failure_length (length line)
    then slice (max_failure_length - 3) line ++ 46 ∷ 46 ∷ 46 ∷ []
    else line

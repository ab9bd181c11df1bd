-- ===== src/Outbox/Publisher.antt =====
-- infrastructure/outbox/outbox.publisher.ts: one run of the dispatcher. The event publisher, the redaction
-- and the random jitter are parameters; a failure of the database itself is not modelled. A run is later
-- than a minute after the epoch.
pub mod Budget
pub mod Verdict
pub mod Summary
use main_acounting_system.Prelude.{
  Bool, List, Option, [], if◌then◌else◌, if◌then◌else◌, if◌then◌else◌, leb, length, none, some, ℕ,
  ◌++◌, ◌+◌, ◌-◌, ◌||◌, ◌∷◌,
}
use main_acounting_system.Outbox.{Moment, OutboxRecord, PublishFailure, describe_failure}
use main_acounting_system.Outbox.Store.{
  Table, claim_due, mark_failed, mark_published, mark_retrying, release_stale,
}
use main_acounting_system.Primitives.EntityId.{EntityId}
use main_acounting_system.Primitives.Text.{Text}
use main_acounting_system.Retry.{RetryPolicy, compute_backoff_delay}

abbrev pub publishing_visibility_ms : ℕ
publishing_visibility_ms = 60000

pub record OutboxConfiguration : Type 0 where
  pub batch_size : ℕ
  pub policy : RetryPolicy

pub record FailureReport : Type 0 where
  pub id : EntityId
  pub event_id : EntityId
  pub event_type : Text
  pub attempt : ℕ
  pub gave_up : Bool
  pub failure : Text

-- The counts of `OutboxPublishSummary` that the loop collects, and the table it leaves.
pub record Progress : Type 0 where
  pub published : ℕ
  pub retrying : ℕ
  pub failed : ℕ
  pub failures : List FailureReport
  pub table : Table

pub record PublishSummary : Type 0 where
  pub released : ℕ
  pub claimed : ℕ
  pub progress : Progress

-- What the publisher is asked to send: `toPublishedEvent`.
pub record PublishedEvent : Type 0 where
  pub event_id : EntityId
  pub event_type : Text
  pub event_version : ℕ
  pub payload : Text

unfoldable pub to_published_event : OutboxRecord → PublishedEvent
to_published_event row = record {
  event_id = row.event_id;
  event_type = row.event_type;
  event_version = row.event_version;
  payload = row.payload;
}

module _ (publish : PublishedEvent → Option PublishFailure) (redact : Text → Text)
    (jitter : EntityId → ℕ) (config : OutboxConfiguration) where
  -- The `catch` of the loop's body.
  unfoldable pub settle_failure : Moment → OutboxRecord → PublishFailure → Progress → Progress
  unfolding mark_failed mark_retrying describe_failure compute_backoff_delay
  settle_failure now row failure progress =
      let line = describe_failure failure redact in
      let exhausted = leb config.policy.max_attempts row.attempt_count in
      let permanent = failure.permanent || exhausted in
      let delay = compute_backoff_delay row.attempt_count config.policy (jitter row.id) in
      let report : FailureReport = record {
        id = row.id;
        event_id = row.event_id;
        event_type = row.event_type;
        attempt = row.attempt_count;
        gave_up = permanent;
        failure = line;
      } in
      record {
        published = progress.published;
        retrying = if permanent then progress.retrying else progress.retrying + 1;
        failed = if permanent then progress.failed + 1 else progress.failed;
        failures = progress.failures ++ report ∷ [];
        table =
            if permanent
            then mark_failed row.id line progress.table
            else mark_retrying row.id line (now + delay) progress.table;
      }

  -- The loop's body.
  unfoldable pub settle_record : Moment → OutboxRecord → Progress → Progress
  unfolding settle_failure mark_published to_published_event
  settle_record now row progress = elim (publish (to_published_event row)) [
    | none ↦ record progress {
      table = mark_published row.id now progress.table;
      published = progress.published + 1;
    }
    | some failure ↦ settle_failure now row failure progress
  ]

  unfoldable pub settle_all : Moment → List OutboxRecord → Progress → Progress
  unfolding settle_record
  settle_all now [] progress = progress
  settle_all now (row ∷ rows) progress = settle_all now rows (settle_record now row progress)

  -- `publishBatch`; `claim` is the fresh token of the run.
  unfoldable pub publish_batch : Text → EntityId → Moment → Table → PublishSummary
  unfolding release_stale claim_due settle_all
  publish_batch note claim now table =
      let (released, table') =
        release_stale note (now - publishing_visibility_ms) config.policy.max_attempts table in
      let (records, claimed_table) = claim_due claim config.batch_size now table' in
      let start : Progress = record {
        published = 0;
        retrying = 0;
        failed = 0;
        failures = [];
        table = claimed_table;
      } in
      record {
        released = released;
        claimed = length records;
        progress = settle_all now records start;
      }

-- ===== src/Outbox/Tests.antt =====
-- Concrete runs of the publisher.
use main_acounting_system.Prelude.{
  All, Option, [], arith, false, if◌then◌else◌, if◌then◌else◌, if◌then◌else◌, length, map, none,
  refl, some, ℕ, ◌*◌, ◌+◌, ◌==◌, ◌∷◌, ◌≡◌, ◌≤◌,
}
use main_acounting_system.Outbox.{
  OutboxRecord, PublishFailure, failed, pending, published, retrying,
}
use main_acounting_system.Outbox.Publisher.{OutboxConfiguration, PublishedEvent, publish_batch}
use main_acounting_system.Outbox.Publisher.Budget.{publish_batch-IsSound}
use main_acounting_system.Outbox.Publisher.Summary.{counted, publish_batch-counts}
use main_acounting_system.Outbox.Publisher.Verdict.{IsSettledAs}
use main_acounting_system.Outbox.Store.{Table, claim_due, release_stale}
use main_acounting_system.Outbox.Store.Rows.{IsKeyed}
use main_acounting_system.Outbox.Store.Sound.{IsSound}
use main_acounting_system.Primitives.EntityId.{EntityId}
use main_acounting_system.Primitives.Text.{Text}
use main_acounting_system.Retry.{
  compute_backoff_delay, compute_backoff_delay_bounds, double_exponential,
}

abbrev a_record : EntityId → ℕ → OutboxRecord
a_record id created = record {
  id = id;
  event_id = id;
  event_type = [];
  event_version = 1;
  payload = [];
  tenant_id = none;
  correlation_id = none;
  causation_id = none;
  created_at = created;
  state = pending;
  attempt_count = 0;
  last_attempt_at = none;
  last_failure = none;
  published_at = none;
  next_attempt_at = none;
  claim_id = none;
}

abbrev two_records : Table
two_records = a_record 1 20 ∷ a_record 2 10 ∷ []

abbrev configuration : OutboxConfiguration
configuration = record {
  batch_size = 5;
  policy = record { max_attempts = 3; base_delay_ms = 1000; max_delay_ms = 60000 };
}

-- The transport refuses the event 1 for now.
abbrev flaky : PublishedEvent → Option PublishFailure
flaky event =
    if event.event_id == 1
    then some (record { permanent = false; name = []; message = [] })
    else none

abbrev jitterless : EntityId → ℕ
jitterless id = 0

abbrev plain : Text → Text
plain text = text

two_records-IsKeyed : IsKeyed two_records
two_records-IsKeyed =
    ((λ e. refl, (λ e. ground arith, tt)), ((λ e. ground arith, (λ e. refl, tt)), tt))

publish_batch-IsSound_example :
    let table' =
      (publish_batch flaky plain jitterless configuration [] 9 100000 two_records).progress.table in
    All (IsSound 3) table' × IsKeyed table'
publish_batch-IsSound_example =
    publish_batch-IsSound flaky plain jitterless configuration [] 9 100000 two_records (omega arith)
      ((refl, refl), ((refl, refl), tt)) two_records-IsKeyed

publish_batch-counts_example :
    let records = (claim_due 9 5 100000 (release_stale [] 40000 3 two_records).1).0 in
    let summary = publish_batch flaky plain jitterless configuration [] 9 100000 two_records in
    let end = summary.progress in
    All (IsSettledAs flaky configuration end.table) records
    × (summary.claimed ≡ length records)
    × (end.published ≡ counted flaky configuration published records)
    × (end.retrying ≡ counted flaky configuration retrying records)
    × (end.failed ≡ counted flaky configuration failed records)
    × (length end.failures ≡ end.retrying + end.failed)
    × (map (λ (row : OutboxRecord). row.id) end.table ≡ 1 ∷ 2 ∷ [])
publish_batch-counts_example =
    publish_batch-counts flaky plain jitterless configuration [] 9 100000 two_records
      two_records-IsKeyed

-- One record is published and one is to be retried.
publish_batch_test :
    let progress =
      (publish_batch flaky plain jitterless configuration [] 9 100000 two_records).progress in
    (progress.published ≡ 1) × (progress.retrying ≡ 1)
unfolding publish_batch
publish_batch_test = (refl, refl)

compute_backoff_delay_bounds_example :
    let policy = configuration.policy in
    let delay = compute_backoff_delay 2 policy 5 in
    (double_exponential 2 policy ≤ 4 * delay + 2)
    × (2 * delay ≤ double_exponential 2 policy + 1)
    × (delay ≤ 60000)
compute_backoff_delay_bounds_example =
    compute_backoff_delay_bounds 2 configuration.policy 5 (omega arith)

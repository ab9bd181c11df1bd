-- ===== src/Outbox/Store.antt =====
-- infrastructure/outbox/persistence/drizzle-outbox-store.ts: the table, and its statements. The table is
-- the list of its rows.
pub mod Rows
pub mod Sound
use main_acounting_system.Prelude.{
  Bool, List, Option, [], any, false, if◌then◌else◌, if◌then◌else◌, if◌then◌else◌, leb, ltb, map,
  none, some, suc, true, zero, ℕ, ◌&&◌, ◌++◌, ◌+◌, ◌==◌, ◌||◌, ◌∷◌,
}
use main_acounting_system.Outbox.{
  Moment, NewOutboxRecord, OutboxRecord, PublicationState, failed, is_claimable, is_failed,
  is_publishing, pending, published, publishing, retrying,
}
use main_acounting_system.Primitives.EntityId.{EntityId}
use main_acounting_system.Primitives.Text.{Text}

abbrev pub Table : Type 0
Table = List OutboxRecord

-- `UPDATE … SET set WHERE test`, and how many rows it changed.
abbrev pub update_row :
    (OutboxRecord → Bool) → (OutboxRecord → OutboxRecord) → OutboxRecord → OutboxRecord
update_row test set row = if test row then set row else row

abbrev pub update_where : (OutboxRecord → Bool) → (OutboxRecord → OutboxRecord) → Table → Table
update_where test set = map (update_row test set)

abbrev pub count_where : (OutboxRecord → Bool) → Table → ℕ
count_where test [] = 0
count_where test (row ∷ table) =
    let rest = count_where test table in if test row then suc rest else rest

abbrev pub select_where : (OutboxRecord → Bool) → Table → Table
select_where test [] = []
select_where test (row ∷ table) =
    let rest = select_where test table in if test row then row ∷ rest else rest

-- `ORDER BY created_at ASC, id ASC`.
abbrev pub comes_first : OutboxRecord → OutboxRecord → Bool
comes_first a b = ltb a.created_at b.created_at || a.created_at == b.created_at && leb a.id b.id

abbrev pub insert_ordered : OutboxRecord → Table → Table
insert_ordered row [] = row ∷ []
insert_ordered row (r ∷ table) =
    let rest = insert_ordered row table in if comes_first row r then row ∷ r ∷ table else r ∷ rest

abbrev pub order_by_age : Table → Table
order_by_age [] = []
order_by_age (row ∷ table) = insert_ordered row (order_by_age table)

abbrev pub limit_to : ℕ → Table → Table
limit_to zero table = []
limit_to (suc n) [] = []
limit_to (suc n) (row ∷ table) = row ∷ limit_to n table

abbrev pub has_id : EntityId → OutboxRecord → Bool
has_id id row = row.id == id

abbrev pub is_none_or : (Moment → Bool) → Option Moment → Bool
is_none_or test none = true
is_none_or test (some at) = test at

-- `add`.
unfoldable pub add_record : NewOutboxRecord → Table → Table
add_record new table =
    table
    ++ record {
      id = new.id;
      event_id = new.event_id;
      event_type = new.event_type;
      event_version = new.event_version;
      payload = new.payload;
      tenant_id = new.tenant_id;
      correlation_id = new.correlation_id;
      causation_id = new.causation_id;
      created_at = new.created_at;
      state = pending;
      attempt_count = 0;
      last_attempt_at = none;
      last_failure = none;
      published_at = none;
      next_attempt_at = none;
      claim_id = none;
    }
      ∷ []

unfoldable pub is_due : Moment → OutboxRecord → Bool
is_due now row = is_claimable row.state && is_none_or (λ at. leb at now) row.next_attempt_at

abbrev pub set_claim : EntityId → Moment → OutboxRecord → OutboxRecord
set_claim claim now row = record row {
  state = publishing;
  claim_id = some claim;
  attempt_count = row.attempt_count + 1;
  last_attempt_at = some now;
}

abbrev pub is_claimed_by : EntityId → OutboxRecord → Bool
is_claimed_by claim row = elim row.claim_id [ none ↦ false | some c ↦ c == claim ]

-- The rows the claiming `UPDATE` takes: the oldest due ones, as many as the limit allows.
unfoldable pub due_batch : ℕ → Moment → Table → Table
unfolding is_due
due_batch limit now table = limit_to limit (order_by_age (select_where (is_due now) table))

abbrev pub is_among : Table → OutboxRecord → Bool
is_among batch row = any (has_id row.id) batch

unfoldable pub claim_update : EntityId → ℕ → Moment → Table → Table
unfolding due_batch
claim_update claim limit now table =
    update_where (is_among (due_batch limit now table)) (set_claim claim now) table

-- `claimDue`: the update, and the rows that carry its token.
unfoldable pub claim_due : EntityId → ℕ → Moment → Table → Table × Table
unfolding claim_update
claim_due claim limit now table =
    let table' = claim_update claim limit now table in
    (limit_to limit (order_by_age (select_where (is_claimed_by claim) table')), table')

abbrev pub set_published : Moment → OutboxRecord → OutboxRecord
set_published now row = record row {
  state = published;
  published_at = some now;
  claim_id = none;
  next_attempt_at = none;
  last_failure = none;
}

abbrev pub set_retrying : Text → Moment → OutboxRecord → OutboxRecord
set_retrying failure next row = record row {
  state = retrying;
  last_failure = some failure;
  next_attempt_at = some next;
  claim_id = none;
}

abbrev pub set_failed : Text → OutboxRecord → OutboxRecord
set_failed failure row = record row {
  state = failed;
  last_failure = some failure;
  next_attempt_at = none;
  claim_id = none;
}

unfoldable pub mark_published : EntityId → Moment → Table → Table
mark_published id now = update_where (has_id id) (set_published now)

unfoldable pub mark_retrying : EntityId → Text → Moment → Table → Table
mark_retrying id failure next = update_where (has_id id) (set_retrying failure next)

unfoldable pub mark_failed : EntityId → Text → Table → Table
mark_failed id failure = update_where (has_id id) (set_failed failure)

-- `releaseStale`: what is stuck goes back into play, or fails when its budget is spent.
abbrev pub is_stale : Moment → OutboxRecord → Bool
is_stale older_than row =
    is_publishing row.state && is_none_or (λ at. leb at older_than) row.last_attempt_at

abbrev pub set_released : Text → PublicationState → OutboxRecord → OutboxRecord
set_released note state row = record row {
  state = state;
  claim_id = none;
  next_attempt_at = none;
  last_failure = some note;
}

unfoldable pub release_stale : Text → Moment → ℕ → Table → ℕ × Table
release_stale note older_than max_attempts table =
    let exhausted =
      λ (row : OutboxRecord). is_stale older_than row && leb max_attempts row.attempt_count in
    let table' = update_where exhausted (set_released note failed) table in
    let recoverable =
      λ (row : OutboxRecord). is_stale older_than row && ltb row.attempt_count max_attempts in
    (
      count_where exhausted table + count_where recoverable table',
      update_where recoverable (set_released note retrying) table',
    )

-- `requeue`: a failed record starts over.
abbrev pub set_requeued : OutboxRecord → OutboxRecord
set_requeued row = record row {
  state = pending;
  attempt_count = 0;
  last_failure = none;
  next_attempt_at = none;
  published_at = none;
  claim_id = none;
}

unfoldable pub requeue : EntityId → Table → Bool × Table
requeue id table =
    let test = λ (row : OutboxRecord). has_id id row && is_failed row.state in
    (ltb 0 (count_where test table), update_where test set_requeued table)

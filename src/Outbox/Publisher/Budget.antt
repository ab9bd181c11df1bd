-- ===== src/Outbox/Publisher/Budget.antt =====
-- A run of the publisher keeps the outbox table sound, and its summary adds up.
use main_acounting_system.Prelude.{
  All, Bool-cases, List, Option, Option-cases, [], ap, arith, inl, inr, leb, refl, sym, ℕ, ◌+◌, ◌-◌,
  ◌||◌, ◌∙◌, ◌∷◌, ◌≡◌, ◌≤◌,
}
use main_acounting_system.Outbox.{Moment, OutboxRecord, PublishFailure, describe_failure}
use main_acounting_system.Outbox.Publisher.{
  OutboxConfiguration, Progress, PublishedEvent, publish_batch, publishing_visibility_ms,
  settle_all, settle_failure, settle_record, to_published_event,
}
use main_acounting_system.Outbox.Store.{
  Table, claim_due, claim_update, has_id, is_claimed_by, mark_failed, mark_published, mark_retrying,
  release_stale, set_failed, set_published, set_retrying, update_row, update_where,
}
use main_acounting_system.Outbox.Store.Rows.{
  All-batch, All-imp, All-map, All-zip, IsKeyed, update_where-IsKeyed,
}
use main_acounting_system.Outbox.Store.Sound.{
  IsSound, IsSound-bound, claim_update-IsSound, release_stale-IsSound, update_row-keeps,
}
use main_acounting_system.Primitives.EntityId.{EntityId}
use main_acounting_system.Primitives.Text.{Text}
use main_acounting_system.Retry.{compute_backoff_delay}

-- What the loop relies on: every record that is still to settle has spent the attempts that its row says.
abbrev pub Agrees : List OutboxRecord → Table → Type 0
Agrees records table =
    All (λ r. All (λ row. r.id ≡ row.id → r.attempt_count ≡ row.attempt_count) table) records

abbrev pub KeepsIdentity : (OutboxRecord → OutboxRecord) → Type 0
KeepsIdentity set =
    (row : OutboxRecord) → ((set row).id ≡ row.id) × ((set row).attempt_count ≡ row.attempt_count)

update_row-identity :
    (id : EntityId) (set : OutboxRecord → OutboxRecord) (row : OutboxRecord)
    → KeepsIdentity set
    → let row' = update_row (has_id id) set row in
      (row'.id ≡ row.id) × (row'.attempt_count ≡ row.attempt_count)
update_row-identity id set row keeps = elim (Bool-cases (has_id id row)) [
  | inl e ↦ rw e (keeps row)
  | inr e ↦ rw e (refl, refl)
]

update_where-Agrees :
    (id : EntityId) (set : OutboxRecord → OutboxRecord) (records : List OutboxRecord)
    (table : Table)
    → KeepsIdentity set
    → Agrees records table
    → Agrees records (update_where (has_id id) set table)
update_where-Agrees id set records table keeps h =
    All-imp _ _ records
      (λ r k.
        All-map (λ row. r.id ≡ row.id → r.attempt_count ≡ row.attempt_count) _ table
          (update_row (has_id id) set)
          (λ row f e.
            f (e ∙ (update_row-identity id set row keeps).0)
            ∙ sym (update_row-identity id set row keeps).1)
          k)
      h

-- A mark on the row of one record, which leaves rows of its attempt count sound.
mark-IsSound :
    (max_attempts : ℕ) (r : OutboxRecord) (set : OutboxRecord → OutboxRecord) (table : Table)
    → ((row : OutboxRecord)
        → r.attempt_count ≡ row.attempt_count
        → IsSound max_attempts row
        → IsSound max_attempts (set row))
    → All (λ row. r.id ≡ row.id → r.attempt_count ≡ row.attempt_count) table
    → All (IsSound max_attempts) table
    → All (IsSound max_attempts) (update_where (has_id r.id) set table)
mark-IsSound max_attempts r set table f h k =
    All-map
      (λ row. IsSound max_attempts row × (r.id ≡ row.id → r.attempt_count ≡ row.attempt_count))
      (IsSound max_attempts) table (update_row (has_id r.id) set)
      (λ row (s, e).
        update_row-keeps (IsSound max_attempts) (has_id r.id) set row s
          (λ t. f row (e (ground arith)) s))
      (All-zip _ _ table k h)

abbrev pub Kept : ℕ → List OutboxRecord → Table → Type 0
Kept max_attempts records table =
    All (IsSound max_attempts) table × IsKeyed table × Agrees records table

mark-Kept :
    (max_attempts : ℕ) (r : OutboxRecord) (records : List OutboxRecord)
    (set : OutboxRecord → OutboxRecord) (table : Table)
    → KeepsIdentity set
    → ((row : OutboxRecord)
        → r.attempt_count ≡ row.attempt_count
        → IsSound max_attempts row
        → IsSound max_attempts (set row))
    → Kept max_attempts (r ∷ records) table
    → Kept max_attempts records (update_where (has_id r.id) set table)
mark-Kept max_attempts r records set table keeps f (h, k, agrees) = (
  mark-IsSound max_attempts r set table f agrees.0 h,
  update_where-IsKeyed (has_id r.id) set table (λ row. (keeps row).0) k,
  update_where-Agrees r.id set records table keeps agrees.1,
)

module _ (publish : PublishedEvent → Option PublishFailure) (redact : Text → Text)
    (jitter : EntityId → ℕ) (config : OutboxConfiguration) where
  settle_record-Kept :
      (now : Moment) (r : OutboxRecord) (records : List OutboxRecord) (progress : Progress)
      → Kept config.policy.max_attempts (r ∷ records) progress.table
      → Kept config.policy.max_attempts records
          (settle_record publish redact jitter config now r progress).table
  unfolding settle_record settle_failure mark_published mark_failed mark_retrying
  settle_record-Kept now r records progress h =
      elim (Option-cases (publish (to_published_event r))) [
        | inl e ↦
            rw (e, settle_record)
              (mark-Kept config.policy.max_attempts r records (set_published now) progress.table
                (λ row. (refl, refl))
                (λ row same s. (IsSound-bound config.policy.max_attempts row s, refl, refl)) h)
        | inr (failure, e) ↦
            rw (e, settle_record)
              (elim (Bool-cases
                (failure.permanent || leb config.policy.max_attempts r.attempt_count)) [
                  | inl f ↦ rw f (
                      mark-Kept config.policy.max_attempts r records
                        (set_failed (describe_failure failure redact)) progress.table
                        (λ row. (refl, refl))
                        (λ row same s. (IsSound-bound config.policy.max_attempts row s, refl, refl))
                        h)
                  | inr f ↦ rw f (
                      mark-Kept config.policy.max_attempts r records
                        (set_retrying (describe_failure failure redact)
                          (now + compute_backoff_delay r.attempt_count config.policy (jitter r.id)))
                        progress.table (λ row. (refl, refl)) (λ row same s. (ground arith, refl)) h)
                ])
      ]

  settle_all-Kept :
      (now : Moment) (records : List OutboxRecord) (progress : Progress)
      → Kept config.policy.max_attempts records progress.table
      → Kept config.policy.max_attempts []
          (settle_all publish redact jitter config now records progress).table
  unfolding settle_all
  settle_all-Kept now [] progress h = h
  settle_all-Kept now (r ∷ records) progress h =
      settle_all-Kept now records (settle_record publish redact jitter config now r progress)
        (settle_record-Kept now r records progress h)

  -- The retry budget: from a table in which every record is in a proper state and identities are keys, with a
  -- budget of one attempt at least, a run leaves such a table, whatever the transport answers. So no record is
  -- ever attempted more often than the budget allows, and a claim is held just by what is being published.
  pub publish_batch-IsSound :
      (note : Text) (claim : EntityId) (now : Moment) (table : Table)
      → 1 ≤ config.policy.max_attempts
      → All (IsSound config.policy.max_attempts) table
      → IsKeyed table
      → let table' =
          (publish_batch publish redact jitter config note claim now table).progress.table in
        All (IsSound config.policy.max_attempts) table' × IsKeyed table'
  unfolding publish_batch claim_due
  publish_batch-IsSound note claim now table least h k = (kept.0, kept.1)
    where
      released : Table
      released =
          (release_stale note (now - publishing_visibility_ms) config.policy.max_attempts table).1

      sound : All (IsSound config.policy.max_attempts) released × IsKeyed released
      sound =
          release_stale-IsSound config.policy.max_attempts note (now - publishing_visibility_ms)
            table h k

      table' : Table
      table' = claim_update claim config.batch_size now released

      claimed : All (IsSound config.policy.max_attempts) table' × IsKeyed table'
      claimed =
          claim_update-IsSound config.policy.max_attempts claim config.batch_size now released least
            sound.0 sound.1

      start : Progress
      start = record { published = 0; retrying = 0; failed = 0; failures = []; table = table' }

      records : Table
      records = (claim_due claim config.batch_size now released).0

      agrees : Agrees records table'
      agrees =
          All-imp _ _ records
            (λ r f. All-imp _ _ table' (λ row e same. ap (λ x. x.attempt_count) (e same)) f.1)
            (All-batch (λ r. All (λ row. r.id ≡ row.id → r ≡ row) table') (is_claimed_by claim)
              config.batch_size table' claimed.1)

      kept :
          Kept config.policy.max_attempts []
            (settle_all publish redact jitter config now records start).table
      kept = settle_all-Kept now records start (claimed.0, claimed.1, agrees)

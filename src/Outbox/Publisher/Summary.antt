-- ===== src/Outbox/Publisher/Summary.antt =====
-- What a run does with the records that it claims, and its summary.
use main_acounting_system.Prelude.{
  All, Bool, Bool-cases, List, Option, Option-cases, [], ap, arith, false, inl, inr, leb, length,
  length-append, map, refl, subst, sym, true, ℕ, ◌+◌, ◌-◌, ◌||◌, ◌∙◌, ◌∷◌, ◌≡◌,
}
use main_acounting_system.Outbox.{
  Moment, OutboxRecord, PublicationState, PublishFailure, describe_failure, failed, published,
  retrying,
}
use main_acounting_system.Outbox.Publisher.{
  OutboxConfiguration, Progress, PublishedEvent, publish_batch, publishing_visibility_ms,
  settle_all, settle_failure, settle_record, to_published_event,
}
use main_acounting_system.Outbox.Publisher.Verdict.{
  IsSettledAs, Marks, update_where-ids, update_where-keeps, update_where-settles, verdict,
}
use main_acounting_system.Outbox.Store.{
  Table, claim_due, claim_update, count_where, has_id, is_claimed_by, mark_failed, mark_published,
  mark_retrying, release_stale, set_failed, set_published, set_retrying,
}
use main_acounting_system.Outbox.Store.Rows.{All-batch, All-imp, IsKeyed, update_where-IsKeyed}
use main_acounting_system.Primitives.EntityId.{EntityId}
use main_acounting_system.Primitives.Text.{Text}
use main_acounting_system.Retry.{compute_backoff_delay}

-- Records with one identity are one record.
abbrev AreKeyed : List OutboxRecord → Type 0
AreKeyed records = All (λ q. All (λ r. r.id ≡ q.id → r ≡ q) records) records

abbrev pub is_in : PublicationState → PublicationState → Bool
is_in published published = true
is_in retrying retrying = true
is_in failed failed = true
is_in _ _ = false

-- How many records have a verdict.
abbrev pub counted :
    (PublishedEvent → Option PublishFailure)
    → OutboxConfiguration
    → PublicationState
    → List OutboxRecord
    → ℕ
counted publish config state records =
    count_where (λ r. is_in state (verdict publish config r)) records

module _ (publish : PublishedEvent → Option PublishFailure) (redact : Text → Text)
    (jitter : EntityId → ℕ) (config : OutboxConfiguration) where
  settle_record-Marks :
      (now : Moment) (r : OutboxRecord) (progress : Progress)
      → Marks publish config r progress.table
          (settle_record publish redact jitter config now r progress).table
  unfolding settle_record settle_failure mark_published mark_failed mark_retrying to_published_event
  settle_record-Marks now r progress = elim (Option-cases (publish (to_published_event r))) [
    | inl e ↦
        (set_published now, λ row. (rw (e, verdict) refl, refl, refl), rw (e, settle_record) refl)
    | inr (failure, e) ↦
        elim (Bool-cases (failure.permanent || leb config.policy.max_attempts r.attempt_count)) [
          | inl f ↦ (
            set_failed (describe_failure failure redact),
            λ row. (rw (e, f, verdict) refl, refl, refl),
            rw (e, f, settle_record) refl,
          )
          | inr f ↦ (
            set_retrying (describe_failure failure redact)
                (now + compute_backoff_delay r.attempt_count config.policy (jitter r.id)),
            λ row. (rw (e, f, verdict) refl, refl, refl),
            rw (e, f, settle_record) refl,
          )
        ]
  ]

  -- What is settled stays so through records that are other ones.
  settle_all-keeps :
      (now : Moment) (records : List OutboxRecord) (progress : Progress) (q : OutboxRecord)
      → All (λ r. r.id ≡ q.id → r ≡ q) records
      → IsSettledAs publish config progress.table q
      → IsSettledAs publish config
          (settle_all publish redact jitter config now records progress).table
          q
  unfolding settle_all
  settle_all-keeps now [] progress q h k = k
  settle_all-keeps now (r ∷ records) progress q h k =
      let (set, f, e) = settle_record-Marks now r progress in
      settle_all-keeps now records (settle_record publish redact jitter config now r progress) q h.1
        (subst (λ t. IsSettledAs publish config t q) (sym e)
          (update_where-keeps publish config r q set progress.table f h.0 k))

  settle_all-settles :
      (now : Moment) (records : List OutboxRecord) (progress : Progress)
      → AreKeyed records
      → All
          (IsSettledAs publish config
            (settle_all publish redact jitter config now records progress).table)
          records
  unfolding settle_all
  settle_all-settles now [] progress h = tt
  settle_all-settles now (r ∷ records) progress h =
      let (set, f, e) = settle_record-Marks now r progress in
      let next = settle_record publish redact jitter config now r progress in
      (
        settle_all-keeps now records next r h.0.1 (
            subst (λ t. IsSettledAs publish config t r) (sym e)
              (update_where-settles publish config r set progress.table f)),
        settle_all-settles now records next (All-imp _ _ records (λ q k. k.1) h.1),
      )

  settle_all-ids :
      (now : Moment) (records : List OutboxRecord) (progress : Progress)
      → map
          (λ (row : OutboxRecord). row.id)
          (settle_all publish redact jitter config now records progress).table
        ≡ map (λ (row : OutboxRecord). row.id) progress.table
  unfolding settle_all
  settle_all-ids now [] progress = refl
  settle_all-ids now (r ∷ records) progress =
      let (set, f, e) = settle_record-Marks now r progress in
      settle_all-ids now records (settle_record publish redact jitter config now r progress)
      ∙ ap (map (λ (row : OutboxRecord). row.id)) e
      ∙ update_where-ids (has_id r.id) set progress.table (λ row. (f row).2)

  settle_record-counts :
      (now : Moment) (r : OutboxRecord) (progress : Progress)
      → let next = settle_record publish redact jitter config now r progress in
        (next.published ≡ progress.published + counted publish config published (r ∷ []))
        × (next.retrying ≡ progress.retrying + counted publish config retrying (r ∷ []))
        × (next.failed ≡ progress.failed + counted publish config failed (r ∷ []))
        × (length next.failures
            ≡ length progress.failures
              + counted publish config retrying (r ∷ [])
              + counted publish config failed (r ∷ []))
  unfolding settle_record settle_failure to_published_event
  settle_record-counts now r progress = elim (Option-cases (publish (to_published_event r))) [
    | inl e ↦ rw (e, settle_record, verdict) (omega arith, omega arith, omega arith, omega arith)
    | inr (failure, e) ↦
        elim (Bool-cases (failure.permanent || leb config.policy.max_attempts r.attempt_count)) [
          | inl f ↦
              rw (e, f, settle_record, verdict, length-append)
                (omega arith, omega arith, omega arith, omega arith)
          | inr f ↦
              rw (e, f, settle_record, verdict, length-append)
                (omega arith, omega arith, omega arith, omega arith)
        ]
  ]

  counted_cons :
      (state : PublicationState) (r : OutboxRecord) (records : List OutboxRecord)
      → counted publish config state (r ∷ records)
        ≡ counted publish config state (r ∷ []) + counted publish config state records
  counted_cons state r records = ground arith

  settle_all-counts :
      (now : Moment) (records : List OutboxRecord) (progress : Progress)
      → let end = settle_all publish redact jitter config now records progress in
        (end.published ≡ progress.published + counted publish config published records)
        × (end.retrying ≡ progress.retrying + counted publish config retrying records)
        × (end.failed ≡ progress.failed + counted publish config failed records)
        × (length end.failures
            ≡ length progress.failures
              + counted publish config retrying records
              + counted publish config failed records)
  unfolding settle_all
  settle_all-counts now [] progress = (omega arith, omega arith, omega arith, omega arith)
  settle_all-counts now (r ∷ records) progress =
      let next = settle_record publish redact jitter config now r progress in
      let (p, q, f, l) = settle_record-counts now r progress in
      let (ps, qs, fs, ls) = settle_all-counts now records next in
      (
        omega (arith, p, ps, counted_cons published r records),
        omega (arith, q, qs, counted_cons retrying r records),
        omega (arith, f, fs, counted_cons failed r records),
        omega (arith, l, ls, counted_cons retrying r records, counted_cons failed r records),
      )

  -- From a table in which identities are keys: after a run, the row of every record that it claimed is in the
  -- state that the transport's answer asks for, published, failed for a permanent failure or a spent budget, or else
  -- retrying, and no longer claimed; the summary counts the records by these states, with one failure report for
  -- each that was not published; and no row is added or lost.
  pub publish_batch-counts :
      (note : Text) (claim : EntityId) (now : Moment) (table : Table)
      → IsKeyed table
      → let records =
          (claim_due claim config.batch_size now
            (release_stale note
              (now - publishing_visibility_ms)
              config.policy.max_attempts
              table).1).0 in
        let summary = publish_batch publish redact jitter config note claim now table in
        let end = summary.progress in
        All (IsSettledAs publish config end.table) records
        × (summary.claimed ≡ length records)
        × (end.published ≡ counted publish config published records)
        × (end.retrying ≡ counted publish config retrying records)
        × (end.failed ≡ counted publish config failed records)
        × (length end.failures ≡ end.retrying + end.failed)
        × (map (λ (row : OutboxRecord). row.id) end.table
            ≡ map (λ (row : OutboxRecord). row.id) table)
  unfolding publish_batch claim_due claim_update release_stale
  publish_batch-counts note claim now table keyed = (
    settle_all-settles now records start own,
    refl,
    omega (arith, counts.0),
    omega (arith, counts.1),
    omega (arith, counts.2),
    omega (arith, counts),
    settle_all-ids now records start
        ∙ update_where-ids _ _ released (λ row. refl)
        ∙ update_where-ids _ _ _ (λ row. refl)
        ∙ update_where-ids _ _ table (λ row. refl),
  )
    where
      released : Table
      released =
          (release_stale note (now - publishing_visibility_ms) config.policy.max_attempts table).1

      table' : Table
      table' = claim_update claim config.batch_size now released

      table'-keyed : IsKeyed table'
      table'-keyed =
          update_where-IsKeyed _ _ released (λ row. refl)
            (update_where-IsKeyed _ _ _ (λ row. refl)
              (update_where-IsKeyed _ _ table (λ row. refl) keyed))

      records : Table
      records = (claim_due claim config.batch_size now released).0

      own : AreKeyed records
      own =
          All-imp _ _ records
            (λ q h.
              All-imp _ _ records (λ r k same. sym (k.1 (sym same)))
                (All-batch (λ r. q.id ≡ r.id → q ≡ r) (is_claimed_by claim) config.batch_size table'
                  h.1))
            (All-batch (λ q. All (λ r. q.id ≡ r.id → q ≡ r) table') (is_claimed_by claim)
              config.batch_size table' table'-keyed)

      start : Progress
      start = record { published = 0; retrying = 0; failed = 0; failures = []; table = table' }

      counts :
          let end = settle_all publish redact jitter config now records start in
          (end.published ≡ 0 + counted publish config published records)
          × (end.retrying ≡ 0 + counted publish config retrying records)
          × (end.failed ≡ 0 + counted publish config failed records)
          × (length end.failures
              ≡ 0 + counted publish config retrying records + counted publish config failed records)
      counts = settle_all-counts now records start

-- ===== src/Outbox/Publisher/Verdict.antt =====
-- What becomes of the row of a record, and what marking a row does to the verdicts of the others.
use main_acounting_system.Prelude.{
  All, Bool, Bool-cases, Option, [], ap, arith, if◌then◌else◌, if◌then◌else◌, if◌then◌else◌, inl,
  inr, leb, map, none, refl, some, ◌||◌, ◌∙◌, ◌∷◌, ◌≡◌,
}
use main_acounting_system.Outbox.{
  OutboxRecord, PublicationState, PublishFailure, failed, published, retrying,
}
use main_acounting_system.Outbox.Publisher.{OutboxConfiguration, PublishedEvent}
use main_acounting_system.Outbox.Store.{Table, has_id, update_where}

module _ (publish : PublishedEvent → Option PublishFailure) (config : OutboxConfiguration) where
  -- What the answer of the transport makes of a record.
  abbrev pub verdict : OutboxRecord → PublicationState
  verdict r =
      elim (publish (record {
        event_id = r.event_id;
        event_type = r.event_type;
        event_version = r.event_version;
        payload = r.payload;
      })) [
        | none ↦ published
        | some failure ↦
            if failure.permanent || leb config.policy.max_attempts r.attempt_count
            then failed
            else retrying
      ]

  -- The row of a record is in the state of its verdict, and free.
  abbrev pub IsSettledAs : Table → OutboxRecord → Type 0
  IsSettledAs table r =
      All (λ row. row.id ≡ r.id → (row.state ≡ verdict r) × (row.claim_id ≡ none)) table

  -- One table is the other with the row of a record marked.
  abbrev pub Marks : OutboxRecord → Table → Table → Type 0
  Marks r table table' =
      (set : OutboxRecord → OutboxRecord) × ((row : OutboxRecord)
        → ((set row).state ≡ verdict r) × ((set row).claim_id ≡ none) × ((set row).id ≡ row.id))
      × (table' ≡ update_where (has_id r.id) set table)

  pub update_where-settles :
      (r : OutboxRecord) (set : OutboxRecord → OutboxRecord) (table : Table)
      → ((row : OutboxRecord)
          → ((set row).state ≡ verdict r) × ((set row).claim_id ≡ none) × ((set row).id ≡ row.id))
      → IsSettledAs (update_where (has_id r.id) set table) r
  update_where-settles r set [] f = tt
  update_where-settles r set (row ∷ table) f = elim (Bool-cases (has_id r.id row)) [
    | inl e ↦ rw e (λ same. ((f row).0, (f row).1), update_where-settles r set table f)
    | inr e ↦ rw e (λ same. absurd (ground (arith, e, same)), update_where-settles r set table f)
  ]

  pub update_where-keeps :
      (r q : OutboxRecord) (set : OutboxRecord → OutboxRecord) (table : Table)
      → ((row : OutboxRecord)
          → ((set row).state ≡ verdict r) × ((set row).claim_id ≡ none) × ((set row).id ≡ row.id))
      → (r.id ≡ q.id → r ≡ q)
      → IsSettledAs table q
      → IsSettledAs (update_where (has_id r.id) set table) q
  update_where-keeps r q set [] f g h = tt
  update_where-keeps r q set (row ∷ table) f g h = elim (Bool-cases (has_id r.id row)) [
    | inl e ↦ rw e (
      λ same.
          let one : r ≡ q = g (ground (arith, e, same, (f row).2)) in
          ((f row).0 ∙ ap verdict one, (f row).1),
      update_where-keeps r q set table f g h.1,
    )
    | inr e ↦ rw e (h.0, update_where-keeps r q set table f g h.1)
  ]

pub update_where-ids :
    (test : OutboxRecord → Bool) (set : OutboxRecord → OutboxRecord) (table : Table)
    → ((row : OutboxRecord) → (set row).id ≡ row.id)
    → map (λ (row : OutboxRecord). row.id) (update_where test set table)
      ≡ map (λ (row : OutboxRecord). row.id) table
update_where-ids test set [] f = refl
update_where-ids test set (row ∷ table) f = elim (Bool-cases (test row)) [
  | inl e ↦ rw (e, f row, update_where-ids test set table f) refl
  | inr e ↦ rw (e, update_where-ids test set table f) refl
]

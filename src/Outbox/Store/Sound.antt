-- ===== src/Outbox/Store/Sound.antt =====
-- What every row of the outbox table keeps under every statement of the store.
use main_acounting_system.Prelude.{
  All, Bool, Bool-cases, Option, arith, false, inl, inr, leb, ltb, none, refl, some, true, ℕ, ◌+◌,
  ◌<◌, ◌≡◌, ◌≤◌,
}
use main_acounting_system.Outbox.{
  Moment, OutboxRecord, PublicationState, failed, is_claimable, pending, published, publishing,
  retrying,
}
use main_acounting_system.Outbox.Store.{
  Table, claim_update, due_batch, is_among, is_due, limit_to, order_by_age, release_stale,
  select_where, set_claim, set_released, update_row, update_where,
}
use main_acounting_system.Outbox.Store.Rows.{
  All-batch, All-map, All-zip, IsKeyed, is_among-sound, update_where-IsKeyed,
}
use main_acounting_system.Primitives.EntityId.{EntityId}
use main_acounting_system.Primitives.Text.{Text}

abbrev pub is_none : {A : Type 0} → Option A → Bool
is_none none = true
is_none (some x) = false

-- A row in its state: the budget, the claim and the times that go with it.
abbrev pub IsSoundAt : ℕ → PublicationState → OutboxRecord → Type 0
IsSoundAt max_attempts pending row = (row.attempt_count ≡ 0) × (row.claim_id ≡ none)
IsSoundAt max_attempts publishing row =
    (1 ≤ row.attempt_count) × (row.attempt_count ≤ max_attempts) × (is_none row.claim_id ≡ false)
IsSoundAt max_attempts published row =
    (row.attempt_count ≤ max_attempts) × (row.claim_id ≡ none) × (is_none row.published_at ≡ false)
IsSoundAt max_attempts retrying row = (row.attempt_count < max_attempts) × (row.claim_id ≡ none)
IsSoundAt max_attempts failed row =
    (row.attempt_count ≤ max_attempts) × (row.claim_id ≡ none) × (row.next_attempt_at ≡ none)

abbrev pub IsSound : ℕ → OutboxRecord → Type 0
IsSound max_attempts row = IsSoundAt max_attempts row.state row

IsSoundAt-bound :
    (max_attempts : ℕ) (state : PublicationState) (row : OutboxRecord)
    → IsSoundAt max_attempts state row
    → row.attempt_count ≤ max_attempts
IsSoundAt-bound max_attempts pending row h = omega arith
IsSoundAt-bound max_attempts publishing row h = h.1
IsSoundAt-bound max_attempts published row h = h.0
IsSoundAt-bound max_attempts retrying row h = omega arith
IsSoundAt-bound max_attempts failed row h = h.0

IsSoundAt-claimable :
    (max_attempts : ℕ) (state : PublicationState) (row : OutboxRecord)
    → 1 ≤ max_attempts
    → IsSoundAt max_attempts state row
    → is_claimable state ≡ true
    → row.attempt_count + 1 ≤ max_attempts
IsSoundAt-claimable max_attempts pending row h k e = omega arith
IsSoundAt-claimable max_attempts publishing row h k e = cc
IsSoundAt-claimable max_attempts published row h k e = cc
IsSoundAt-claimable max_attempts retrying row h k e = omega arith
IsSoundAt-claimable max_attempts failed row h k e = cc

-- No row has spent more attempts than the budget.
pub IsSound-bound :
    (max_attempts : ℕ) (row : OutboxRecord)
    → IsSound max_attempts row
    → row.attempt_count ≤ max_attempts
IsSound-bound max_attempts row h = IsSoundAt-bound max_attempts row.state row h

-- A conditional update of one row keeps what the row has when the change does.
pub update_row-keeps :
    (P : OutboxRecord → Type 0) (test : OutboxRecord → Bool) (set : OutboxRecord → OutboxRecord)
    (row : OutboxRecord)
    → P row
    → (test row ≡ true → P (set row))
    → P (update_row test set row)
update_row-keeps P test set row h k = elim (Bool-cases (test row)) [
  | inl e ↦ rw e (k e)
  | inr e ↦ rw e h
]

set_claim-IsSound :
    (max_attempts : ℕ) (claim : EntityId) (now : Moment) (row : OutboxRecord)
    → 1 ≤ max_attempts
    → IsSound max_attempts row
    → is_due now row ≡ true
    → IsSound max_attempts (set_claim claim now row)
unfolding is_due
set_claim-IsSound max_attempts claim now row h k e =
    (omega arith, IsSoundAt-claimable max_attempts row.state row h k (ground arith), refl)

set_released-IsSound :
    (max_attempts : ℕ) (note : Text) (older_than : Moment) (row : OutboxRecord)
    → IsSound max_attempts row
    → (leb max_attempts row.attempt_count ≡ true
        → IsSound max_attempts (set_released note failed row))
      × (ltb row.attempt_count max_attempts ≡ true
          → IsSound max_attempts (set_released note retrying row))
set_released-IsSound max_attempts note older_than row h =
    (λ e. (IsSound-bound max_attempts row h, refl, refl), λ e. (ground arith, refl))

-- `update_where` keeps the soundness of all rows when the change keeps it of those it changes.
pub update_where-IsSound :
    (max_attempts : ℕ) (test : OutboxRecord → Bool) (set : OutboxRecord → OutboxRecord)
    (table : Table)
    → ((row : OutboxRecord)
        → IsSound max_attempts row
        → test row ≡ true
        → IsSound max_attempts (set row))
    → All (IsSound max_attempts) table
    → All (IsSound max_attempts) (update_where test set table)
update_where-IsSound max_attempts test set table f h =
    All-map (IsSound max_attempts) (IsSound max_attempts) table (update_row test set)
      (λ row k. update_row-keeps (IsSound max_attempts) test set row k (f row k)) h

-- Releasing what a crashed run left keeps the table sound and keyed.
pub release_stale-IsSound :
    (max_attempts : ℕ) (note : Text) (older_than : Moment) (table : Table)
    → All (IsSound max_attempts) table
    → IsKeyed table
    → let table' = (release_stale note older_than max_attempts table).1 in
      All (IsSound max_attempts) table' × IsKeyed table'
unfolding release_stale
release_stale-IsSound max_attempts note older_than table h k = (
  update_where-IsSound max_attempts _ (set_released note retrying) _
      (λ row s e. (set_released-IsSound max_attempts note older_than row s).1 (ground arith))
      (update_where-IsSound max_attempts _ (set_released note failed) table
        (λ row s e. (set_released-IsSound max_attempts note older_than row s).0 (ground arith)) h),
  update_where-IsKeyed _ (set_released note retrying) _ (λ row. refl)
      (update_where-IsKeyed _ (set_released note failed) table (λ row. refl) k),
)

-- So does claiming.
pub claim_update-IsSound :
    (max_attempts : ℕ) (claim : EntityId) (limit : ℕ) (now : Moment) (table : Table)
    → 1 ≤ max_attempts
    → All (IsSound max_attempts) table
    → IsKeyed table
    → let table' = claim_update claim limit now table in
      All (IsSound max_attempts) table' × IsKeyed table'
unfolding claim_update due_batch
claim_update-IsSound max_attempts claim limit now table least h k = (
  All-map (λ row. IsSound max_attempts row × All (λ r. row.id ≡ r.id → row ≡ r) table)
      (IsSound max_attempts) table (update_row (is_among batch) (set_claim claim now))
      (λ row f.
        update_row-keeps (IsSound max_attempts) (is_among batch) (set_claim claim now) row f.0 (λ e.
          set_claim-IsSound max_attempts claim now row least f.0 (
            is_among-sound (λ r. is_due now r ≡ true) row batch
              (All-batch (λ r. row.id ≡ r.id → row ≡ r) (is_due now) limit table f.1) e)))
      (All-zip _ _ table h k),
  update_where-IsKeyed (is_among batch) (set_claim claim now) table (λ row. refl) k,
)
  where
    batch : Table
    batch = limit_to limit (order_by_age (select_where (is_due now) table))

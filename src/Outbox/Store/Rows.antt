-- ===== src/Outbox/Store/Rows.antt =====
-- Laws of the statements on the table: what holds of every row holds of the rows that are selected,
-- ordered and limited, and the primary key stays a key.
use main_acounting_system.Prelude.{
  All, Bool, Bool-cases, List, [], ap, arith, inl, inr, map, refl, subst, suc, sym, true, zero, ℕ,
  ◌∙◌, ◌∷◌, ◌≡◌,
}
use main_acounting_system.Outbox.{OutboxRecord}
use main_acounting_system.Outbox.Store.{
  Table, comes_first, has_id, insert_ordered, is_among, limit_to, order_by_age, select_where,
  update_row, update_where,
}

module _ {A : Type 0} (P Q : A → Type 0) where
  pub All-imp : (xs : List A) → ((x : A) → P x → Q x) → All P xs → All Q xs
  All-imp [] f h = tt
  All-imp (x ∷ xs) f h = (f x h.0, All-imp xs f h.1)

  pub All-zip : (xs : List A) → All P xs → All Q xs → All (λ x. P x × Q x) xs
  All-zip [] h k = tt
  All-zip (x ∷ xs) h k = ((h.0, k.0), All-zip xs h.1 k.1)

  pub All-map : (xs : List A) (f : A → A) → ((x : A) → P x → Q (f x)) → All P xs → All Q (map f xs)
  All-map [] f g h = tt
  All-map (x ∷ xs) f g h = (g x h.0, All-map xs f g h.1)

module _ (P : OutboxRecord → Type 0) where
  All-insert_ordered :
      (row : OutboxRecord) (table : Table) → P row → All P table → All P (insert_ordered row table)
  All-insert_ordered row [] h k = (h, tt)
  All-insert_ordered row (r ∷ table) h k = elim (Bool-cases (comes_first row r)) [
    | inl e ↦ rw e (h, k)
    | inr e ↦ rw e (k.0, All-insert_ordered row table h k.1)
  ]

  All-order_by_age : (table : Table) → All P table → All P (order_by_age table)
  All-order_by_age [] h = tt
  All-order_by_age (row ∷ table) h =
      All-insert_ordered row (order_by_age table) h.0 (All-order_by_age table h.1)

  All-limit_to : (n : ℕ) (table : Table) → All P table → All P (limit_to n table)
  All-limit_to zero table h = tt
  All-limit_to (suc n) [] h = tt
  All-limit_to (suc n) (row ∷ table) h = (h.0, All-limit_to n table h.1)

  All-select_where :
      (test : OutboxRecord → Bool) (table : Table)
      → All P table
      → All (λ row. (test row ≡ true) × P row) (select_where test table)
  All-select_where test [] h = tt
  All-select_where test (row ∷ table) h = elim (Bool-cases (test row)) [
    | inl e ↦ rw e ((e, h.0), All-select_where test table h.1)
    | inr e ↦ rw e (All-select_where test table h.1)
  ]

-- A limited selection in order.
pub All-batch :
    (P : OutboxRecord → Type 0) (test : OutboxRecord → Bool) (n : ℕ) (table : Table)
    → All P table
    → All (λ row. (test row ≡ true) × P row) (limit_to n (order_by_age (select_where test table)))
All-batch P test n table h =
    All-limit_to _ n (order_by_age (select_where test table))
      (All-order_by_age _ (select_where test table) (All-select_where P test table h))

-- The primary key: rows with one identity are one row.
abbrev pub IsKeyed : Table → Type 0
IsKeyed table = All (λ row. All (λ r. row.id ≡ r.id → row ≡ r) table) table

update_row-id :
    (test : OutboxRecord → Bool) (set : OutboxRecord → OutboxRecord) (row : OutboxRecord)
    → (set row).id ≡ row.id
    → (update_row test set row).id ≡ row.id
update_row-id test set row h = elim (Bool-cases (test row)) [ inl e ↦ rw e h | inr e ↦ rw e refl ]

pub update_where-IsKeyed :
    (test : OutboxRecord → Bool) (set : OutboxRecord → OutboxRecord) (table : Table)
    → ((row : OutboxRecord) → (set row).id ≡ row.id)
    → IsKeyed table
    → IsKeyed (update_where test set table)
update_where-IsKeyed test set table keeps h =
    All-map (λ row. All (λ r. row.id ≡ r.id → row ≡ r) table) _ table (update_row test set)
      (λ row k.
        All-map (λ r. row.id ≡ r.id → row ≡ r) _ table (update_row test set)
          (λ r e same. ap (update_row test set) (
            e (
              sym (update_row-id test set row (keeps row))
              ∙ same
              ∙ update_row-id test set r (keeps r))))
          k)
      h

-- A row whose identity is among a batch of the table's rows is in the state that all of them are in.
pub is_among-sound :
    (T : OutboxRecord → Type 0) (row : OutboxRecord) (batch : Table)
    → All (λ r. T r × (row.id ≡ r.id → row ≡ r)) batch
    → is_among batch row ≡ true
    → T row
is_among-sound T row [] h k = cc
is_among-sound T row (r ∷ batch) h k = elim (Bool-cases (has_id row.id r)) [
  | inl e ↦ subst T (sym (h.0.1 (ground arith))) h.0.0
  | inr e ↦ is_among-sound T row batch h.1 (ground arith)
]

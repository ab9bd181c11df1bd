-- ===== src/Identity/PermissionKey/Laws.antt =====
-- Laws of permission keys and of their sets.
use main_acounting_system.Prelude.{
  Bool-cases, List, [], ap, arith, filter, inl, inr, not, refl, sym, true, ◌&&◌, ◌++◌, ◌||◌, ◌∙◌,
  ◌∷◌, ◌≡◌,
}
use main_acounting_system.Identity.PermissionKey.{
  KeySet, add_key, add_keys, delete_key, has_key, insert_key, sort_keys,
}
use main_acounting_system.Primitives.Text.{Text, text_eq}
use main_acounting_system.Primitives.Text.Laws.{text_eq_sound}

pub has_key-append :
    (keys more : KeySet) (key : Text)
    → has_key (keys ++ more) key ≡ (has_key keys key || has_key more key)
unfolding has_key
has_key-append [] more key = refl
has_key-append (k ∷ keys) more key = ground (arith, has_key-append keys more key)

text_eq_comm : (a b : Text) → text_eq a b ≡ text_eq b a
unfolding text_eq
text_eq_comm [] [] = refl
text_eq_comm [] (d ∷ t) = refl
text_eq_comm (c ∷ s) [] = refl
text_eq_comm (c ∷ s) (d ∷ t) = ground (arith, text_eq_comm s t)

-- Equal texts are told apart from a third one alike.
text_eq_same : (a b c : Text) → text_eq a b ≡ true → text_eq c a ≡ text_eq c b
text_eq_same a b c h = ap (text_eq c) (text_eq_sound a b h)

has_key_same : (keys : KeySet) (a b : Text) → text_eq a b ≡ true → has_key keys b ≡ has_key keys a
has_key_same keys a b h = ap (has_key keys) (sym (text_eq_sound a b h))

pub has_key-add_key :
    (key : Text) (keys : KeySet) (k : Text)
    → has_key (add_key key keys) k ≡ (has_key keys k || text_eq k key)
unfolding add_key
has_key-add_key key keys k = elim (Bool-cases (has_key keys key)) [
  | inl e ↦ rw e (ground (arith, has_key_same keys k key))
  | inr e ↦ rw e (ground (arith, has_key-append keys (key ∷ []) k))
]

pub has_key-add_keys :
    (more keys : KeySet) (k : Text)
    → has_key (add_keys more keys) k ≡ (has_key keys k || has_key more k)
unfolding add_keys has_key
has_key-add_keys [] keys k = ground arith
has_key-add_keys (key ∷ more) keys k =
    ground (arith, has_key-add_keys more (add_key key keys) k, has_key-add_key key keys k)

has_key-insert_key :
    (key : Text) (keys : List Text) (k : Text)
    → has_key (insert_key key keys) k ≡ (text_eq k key || has_key keys k)
unfolding insert_key has_key
has_key-insert_key key [] k = refl
has_key-insert_key key (x ∷ keys) k = ground (arith, has_key-insert_key key keys k)

-- Sorting keeps the set.
pub has_key-sort_keys : (keys : KeySet) (k : Text) → has_key (sort_keys keys) k ≡ has_key keys k
unfolding sort_keys has_key
has_key-sort_keys [] k = refl
has_key-sort_keys (key ∷ keys) k =
    has_key-insert_key key (sort_keys keys) k
    ∙ ap (λ b. text_eq k key || b) (has_key-sort_keys keys k)

pub has_key-delete_key :
    (key : Text) (keys : KeySet) (k : Text)
    → has_key (delete_key key keys) k ≡ (has_key keys k && not (text_eq key k))
unfolding delete_key has_key
has_key-delete_key key [] k = refl
has_key-delete_key key (x ∷ keys) k = elim (Bool-cases (text_eq key x)) [
  | inl e ↦
      rw (e, filter)
        (ground (arith, has_key-delete_key key keys k, text_eq_same key x k, text_eq_comm key k))
  | inr e ↦ rw (e, filter) (ground (arith, has_key-delete_key key keys k, text_eq_same k x key))
]

-- ===== src/Prelude/Lists.antt =====
-- Lists measured by native numbers, searches in them, and predicates on them by recursion.
use Prim.Native.Nat.{ℕ, suc, ◌+◌}
use mathlib.Core.Path.{◌≡◌, ap, refl, subst, ◌∙◌, sym}
use mathlib.Core.Logic.{◌⊎◌, inl, inr}
use mathlib.Core.Bool.{Bool, true, false, ◌||◌}
use mathlib.Core.Option.{Option, none, some}
use mathlib.Core.List.{List, [], ◌∷◌, ◌++◌, map}
use main_acounting_system.Prelude.Tests.{Bool-cases}
use native.Mathlib.Omega.{arith}

module _ {ℓ} {A : Type ℓ} where
  abbrev pub length : List A → ℕ
  length [] = 0
  length (x ∷ xs) = suc (length xs)

  abbrev pub any : (A → Bool) → List A → Bool
  any p [] = false
  any p (x ∷ xs) = p x || any p xs

  abbrev pub find : (A → Bool) → List A → Option A
  find p [] = none
  find p (x ∷ xs) = elim (p x) [ true ↦ some x | false ↦ find p xs ]

  abbrev pub filter : (A → Bool) → List A → List A
  filter p [] = []
  filter p (x ∷ xs) = elim (p x) [ true ↦ x ∷ filter p xs | false ↦ filter p xs ]

  pub length-append : (xs ys : List A) → length (xs ++ ys) ≡ length xs + length ys
  length-append [] ys = omega arith
  length-append (x ∷ xs) ys = omega (arith, length-append xs ys)

module _ {ℓ κ} {A : Type ℓ} (P : A → Type κ) where
  abbrev pub All : List A → Type κ
  All [] = Unit
  All (x ∷ xs) = P x × All xs

  pub All-append : (xs ys : List A) → All xs → All ys → All (xs ++ ys)
  All-append [] ys hx hy = hy
  All-append (x ∷ xs) ys hx hy = (hx.0, All-append xs ys hx.1 hy)

module _ {A : Type 0} where
  abbrev pub Any : (A → Type 0) → List A → Type 0
  Any P [] = ⊥
  Any P (x ∷ xs) = P x ⊎ Any P xs

  -- What a unique index makes of a list for the rows that the test selects.
  abbrev pub AtMostOne : (A → Bool) → List A → Type 0
  AtMostOne p [] = Unit
  AtMostOne p (x ∷ xs) = (p x ≡ true → All (λ y. p y ≡ false) xs) × AtMostOne p xs

  pub Any-imp : (P Q : A → Type 0) (xs : List A) → ((x : A) → P x → Q x) → Any P xs → Any Q xs
  Any-imp P Q [] f h = absurd h
  Any-imp P Q (x ∷ xs) f (inl h) = inl (f x h)
  Any-imp P Q (x ∷ xs) f (inr h) = inr (Any-imp P Q xs f h)

  none_selected :
      (p : A → Bool) (Q : A → Type 0) (xs : List A)
      → All (λ y. p y ≡ false) xs
      → Any (λ x. (p x ≡ true) × Q x) xs
      → ⊥
  none_selected p Q [] all h = h
  none_selected p Q (x ∷ xs) all (inl h) = ground (arith, h.0, all.0)
  none_selected p Q (x ∷ xs) all (inr h) = none_selected p Q xs all.1 h

  -- The entry that a search finds.
  pub find_sound :
      (p : A → Bool) (Q : A → Type 0) (xs : List A) {x : A}
      → find p xs ≡ some x
      → Q x
      → Any (λ y. (p y ≡ true) × Q y) xs
  find_sound p Q [] h q = cc
  find_sound p Q (y ∷ xs) {x} h q = elim (Bool-cases (p y)) [
    | inl e ↦ inl (e, subst Q (ground arith) q)
    | inr e ↦ inr (find_sound p Q xs (ground arith) q)
  ]

  pub find_holds : (p : A → Bool) (xs : List A) {x : A} → find p xs ≡ some x → p x ≡ true
  find_holds p [] h = cc
  find_holds p (y ∷ xs) {x} h = elim (Bool-cases (p y)) [
    | inl e ↦ subst (λ z. p z ≡ true) (ground arith) e
    | inr e ↦ find_holds p xs (ground arith)
  ]

  pub All-find :
      (P : A → Type 0) (p : A → Bool) (xs : List A) {x : A} → All P xs → find p xs ≡ some x → P x
  All-find P p [] all h = cc
  All-find P p (y ∷ xs) all h = elim (Bool-cases (p y)) [
    | inl e ↦ subst P (ground arith) all.0
    | inr e ↦ All-find P p xs all.1 (ground arith)
  ]

  -- A search of unique entries finds the one that is there.
  pub find_complete :
      (p : A → Bool) (Q : A → Type 0) (xs : List A)
      → AtMostOne p xs
      → Any (λ y. (p y ≡ true) × Q y) xs
      → (x : A) × (find p xs ≡ some x) × Q x
  find_complete p Q [] one h = absurd h
  find_complete p Q (x ∷ xs) one (inl h) = rw (h.0, find) (x, refl, h.1)
  find_complete p Q (x ∷ xs) one (inr h) = elim (Bool-cases (p x)) [
    | inl e ↦ absurd (none_selected p Q xs (one.0 e) h)
    | inr e ↦ rw (e, find) (find_complete p Q xs one.1 h)
  ]

  module _ (p : A → Bool) (f : A → A) (same : (x : A) → p (f x) ≡ p x) where
    none_selected-map :
        (xs : List A) → All (λ y. p y ≡ false) xs → All (λ y. p y ≡ false) (map f xs)
    none_selected-map [] h = tt
    none_selected-map (x ∷ xs) h = (same x ∙ h.0, none_selected-map xs h.1)

    -- A unique index stands where a map keeps its test.
    pub AtMostOne-map : (xs : List A) → AtMostOne p xs → AtMostOne p (map f xs)
    AtMostOne-map [] h = tt
    AtMostOne-map (x ∷ xs) h =
        (λ e. none_selected-map xs (h.0 (sym (same x) ∙ e)), AtMostOne-map xs h.1)

    pub find-map : (xs : List A) {x : A} → find p xs ≡ some x → find p (map f xs) ≡ some (f x)
    find-map [] h = cc
    find-map (y ∷ xs) {x} h = elim (Bool-cases (p y)) [
      | inl e ↦
          let here : y ≡ x = ground (arith, h, e) in
          rw (same y ∙ e, find, map) (ap (λ z. some (f z)) here)
      | inr e ↦ rw (same y ∙ e, find, map) (find-map xs (ground (arith, h, e)))
    ]

  -- Of unique entries, any search that finds one finds the one that the key finds.
  pub find_same :
      (p q : A → Bool) (xs : List A) {x y : A}
      → AtMostOne p xs
      → find p xs ≡ some x
      → find q xs ≡ some y
      → p y ≡ true
      → x ≡ y
  find_same p q [] one h k e = cc
  find_same p q (z ∷ xs) {x} {y} one h k e = elim (Bool-cases (p z)) [
    | inl pz ↦ elim (Bool-cases (q z)) [
      | inl qz ↦ ground (arith, h, k, pz, qz)
      | inr qz ↦
          let later : find q xs ≡ some y = ground (arith, k, qz) in
          absurd (ground (arith, All-find (λ v. p v ≡ false) q xs (one.0 pz) later, e))
    ]
    | inr pz ↦ elim (Bool-cases (q z)) [
      | inl qz ↦
          let here : z ≡ y = ground (arith, k, qz) in
          let on : p z ≡ true = rw here e in absurd (ground (arith, on, pz))
      | inr qz ↦ find_same p q xs one.1 (ground (arith, h, pz)) (ground (arith, k, qz)) e
    ]
  ]

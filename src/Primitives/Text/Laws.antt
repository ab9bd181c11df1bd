-- ===== src/Primitives/Text/Laws.antt =====
-- Laws of the string functions.
use main_acounting_system.Prelude.{
  All, Bool, [], any, ap, arith, false, if◌then◌else◌, if◌then◌else◌, if◌then◌else◌, not, refl,
  true, ℕ, ◌∙◌, ◌∷◌, ◌≡◌,
}
use main_acounting_system.Prelude.Outcome.{ok}
use main_acounting_system.Primitives.Text.{
  Text, is_empty, is_space, text_eq, trim, trim_end, trim_start, validate_non_blank,
}

pub text_eq_refl : (s : Text) → text_eq s s ≡ true
unfolding text_eq
text_eq_refl [] = refl
text_eq_refl (c ∷ s) = ground (arith, text_eq_refl s)

pub text_eq_sound : (s t : Text) → text_eq s t ≡ true → s ≡ t
unfolding text_eq
text_eq_sound [] [] h = refl
text_eq_sound (c ∷ s) (d ∷ t) h = ground (arith, text_eq_sound s t)
text_eq_sound _ _ h = cc

-- Neither end is white space.
abbrev pub starts_solid : Text → Bool
starts_solid [] = true
starts_solid (c ∷ s) = if is_space c then false else true

trim_start_of_solid : (s : Text) → starts_solid s ≡ true → trim_start s ≡ s
unfolding trim_start
trim_start_of_solid [] h = refl
trim_start_of_solid (c ∷ s) h = ground arith

trim_start-solid : (s : Text) → starts_solid (trim_start s) ≡ true
unfolding trim_start
trim_start-solid [] = refl
trim_start-solid (c ∷ s) = ground (arith, trim_start-solid s)

trim_end-solid : (s : Text) → starts_solid s ≡ true → starts_solid (trim_end s) ≡ true
unfolding trim_end
trim_end-solid [] h = refl
trim_end-solid (c ∷ s) h = ground arith

trim_end_idempotent : (s : Text) → trim_end (trim_end s) ≡ trim_end s
unfolding trim_end
trim_end_idempotent [] = refl
trim_end_idempotent (c ∷ s) = ground (arith, trim_end_idempotent s)

-- Trimming a trimmed text changes nothing.
pub trim_idempotent : (s : Text) → trim (trim s) ≡ trim s
unfolding trim
trim_idempotent s =
    rw
      (trim_start_of_solid (trim_end (trim_start s))
        (trim_end-solid (trim_start s) (trim_start-solid s)))
      (trim_end_idempotent (trim_start s))

abbrev pub NoSpace : Text → Type 0
NoSpace s = All (λ c. is_space c ≡ false) s

trim_end_of_NoSpace : (s : Text) → NoSpace s → trim_end s ≡ s
unfolding trim_end
trim_end_of_NoSpace [] h = refl
trim_end_of_NoSpace (c ∷ s) h = ground (arith, trim_end_of_NoSpace s h.1)

pub trim_of_NoSpace : (s : Text) → NoSpace s → trim s ≡ s
unfolding trim trim_start
trim_of_NoSpace [] h = refl
trim_of_NoSpace (c ∷ s) h = rw h.0 (trim_end_of_NoSpace (c ∷ s) h)

pub validate_non_blank_of_NoSpace :
    (c : ℕ) (s : Text) → NoSpace (c ∷ s) → validate_non_blank (c ∷ s) ≡ ok (c ∷ s)
unfolding validate_non_blank
validate_non_blank_of_NoSpace c s h = rw (trim_of_NoSpace (c ∷ s) h)

-- A value that is accepted comes back trimmed, not blank, and is accepted again as it is.
pub validate_non_blank_idempotent :
    (s t : Text) → validate_non_blank s ≡ ok t → validate_non_blank t ≡ ok t
unfolding validate_non_blank
validate_non_blank_idempotent s t h = ground (arith, trim_idempotent s)

pub text_eq_symmetric : (s t : Text) → text_eq s t ≡ true → text_eq t s ≡ true
unfolding text_eq
text_eq_symmetric [] [] h = refl
text_eq_symmetric (c ∷ s) (d ∷ t) h = ground (arith, text_eq_symmetric s t)
text_eq_symmetric _ _ h = cc

-- Some character is not white space.
abbrev pub has_visible : Text → Bool
has_visible s = any (λ c. not (is_space c)) s

trim_end-visible : (s : Text) → is_empty (trim_end s) ≡ not (has_visible s)
unfolding trim_end
trim_end-visible [] = refl
trim_end-visible (c ∷ s) = ground (arith, trim_end-visible s)

trim_start-visible : (s : Text) → has_visible (trim_start s) ≡ has_visible s
unfolding trim_start
trim_start-visible [] = refl
trim_start-visible (c ∷ s) = ground (arith, trim_start-visible s)

-- Trimming leaves nothing just when every character is white space.
pub is_empty-trim : (s : Text) → is_empty (trim s) ≡ not (has_visible s)
unfolding trim
is_empty-trim s = trim_end-visible (trim_start s) ∙ ap not (trim_start-visible s)

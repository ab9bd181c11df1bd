-- ===== src/Primitives/Tests.antt =====
-- Concrete texts.
use main_acounting_system.Prelude.{[], refl, ◌∷◌, ◌≡◌}
use main_acounting_system.Prelude.Outcome.{ok}
use main_acounting_system.Primitives.Text.{Text, is_space, trim, validate_non_blank}
use main_acounting_system.Primitives.Text.Laws.{validate_non_blank_idempotent}

abbrev padded : Text
padded = 32 ∷ 65 ∷ 32 ∷ 66 ∷ 32 ∷ []

validate_non_blank_idempotent_example :
    validate_non_blank (65 ∷ 32 ∷ 66 ∷ []) ≡ ok (65 ∷ 32 ∷ 66 ∷ [])
unfolding validate_non_blank trim is_space
validate_non_blank_idempotent_example =
    validate_non_blank_idempotent padded (65 ∷ 32 ∷ 66 ∷ []) refl

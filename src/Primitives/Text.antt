-- ===== src/Primitives/Text.antt =====
-- Strings as lists of UTF-16 code units, what the program uses of JavaScript's string functions,
-- and shared/primitives/assert.ts.
pub mod Laws
use main_acounting_system.Prelude.{
  ℕ, ◌+◌, ◌-◌, ◌≤◌, Bool, true, false, ◌&&◌, ◌||◌, List, [], ◌∷◌, leb, ltb, ◌==◌, if◌then◌else◌,
}
use main_acounting_system.Prelude.Outcome.{Outcome, ok, err, throw_if, ◌>>◌}

abbrev pub Text : Type 0
Text = List ℕ

-- The error that every primitive throws; its message is not modelled.
pub data InvalidPrimitiveError : Type 0 where
  invalid_primitive : InvalidPrimitiveError

-- JavaScript's WhiteSpace and LineTerminator code units, which `trim` removes.
unfoldable pub is_space : ℕ → Bool
is_space c =
    leb 9 c && leb c 13
    || c == 32
    || c == 160
    || c == 5760
    || leb 8192 c && leb c 8202
    || c == 8232
    || c == 8233
    || c == 8239
    || c == 8287
    || c == 12288
    || c == 65279

abbrev pub is_empty : Text → Bool
is_empty [] = true
is_empty (c ∷ s) = false

unfoldable pub trim_start : Text → Text
trim_start [] = []
trim_start (c ∷ s) = if is_space c then trim_start s else c ∷ s

unfoldable pub trim_end : Text → Text
trim_end [] = []
trim_end (c ∷ s) = let rest = trim_end s in if is_space c && is_empty rest then [] else c ∷ rest

unfoldable pub trim : Text → Text
unfolding trim_start trim_end
trim s = trim_end (trim_start s)

unfoldable pub text_eq : Text → Text → Bool
text_eq [] [] = true
text_eq (c ∷ s) (d ∷ t) = c == d && text_eq s t
text_eq _ _ = false

-- Rejects a blank value and returns it trimmed. (That the value is a string is its type here.)
unfoldable pub validate_non_blank : Text → Outcome InvalidPrimitiveError Text
unfolding trim
validate_non_blank value =
    let trimmed = trim value in throw_if (is_empty trimmed) invalid_primitive >> ok trimmed

-- Rejects a whole number outside `[min, max]` and returns it.
unfoldable pub validate_integer_in_range : ℕ → ℕ → ℕ → Outcome InvalidPrimitiveError ℕ
validate_integer_in_range value min max =
    throw_if (ltb value min || ltb max value) invalid_primitive >> ok value

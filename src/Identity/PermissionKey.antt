-- ===== src/Identity/PermissionKey.antt =====
-- modules/identity/domain/value-objects/permission-key.ts, domain/permission.ts, and the sets of keys.
-- A key is its canonical text.
pub mod Laws
use main_acounting_system.Prelude.{
  Bool, List, [], any, false, filter, if◌then◌else◌, if◌then◌else◌, if◌then◌else◌, leb, length, ltb,
  map, not, true, ℕ, ◌&&◌, ◌++◌, ◌+◌, ◌==◌, ◌||◌, ◌∷◌,
}
use main_acounting_system.Prelude.Outcome.{Outcome, ok, throw_if, ◌>>=◌, ◌>>◌}
use main_acounting_system.Primitives.Text.{
  InvalidPrimitiveError, Text, invalid_primitive, is_empty, text_eq, trim, validate_non_blank,
}

abbrev pub is_letter : ℕ → Bool
is_letter c = leb b'a' c && leb c b'z'

abbrev pub is_letter_or_digit : ℕ → Bool
is_letter_or_digit c = is_letter c || leb b'0' c && leb c b'9'

-- `toLowerCase` where it gives ASCII: the capital letters and the Kelvin sign. The other code units stay,
-- which no key admits in either form.
unfoldable pub lower : ℕ → ℕ
lower c = if leb b'A' c && leb c b'Z' then c + 32 else (if c == 8490 then b'k' else c)

-- `KEY_PATTERN` from inside a segment; the flag is true once a dot was read.
unfoldable pub in_segment : Bool → Text → Bool
in_segment dotted [] = dotted
in_segment dotted (c ∷ []) = is_letter_or_digit c && dotted
in_segment dotted (c ∷ d ∷ s) =
    if c == b'.'
    then is_letter d && in_segment true s
    else is_letter_or_digit c && in_segment dotted (d ∷ s)

-- `KEY_PATTERN`.
unfoldable pub key_pattern : Text → Bool
unfolding in_segment
key_pattern [] = false
key_pattern (c ∷ s) = is_letter c && in_segment false s

abbrev pub permission_key_max_length : ℕ
permission_key_max_length = 120

-- `PermissionKey.from`.
unfoldable pub permission_key_from : Text → Outcome InvalidPrimitiveError Text
unfolding validate_non_blank lower key_pattern
permission_key_from raw = validate_non_blank raw >>= λ trimmed.
    let normalized = map lower trimmed in
    throw_if (ltb permission_key_max_length (length normalized) || not (key_pattern normalized))
      invalid_primitive
    >> ok normalized

-- `PermissionKey.is`, on a string.
unfoldable pub is_permission_key : Text → Bool
unfolding trim lower key_pattern
is_permission_key raw =
    let normalized = map lower (trim raw) in
    not (is_empty normalized)
    && leb (length normalized) permission_key_max_length
    && key_pattern normalized

-- A `Set` of keys, in the order of insertion.
abbrev pub KeySet : Type 0
KeySet = List Text

unfoldable pub has_key : KeySet → Text → Bool
unfolding text_eq
has_key keys key = any (text_eq key) keys

unfoldable pub add_key : Text → KeySet → KeySet
unfolding has_key
add_key key keys = if has_key keys key then keys else keys ++ key ∷ []

unfoldable pub delete_key : Text → KeySet → KeySet
unfolding text_eq
delete_key key keys = filter (λ k. not (text_eq key k)) keys

-- `for (const key of more) keys.add(key)`.
unfoldable pub add_keys : List Text → KeySet → KeySet
unfolding add_key
add_keys [] keys = keys
add_keys (key ∷ more) keys = add_keys more (add_key key keys)

-- The order of `sort()`: by code units.
unfoldable pub text_leb : Text → Text → Bool
text_leb [] t = true
text_leb (c ∷ s) [] = false
text_leb (c ∷ s) (d ∷ t) = if c == d then text_leb s t else ltb c d

unfoldable pub insert_key : Text → List Text → List Text
unfolding text_leb
insert_key key [] = key ∷ []
insert_key key (k ∷ keys) = if text_leb key k then key ∷ k ∷ keys else k ∷ insert_key key keys

-- `[...keys].sort()`.
unfoldable pub sort_keys : KeySet → List Text
unfolding insert_key
sort_keys [] = []
sort_keys (key ∷ keys) = insert_key key (sort_keys keys)

abbrev company_word : Text
company_word = b'c' ∷ b'o' ∷ b'm' ∷ b'p' ∷ b'a' ∷ b'n' ∷ b'y' ∷ []

abbrev user_word : Text
user_word = b'u' ∷ b's' ∷ b'e' ∷ b'r' ∷ []

abbrev role_word : Text
role_word = b'r' ∷ b'o' ∷ b'l' ∷ b'e' ∷ []

abbrev audit_word : Text
audit_word = b'a' ∷ b'u' ∷ b'd' ∷ b'i' ∷ b't' ∷ []

abbrev read_word : Text
read_word = b'r' ∷ b'e' ∷ b'a' ∷ b'd' ∷ []

abbrev update_word : Text
update_word = b'u' ∷ b'p' ∷ b'd' ∷ b'a' ∷ b't' ∷ b'e' ∷ []

abbrev manage_word : Text
manage_word = b'm' ∷ b'a' ∷ b'n' ∷ b'a' ∷ b'g' ∷ b'e' ∷ []

abbrev dotted_key : Text → Text → Text
dotted_key subject verb = subject ++ b'.' ∷ verb

-- The keys of `PERMISSION_CATALOG`.
abbrev pub permission_catalog : KeySet
permission_catalog =
    dotted_key company_word read_word
    ∷ dotted_key company_word update_word
    ∷ dotted_key user_word read_word
    ∷ dotted_key user_word manage_word
    ∷ dotted_key role_word read_word
    ∷ dotted_key role_word manage_word
    ∷ dotted_key audit_word read_word
    ∷ []

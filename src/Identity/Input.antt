-- ===== src/Identity/Input.antt =====
-- modules/identity/domain/value-objects: user-email.ts and plain-password.ts, with the parsers of
-- application/services. `toLowerCase` beyond ASCII rests on Unicode's tables and is an argument.
use main_acounting_system.Prelude.{
  Bool, [], false, if◌then◌else◌, if◌then◌else◌, if◌then◌else◌, leb, length, ltb, not, suc, true, ℕ,
  ◌&&◌, ◌==◌, ◌||◌, ◌∷◌,
}
use main_acounting_system.Identity.{IdentityError, password_policy_violation, validation}
use main_acounting_system.Prelude.Outcome.{Outcome, err, ok}
use main_acounting_system.Primitives.Text.{Text, is_empty, is_space, trim}

abbrev is_plain : ℕ → Bool
unfolding is_space
is_plain c = not (is_space c) && not (c == b'@')

unfoldable all_plain : Text → Bool
unfolding is_space
all_plain [] = true
all_plain (c ∷ s) = is_plain c && all_plain s

-- `[^\s@]+\.[^\s@]+$`; the flag is true once a character was read.
unfoldable domain_pattern : Bool → Text → Bool
unfolding is_space all_plain
domain_pattern read_one [] = false
domain_pattern read_one (c ∷ s) =
    let later = domain_pattern true s in
    is_plain c && (read_one && c == b'.' && not (is_empty s) && all_plain s || later)

-- `EMAIL_PATTERN`.
unfoldable email_pattern : Bool → Text → Bool
unfolding is_space domain_pattern
email_pattern read_one [] = false
email_pattern read_one (c ∷ s) =
    let later = email_pattern true s in
    if c == b'@' then read_one && domain_pattern false s else is_plain c && later

abbrev user_email_max_length : ℕ
user_email_max_length = 254

-- `parseUserEmail`, of `UserEmail.from`.
unfoldable pub parse_user_email : (Text → Text) → Text → Outcome IdentityError Text
unfolding trim is_space email_pattern
parse_user_email lower_case raw =
    let trimmed = trim raw in
    if is_empty trimmed
      || ltb user_email_max_length (length trimmed)
      || not (email_pattern false trimmed)
    then err validation
    else ok (lower_case trimmed)

abbrev is_high : ℕ → Bool
is_high c = leb 55296 c && leb c 56319

abbrev is_low : ℕ → Bool
is_low c = leb 56320 c && leb c 57343

-- `[...raw].length`: a surrogate pair counts once.
unfoldable code_points : Text → ℕ
code_points [] = 0
code_points (c ∷ []) = 1
code_points (c ∷ d ∷ s) = elim (is_high c && is_low d) [
  | true ↦ suc (code_points s)
  | false ↦ suc (code_points (d ∷ s))
]

-- `parsePlainPassword`, of `PlainPassword.from`.
unfoldable pub parse_plain_password : Text → Outcome IdentityError Text
unfolding trim is_space code_points
parse_plain_password raw =
    let characters = code_points raw in
    if ltb characters 12 || ltb 128 characters || is_empty (trim raw)
    then err password_policy_violation
    else ok raw

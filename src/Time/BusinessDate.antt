-- ===== src/Time/BusinessDate.antt =====
-- shared/time/business-date.ts: a calendar day with no time and no timezone.
pub mod Laws
use main_acounting_system.Prelude.{
  Bool, [], false, if◌then◌else◌, if◌then◌else◌, if◌then◌else◌, leb, ltb, not, true, ℕ, ◌%◌, ◌&&◌,
  ◌*◌, ◌+◌, ◌-◌, ◌/◌, ◌==◌, ◌∷◌, ◌≤◌,
}
use main_acounting_system.Prelude.Outcome.{Outcome, err, ok, ◌>>=◌, ◌>>◌}
use main_acounting_system.Primitives.Text.{
  InvalidPrimitiveError, Text, invalid_primitive, validate_non_blank,
}
use main_acounting_system.Time.Calendar.{assert_civil_date, days_in_month}

pub record BusinessDate : Type 0 where
  pub year : ℕ
  pub month : ℕ
  pub day : ℕ

-- `BusinessDate.of`.
unfoldable pub date_of : ℕ → ℕ → ℕ → Outcome InvalidPrimitiveError BusinessDate
unfolding assert_civil_date
date_of year month day =
    assert_civil_date year month day >> ok (record { year = year; month = month; day = day })

-- What `BusinessDate.of` admits; the constructor is private, so every date has it.
abbrev pub IsCivil : BusinessDate → Type 0
IsCivil d =
    (1 ≤ d.year)
    × (d.year ≤ 9999)
    × (1 ≤ d.month)
    × (d.month ≤ 12)
    × (1 ≤ d.day)
    × (d.day ≤ days_in_month d.year d.month)

-- `-1`, `0` and `1`.
pub data Sign : Type 0 where
  earlier same_day later : Sign

unfoldable pub compare_to : BusinessDate → BusinessDate → Sign
compare_to a b =
    if not (a.year == b.year)
    then (if ltb a.year b.year then earlier else later)
    else (if not (a.month == b.month)
        then (if ltb a.month b.month then earlier else later)
        else (if not (a.day == b.day)
            then (if ltb a.day b.day then earlier else later)
            else same_day))

unfoldable pub is_before : BusinessDate → BusinessDate → Bool
unfolding compare_to
is_before a b = elim (compare_to a b) [ earlier ↦ true | same_day ↦ false | later ↦ false ]

unfoldable pub is_after : BusinessDate → BusinessDate → Bool
unfolding compare_to
is_after a b = elim (compare_to a b) [ earlier ↦ false | same_day ↦ false | later ↦ true ]

unfoldable pub equals : BusinessDate → BusinessDate → Bool
equals a b = a.year == b.year && a.month == b.month && a.day == b.day

-- `\d`
abbrev pub is_digit : ℕ → Bool
is_digit c = leb b'0' c && leb c b'9'

abbrev pub number2 : ℕ → ℕ → ℕ
number2 a b = (a - b'0') * 10 + (b - b'0')

abbrev pub matches_iso : ℕ → ℕ → ℕ → ℕ → ℕ → ℕ → ℕ → ℕ → ℕ → ℕ → Bool
matches_iso a b c d e f g h i j =
    is_digit a
    && is_digit b
    && is_digit c
    && is_digit d
    && e == b'-'
    && is_digit f
    && is_digit g
    && h == b'-'
    && is_digit i
    && is_digit j

-- `ISO_DATE_PATTERN`, and the date of its three groups.
pub parse_trimmed : Text → Outcome InvalidPrimitiveError BusinessDate
unfolding date_of
parse_trimmed (a ∷ b ∷ c ∷ d ∷ e ∷ f ∷ g ∷ h ∷ i ∷ j ∷ []) =
    if matches_iso a b c d e f g h i j
    then date_of (number2 a b * 100 + number2 c d) (number2 f g) (number2 i j)
    else err invalid_primitive
parse_trimmed _ = err invalid_primitive

unfoldable pub parse : Text → Outcome InvalidPrimitiveError BusinessDate
unfolding parse_trimmed
parse value = validate_non_blank value >>= parse_trimmed

abbrev pub digit : ℕ → ℕ
digit n = b'0' + n % 10

abbrev pub padded2 : ℕ → Text → Text
padded2 n rest = digit (n / 10) ∷ digit n ∷ rest

-- The year has at most four digits in a valid date, so padding to four writes them all.
unfoldable pub to_iso_string : BusinessDate → Text
to_iso_string d =
    padded2 (d.year / 100) (padded2 d.year (b'-' ∷ padded2 d.month (b'-' ∷ padded2 d.day [])))

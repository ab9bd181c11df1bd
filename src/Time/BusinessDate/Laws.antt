-- ===== src/Time/BusinessDate/Laws.antt =====
-- The order of dates, and the wire format `YYYY-MM-DD`.
use main_acounting_system.Prelude.{
  arith, false, refl, true, ℕ, ◌%◌, ◌*◌, ◌+◌, ◌/◌, ◌<◌, ◌↔◌, ◌≡◌, ◌≤◌, ◌⊎◌,
}
use main_acounting_system.Prelude.Outcome.{ok}
use main_acounting_system.Primitives.Text.{is_space, validate_non_blank}
use main_acounting_system.Primitives.Text.Laws.{NoSpace, validate_non_blank_of_NoSpace}
use main_acounting_system.Time.BusinessDate.{
  BusinessDate, IsCivil, date_of, digit, equals, is_after, is_before, is_digit, matches_iso,
  number2, parse, parse_trimmed, to_iso_string,
}
use main_acounting_system.Time.Calendar.{days_in_month}

-- The order of dates in the three parts.
abbrev pub Precedes : BusinessDate → BusinessDate → Type 0
Precedes a b =
    (a.year < b.year)
    ⊎ ((a.year ≡ b.year) × ((a.month < b.month) ⊎ ((a.month ≡ b.month) × (a.day < b.day))))

pub is_before_iff : (a b : BusinessDate) → (is_before a b ≡ true) ↔ Precedes a b
unfolding is_before
is_before_iff a b = ground arith

-- `isAfter` is `isBefore` with the dates exchanged.
pub is_after-eq-is_before : (a b : BusinessDate) → is_after a b ≡ is_before b a
unfolding is_after is_before
is_after-eq-is_before a b = ground arith

pub is_before_trans :
    (a b c : BusinessDate) → is_before a b ≡ true → is_before b c ≡ true → is_before a c ≡ true
unfolding is_before
is_before_trans a b c h k = ground arith

pub equals_iff : (a b : BusinessDate) → (equals a b ≡ true) ↔ (a ≡ b)
unfolding equals
equals_iff a b = ground arith

-- A date has one place in the order.
pub trichotomy : (a b : BusinessDate) → is_before a b ≡ false → is_before b a ≡ false → a ≡ b
unfolding is_before
trichotomy a b h k = ground arith

-- `date_of` admits exactly the civil dates, and keeps the three parts.
pub date_of_iff : (d : BusinessDate) → (date_of d.year d.month d.day ≡ ok d) ↔ IsCivil d
unfolding date_of days_in_month
date_of_iff d = ground arith

digit-not_space : (n : ℕ) → is_space (digit n) ≡ false
unfolding is_space
digit-not_space n = ground arith

dash-not_space : is_space b'-' ≡ false
unfolding is_space
dash-not_space = refl

number2-digit : (n : ℕ) → number2 (digit (n / 10)) (digit n) ≡ n % 100
number2-digit n = omega arith

to_iso_string-NoSpace : (d : BusinessDate) → NoSpace (to_iso_string d)
unfolding to_iso_string
to_iso_string-NoSpace d = assumption (
  digit-not_space (d.year / 100 / 10),
  digit-not_space (d.year / 100),
  digit-not_space (d.year / 10),
  digit-not_space d.year,
  dash-not_space,
  digit-not_space (d.month / 10),
  digit-not_space d.month,
  digit-not_space (d.day / 10),
  digit-not_space d.day,
  tt,
)

validate_non_blank-to_iso_string :
    (d : BusinessDate) → validate_non_blank (to_iso_string d) ≡ ok (to_iso_string d)
unfolding to_iso_string
validate_non_blank-to_iso_string d = validate_non_blank_of_NoSpace _ _ (to_iso_string-NoSpace d)

digit-is_digit : (n : ℕ) → is_digit (digit n) ≡ true
digit-is_digit n = ground arith

iso-matches :
    (y m d : ℕ)
    → matches_iso
        (digit (y / 100 / 10))
        (digit (y / 100))
        (digit (y / 10))
        (digit y)
        b'-'
        (digit (m / 10))
        (digit m)
        b'-'
        (digit (d / 10))
        (digit d)
      ≡ true
iso-matches y m d = simp digit-is_digit

year_digits :
    (y : ℕ)
    → y ≤ 9999
    → number2 (digit (y / 100 / 10)) (digit (y / 100)) * 100 + number2 (digit (y / 10)) (digit y)
      ≡ y
year_digits y h = omega (arith, number2-digit (y / 100), number2-digit y)

two_digits : (n : ℕ) → n ≤ 99 → number2 (digit (n / 10)) (digit n) ≡ n
two_digits n h = omega (arith, number2-digit n)

days_in_month-le : (y m : ℕ) → days_in_month y m ≤ 31
unfolding days_in_month
days_in_month-le y m = ground arith

parse_trimmed-to_iso_string :
    (d : BusinessDate) → IsCivil d → parse_trimmed (to_iso_string d) ≡ ok d
unfolding to_iso_string parse_trimmed
parse_trimmed-to_iso_string d h =
    let short : d.day ≤ 99 = omega (arith, days_in_month-le d.year d.month) in
    rw
      (
        iso-matches d.year d.month d.day,
        year_digits d.year (omega arith),
        two_digits d.month (omega arith),
        two_digits d.day short,
      )
      ((date_of_iff d).1 h)

-- Writing a valid date and reading it back gives the date.
pub parse-to_iso_string : (d : BusinessDate) → IsCivil d → parse (to_iso_string d) ≡ ok d
unfolding parse
parse-to_iso_string d h = rw (validate_non_blank-to_iso_string d) (parse_trimmed-to_iso_string d h)

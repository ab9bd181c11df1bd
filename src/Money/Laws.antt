-- ===== src/Money/Laws.antt =====
-- Arithmetic on amounts is exact, and stays within one currency.
use main_acounting_system.Prelude.{
  Bool-cases, ap, arith, false, if◌then◌else◌, if◌then◌else◌, if◌then◌else◌, inl, inr, ltb, none,
  refl, true, ℕ, ◌-◌, ◌<◌, ◌↔◌, ◌≡◌, ◌≤◌, ◌⊎◌,
}
use main_acounting_system.Decimal.{Comparison, Decimal, equal, greater, less, pow10, rescale_up}
use main_acounting_system.Money.{
  Currency, Money, add, assert_compatible, compare_money, is_negative_money, money_equals, money_of,
  subtract, with_units,
}
use main_acounting_system.Prelude.Int.{
  -ℤ_parts, eqb_ℤ, int_laws, ltb_ℤ, pos, ℤ, ◌*ℤ◌, ◌*ℤ◌, ◌+ℤ◌, ◌-ℤ◌,
}
use main_acounting_system.Prelude.Outcome.{err, ok, ◌>>=◌}
use main_acounting_system.Primitives.Text.{invalid_primitive, text_eq}
use main_acounting_system.Primitives.Text.Laws.{text_eq_symmetric}

pub same_amount : (a : Money) (u : ℤ) → u ≡ a.parts.unscaled → with_units a u ≡ a
unfolding with_units
same_amount a u h = rw h refl

add_then_subtract : (x y : ℤ) → x +ℤ y -ℤ y ≡ x
add_then_subtract x y = omega (int_laws)

-- Adding answers for every two amounts of one currency, and subtracting the second again gives the first
-- back, currency and scale included.
pub subtract-add :
    (a b : Money)
    → text_eq a.currency.code b.currency.code ≡ true
    → (add a b >>= λ sum. subtract sum b) ≡ ok a
unfolding add subtract assert_compatible with_units
subtract-add a b h =
    rw h (rw h (ap ok (same_amount a _ (add_then_subtract a.parts.unscaled b.parts.unscaled))))

times_one : (x : ℤ) → x ≡ x *ℤ pos 1
unfolding ◌*ℤ◌
times_one x = ground arith

-- An amount at a scale that fits is brought to the scale of the currency.
abbrev pub at_scale : ℤ → Decimal → ℕ → Decimal
at_scale unscaled parts scale = record { unscaled = unscaled; scale = scale }

same_scale : (a b : ℕ) → a ≤ b → ltb a b ≡ false → b - a ≡ 0
same_scale a b h k = ground arith

money_of_fits :
    (parts : Decimal) (currency : Currency)
    → parts.scale ≤ currency.minor_unit
    → (money : Money) × (money_of parts currency none ≡ ok money)
      × (money.currency ≡ currency)
      × (money.parts.scale ≡ currency.minor_unit)
      × (money.parts.unscaled ≡ parts.unscaled *ℤ pos (pow10 (currency.minor_unit - parts.scale)))
unfolding money_of rescale_up
money_of_fits parts currency h = elim (Bool-cases (ltb parts.scale currency.minor_unit)) [
  | inl e ↦ (
    record {
      currency = currency;
      parts =
          at_scale (parts.unscaled *ℤ pos (pow10 (currency.minor_unit - parts.scale))) parts
            currency.minor_unit;
    },
    ground arith,
    refl,
    refl,
    refl,
  )
  | inr e ↦ (
    record { currency = currency; parts = parts },
    ground arith,
    refl,
    ground arith,
    rw (ap (λ n. pow10 n) (same_scale parts.scale currency.minor_unit h e))
        (times_one parts.unscaled),
  )
]

-- Without a rounding mode nothing is rounded: an amount with more digits than the currency has is refused,
-- and every other amount is kept at the scale of the currency, and stands for the value that was given.
pub money_of_exact :
    (parts : Decimal) (currency : Currency)
    → ((currency.minor_unit < parts.scale) × (money_of parts currency none ≡ err invalid_primitive))
      ⊎ ((parts.scale ≤ currency.minor_unit)
          × ((money : Money) × (money_of parts currency none ≡ ok money)
              × (money.currency ≡ currency)
              × (money.parts.scale ≡ currency.minor_unit)
              × (money.parts.unscaled
                  ≡ parts.unscaled *ℤ pos (pow10 (currency.minor_unit - parts.scale)))))
unfolding money_of
money_of_exact parts currency = elim (Bool-cases (ltb currency.minor_unit parts.scale)) [
  | inl e ↦ inl (ground arith, rw e refl)
  | inr e ↦
      let small : parts.scale ≤ currency.minor_unit = ground arith in
      inr (small, money_of_fits parts currency small)
]

abbrev pub reverse : Comparison → Comparison
reverse less = greater
reverse equal = equal
reverse greater = less

-- Amounts of one currency are always comparable, the comparison the other way round gives the reverse
-- answer, it says equal just when `equals` holds, and less just when the difference is negative.
pub compare_money_lem :
    (a b : Money)
    → text_eq a.currency.code b.currency.code ≡ true
    → (c : Comparison) × (compare_money a b ≡ ok c)
      × (compare_money b a ≡ ok (reverse c))
      × (c ≡ equal ↔ money_equals a b ≡ true)
      × (c ≡ less ↔ is_negative_money (with_units a (a.parts.unscaled -ℤ b.parts.unscaled)) ≡ true)
unfolding compare_money assert_compatible money_equals is_negative_money with_units
compare_money_lem a b h = (
  c,
  ground (arith, k),
  ground (arith, k),
  ground (arith, k),
  ground (arith, k, -ℤ_parts a.parts.unscaled b.parts.unscaled),
)
  where
    c : Comparison
    c =
        if eqb_ℤ a.parts.unscaled b.parts.unscaled
        then equal
        else (if ltb_ℤ a.parts.unscaled b.parts.unscaled then less else greater)

    k : text_eq b.currency.code a.currency.code ≡ true
    k = text_eq_symmetric a.currency.code b.currency.code h

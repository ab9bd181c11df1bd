-- ===== src/Money.antt =====
-- shared/money/money.ts: an amount with its currency. The amounts, factors and divisors that callers give
-- as strings or numbers are the decimals that `decimalFrom` reads from them.
pub mod Laws
mod Tests
use main_acounting_system.Prelude.{
  Bool, Option, if◌then◌else◌, if◌then◌else◌, if◌then◌else◌, ltb, none, not, some, ℕ, ◌&&◌, ◌==◌,
}
use main_acounting_system.Decimal.{
  Comparison, Decimal, RoundingMode, divide_with_rounding, equal, greater, less, pow10, rescale,
  rescale_up,
}
use main_acounting_system.Prelude.Int.{eqb_ℤ, ltb_ℤ, magnitude, negate_ℤ, pos, ℤ, ◌*ℤ◌, ◌+ℤ◌, ◌-ℤ◌}
use main_acounting_system.Prelude.Outcome.{Outcome, err, ok, throw_if, ◌>>=◌, ◌>>◌}
use main_acounting_system.Primitives.Text.{InvalidPrimitiveError, Text, invalid_primitive, text_eq}

-- What `Money` uses of a Currency.
pub record Currency : Type 0 where
  pub code : Text
  pub minor_unit : ℕ

pub record Money : Type 0 where
  pub currency : Currency
  pub parts : Decimal

-- `Money.of`, without a rounding mode or with one.
unfoldable pub money_of :
    Decimal → Currency → Option RoundingMode → Outcome InvalidPrimitiveError Money
money_of parts currency rounding =
    if ltb currency.minor_unit parts.scale
    then (elim rounding [
      | none ↦ err invalid_primitive
      | some mode ↦ rescale parts currency.minor_unit mode >>= λ p.
          ok (record { currency = currency; parts = p })
    ])
    else (if ltb parts.scale currency.minor_unit
        then (rescale_up parts currency.minor_unit >>= λ p.
            ok (record { currency = currency; parts = p }))
        else ok (record { currency = currency; parts = parts }))

-- `Money.fromMinorUnits`; `Money.zero` is 0 minor units.
unfoldable pub from_minor_units : ℤ → Currency → Money
from_minor_units units currency = record {
  currency = currency;
  parts = record { unscaled = units; scale = currency.minor_unit };
}

unfoldable pub money_zero : Currency → Money
unfolding from_minor_units
money_zero currency = from_minor_units (pos 0) currency

-- The amount replaced, its scale and its currency kept.
unfoldable pub with_units : Money → ℤ → Money
with_units money units = record money { parts = record (money.parts) { unscaled = units } }

-- `assertCompatible`.
unfoldable pub assert_compatible : Money → Money → Outcome InvalidPrimitiveError (Unit {0})
assert_compatible a b = throw_if (not (text_eq a.currency.code b.currency.code)) invalid_primitive

unfoldable pub add : Money → Money → Outcome InvalidPrimitiveError Money
unfolding assert_compatible with_units
add a b = assert_compatible a b >> ok (with_units a (a.parts.unscaled +ℤ b.parts.unscaled))

unfoldable pub subtract : Money → Money → Outcome InvalidPrimitiveError Money
unfolding assert_compatible with_units
subtract a b = assert_compatible a b >> ok (with_units a (a.parts.unscaled -ℤ b.parts.unscaled))

unfoldable pub multiply : Money → Decimal → RoundingMode → Outcome InvalidPrimitiveError Money
unfolding divide_with_rounding with_units
multiply money factor mode =
    divide_with_rounding (money.parts.unscaled *ℤ factor.unscaled) (pos (pow10 factor.scale)) mode
    >>= λ units. ok (with_units money units)

unfoldable pub divide : Money → Decimal → RoundingMode → Outcome InvalidPrimitiveError Money
unfolding divide_with_rounding with_units
divide money divisor mode =
    throw_if (magnitude divisor.unscaled == 0) invalid_primitive
    >> divide_with_rounding (money.parts.unscaled *ℤ pos (pow10 divisor.scale)) divisor.unscaled
        mode
    >>= λ units. ok (with_units money units)

unfoldable pub negate_money : Money → Money
unfolding with_units
negate_money money = with_units money (negate_ℤ money.parts.unscaled)

unfoldable pub abs_money : Money → Money
unfolding with_units
abs_money money = with_units money (
    if ltb_ℤ money.parts.unscaled (pos 0)
    then negate_ℤ money.parts.unscaled
    else money.parts.unscaled)

unfoldable pub compare_money : Money → Money → Outcome InvalidPrimitiveError Comparison
unfolding assert_compatible
compare_money a b =
    assert_compatible a b
    >> ok (
        if eqb_ℤ a.parts.unscaled b.parts.unscaled
        then equal
        else (if ltb_ℤ a.parts.unscaled b.parts.unscaled then less else greater))

unfoldable pub money_equals : Money → Money → Bool
money_equals a b =
    text_eq a.currency.code b.currency.code && eqb_ℤ a.parts.unscaled b.parts.unscaled

unfoldable pub is_zero_money : Money → Bool
is_zero_money money = eqb_ℤ money.parts.unscaled (pos 0)

unfoldable pub is_positive_money : Money → Bool
is_positive_money money = ltb_ℤ (pos 0) money.parts.unscaled

unfoldable pub is_negative_money : Money → Bool
is_negative_money money = ltb_ℤ money.parts.unscaled (pos 0)

-- ===== src/Decimal.antt =====
-- shared/primitives/decimal.ts and rounding-mode.ts: a value is `unscaled / 10 ^ scale`, in exact integers.
pub mod Rounding
mod Tests
use main_acounting_system.Prelude.{
  Bool, false, if◌then◌else◌, if◌then◌else◌, if◌then◌else◌, leb, ltb, max, not, suc, true, zero, ℕ,
  ◌%◌, ◌&&◌, ◌*◌, ◌+◌, ◌-◌, ◌/◌, ◌==◌, ◌^◌, ◌||◌,
}
use main_acounting_system.Prelude.Int.{ltb_ℤ, magnitude, neg, negsuc, pos, ℤ, ◌*ℤ◌}
use main_acounting_system.Prelude.Outcome.{Outcome, ok, throw_if, ◌>>=◌, ◌>>◌}
use main_acounting_system.Primitives.Text.{
  InvalidPrimitiveError, invalid_primitive, validate_integer_in_range,
}

pub data RoundingMode : Type 0 where
  half_up half_even down up floor ceiling : RoundingMode

pub record Decimal : Type 0 where
  pub unscaled : ℤ
  pub scale : ℕ

-- A scale is a natural number here, so `pow10` has nothing to refuse.
abbrev pub pow10 : ℕ → ℕ
pow10 exponent = 10 ^ exponent

abbrev pub max_decimal_scale : ℕ
max_decimal_scale = 18

abbrev pub is_negative : ℤ → Bool
is_negative (pos n) = false
is_negative (negsuc n) = true

abbrev pub differs : Bool → Bool → Bool
differs true b = not b
differs false b = b

abbrev pub with_sign : Bool → ℕ → ℤ
with_sign true n = neg n
with_sign false n = pos n

-- The `switch` on the mode: the quotient, one up or not. The remainder is not zero.
unfoldable pub round_quotient : RoundingMode → Bool → (quotient remainder divisor : ℕ) → ℕ
round_quotient down negative q r d = q
round_quotient up negative q r d = q + 1
round_quotient floor negative q r d = if negative then q + 1 else q
round_quotient ceiling negative q r d = if negative then q else q + 1
round_quotient half_up negative q r d = if leb d (r * 2) then q + 1 else q
round_quotient half_even negative q r d =
    if ltb d (r * 2) || r * 2 == d && q % 2 == 1 then q + 1 else q

-- The magnitude of the result.
unfoldable pub round_magnitude : RoundingMode → Bool → ℕ → ℕ → ℕ
unfolding round_quotient
round_magnitude mode negative magnitude divisor =
    let quotient = magnitude / divisor in
    let remainder = magnitude % divisor in
    if remainder == 0 then quotient else round_quotient mode negative quotient remainder divisor

unfoldable pub divide_with_rounding : ℤ → ℤ → RoundingMode → Outcome InvalidPrimitiveError ℤ
divide_with_rounding numerator denominator mode =
    let negative = differs (is_negative numerator) (is_negative denominator) in
    throw_if (magnitude denominator == 0) invalid_primitive
    >> ok (
        with_sign negative
          (round_magnitude mode negative (magnitude numerator) (magnitude denominator)))

-- Both branches of `rescaleUp` that answer: equal scales multiply by 10 ^ 0.
unfoldable pub rescale_up : Decimal → ℕ → Outcome InvalidPrimitiveError Decimal
rescale_up value scale =
    if scale == value.scale
    then ok value
    else throw_if (ltb scale value.scale) invalid_primitive
      >> ok
          (record { unscaled = value.unscaled *ℤ pos (pow10 (scale - value.scale)); scale = scale })

unfoldable pub rescale : Decimal → ℕ → RoundingMode → Outcome InvalidPrimitiveError Decimal
rescale value scale mode = validate_integer_in_range scale 0 max_decimal_scale >>= λ _.
    if leb value.scale scale
    then rescale_up value scale
    else divide_with_rounding value.unscaled (pos (pow10 (value.scale - scale))) mode
      >>= λ unscaled. ok (record { unscaled = unscaled; scale = scale })

-- `alignDecimals`: both at the larger scale.
unfoldable pub align_decimals :
    Decimal → Decimal → Outcome InvalidPrimitiveError (Decimal × Decimal)
align_decimals a b =
    let scale = max a.scale b.scale in
    rescale_up a scale >>= λ left. rescale_up b scale >>= λ right. ok (left, right)

-- `-1`, `0` or `1`.
pub data Comparison : Type 0 where
  less equal greater : Comparison

abbrev pub compare_ℤ : ℤ → ℤ → Comparison
compare_ℤ a b = if ltb_ℤ a b then less else (if ltb_ℤ b a then greater else equal)

unfoldable pub compare_decimals : Decimal → Decimal → Outcome InvalidPrimitiveError Comparison
compare_decimals a b =
    align_decimals a b >>= λ (left, right). ok (compare_ℤ left.unscaled right.unscaled)

-- The loop of `trimDecimal`, on the magnitude: a division by 10 that leaves no remainder keeps the sign.
unfoldable pub trim_loop : ℕ → ℕ → ℕ × ℕ
trim_loop unscaled zero = (unscaled, zero)
trim_loop unscaled (suc scale) =
    let rest = trim_loop (unscaled / 10) scale in
    if unscaled % 10 == 0 then rest else (unscaled, suc scale)

unfoldable pub trim_decimal : Decimal → Decimal
unfolding trim_loop
trim_decimal value =
    let (unscaled, scale) = trim_loop (magnitude value.unscaled) value.scale in
    record { unscaled = with_sign (is_negative value.unscaled) unscaled; scale = scale }

unfoldable pub decimal_sign : Decimal → Comparison
decimal_sign value = compare_ℤ value.unscaled (pos 0)

-- ===== src/Decimal/Tests.antt =====
-- Concrete values of decimal arithmetic.
use main_acounting_system.Prelude.{arith, refl, true, ℕ, ◌≡◌}
use main_acounting_system.Decimal.{
  divide_with_rounding, half_even, half_up, round_magnitude, trim_decimal,
}
use main_acounting_system.Decimal.Rounding.{IsRounded, divide_with_rounding-IsRounded}
use main_acounting_system.Prelude.Int.{neg, pos}
use main_acounting_system.Prelude.Outcome.{ok}

-- -25 / 10 to the nearest, ties away from zero, and to the nearest even number.
half_up_test : divide_with_rounding (neg 25) (pos 10) half_up ≡ ok (neg 3)
unfolding divide_with_rounding round_magnitude
half_up_test = refl

half_even_test : divide_with_rounding (neg 25) (pos 10) half_even ≡ ok (neg 2)
unfolding divide_with_rounding round_magnitude
half_even_test = refl

trim_test :
    trim_decimal (record { unscaled = pos 1200; scale = 3 })
    ≡ record { unscaled = pos 12; scale = 1 }
unfolding trim_decimal
trim_test = refl

divide_with_rounding-IsRounded_example :
    (r : ℕ) × (divide_with_rounding (neg 25) (pos 10) half_up ≡ ok (neg r))
    × IsRounded half_up true 25 10 r
divide_with_rounding-IsRounded_example =
    divide_with_rounding-IsRounded (neg 25) (pos 10) half_up (omega arith)

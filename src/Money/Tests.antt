-- ===== src/Money/Tests.antt =====
-- Concrete amounts.
use main_acounting_system.Prelude.{[], none, refl, true, ℕ, ◌<◌, ◌↔◌, ◌∷◌, ◌≡◌, ◌≤◌, ◌⊎◌}
use main_acounting_system.Decimal.{Comparison, equal, less, pow10, rescale_up}
use main_acounting_system.Money.{
  Currency, Money, add, compare_money, is_negative_money, money_equals, money_of, subtract,
  with_units,
}
use main_acounting_system.Money.Laws.{compare_money_lem, money_of_exact, reverse, subtract-add}
use main_acounting_system.Prelude.Int.{pos, ◌*ℤ◌, ◌*ℤ◌, ◌-ℤ◌}
use main_acounting_system.Prelude.Outcome.{err, ok, ◌>>=◌}
use main_acounting_system.Primitives.Text.{invalid_primitive, text_eq}

abbrev dollar : Currency
dollar = record { code = b'U' ∷ b'S' ∷ b'D' ∷ []; minor_unit = 2 }

abbrev cents : ℕ → Money
cents n = record { currency = dollar; parts = record { unscaled = pos n; scale = 2 } }

subtract-add_example :
    (add (cents 1250) (cents 75) >>= λ sum. subtract sum (cents 75)) ≡ ok (cents 1250)
unfolding text_eq
subtract-add_example = subtract-add (cents 1250) (cents 75) refl

compare_money_lem_example :
    (c : Comparison) × (compare_money (cents 75) (cents 1250) ≡ ok c)
    × (compare_money (cents 1250) (cents 75) ≡ ok (reverse c))
    × (c ≡ equal ↔ money_equals (cents 75) (cents 1250) ≡ true)
    × (c ≡ less ↔ is_negative_money (with_units (cents 75) (pos 75 -ℤ pos 1250)) ≡ true)
unfolding text_eq
compare_money_lem_example = compare_money_lem (cents 75) (cents 1250) refl

money_of_exact_example :
    ((2 < 1)
      × (money_of (record { unscaled = pos 125; scale = 1 }) dollar none ≡ err invalid_primitive))
    ⊎ ((1 ≤ 2)
        × ((money : Money) × (money_of (record { unscaled = pos 125; scale = 1 }) dollar none
              ≡ ok money)
            × (money.currency ≡ dollar)
            × (money.parts.scale ≡ 2)
            × (money.parts.unscaled ≡ pos 125 *ℤ pos (pow10 1))))
money_of_exact_example = money_of_exact (record { unscaled = pos 125; scale = 1 }) dollar

-- 12.5 in a currency of two digits is 1250 minor units.
money_of_test : money_of (record { unscaled = pos 125; scale = 1 }) dollar none ≡ ok (cents 1250)
unfolding money_of rescale_up ◌*ℤ◌
money_of_test = refl

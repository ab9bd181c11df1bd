-- ===== src/Decimal/Rounding.antt =====
-- The rounding rules of divideWithRounding, against their definitions.
use main_acounting_system.Prelude.{
  Bool, Bool-cases, arith, false, inl, inr, leb, ltb, true, ℕ, ◌%◌, ◌&&◌, ◌*◌, ◌+◌, ◌/◌, ◌<◌, ◌==◌,
  ◌||◌, ◌≡◌, ◌≤◌,
}
use main_acounting_system.Decimal.{
  RoundingMode, ceiling, differs, divide_with_rounding, down, floor, half_even, half_up,
  is_negative, round_magnitude, round_quotient, up, with_sign,
}
use main_acounting_system.Prelude.Int.{magnitude, ℤ}
use main_acounting_system.Prelude.Outcome.{ok}

-- What each mode promises of the magnitude `r` of the result, for the exact value `m / d` with its sign.
abbrev pub IsRounded : RoundingMode → Bool → ℕ → ℕ → ℕ → Type 0
IsRounded down negative m d r = (r * d ≤ m) × (m < r * d + d)
IsRounded up negative m d r = (m ≤ r * d) × (r * d < m + d)
IsRounded floor true m d r = (m ≤ r * d) × (r * d < m + d)
IsRounded floor false m d r = (r * d ≤ m) × (m < r * d + d)
IsRounded ceiling true m d r = (r * d ≤ m) × (m < r * d + d)
IsRounded ceiling false m d r = (m ≤ r * d) × (r * d < m + d)
IsRounded half_up negative m d r = (2 * (r * d) ≤ 2 * m + d) × (2 * m < 2 * (r * d) + d)
IsRounded half_even negative m d r =
    (2 * (r * d) ≤ 2 * m + d)
    × (2 * m ≤ 2 * (r * d) + d)
    × (2 * (r * d) ≡ 2 * m + d → r % 2 ≡ 0)
    × (2 * m ≡ 2 * (r * d) + d → r % 2 ≡ 0)

-- Division with remainder, in one fact.
division : (m d : ℕ) → 0 < d → (m ≡ m / d * d + m % d) × (m % d < d)
division m d h = grind arith

round_magnitude-IsRounded :
    (mode : RoundingMode) (negative : Bool) (m d : ℕ)
    → 0 < d
    → IsRounded mode negative m d (round_magnitude mode negative m d)
unfolding round_magnitude round_quotient
round_magnitude-IsRounded down negative m d h = elim (Bool-cases (m % d == 0)) [
  | inl e ↦ rw e (ground (arith, division m d h))
  | inr e ↦ rw e (ground (arith, division m d h))
]
round_magnitude-IsRounded up negative m d h = elim (Bool-cases (m % d == 0)) [
  | inl e ↦ rw e (ground (arith, division m d h))
  | inr e ↦ rw e (ground (arith, division m d h))
]
round_magnitude-IsRounded floor true m d h = elim (Bool-cases (m % d == 0)) [
  | inl e ↦ rw e (ground (arith, division m d h))
  | inr e ↦ rw e (ground (arith, division m d h))
]
round_magnitude-IsRounded floor false m d h = elim (Bool-cases (m % d == 0)) [
  | inl e ↦ rw e (ground (arith, division m d h))
  | inr e ↦ rw e (ground (arith, division m d h))
]
round_magnitude-IsRounded ceiling true m d h = elim (Bool-cases (m % d == 0)) [
  | inl e ↦ rw e (ground (arith, division m d h))
  | inr e ↦ rw e (ground (arith, division m d h))
]
round_magnitude-IsRounded ceiling false m d h = elim (Bool-cases (m % d == 0)) [
  | inl e ↦ rw e (ground (arith, division m d h))
  | inr e ↦ rw e (ground (arith, division m d h))
]
round_magnitude-IsRounded half_up negative m d h = elim (Bool-cases (m % d == 0)) [
  | inl e ↦ rw e (ground (arith, division m d h))
  | inr e ↦ rw e (elim (Bool-cases (leb d (m % d * 2))) [
    | inl f ↦ rw f (ground (arith, division m d h))
    | inr f ↦ rw f (ground (arith, division m d h))
  ])
]
round_magnitude-IsRounded half_even negative m d h = elim (Bool-cases (m % d == 0)) [
  | inl e ↦ rw e (ground (arith, division m d h))
  | inr e ↦ rw e (elim (Bool-cases (ltb d (m % d * 2) || m % d * 2 == d && m / d % 2 == 1)) [
    | inl f ↦ rw f (ground (arith, division m d h))
    | inr f ↦ rw f (ground (arith, division m d h))
  ])
]

nonzero : (d : ℕ) → 0 < d → (d == 0) ≡ false
nonzero d h = ground arith

-- Division answers for every denominator but zero, and the answer is the exact quotient, rounded as the
-- mode says.
pub divide_with_rounding-IsRounded :
    (numerator denominator : ℤ) (mode : RoundingMode)
    → 0 < magnitude denominator
    → let negative = differs (is_negative numerator) (is_negative denominator) in
      let m = magnitude numerator in
      let d = magnitude denominator in
      (r : ℕ) × (divide_with_rounding numerator denominator mode ≡ ok (with_sign negative r))
      × IsRounded mode negative m d r
unfolding divide_with_rounding
divide_with_rounding-IsRounded numerator denominator mode h = (
  round_magnitude mode (differs (is_negative numerator) (is_negative denominator))
      (magnitude numerator) (magnitude denominator),
  rw (nonzero (magnitude denominator) h),
  round_magnitude-IsRounded mode _ (magnitude numerator) (magnitude denominator) h,
)

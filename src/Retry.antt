-- ===== src/Retry.antt =====
-- infrastructure/jobs/retry.policy.ts: the backoff of jobs and of outbox records.
use main_acounting_system.Prelude.{Bool, arith, ltb, min, ℕ, ◌*◌, ◌+◌, ◌/◌, ◌<◌, ◌^◌, ◌≤◌}

pub record RetryPolicy : Type 0 where
  pub max_attempts : ℕ
  pub base_delay_ms : ℕ
  pub max_delay_ms : ℕ

-- `hasAttemptsRemaining`.
unfoldable pub has_attempts_remaining : ℕ → ℕ → Bool
has_attempts_remaining attempt max_attempts = ltb attempt max_attempts

-- The steps of `Math.random()`: it gives `random / random_steps`.
abbrev pub random_steps : ℕ
random_steps = 9007199254740992

-- Twice the capped exponential delay: `2 ** (attempt - 1)` is a half at attempt 0.
unfoldable pub double_exponential : ℕ → RetryPolicy → ℕ
double_exponential attempt policy =
    min (2 * policy.max_delay_ms) (policy.base_delay_ms * 2 ^ attempt)

-- `computeBackoffDelayMs`, in exact arithmetic: half the exponential delay and a random share of the
-- other half, rounded to the nearest whole number (a half upwards).
unfoldable pub compute_backoff_delay : ℕ → RetryPolicy → ℕ → ℕ
unfolding double_exponential
compute_backoff_delay attempt policy random =
    (2 * (double_exponential attempt policy * (random_steps + random)) + 4 * random_steps)
    / (8 * random_steps)

-- The share of the exponential delay that the jitter leaves, in units of a step.
jittered :
    (x random : ℕ)
    → random < random_steps
    → (x * random_steps ≤ x * (random_steps + random))
      × (x * (random_steps + random) ≤ x * (2 * random_steps))
jittered x random h = grind arith

rounded :
    (x y : ℕ)
    → x * random_steps ≤ y
    → y ≤ x * (2 * random_steps)
    → let delay = (2 * y + 4 * random_steps) / (8 * random_steps) in
      (x ≤ 4 * delay + 2) × (2 * delay ≤ x + 1)
rounded x y h k = (omega arith, omega arith)

-- The delay lies between a half of the capped exponential delay and the whole of it, up to rounding, so
-- it is never longer than the policy's maximum.
pub compute_backoff_delay_bounds :
    (attempt : ℕ) (policy : RetryPolicy) (random : ℕ)
    → random < random_steps
    → let delay = compute_backoff_delay attempt policy random in
      (double_exponential attempt policy ≤ 4 * delay + 2)
      × (2 * delay ≤ double_exponential attempt policy + 1)
      × (delay ≤ policy.max_delay_ms)
unfolding compute_backoff_delay double_exponential
compute_backoff_delay_bounds attempt policy random h = (
  (rounded x y (jittered x random h).0 (jittered x random h).1).0,
  (rounded x y (jittered x random h).0 (jittered x random h).1).1,
  omega (arith, rounded x y (jittered x random h).0 (jittered x random h).1),
)
  where
    x : ℕ
    x = double_exponential attempt policy

    y : ℕ
    y = x * (random_steps + random)

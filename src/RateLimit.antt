-- ===== src/RateLimit.antt =====
-- infrastructure/api/rate-limit/redis-rate-limiter.ts. The store holds for each key its count and the moment
-- that it expires; Redis may be unavailable. Moments are milliseconds, and a key is its scope and subject.
pub mod Window
mod Tests
use main_acounting_system.Prelude.{
  Bool, List, [], false, if◌then◌else◌, if◌then◌else◌, if◌then◌else◌, leb, ltb, true, ℕ, ◌&&◌, ◌*◌,
  ◌+◌, ◌-◌, ◌/◌, ◌∷◌,
}
use main_acounting_system.Primitives.Text.{Text, text_eq}

pub record RateLimitKey : Type 0 where
  pub scope : Text
  pub subject : Text

abbrev pub same_key : RateLimitKey → RateLimitKey → Bool
same_key a b = text_eq a.scope b.scope && text_eq a.subject b.subject

pub record Bucket : Type 0 where
  pub key : RateLimitKey
  pub count : ℕ
  pub expires_at : ℕ

pub record RateLimitDecision : Type 0 where
  pub allowed : Bool
  pub remaining : ℕ
  pub limit : ℕ
  pub reset_at : ℕ
  pub unavailable : Bool

-- `resetAtMs`: the next boundary of aligned windows after `now`.
unfoldable pub reset_at_ms : ℕ → ℕ → ℕ
reset_at_ms now window = (now + 1 + (window - 1)) / window * window

-- `INCR`, with `PEXPIRE` at the first hit: an expired key is no key.
unfoldable pub increment : RateLimitKey → ℕ → ℕ → List Bucket → ℕ × List Bucket
increment key window now [] = (1, record { key = key; count = 1; expires_at = now + window } ∷ [])
increment key window now (bucket ∷ rest) =
    let (current, rest') = increment key window now rest in
    if same_key bucket.key key
    then (if ltb now bucket.expires_at
        then (bucket.count + 1, record bucket { count = bucket.count + 1 } ∷ rest)
        else (1, record { key = key; count = 1; expires_at = now + window } ∷ rest))
    else (current, bucket ∷ rest')

-- `consume`: a store that does not answer refuses.
unfoldable pub consume :
    Bool → ℕ → RateLimitKey → ℕ → ℕ → List Bucket → RateLimitDecision × List Bucket
unfolding increment reset_at_ms
consume available window key limit now buckets =
    if available
    then (let (current, buckets') = increment key window now buckets in
        (
          record {
            allowed = leb current limit;
            remaining = limit - current;
            limit = limit;
            reset_at = reset_at_ms now window;
            unavailable = false;
          },
          buckets',
        ))
    else (
      record {
        allowed = false;
        remaining = 0;
        limit = limit;
        reset_at = reset_at_ms now window;
        unavailable = true;
      },
      buckets,
    )

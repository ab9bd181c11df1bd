-- ===== src/RateLimit/Window.antt =====
-- What a bucket lets through before it expires.
use main_acounting_system.Prelude.{
  All, Bool, Bool-cases, List, Option, [], arith, false, if◌then◌else◌, if◌then◌else◌,
  if◌then◌else◌, inl, inr, length, ltb, min, none, refl, some, true, ℕ, ◌%◌, ◌+◌, ◌-◌, ◌<◌, ◌∷◌,
  ◌≡◌,
}
use main_acounting_system.Primitives.Text.Laws.{text_eq_refl}
use main_acounting_system.RateLimit.{
  Bucket, RateLimitKey, consume, increment, reset_at_ms, same_key,
}

abbrev pub find_bucket : RateLimitKey → List Bucket → Option Bucket
find_bucket key [] = none
find_bucket key (bucket ∷ rest) =
    if same_key bucket.key key then some bucket else find_bucket key rest

increment_found :
    (key : RateLimitKey) (window now : ℕ) (buckets : List Bucket) {bucket : Bucket}
    → find_bucket key buckets ≡ some bucket
    → now < bucket.expires_at
    → ((increment key window now buckets).0 ≡ bucket.count + 1)
      × (find_bucket key (increment key window now buckets).1
          ≡ some (record bucket { count = bucket.count + 1 }))
unfolding increment
increment_found key window now [] h k = cc
increment_found key window now (b ∷ rest) {bucket} h k = elim (Bool-cases (same_key b.key key)) [
  | inl e ↦ rw e (ground arith)
  | inr e ↦ ground (arith, increment_found key window now rest {bucket = bucket})
]

-- Requests at the moments of a list, one after the other: how many are allowed.
unfoldable pub allowed_of : ℕ → RateLimitKey → ℕ → List ℕ → List Bucket → ℕ
unfolding consume
allowed_of window key limit [] buckets = 0
allowed_of window key limit (now ∷ times) buckets =
    let (decision, buckets') = consume true window key limit now buckets in
    let others = allowed_of window key limit times buckets' in
    if decision.allowed then others + 1 else others

-- Of the requests that come before the bucket of their key expires, just as many are allowed as the limit
-- leaves beside those that it has counted: the first ones, whatever else is in the store.
pub allowed_of_bound :
    (window : ℕ) (key : RateLimitKey) (limit : ℕ) (times : List ℕ) (buckets : List Bucket)
    {bucket : Bucket}
    → find_bucket key buckets ≡ some bucket
    → All (λ now. now < bucket.expires_at) times
    → allowed_of window key limit times buckets ≡ min (length times) (limit - bucket.count)
unfolding allowed_of consume
allowed_of_bound window key limit [] buckets h k = omega arith
allowed_of_bound window key limit (now ∷ times) buckets {bucket} h k =
    let (counted, kept) = increment_found key window now buckets {bucket = bucket} h k.0 in
    let rest =
      allowed_of_bound window key limit times (increment key window now buckets).1
        {bucket = record bucket { count = bucket.count + 1 }} kept k.1 in
    ground (arith, counted, rest)

-- The bucket still counts.
abbrev pub is_live : ℕ → Option Bucket → Bool
is_live now none = false
is_live now (some bucket) = ltb now bucket.expires_at

same_key_refl : (key : RateLimitKey) → same_key key key ≡ true
same_key_refl key = ground (arith, text_eq_refl key.scope, text_eq_refl key.subject)

-- A hit without a bucket that counts starts one.
increment_first :
    (key : RateLimitKey) (window now : ℕ) (buckets : List Bucket)
    → is_live now (find_bucket key buckets) ≡ false
    → find_bucket key (increment key window now buckets).1
      ≡ some (record { key = key; count = 1; expires_at = now + window })
unfolding increment
increment_first key window now [] h = rw (same_key_refl key) refl
increment_first key window now (b ∷ rest) h = elim (Bool-cases (same_key b.key key)) [
  | inl e ↦ ground (arith, same_key_refl key)
  | inr e ↦ ground (arith, increment_first key window now rest)
]

aligned_reset : (window now : ℕ) → 0 < window → reset_at_ms now window + now % window ≡ now + window
unfolding reset_at_ms
aligned_reset window now h = grind arith

-- The first hit of a bucket, whatever else is in the store: the reset that is announced comes before the moment
-- that the bucket really expires by the time since the last boundary of the aligned windows, which is zero when
-- the hit is on a boundary.
pub reset_at_ms_early :
    (window : ℕ) (key : RateLimitKey) (limit now : ℕ) (buckets : List Bucket)
    → 0 < window
    → is_live now (find_bucket key buckets) ≡ false
    → let (decision, after) = consume true window key limit now buckets in
      (bucket : Bucket) × (find_bucket key after ≡ some bucket)
      × (bucket.count ≡ 1)
      × (decision.reset_at + now % window ≡ bucket.expires_at)
unfolding consume
reset_at_ms_early window key limit now buckets h k = (
  record { key = key; count = 1; expires_at = now + window },
  increment_first key window now buckets k,
  refl,
  aligned_reset window now h,
)

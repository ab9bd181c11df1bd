-- ===== src/RateLimit/Tests.antt =====
-- Concrete requests against a limit.
use main_acounting_system.Prelude.{[], arith, refl, some, true, ◌+◌, ◌∷◌, ◌≡◌}
use main_acounting_system.Primitives.Text.{text_eq}
use main_acounting_system.RateLimit.{Bucket, RateLimitKey, consume}
use main_acounting_system.RateLimit.Window.{
  allowed_of, allowed_of_bound, find_bucket, reset_at_ms_early,
}

abbrev a_key : RateLimitKey
a_key = record { scope = 65 ∷ []; subject = 66 ∷ [] }

-- Two of three units are spent before the moment 60.
abbrev a_bucket : Bucket
a_bucket = record { key = a_key; count = 2; expires_at = 60 }

allowed_of_bound_example : allowed_of 60 a_key 3 (10 ∷ 20 ∷ []) (a_bucket ∷ []) ≡ 1
unfolding text_eq
allowed_of_bound_example =
    allowed_of_bound 60 a_key 3 (10 ∷ 20 ∷ []) (a_bucket ∷ []) {bucket = a_bucket} refl
      (omega arith, (omega arith, tt))

-- A first hit at the moment 59 of windows of 60.
reset_at_ms_early_example :
    let (decision, after) = consume true 60 a_key 3 59 [] in
    (bucket : Bucket) × (find_bucket a_key after ≡ some bucket)
    × (bucket.count ≡ 1)
    × (decision.reset_at + 59 ≡ bucket.expires_at)
reset_at_ms_early_example = reset_at_ms_early 60 a_key 3 59 [] (omega arith) refl

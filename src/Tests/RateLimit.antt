-- ===== src/Tests/RateLimit.antt =====
-- The theorems on the rate limit at concrete calls.
use rust_zap.Prelude.{refl, String, none, some, [], ◌∷◌, arith}
use rust_zap.Dict.{Dict}
use rust_zap.RateLimit.{RateLimitBucket, RateLimitScope, check, enforce_rate_limit}
use rust_zap.RateLimit.Minute.{Counted, Enforced, check-Counted, enforce_rate_limit-Enforced}

abbrev buckets : Dict String RateLimitBucket
buckets = ("project:p", record { window_minute = 16; count = 1 }) ∷ []

check-Counted_example :
    Counted 1000
      ("project:p" ∷ "api_key:k" ∷ [])
      1
      buckets
      (check ("project:p" ∷ "api_key:k" ∷ []) 1 1000 1001 buckets)
check-Counted_example =
    check-Counted 1000 ("project:p" ∷ "api_key:k" ∷ []) 1 1001 buckets (refl, (refl, tt))
      (omega arith)

abbrev scope : RateLimitScope
scope = record {
  header = λ name. none;
  api_key_id = "k";
  project_id = some "p";
  company_id = none;
  family = "messages";
  resource_id = none;
  max_per_minute = 60;
}

enforce_rate_limit-Enforced_example :
    Enforced 1000 scope buckets (enforce_rate_limit (λ n. "20") scope 1000 1001 buckets)
enforce_rate_limit-Enforced_example =
    enforce_rate_limit-Enforced 1000 (λ n. "20") scope 1001 buckets (omega arith)

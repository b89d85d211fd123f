-- ===== src/RateLimit.antt =====
-- src/rate_limit.rs: `RateLimiter`, which counts calls by key and minute; and `enforce_rate_limit`
-- of src/state.rs, which makes the keys. A header's text, where it has one, is a parameter.
pub mod Counts
pub mod Charges
pub mod Scopes
pub mod Minute
use rust_zap.Prelude.{
  ℕ, ◌+◌, ◌-◌, ◌/◌, ◌%◌, String, ◌<>◌, Bool, true, false, Option, none, some, List, [], ◌∷◌, ◌++◌,
  if◌then◌else◌, min, leb, nat_eq, first, unwrap_or, or_else, and_then, map_option, keep_if, not,
}
use rust_zap.Dict.{Dict, ◌==◌, string_eq, lookup, insert, modify_or_insert}
use rust_zap.Error.{ApiError, Result, ok, err, rate_limited}
use rust_zap.Text.{trim, before_char, is_empty}

pub record RateLimitDecision : Type 0 where
  pub key : String
  pub retry_after_seconds : ℕ

pub record RateLimitBucket : Type 0 where
  pub window_minute : ℕ
  pub count : ℕ

-- `current_window_minute`, of a reading of the clock in seconds
abbrev pub current_window_minute : ℕ → ℕ
current_window_minute unix_seconds = unix_seconds / 60

unfoldable pub seconds_until_next_minute : ℕ → ℕ
seconds_until_next_minute unix_seconds = 60 - unix_seconds % 60

unfoldable pub renew : ℕ → RateLimitBucket → RateLimitBucket
renew window_minute bucket =
    if nat_eq bucket.window_minute window_minute
    then bucket
    else record { window_minute = window_minute; count = 0 }

-- The first loop: it renews buckets up to the first that is full, whose key it gives.
unfoldable pub find_full :
    ℕ → ℕ → List String → Dict String RateLimitBucket → Option String × Dict String RateLimitBucket
find_full window_minute max_per_minute [] buckets = (none, buckets)
find_full window_minute max_per_minute (key ∷ keys) buckets = elim (lookup key buckets) [
  | none ↦ find_full window_minute max_per_minute keys buckets
  | some found ↦
      let bucket = renew window_minute found in
      let renewed = insert key bucket buckets in
      elim (leb max_per_minute bucket.count) [
        | true ↦ (some key, renewed)
        | false ↦ find_full window_minute max_per_minute keys renewed
      ]
]

-- `saturating_add(1)` on a `u32`
unfoldable pub charge : RateLimitBucket → RateLimitBucket
charge bucket = record bucket { count = min (bucket.count + 1) 4294967295 }

-- The second loop.
unfoldable pub charge_all :
    ℕ → List String → Dict String RateLimitBucket → Dict String RateLimitBucket
charge_all window_minute [] buckets = buckets
charge_all window_minute (key ∷ keys) buckets = charge_all window_minute keys (
    modify_or_insert key charge (charge (record { window_minute = window_minute; count = 0 }))
      buckets)

-- Whether a call is let through, and why not.
pub data Checked : Type 0 where
  allowed : Checked
  refused : RateLimitDecision → Checked

unfoldable pub charge_unless :
    ℕ
    → ℕ
    → List String
    → Option String × Dict String RateLimitBucket
    → Checked × Dict String RateLimitBucket
charge_unless window_minute later keys (some key, buckets) =
    (refused (record { key = key; retry_after_seconds = seconds_until_next_minute later }), buckets)
charge_unless window_minute later keys (none, buckets) =
    (allowed, charge_all window_minute keys buckets)

-- `now` and `later` are the two readings of the clock, in seconds.
unfoldable pub check :
    List String → ℕ → ℕ → ℕ → Dict String RateLimitBucket → Checked × Dict String RateLimitBucket
check keys max_per_minute now later buckets =
    if nat_eq max_per_minute 0
    then (
      refused (record {
        key = unwrap_or (first keys) "global";
        retry_after_seconds = seconds_until_next_minute later;
      }),
      buckets,
    )
    else charge_unless (current_window_minute now) later keys
        (find_full (current_window_minute now) max_per_minute keys buckets)

-- The address that a proxy names, else "unknown".
unfoldable pub client_ip : (String → Option String) → String
client_ip header =
    let named = map_option (λ value. trim (before_char b',' value)) (header "x-forwarded-for") in
    let real = map_option trim (header "x-real-ip") in
    unwrap_or
      (or_else (keep_if (λ value. not (is_empty value)) named)
        (keep_if (λ value. not (is_empty value)) real))
      "unknown"

pub record RateLimitScope : Type 0 where
  pub header : String → Option String
  pub api_key_id : String
  pub project_id : Option String
  pub company_id : Option String
  pub family : String
  pub resource_id : Option String
  pub max_per_minute : ℕ

abbrev pub project_keys : String → Option String → List String
project_keys family none = []
project_keys family (some project_id) = ("project:" <> (project_id <> (":family:" <> family))) ∷ []

abbrev pub company_keys : String → Option String → Option String → List String
company_keys family (some project_id) (some company_id) =
    ("company:" <> (project_id <> ("/" <> (company_id <> (":family:" <> family))))) ∷ []
company_keys family project_id none = []
company_keys family none (some company_id) = []

abbrev pub resource_keys : String → Option String → List String
resource_keys family none = []
resource_keys family (some resource_id) = ("resource:" <> (family <> (":" <> resource_id))) ∷ []

unfoldable pub scope_keys : RateLimitScope → List String
scope_keys scope =
    ("api_key:" <> (scope.api_key_id <> (":family:" <> scope.family)))
    ∷ ("ip:" <> (client_ip scope.header <> (":family:" <> scope.family)))
    ∷ (project_keys scope.family scope.project_id
        ++ (company_keys scope.family scope.project_id scope.company_id
            ++ resource_keys scope.family scope.resource_id))

abbrev pub as_result : (decimal : ℕ → String) → String → Checked → Result (Unit {0})
as_result decimal family allowed = ok tt
as_result decimal family (refused decision) = err (
    rate_limited (
      "rate limit exceeded for "
      <> (family <> ("; retry after " <> (decimal decision.retry_after_seconds <> " seconds")))))

-- `decimal` writes a number.
unfoldable pub enforce_rate_limit :
    (ℕ → String)
    → RateLimitScope
    → (now later : ℕ) → Dict String RateLimitBucket
    → Result (Unit {0}) × Dict String RateLimitBucket
enforce_rate_limit decimal scope now later buckets =
    let (checked, after) = check (scope_keys scope) scope.max_per_minute now later buckets in
    (as_result decimal scope.family checked, after)

-- ===== src/RateLimit/Minute.antt =====
-- src/rate_limit.rs: the counts of the minute around a call of `check` and of `enforce_rate_limit`.
use rust_zap.Prelude.{
  ℕ, ◌+◌, ◌≤◌, ◌<◌, ◌≡◌, refl, String, true, Option, none, some, List, [], ◌∷◌, arith, inl, inr,
  Bool-cases, if◌then◌else◌, nat_eq, All,
}
use rust_zap.Dict.{Dict, string_eq, lookup}
use rust_zap.Dict.Distinct.{is_in, Distinct}
use rust_zap.RateLimit.Counts.{used, is_current, Finds, find_full-Finds}
use rust_zap.RateLimit.Charges.{HasRoom, charge_all-used}
use rust_zap.RateLimit.Scopes.{scope_keys-Distinct}
use rust_zap.Error.{Result, ok, err}
use rust_zap.RateLimit.{
  RateLimitScope, scope_keys, enforce_rate_limit, as_result, RateLimitBucket, Checked, allowed,
  refused, find_full, charge_unless, check, current_window_minute, seconds_until_next_minute,
}

module _ (now : ℕ) where
  -- The effect of a call on the counts of the minute that it falls in.
  abbrev pub Counted :
      List String → ℕ → Dict String RateLimitBucket → Checked × Dict String RateLimitBucket → Type 0
  Counted keys max buckets (allowed, t) =
      ((k : String)
        → used (current_window_minute now) k t ≡ (
            if is_in k keys
            then used (current_window_minute now) k buckets + 1
            else used (current_window_minute now) k buckets))
      × All (λ k. used (current_window_minute now) k buckets < max) keys
  Counted keys max buckets (refused decision, t) =
      ((k : String)
        → used (current_window_minute now) k t ≡ used (current_window_minute now) k buckets)
      × (max ≤ used (current_window_minute now) decision.key buckets)
      × (1 ≤ decision.retry_after_seconds)
      × (decision.retry_after_seconds ≤ 60)

  wait_bounds :
      (later : ℕ) → (1 ≤ seconds_until_next_minute later) × (seconds_until_next_minute later ≤ 60)
  unfolding seconds_until_next_minute
  wait_bounds later = (omega arith, omega arith)

  charge_unless-Counted :
      (keys : List String) (max later : ℕ) (buckets : Dict String RateLimitBucket)
      (out : Option String × Dict String RateLimitBucket)
      → Distinct keys
      → max ≤ 4294967295
      → Finds (current_window_minute now) max keys buckets out
      → Counted keys max buckets (charge_unless (current_window_minute now) later keys out)
  unfolding charge_unless
  charge_unless-Counted keys max later buckets (some key, t) d m f =
      let wait = wait_bounds later in (f.0, f.1, wait.0, wait.1)
  charge_unless-Counted keys max later buckets (none, t) d m f = (
    (λ k. rw (charge_all-used (current_window_minute now) keys t k d (rooms keys f.1), f.0 k) refl),
    under keys f.1,
  )
    where
      rooms :
          (r : List String)
          → All
              (λ k.
                (is_current (current_window_minute now) (lookup k t) ≡ true)
                × (used (current_window_minute now) k buckets < max))
              r
          → All (HasRoom (current_window_minute now) t) r
      rooms [] h = tt
      rooms (k ∷ r) h = ((h.0.0, rw (f.0 k) (omega (arith, h.0.1))), rooms r h.1)

      under :
          (r : List String)
          → All
              (λ k.
                (is_current (current_window_minute now) (lookup k t) ≡ true)
                × (used (current_window_minute now) k buckets < max))
              r
          → All (λ k. used (current_window_minute now) k buckets < max) r
      under [] h = tt
      under (k ∷ r) h = (h.0.1, under r h.1)

  -- For keys that differ and a limit that is a `u32`, a call that is let through found each key
  -- counted fewer times in the minute than the limit, and is counted once for each key and for no
  -- other. A call that is refused is not counted, names a key that has been counted as often as
  -- the limit says, and may be tried again in 1 to 60 seconds.
  pub check-Counted :
      (keys : List String) (max later : ℕ) (buckets : Dict String RateLimitBucket)
      → Distinct keys
      → max ≤ 4294967295
      → Counted keys max buckets (check keys max now later buckets)
  unfolding check
  check-Counted keys max later buckets d m =
      let window = current_window_minute now in
      let wait = wait_bounds later in
      elim (Bool-cases (nat_eq max 0)) [
        | inl off ↦ rw (off, check) ((λ k. refl), ground arith, wait.0, wait.1)
        | inr on ↦
            rw (on, check)
              (charge_unless-Counted keys max later buckets (find_full window max keys buckets) d m
                (find_full-Finds window max keys buckets (ground arith)))
      ]

  -- The same, of the reply of `enforce_rate_limit`.
  abbrev pub Enforced :
      RateLimitScope
      → Dict String RateLimitBucket
      → Result (Unit {0}) × Dict String RateLimitBucket
      → Type 0
  Enforced scope buckets (ok done, t) =
      ((k : String)
        → used (current_window_minute now) k t ≡ (
            if is_in k (scope_keys scope)
            then used (current_window_minute now) k buckets + 1
            else used (current_window_minute now) k buckets))
      × All (λ k. used (current_window_minute now) k buckets < scope.max_per_minute)
          (scope_keys scope)
  Enforced scope buckets (err e, t) =
      (k : String)
      → used (current_window_minute now) k t ≡ used (current_window_minute now) k buckets

  -- A call is let through only while each of its keys has been counted fewer times in the minute
  -- than the limit, a `u32`; it is then counted once for each of its keys and for no other key. A
  -- call that is refused is not counted.
  pub enforce_rate_limit-Enforced :
      (decimal : ℕ → String) (scope : RateLimitScope) (later : ℕ)
      (buckets : Dict String RateLimitBucket)
      → scope.max_per_minute ≤ 4294967295
      → Enforced scope buckets (enforce_rate_limit decimal scope now later buckets)
  unfolding enforce_rate_limit
  enforce_rate_limit-Enforced decimal scope later buckets m =
      enforced (check (scope_keys scope) scope.max_per_minute now later buckets) (
        check-Counted (scope_keys scope) scope.max_per_minute later buckets
          (scope_keys-Distinct scope) m)
    where
      enforced :
          (out : Checked × Dict String RateLimitBucket)
          → Counted (scope_keys scope) scope.max_per_minute buckets out
          → Enforced scope buckets (as_result decimal scope.family out.0, out.1)
      enforced (allowed, t) h = h
      enforced (refused decision, t) h = h.0

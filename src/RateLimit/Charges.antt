-- ===== src/RateLimit/Charges.antt =====
-- src/rate_limit.rs: the second loop of `check`, which counts every key once more.
use rust_zap.Prelude.{
  ℕ, ◌+◌, ◌<◌, ◌≡◌, refl, String, true, false, Option, none, some, List, [], ◌∷◌, arith, inl, inr,
  Bool-cases, if◌then◌else◌, unwrap_or, map_option, All,
}
use rust_zap.Dict.{Dict, ◌==◌, string_eq, lookup, modify_or_insert}
use rust_zap.Dict.Laws.{lookup-modify_or_insert, beq_refl}
use rust_zap.Dict.Distinct.{is_in, Distinct}
use rust_zap.RateLimit.Counts.{used, used_of, is_current}
use rust_zap.RateLimit.{RateLimitBucket, charge, charge_all}

module _ (window : ℕ) where
  charge-used :
      (key k : String) (buckets : Dict String RateLimitBucket)
      → is_current window (lookup key buckets) ≡ true
      → used window key buckets < 4294967295
      → let fresh : RateLimitBucket = record { window_minute = window; count = 0 } in
        let t = modify_or_insert key charge (charge fresh) buckets in
        used window k t ≡ (if key == k then used window k buckets + 1 else used window k buckets)
  unfolding charge
  charge-used key k buckets current room =
      let fresh : RateLimitBucket = record { window_minute = window; count = 0 } in
      elim (Bool-cases (key == k)) [
        | inl same ↦
            let e : key ≡ k = (string_eq.beq_iff key k).0 same in
            rw (lookup-modify_or_insert key k charge (charge fresh) buckets, ← e)
              (rw (beq_refl key) (charged (lookup key buckets) current room))
        | inr other ↦
            rw (lookup-modify_or_insert key k charge (charge fresh) buckets) (rw other refl)
      ]
    where
      charged :
          (o : Option RateLimitBucket)
          → is_current window o ≡ true
          → used_of window o < 4294967295
          → used_of window (
              some (
                unwrap_or
                  (map_option charge o)
                  (charge (record { window_minute = window; count = 0 }))))
            ≡ used_of window o + 1
      charged none c r = ground arith
      charged (some b) c r = ground arith

  charge-is_current :
      (key k : String) (buckets : Dict String RateLimitBucket)
      → is_current window (lookup k buckets) ≡ true
      → let fresh : RateLimitBucket = record { window_minute = window; count = 0 } in
        is_current window (lookup k (modify_or_insert key charge (charge fresh) buckets)) ≡ true
  unfolding charge
  charge-is_current key k buckets h =
      let fresh : RateLimitBucket = record { window_minute = window; count = 0 } in
      elim (Bool-cases (key == k)) [
        | inl same ↦
            let e : key ≡ k = (string_eq.beq_iff key k).0 same in
            rw (lookup-modify_or_insert key k charge (charge fresh) buckets)
              (rw same (rw e (charged (lookup k buckets) h)))
        | inr other ↦ rw (lookup-modify_or_insert key k charge (charge fresh) buckets) (rw other h)
      ]
    where
      charged :
          (o : Option RateLimitBucket)
          → is_current window o ≡ true
          → is_current window (
              some (
                unwrap_or
                  (map_option charge o)
                  (charge (record { window_minute = window; count = 0 }))))
            ≡ true
      charged none c = ground arith
      charged (some b) c = c

  -- A key that can be counted once more.
  abbrev pub HasRoom : Dict String RateLimitBucket → String → Type 0
  HasRoom buckets k =
      (is_current window (lookup k buckets) ≡ true) × (used window k buckets < 4294967295)

  HasRoom-rest :
      (key : String) (keys : List String) (buckets : Dict String RateLimitBucket)
      → HasRoom buckets key
      → is_in key keys ≡ false
      → All (HasRoom buckets) keys
      → let fresh : RateLimitBucket = record { window_minute = window; count = 0 } in
        All (HasRoom (modify_or_insert key charge (charge fresh) buckets)) keys
  HasRoom-rest key [] buckets h apart rest = tt
  HasRoom-rest key (k ∷ keys) buckets h apart rest =
      let counted = charge-used key k buckets h.0 h.1 in
      let differs : (key == k) ≡ false =
        ground (arith, string_eq.beq_iff key k, string_eq.beq_iff k key) in
      (
        (charge-is_current key k buckets rest.0.0, rw counted (rw differs rest.0.1)),
        HasRoom-rest key keys buckets h (ground arith) rest.1,
      )

  pub charge_all-used :
      (keys : List String) (buckets : Dict String RateLimitBucket) (k : String)
      → Distinct keys
      → All (HasRoom buckets) keys
      → used window k (charge_all window keys buckets)
        ≡ (if is_in k keys then used window k buckets + 1 else used window k buckets)
  unfolding charge_all
  charge_all-used [] buckets k d h = refl
  charge_all-used (key ∷ keys) buckets k d h =
      let fresh : RateLimitBucket = record { window_minute = window; count = 0 } in
      let after = modify_or_insert key charge (charge fresh) buckets in
      let later = charge_all-used keys after k d.1 (HasRoom-rest key keys buckets h.0 d.0 h.1) in
      let now = charge-used key k buckets h.0.0 h.0.1 in
      rw (later, now)
        (elim (Bool-cases (key == k)) [
          | inl same ↦
              let e : key ≡ k = (string_eq.beq_iff key k).0 same in
              let once : is_in k keys ≡ false = rw (← e) d.0 in rw (same, once) refl
          | inr other ↦ rw other refl
        ])

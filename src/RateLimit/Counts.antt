-- ===== src/RateLimit/Counts.antt =====
-- src/rate_limit.rs: the count of a key in a minute, and the first loop of `check`, which looks for
-- a full key.
use rust_zap.Prelude.{
  ℕ, ◌≤◌, ◌<◌, ◌≡◌, refl, ◌∙◌, sym, ap, String, Bool, true, false, Option, none, some, List, [],
  ◌∷◌, arith, inl, inr, Bool-cases, Option-cases, if◌then◌else◌, leb, nat_eq, All,
}
use rust_zap.Dict.{Dict, ◌==◌, string_eq, lookup, insert}
use rust_zap.Dict.Laws.{lookup-insert, lookup-insert_self, beq_refl}
use rust_zap.Dict.Distinct.{is_in}
use rust_zap.RateLimit.{RateLimitBucket, renew, find_full}

-- The calls that a bucket counts in a minute.
abbrev pub used_of : ℕ → Option RateLimitBucket → ℕ
used_of window none = 0
used_of window (some bucket) = if nat_eq bucket.window_minute window then bucket.count else 0

abbrev pub used : ℕ → String → Dict String RateLimitBucket → ℕ
used window key buckets = used_of window (lookup key buckets)

renew-used :
    (window : ℕ) (b : RateLimitBucket)
    → (used_of window (some (renew window b)) ≡ used_of window (some b))
      × ((renew window b).count ≡ used_of window (some b))
unfolding renew
renew-used window b = ground arith

-- A bucket that is of the minute, where there is one.
abbrev pub is_current : ℕ → Option RateLimitBucket → Bool
is_current window none = true
is_current window (some bucket) = nat_eq bucket.window_minute window

renew-is_current :
    (window : ℕ) (b : RateLimitBucket) → nat_eq (renew window b).window_minute window ≡ true
unfolding renew
renew-is_current window b = ground arith

module _ (window : ℕ) where
  renewed-used :
      (key k : String) (found : RateLimitBucket) (buckets : Dict String RateLimitBucket)
      → lookup key buckets ≡ some found
      → used window k (insert key (renew window found) buckets) ≡ used window k buckets
  renewed-used key k found buckets h = elim (Bool-cases (key == k)) [
    | inl same ↦
        let e : key ≡ k = (string_eq.beq_iff key k).0 same in
        rw (lookup-insert key k (renew window found) buckets, same)
          ((renew-used window found).0
            ∙ ap (used_of window) (sym h ∙ ap (λ (x : String). lookup x buckets) e))
    | inr other ↦ rw (lookup-insert key k (renew window found) buckets) (rw other refl)
  ]

  renewed-is_current :
      (key k : String) (found : RateLimitBucket) (buckets : Dict String RateLimitBucket)
      → is_current window (lookup k buckets) ≡ true
      → is_current window (lookup k (insert key (renew window found) buckets)) ≡ true
  renewed-is_current key k found buckets h = elim (Bool-cases (key == k)) [
    | inl same ↦
        rw (lookup-insert key k (renew window found) buckets)
          (rw same (renew-is_current window found))
    | inr other ↦ rw (lookup-insert key k (renew window found) buckets) (rw other h)
  ]

  find_full-is_current :
      (max : ℕ) (k : String) (keys : List String) (buckets : Dict String RateLimitBucket)
      → is_current window (lookup k buckets) ≡ true
      → is_current window (lookup k (find_full window max keys buckets).1) ≡ true
  unfolding find_full
  find_full-is_current max k [] buckets h = h
  find_full-is_current max k (key ∷ keys) buckets h = elim (Option-cases (lookup key buckets)) [
    | inl free ↦ rw (free, find_full) (find_full-is_current max k keys buckets h)
    | inr (found, e) ↦
        let renewed = insert key (renew window found) buckets in
        let still = renewed-is_current key k found buckets h in
        elim (Bool-cases (leb max (renew window found).count)) [
          | inl full ↦ rw (e, find_full) (rw full still)
          | inr room ↦ rw (e, find_full) (rw room (find_full-is_current max k keys renewed still))
        ]
  ]

  -- What the first loop finds: a full key, or that every key has room; the counts stay.
  abbrev pub Finds :
      ℕ
      → List String
      → Dict String RateLimitBucket
      → Option String × Dict String RateLimitBucket
      → Type 0
  Finds max keys buckets (some key, t) =
      ((k : String) → used window k t ≡ used window k buckets)
      × (max ≤ used window key buckets)
      × (is_in key keys ≡ true)
  Finds max keys buckets (none, t) =
      ((k : String) → used window k t ≡ used window k buckets)
      × All (λ k. (is_current window (lookup k t) ≡ true) × (used window k buckets < max)) keys

  Finds-more :
      (max : ℕ) (key : String) (keys : List String) (b c : Dict String RateLimitBucket)
      (out : Option String × Dict String RateLimitBucket)
      → ((k : String) → used window k c ≡ used window k b)
      → is_current window (lookup key out.1) ≡ true
      → used window key b < max
      → Finds max keys c out
      → Finds max (key ∷ keys) b out
  Finds-more max key keys b c (some full, t) same current room f =
      ((λ k. f.0 k ∙ same k), rw (← same full) f.1, ground (arith, f.2))
  Finds-more max key keys b c (none, t) same current room f =
      ((λ k. f.0 k ∙ same k), ((current, room), moved keys f.1))
    where
      moved :
          (keys : List String)
          → All (λ k. (is_current window (lookup k t) ≡ true) × (used window k c < max)) keys
          → All (λ k. (is_current window (lookup k t) ≡ true) × (used window k b < max)) keys
      moved [] h = tt
      moved (k ∷ r) h = ((h.0.0, rw (← same k) h.0.1), moved r h.1)

  full_head :
      (max : ℕ) (key : String) (found : RateLimitBucket) (buckets : Dict String RateLimitBucket)
      → lookup key buckets ≡ some found
      → leb max (renew window found).count ≡ true
      → max ≤ used window key buckets
  full_head max key found buckets h full =
      rw h (let counts = renew-used window found in ground (arith, counts))

  room_head :
      (max : ℕ) (key : String) (found : RateLimitBucket) (buckets : Dict String RateLimitBucket)
      → lookup key buckets ≡ some found
      → leb max (renew window found).count ≡ false
      → used window key buckets < max
  room_head max key found buckets h room =
      rw h (let counts = renew-used window found in ground (arith, counts))

  pub find_full-Finds :
      (max : ℕ) (keys : List String) (buckets : Dict String RateLimitBucket)
      → 1 ≤ max
      → Finds max keys buckets (find_full window max keys buckets)
  unfolding find_full
  find_full-Finds max [] buckets h = ((λ k. refl), tt)
  find_full-Finds max (key ∷ keys) buckets h = elim (Option-cases (lookup key buckets)) [
    | inl free ↦
        rw (free, find_full)
          (Finds-more max key keys buckets buckets (find_full window max keys buckets) (λ k. refl)
            (find_full-is_current max key keys buckets (rw free refl)) (rw free h)
            (find_full-Finds max keys buckets h))
    | inr (found, e) ↦
        let renewed = insert key (renew window found) buckets in
        let same : (k : String) → used window k renewed ≡ used window k buckets =
          λ k. renewed-used key k found buckets e in
        elim (Bool-cases (leb max (renew window found).count)) [
          | inl full ↦
              rw (e, find_full)
                (rw full (same, full_head max key found buckets e full, rw (beq_refl key) refl))
          | inr room ↦
              rw (e, find_full)
                (rw room (
                  Finds-more max key keys buckets renewed (find_full window max keys renewed) same
                    (find_full-is_current max key keys renewed (
                      rw (lookup-insert_self key (renew window found) buckets)
                        (renew-is_current window found)))
                    (room_head max key found buckets e room) (find_full-Finds max keys renewed h)))
        ]
  ]

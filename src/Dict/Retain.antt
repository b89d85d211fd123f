-- ===== src/Dict/Retain.antt =====
-- `retain` on maps.
use rust_zap.Prelude.{
  ◌≡◌, refl, Bool, true, false, none, List, [], ◌∷◌, arith, inl, inr, Bool-cases, if◌then◌else◌,
  keep_if, retain, ◌&&◌, is_some, map_option, map, All,
}
use rust_zap.Dict.Class.{Eq, ◌==◌}
use rust_zap.Dict.{Dict, lookup, keys, values, map_values}
use rust_zap.Dict.Distinct.{is_in, Distinct}

module _ {ℓ κ} {K : Type ℓ} {V : Type κ} ⦃e : Eq K⦄ where
  pub lookup-retain_keys :
      (p : K → Bool) (k : K) (d : Dict K V)
      → lookup k (retain (λ (x : K × V). p x.0) d) ≡ (if p k then lookup k d else none)
  unfolding lookup
  lookup-retain_keys p k [] = ground arith
  lookup-retain_keys p k ((j, v) ∷ d) = ground (arith, e.beq_iff j k, lookup-retain_keys p k d)

  pub lookup-absent : (k : K) (d : Dict K V) → is_in k (keys d) ≡ false → lookup k d ≡ none
  unfolding lookup
  lookup-absent k [] out = refl
  lookup-absent k ((j, v) ∷ d) out = ground (arith, lookup-absent k d)

  retain-absent :
      (q : K × V → Bool) (k : K) (d : Dict K V)
      → is_in k (keys d) ≡ false
      → is_in k (keys (retain q d)) ≡ false
  retain-absent q k [] out = refl
  retain-absent q k ((j, v) ∷ d) out = ground (arith, retain-absent q k d)

  pub retain-Distinct :
      (q : K × V → Bool) (d : Dict K V) → Distinct (keys d) → Distinct (keys (retain q d))
  retain-Distinct q [] h = tt
  retain-Distinct q ((k, v) ∷ d) h = elim (Bool-cases (q (k, v))) [
    | inl kept ↦ rw kept (retain-absent q k d h.0, retain-Distinct q d h.1)
    | inr out ↦ rw out (retain-Distinct q d h.1)
  ]

  -- In a map with distinct keys a test may look at the value too.
  pub lookup-retain :
      (q : K × V → Bool) (k : K) (d : Dict K V)
      → Distinct (keys d)
      → lookup k (retain q d) ≡ keep_if (λ v. q (k, v)) (lookup k d)
  unfolding lookup
  lookup-retain q k [] h = refl
  lookup-retain q k ((j, v) ∷ d) h = elim (Bool-cases (j == k)) [
    | inl same ↦
        let at = (e.beq_iff j k).0 same in
        let later : lookup k (retain q d) ≡ none =
          lookup-absent k (retain q d) (rw (← at) (retain-absent q j d h.0)) in
        elim (Bool-cases (q (j, v))) [
          | inl kept ↦ let that : q (k, v) ≡ true = rw (← at) kept in rw (kept, same) (rw that refl)
          | inr out ↦ let that : q (k, v) ≡ false = rw (← at) out in rw (out, same) (rw that later)
        ]
    | inr other ↦ elim (Bool-cases (q (j, v))) [
      | inl kept ↦ rw (kept, other) (lookup-retain q k d h.1)
      | inr out ↦ rw (out, other) (lookup-retain q k d h.1)
    ]
  ]

  pub is_in-keys : (k : K) (d : Dict K V) → is_in k (keys d) ≡ is_some (lookup k d)
  unfolding lookup
  is_in-keys k [] = refl
  is_in-keys k ((j, v) ∷ d) = ground (arith, is_in-keys k d)

  pub lookup-map_values :
      (f : V → V) (k : K) (d : Dict K V) → lookup k (map_values f d) ≡ map_option f (lookup k d)
  unfolding lookup
  lookup-map_values f k [] = refl
  lookup-map_values f k ((j, v) ∷ d) = ground (arith, lookup-map_values f k d)

module _ {ℓ} {K : Type ℓ} ⦃e : Eq K⦄ where
  pub is_in-retain :
      (p : K → Bool) (k : K) (xs : List K) → is_in k (retain p xs) ≡ (p k && is_in k xs)
  is_in-retain p k [] = ground arith
  is_in-retain p k (x ∷ xs) = ground (arith, e.beq_iff x k, is_in-retain p k xs)

module _ {ℓ κ} {K : Type ℓ} {A : Type κ} ⦃e : Eq K⦄ (f : A → K) (p : A → Bool) where
  absent-retain :
      (k : K) (xs : List A) → is_in k (map f xs) ≡ false → is_in k (map f (retain p xs)) ≡ false
  absent-retain k [] out = refl
  absent-retain k (x ∷ xs) out = ground (arith, absent-retain k xs)

  pub Distinct-retain : (xs : List A) → Distinct (map f xs) → Distinct (map f (retain p xs))
  Distinct-retain [] h = tt
  Distinct-retain (x ∷ xs) h = elim (Bool-cases (p x)) [
    | inl kept ↦ rw kept (absent-retain (f x) xs h.0, Distinct-retain xs h.1)
    | inr out ↦ rw out (Distinct-retain xs h.1)
  ]

module _ {κ μ} {V : Type κ} (P : V → Type μ) (f : V → V) where
  pub All-map_values {ℓ} :
      {K : Type ℓ} → ((v : V) → P (f v)) → (d : Dict K V) → All P (values (map_values f d))
  All-map_values h [] = tt
  All-map_values h ((k, v) ∷ d) = (h v, All-map_values h d)

  pub All-map : ((v : V) → P (f v)) → (xs : List V) → All P (map f xs)
  All-map h [] = tt
  All-map h (v ∷ xs) = (h v, All-map h xs)

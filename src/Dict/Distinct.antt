-- ===== src/Dict/Distinct.antt =====
-- Lists of keys in which none stands twice.
use rust_zap.Prelude.{◌≡◌, Bool, false, List, [], ◌∷◌, any, arith}
use rust_zap.Dict.Class.{Eq, ◌==◌}

module _ {ℓ} {K : Type ℓ} ⦃e : Eq K⦄ where
  abbrev pub is_in : K → List K → Bool
  is_in key = any (λ k. k == key)

  -- No key stands twice.
  abbrev pub Distinct : List K → Type 0
  Distinct [] = Unit
  Distinct (k ∷ r) = (is_in k r ≡ false) × Distinct r

  pub beq_sym : (j k : K) → (j == k) ≡ false → (k == j) ≡ false
  beq_sym j k h = ground (arith, e.beq_iff j k, e.beq_iff k j)

  pub is_in-cons :
      (k j : K) (r : List K) → is_in k (j ∷ r) ≡ false → ((j == k) ≡ false) × (is_in k r ≡ false)
  is_in-cons k j r h = ground arith

  pub cons-is_in :
      (k j : K) (r : List K) → (j == k) ≡ false → is_in k r ≡ false → is_in k (j ∷ r) ≡ false
  cons-is_in k j r h i = ground arith

-- ===== src/Dict/Laws.antt =====
-- The laws of maps, each in the form of a test on the two keys.
use rust_zap.Prelude.{
  ◌≡◌, refl, ◌≢◌, true, false, none, some, [], ◌∷◌, arith, map_option, unwrap_or, if◌then◌else◌,
  Bool-cases, inl, inr,
}
use rust_zap.Dict.Class.{Eq, ◌==◌}
use rust_zap.Dict.{Dict, lookup, insert, remove, modify_or_insert}

module _ {ℓ} {K : Type ℓ} ⦃e : Eq K⦄ where
  pub beq_refl : (k : K) → (k == k) ≡ true
  beq_refl k = (e.beq_iff k k).1 refl

  pub beq_ne : (j k : K) → j ≢ k → (j == k) ≡ false
  beq_ne j k h = elim (Bool-cases (j == k)) [ inl p ↦ absurd (h ((e.beq_iff j k).0 p)) | inr q ↦ q ]

module _ {ℓ κ} {K : Type ℓ} {V : Type κ} ⦃e : Eq K⦄ where
  pub lookup-insert :
      (key asked : K) (new : V) (map : Dict K V)
      → lookup asked (insert key new map) ≡ (if key == asked then some new else lookup asked map)
  unfolding lookup insert
  lookup-insert key asked new [] = refl
  lookup-insert key asked new ((held, old) ∷ rest) = ground (
    arith,
    e.beq_iff held asked,
    e.beq_iff held key,
    e.beq_iff key asked,
    lookup-insert key asked new rest,
  )

  pub lookup-remove :
      (k j : K) (m : Dict K V) → lookup j (remove k m) ≡ (if k == j then none else lookup j m)
  unfolding lookup remove
  lookup-remove k j [] = ground arith
  lookup-remove k j ((i, w) ∷ m) =
      ground (arith, e.beq_iff k j, e.beq_iff i k, e.beq_iff i j, lookup-remove k j m)

  pub lookup-modify_or_insert :
      (k j : K) (f : V → V) (d : V) (m : Dict K V)
      → lookup j (modify_or_insert k f d m)
        ≡ (if k == j then some (unwrap_or (map_option f (lookup k m)) d) else lookup j m)
  unfolding lookup modify_or_insert
  lookup-modify_or_insert k j f d [] = refl
  lookup-modify_or_insert k j f d ((i, w) ∷ m) =
      ground (arith, e.beq_iff k j, e.beq_iff i k, e.beq_iff i j, lookup-modify_or_insert k j f d m)

  pub lookup-insert_self : (k : K) (v : V) (m : Dict K V) → lookup k (insert k v m) ≡ some v
  lookup-insert_self k v m = rw (lookup-insert k k v m) (rw (beq_refl k))

  pub lookup-insert_ne :
      (k j : K) (v : V) (m : Dict K V) → k ≢ j → lookup j (insert k v m) ≡ lookup j m
  lookup-insert_ne k j v m h = rw (lookup-insert k j v m) (rw (beq_ne k j h))

-- ===== src/Persisted/Kept.antt =====
-- Filters that keep everything, and maps that are collected as they are.
use rust_zap.Prelude.{
  ◌≡◌, refl, sym, ◌∙◌, ap, String, Bool, true, false, some, List, [], ◌∷◌, ◌++◌, arith, retain, All,
  filter_map, map, append_assoc, subst,
}
use mathlib.Core.List.{append-nil}
use rust_zap.Dict.{
  Eq, Dict, ◌==◌, string_eq, pair_eq, triple_eq, quadruple_eq, insert, keys, values,
}
use rust_zap.Dict.Distinct.{is_in, Distinct, beq_sym}
use rust_zap.Text.{replace_char}
use rust_zap.Models.{Time}
use rust_zap.Persisted.{filled, keep_filled, collect_into, plain_key}

module _ {ℓ} {A : Type ℓ} (p : A → Bool) where
  pub retain_all : (xs : List A) → All (λ a. p a ≡ true) xs → retain p xs ≡ xs
  retain_all [] h = refl
  retain_all (x ∷ xs) h = rw (h.0) (ap (λ (r : List A). x ∷ r) (retain_all xs h.1))

  pub retain_none : (xs : List A) → All (λ a. p a ≡ false) xs → retain p xs ≡ []
  retain_none [] h = refl
  retain_none (x ∷ xs) h = rw (h.0) (retain_none xs h.1)

pub All-implies {ℓ κ μ} :
    {A : Type ℓ} (P : A → Type κ) (Q : A → Type μ)
    → ((a : A) → P a → Q a)
    → (xs : List A) → All P xs
    → All Q xs
All-implies P Q h [] k = tt
All-implies P Q h (x ∷ xs) k = (h x k.0, All-implies P Q h xs k.1)

pub All-entries {ℓ κ μ} :
    {K : Type ℓ} {V : Type κ} (P : V → Type μ) (d : Dict K V)
    → All P (values d)
    → All (λ (e : K × V). P e.1) d
All-entries P [] k = tt
All-entries P ((j, v) ∷ d) k = (k.0, All-entries P d k.1)

pub All-everywhere {ℓ κ} :
    {A : Type ℓ} (P : A → Type κ) → ((a : A) → P a) → (xs : List A) → All P xs
All-everywhere P h [] = tt
All-everywhere P h (x ∷ xs) = (h x, All-everywhere P h xs)

-- What is kept whole by a filter of what is good.
pub kept {ℓ κ} :
    {A : Type ℓ} (P : A → Type κ) (p : A → Bool)
    → ((a : A) → P a → p a ≡ true)
    → (xs : List A) → All P xs
    → retain p xs ≡ xs
kept P p h xs k = retain_all p xs (All-implies P (λ a. p a ≡ true) h xs k)

abbrev pub is_filled {ℓ} : {A : Type ℓ} → List A → Bool
is_filled [] = false
is_filled (x ∷ xs) = true

pub filled_whole {ℓ κ} :
    {A : Type ℓ} {B : Type κ} (key : A) (xs : List B)
    → is_filled xs ≡ true
    → filled key xs ≡ some (key, xs)
filled_whole key [] h = absurd (cc h)
filled_whole key (x ∷ xs) h = refl

pub kept_filled {ℓ κ} :
    {A : Type ℓ} {B : Type κ} (drops : A → Bool) (p : B → Bool) (d : List (A × List B))
    → All
        (λ (e : A × List B).
          (drops e.0 ≡ false) × All (λ b. p b ≡ true) e.1 × (is_filled e.1 ≡ true))
        d
    → filter_map (keep_filled drops p) d ≡ d
kept_filled drops p [] h = refl
kept_filled {A} {B} drops p ((key, xs) ∷ d) h = rw (h.0.0) (
    rw (retain_all p xs h.0.1) (
      rw (filled_whole key xs h.0.2)
        (ap (λ (r : List (A × List B)). (key, xs) ∷ r) (kept_filled drops p d h.1))))

module _ {ℓ κ} {K : Type ℓ} {V : Type κ} ⦃e : Eq K⦄ where
  absent-insert :
      (k : K) (v : V) (d : Dict K V) → is_in k (keys d) ≡ false → insert k v d ≡ d ++ (k, v) ∷ []
  unfolding insert
  absent-insert k v [] out = refl
  absent-insert k v ((j, w) ∷ d) out = ground (arith, absent-insert k v d)

  head_absent :
      (k : K) (v : V) (d r : Dict K V)
      → Distinct (keys (d ++ (k, v) ∷ r))
      → is_in k (keys d) ≡ false
  head_absent k v [] r h = refl
  head_absent k v ((j, w) ∷ d) r h =
      let apart : (j == k) ≡ false = beq_sym k j (not_in_append j k v d r h.0) in
      ground (arith, head_absent k v d r h.1)
    where
      not_in_append :
          (j k : K) (v : V) (d r : Dict K V)
          → is_in j (keys (d ++ (k, v) ∷ r)) ≡ false
          → (k == j) ≡ false
      not_in_append j k v [] r h = ground arith
      not_in_append j k v ((i, w) ∷ d) r h = ground (arith, not_in_append j k v d r)

  collect-append : (d r : Dict K V) → Distinct (keys (d ++ r)) → collect_into d r ≡ d ++ r
  unfolding collect_into
  collect-append d [] h = sym (append-nil d)
  collect-append d ((k, v) ∷ r) h = rw (absent-insert k v d (head_absent k v d r h)) (
      collect-append (d ++ (k, v) ∷ []) r
        (subst (λ (x : Dict K V). Distinct (keys x)) (sym (append_assoc d ((k, v) ∷ []) r)) h)
      ∙ append_assoc d ((k, v) ∷ []) r)

  -- A map whose keys differ is collected as it is.
  pub collect_whole : (d : Dict K V) → Distinct (keys d) → collect_into [] d ≡ d
  collect_whole d h = collect-append [] d h

pub plain_keys :
    (d : Dict String Time)
    → All (λ (e : String × Time). replace_char 0 "|" e.0 ≡ e.0) d
    → map plain_key d ≡ d
plain_keys [] h = refl
plain_keys ((key, at) ∷ d) h =
    ap (λ (k : String). (k, at) ∷ map plain_key d) h.0
    ∙ ap (λ (r : Dict String Time). (key, at) ∷ r) (plain_keys d h.1)

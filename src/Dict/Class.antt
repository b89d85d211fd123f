-- ===== src/Dict/Class.antt =====
-- Equality of keys as an instance argument: texts, and pairs, triples and quadruples of keys.
use text.Mathlib.Text.{◌==◌ as str_eq}
use text.Mathlib.TextEquality.{eq_iff}
use rust_zap.Prelude.{◌≡◌, ◌↔◌, Bool, true, ◌&&◌, String, ℕ, nat_eq, nat_eq_iff, arith}

pub record Eq {ℓ} (K : Type ℓ) : Type ℓ where
  pub beq : K → K → Bool
  pub beq_iff : (j k : K) → (beq j k ≡ true) ↔ (j ≡ k)

instance abbrev pub number_eq : Eq ℕ
number_eq = record { beq_iff = nat_eq_iff; beq = nat_eq }

instance abbrev pub string_eq : Eq String
string_eq = record { beq_iff = eq_iff; beq = str_eq }

infix 50 ◌==◌
abbrev pub ◌==◌ {ℓ} : {K : Type ℓ} ⦃keys : Eq K⦄ → K → K → Bool
◌==◌ ⦃keys⦄ = keys.beq

module _ {ℓ κ μ} {A : Type ℓ} {B : Type κ} {C : Type μ} ⦃a : Eq A⦄ ⦃b : Eq B⦄ ⦃c : Eq C⦄ where
  abbrev beq₃ : A × B × C → A × B × C → Bool
  beq₃ (x, y, z) (x', y', z') = a.beq x x' && (b.beq y y' && c.beq z z')

  pub beq₃_iff : (p q : A × B × C) → (beq₃ p q ≡ true) ↔ (p ≡ q)
  beq₃_iff (x, y, z) (x', y', z') = ground (arith, a.beq_iff x x', b.beq_iff y y', c.beq_iff z z')

  instance abbrev pub triple_eq : Eq (A × B × C)
  triple_eq = record { beq = beq₃; beq_iff = beq₃_iff }

module _ {ℓ κ μ ν} {A : Type ℓ} {B : Type κ} {C : Type μ} {D : Type ν} ⦃a : Eq A⦄ ⦃b : Eq B⦄
    ⦃c : Eq C⦄ ⦃d : Eq D⦄ where
  abbrev beq₄ : A × B × C × D → A × B × C × D → Bool
  beq₄ (x, y, z, u) (x', y', z', u') = a.beq x x' && (b.beq y y' && (c.beq z z' && d.beq u u'))

  pub beq₄_iff : (p q : A × B × C × D) → (beq₄ p q ≡ true) ↔ (p ≡ q)
  beq₄_iff (x, y, z, u) (x', y', z', u') =
      ground (arith, a.beq_iff x x', b.beq_iff y y', c.beq_iff z z', d.beq_iff u u')

  instance abbrev pub quadruple_eq : Eq (A × B × C × D)
  quadruple_eq = record { beq = beq₄; beq_iff = beq₄_iff }

module _ {ℓ κ} {A : Type ℓ} {B : Type κ} ⦃a : Eq A⦄ ⦃b : Eq B⦄ where
  abbrev beq₂ : A × B → A × B → Bool
  beq₂ (x, y) (x', y') = a.beq x x' && b.beq y y'

  pub beq₂_iff : (p q : A × B) → (beq₂ p q ≡ true) ↔ (p ≡ q)
  beq₂_iff (x, y) (x', y') = ground (arith, a.beq_iff x x', b.beq_iff y y')

  instance abbrev pub pair_eq : Eq (A × B)
  pair_eq = record { beq = beq₂; beq_iff = beq₂_iff }

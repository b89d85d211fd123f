-- ===== src/Dict.antt =====
-- Rust's `HashMap` as an association list. The order of the list is the order in which the map is
-- walked, which Rust leaves open: a theorem that holds for every list holds for every order.
mod Class
pub mod Laws
pub mod Distinct
pub mod Retain
pub use Class.*
use rust_zap.Prelude.{Bool, true, false, Option, none, some, List, [], ◌∷◌, is_some, if◌then◌else◌}

abbrev pub Dict {ℓ κ} : Type ℓ → Type κ → Type (ℓ ⊔ κ)
Dict K V = List (K × V)

module _ {ℓ κ} {K : Type ℓ} {V : Type κ} ⦃e : Eq K⦄ where
  unfoldable pub lookup : K → Dict K V → Option V
  lookup key [] = none
  lookup key ((held, value) ∷ rest) = if held == key then some value else lookup key rest

  abbrev pub contains_key : K → Dict K V → Bool
  contains_key k m = is_some (lookup k m)

  -- `insert`; a write through `get_mut` is an `insert` at a key that is there.
  unfoldable pub insert : K → V → Dict K V → Dict K V
  insert key new [] = (key, new) ∷ []
  insert key new ((held, value) ∷ rest) =
      if held == key then (held, new) ∷ rest else (held, value) ∷ insert key new rest

  unfoldable pub remove : K → Dict K V → Dict K V
  remove k [] = []
  remove k ((j, v) ∷ m) = if j == k then remove k m else (j, v) ∷ remove k m

  -- `entry(k).and_modify(f).or_insert(d)`
  unfoldable pub modify_or_insert : K → (V → V) → V → Dict K V → Dict K V
  modify_or_insert k f d [] = (k, d) ∷ []
  modify_or_insert k f d ((j, w) ∷ m) =
      if j == k then (j, f w) ∷ m else (j, w) ∷ modify_or_insert k f d m

module _ {ℓ κ} {K : Type ℓ} {V : Type κ} where
  abbrev pub keys : Dict K V → List K
  keys [] = []
  keys ((k, v) ∷ m) = k ∷ keys m

  abbrev pub values : Dict K V → List V
  values [] = []
  values ((k, v) ∷ m) = v ∷ values m

  -- `values_mut` with a change to each
  abbrev pub map_values : (V → V) → Dict K V → Dict K V
  map_values f [] = []
  map_values f ((k, v) ∷ m) = (k, f v) ∷ map_values f m

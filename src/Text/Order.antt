-- ===== src/Text/Order.antt =====
-- Lists of texts in their order, as the code sorts them and as a `BTreeSet` holds them.
use Prim.Native.String.{compare}
use text.Mathlib.Text.{is_le}
use rust_zap.Prelude.{
  String, ◌≡◌, refl, ◌∙◌, ap, Bool, ◌||◌, List, [], ◌∷◌, if◌then◌else◌, Bool-cases, inl, inr, arith,
}
use rust_zap.Dict.Distinct.{is_in}
use rust_zap.Dict.{◌==◌, string_eq}

insert_text : String → List String → List String
insert_text a [] = a ∷ []
insert_text a (b ∷ r) = if is_le (compare a b) then a ∷ b ∷ r else b ∷ insert_text a r

-- `sort`
unfoldable pub sort_texts : List String → List String
unfolding insert_text
sort_texts [] = []
sort_texts (a ∷ r) = insert_text a (sort_texts r)

-- `dedup`, which drops an item equal to the one before it.
dedup_after : String → List String → List String
dedup_after a [] = []
dedup_after a (b ∷ r) = if a == b then dedup_after a r else b ∷ dedup_after b r

unfoldable pub dedup : List String → List String
unfolding dedup_after
dedup [] = []
dedup (a ∷ r) = a ∷ dedup_after a r

-- Sorting keeps the texts of a list, and so does dropping repeats.
is_in-insert_text :
    (t a : String) (r : List String) → is_in t (insert_text a r) ≡ (a == t || is_in t r)
unfolding insert_text
is_in-insert_text t a [] = refl
is_in-insert_text t a (b ∷ r) = let later = is_in-insert_text t a r in ground (arith, later)

is_in-sort_texts : (t : String) (r : List String) → is_in t (sort_texts r) ≡ is_in t r
unfolding sort_texts
is_in-sort_texts t [] = refl
is_in-sort_texts t (a ∷ r) =
    is_in-insert_text t a (sort_texts r) ∙ ap (λ (b : Bool). a == t || b) (is_in-sort_texts t r)

is_in-dedup_after :
    (t a : String) (r : List String) → (a == t || is_in t (dedup_after a r)) ≡ (a == t || is_in t r)
unfolding dedup_after
is_in-dedup_after t a [] = refl
is_in-dedup_after t a (b ∷ r) = elim (Bool-cases (a == b)) [
  | inl same ↦
      let e : a ≡ b = (string_eq.beq_iff a b).0 same in
      rw same (rw (← e) (is_in-dedup_after t a r ∙ twice (a == t) (is_in t r)))
  | inr other ↦ rw other (ap (λ (x : Bool). a == t || x) (is_in-dedup_after t b r))
]
  where
    twice : (x y : Bool) → (x || y) ≡ (x || (x || y))
    twice x y = ground arith

pub is_in-sorted : (t : String) (r : List String) → is_in t (dedup (sort_texts r)) ≡ is_in t r
unfolding dedup
is_in-sorted t r = deduped (sort_texts r) ∙ is_in-sort_texts t r
  where
    deduped : (s : List String) → is_in t (dedup s) ≡ is_in t s
    deduped [] = refl
    deduped (a ∷ s) = is_in-dedup_after t a s

-- ===== src/Dirty/Leases.antt =====
-- src/state.rs: which items `list_dirty` hands out, how many, and in which order.
use rust_zap.Prelude.{
  ℕ, suc, ◌+◌, ◌≤◌, ◌<◌, ◌≡◌, refl, max, true, false, String, subst, ◌⊎◌, List, [], ◌∷◌, ◌++◌,
  arith, inl, inr, Bool-cases, All, length, length-append,
}
use rust_zap.Prelude.Int.{ℤ, ◌<ℤ◌}
use rust_zap.Dict.{Dict, triple_eq, quadruple_eq, string_eq}
use rust_zap.Models.{Time, DirtyConversationItem}
use rust_zap.Store.{StoreInner, DirtyRecord, Key₃, Key₄}
use rust_zap.Dirty.{
  Leasing, list_dirty, gather, lease_loop, add_lease, is_leasable, is_full, sort_items, insert_item,
  comes_first, processed_seq,
}

-- Most urgent first: each item may stand before the next.
abbrev pub Leads : DirtyConversationItem → List DirtyConversationItem → Type 0
Leads a [] = Unit
Leads a (b ∷ r) = comes_first a b ≡ true

abbrev pub IsSorted : List DirtyConversationItem → Type 0
IsSorted [] = Unit
IsSorted (a ∷ r) = Leads a r × IsSorted r

comes_first_total : (a b : DirtyConversationItem) → comes_first a b ≡ false → comes_first b a ≡ true
comes_first_total a b h = ground arith

insert_item-Leads :
    (b a : DirtyConversationItem) (r : List DirtyConversationItem)
    → Leads b r
    → comes_first b a ≡ true
    → Leads b (insert_item a r)
unfolding insert_item
insert_item-Leads b a [] h k = k
insert_item-Leads b a (d ∷ r) h k = elim (Bool-cases (comes_first a d)) [
  | inl before ↦ rw before k
  | inr after ↦ rw after h
]

insert_item-IsSorted :
    (a : DirtyConversationItem) (r : List DirtyConversationItem)
    → IsSorted r
    → IsSorted (insert_item a r)
unfolding insert_item
insert_item-IsSorted a [] h = (tt, tt)
insert_item-IsSorted a (b ∷ r) h = elim (Bool-cases (comes_first a b)) [
  | inl before ↦ rw before (before, h)
  | inr after ↦
      rw after
        (insert_item-Leads b a r h.0 (comes_first_total a b after), insert_item-IsSorted a r h.1)
]

sort_items-IsSorted : (r : List DirtyConversationItem) → IsSorted (sort_items r)
unfolding sort_items
sort_items-IsSorted [] = tt
sort_items-IsSorted (a ∷ r) = insert_item-IsSorted a (sort_items r) (sort_items-IsSorted r)

length-insert_item :
    (a : DirtyConversationItem) (r : List DirtyConversationItem)
    → length (insert_item a r) ≡ suc (length r)
unfolding insert_item
length-insert_item a [] = refl
length-insert_item a (b ∷ r) = ground (arith, length-insert_item a r)

length-sort_items : (r : List DirtyConversationItem) → length (sort_items r) ≡ length r
unfolding sort_items
length-sort_items [] = refl
length-sort_items (a ∷ r) = omega (arith, length-insert_item a (sort_items r), length-sort_items r)

module _ (P : DirtyConversationItem → Type 0) where
  insert_item-All :
      (a : DirtyConversationItem) (r : List DirtyConversationItem)
      → P a
      → All P r
      → All P (insert_item a r)
  unfolding insert_item
  insert_item-All a [] h k = (h, tt)
  insert_item-All a (b ∷ r) h k = elim (Bool-cases (comes_first a b)) [
    | inl before ↦ rw before (h, k)
    | inr after ↦ rw after (k.0, insert_item-All a r h k.1)
  ]

  sort_items-All : (r : List DirtyConversationItem) → All P r → All P (sort_items r)
  unfolding sort_items
  sort_items-All [] h = tt
  sort_items-All (a ∷ r) h = insert_item-All a (sort_items r) h.0 (sort_items-All r h.1)

  append-All :
      (r : List DirtyConversationItem) (a : DirtyConversationItem)
      → All P r
      → P a
      → All P (r ++ a ∷ [])
  append-All [] a h k = (k, tt)
  append-All (b ∷ r) a h k = (h.0, append-All r a h.1 k)

-- Every dirty record stands under its own conversation.
abbrev pub IsKeyed : Dict Key₃ DirtyRecord → Type 0
IsKeyed = All (λ e. e.0.2 ≡ e.1.conversation_id)

module _ (p c x : String) where
  pub length-add_lease :
      (state : Dict Key₄ ℤ) (now : Time) (t : String) (e : Key₃ × DirtyRecord) (acc : Leasing)
      → length (add_lease p c x state now t e acc).items ≡ suc (length acc.items)
  unfolding add_lease
  length-add_lease state now t e acc = omega (arith, length-append {0} acc.items)

pub not_full-lt : (limit : ℕ) (acc : Leasing) → is_full limit acc ≡ false → length acc.items < limit
unfolding is_full
not_full-lt limit acc h = ground arith

-- An entry stands in a map.
abbrev pub Stands : Key₃ × DirtyRecord → Dict Key₃ DirtyRecord → Type 0
Stands e [] = ⊥
Stands e (x ∷ m) = (e ≡ x) ⊎ Stands e m

Stands-later :
    (m n : Dict Key₃ DirtyRecord) (x : Key₃ × DirtyRecord)
    → All (λ e. Stands e m) n
    → All (λ e. Stands e (x ∷ m)) n
Stands-later m [] x h = tt
Stands-later m (e ∷ n) x h = (inr h.0, Stands-later m n x h.1)

all-Stands : (m : Dict Key₃ DirtyRecord) → All (λ e. Stands e m) m
all-Stands [] = tt
all-Stands (x ∷ m) = (inl refl, Stands-later m m x (all-Stands m))

-- An item shows what a record says.
abbrev pub Tells : DirtyConversationItem → DirtyRecord → Type 0
Tells i d =
    (i.max_seq ≡ d.max_seq)
    × (i.reason ≡ d.reason)
    × (i.priority ≡ d.priority)
    × (i.available_at ≡ d.available_at)

module _ (p c x : String) (state : Dict Key₄ ℤ) (now : Time) (dirty : Dict Key₃ DirtyRecord) where
  -- An item that tells of a dirty record of the company's, one that stands under the item's
  -- conversation and that the consumer has not processed, leased for a minute from now.
  abbrev pub IsDue : DirtyConversationItem → Type 0
  IsDue i =
      (d : DirtyRecord) × Stands ((p, c, i.conversation_id), d) dirty
      × Tells i d
      × (processed_seq state (p, c, x, i.conversation_id) <ℤ d.max_seq)
      × (i.locked_until ≡ now + 60000000000)

  is_leasable-own :
      (p' c' v : String) (d : DirtyRecord)
      → is_leasable p c x state ((p', c', v), d) ≡ true
      → (p' ≡ p) × (c' ≡ c) × (processed_seq state (p, c, x, v) <ℤ d.max_seq)
  unfolding is_leasable
  is_leasable-own p' c' v d h = ground (arith, string_eq.beq_iff p' p, string_eq.beq_iff c' c)

  add_lease-IsDue :
      (e : Key₃ × DirtyRecord) (t : String) (acc : Leasing)
      → is_leasable p c x state e ≡ true
      → e.0.2 ≡ e.1.conversation_id
      → Stands e dirty
      → All IsDue acc.items
      → All IsDue (add_lease p c x state now t e acc).items
  unfolding add_lease
  add_lease-IsDue ((p', c', v), d) t acc h keyed stands due =
      let (project, company, behind) = is_leasable-own p' c' v d h in
      let same : ((p', c', v), d) ≡ ((p, c, d.conversation_id), d) = cc (project, company, keyed) in
      append-All IsDue acc.items _ due (
        d,
        subst (λ e. Stands e dirty) same stands,
        (refl, refl, refl, refl),
        subst (λ w. processed_seq state (p, c, x, w) <ℤ d.max_seq) keyed behind,
        refl,
      )

module _ (p c x : String) (state : Dict Key₄ ℤ) (now : Time) (token : ℕ → String) (limit : ℕ) where
  loop-length :
      (m : Dict Key₃ DirtyRecord) (acc : Leasing)
      → length acc.items < max 1 limit
      → length (lease_loop p c x state now token limit m acc).items ≤ max 1 limit
  unfolding lease_loop
  loop-length [] acc h = omega arith
  loop-length (e ∷ m) acc h = elim (Bool-cases (is_leasable p c x state e)) [
    | inr skip ↦ rw (skip, lease_loop) (loop-length m acc h)
    | inl take_it ↦
        let acc' = add_lease p c x state now (token (length acc.items)) e acc in
        let grown = length-add_lease p c x state now (token (length acc.items)) e acc in
        elim (Bool-cases (is_full limit acc')) [
          | inl full ↦ rw (take_it, lease_loop) (rw full (omega (arith, grown)))
          | inr room ↦
              rw (take_it, lease_loop)
                (rw room (loop-length m acc' (omega (arith, not_full-lt limit acc' room))))
        ]
  ]

  loop-IsDue :
      (dirty m : Dict Key₃ DirtyRecord) (acc : Leasing)
      → IsKeyed m
      → All (λ e. Stands e dirty) m
      → All (IsDue p c x state now dirty) acc.items
      → All (IsDue p c x state now dirty) (lease_loop p c x state now token limit m acc).items
  unfolding lease_loop
  loop-IsDue dirty [] acc keyed here h = h
  loop-IsDue dirty (e ∷ m) acc keyed here h = elim (Bool-cases (is_leasable p c x state e)) [
    | inr skip ↦ rw (skip, lease_loop) (loop-IsDue dirty m acc keyed.1 here.1 h)
    | inl take_it ↦
        let acc' = add_lease p c x state now (token (length acc.items)) e acc in
        let due =
          add_lease-IsDue p c x state now dirty e (token (length acc.items)) acc take_it keyed.0
            here.0 h in
        elim (Bool-cases (is_full limit acc')) [
          | inl full ↦ rw (take_it, lease_loop) (rw full due)
          | inr room ↦
              rw (take_it, lease_loop) (rw room (loop-IsDue dirty m acc' keyed.1 here.1 due))
        ]
  ]

-- While every dirty record stands under its own conversation, every item that `list_dirty` returns
-- tells of a dirty record of the asking project and company that the consumer has not processed, and
-- is leased for a minute; there are at most `limit` items, or one if `limit` is 0; and the most
-- urgent stand first.
pub list_dirty_lem :
    (p c x : String) (limit : ℕ) (now : Time) (token : ℕ → String) (s : StoreInner)
    → IsKeyed s.dirty
    → let items = (list_dirty p c x limit now token s).1 in
      All (IsDue p c x s.consumer_state now s.dirty) items
      × (length items ≤ max 1 limit)
      × IsSorted items
unfolding list_dirty gather
list_dirty_lem p c x limit now token s keyed =
    let acc : Leasing = record { leases = []; consumer_entries = []; items = [] } in
    let got = lease_loop p c x s.consumer_state now token limit s.dirty acc in
    (
      sort_items-All (IsDue p c x s.consumer_state now s.dirty) got.items (
          loop-IsDue p c x s.consumer_state now token limit s.dirty s.dirty acc keyed
            (all-Stands s.dirty) tt),
      omega (
        arith,
        length-sort_items got.items,
        loop-length p c x s.consumer_state now token limit s.dirty acc (omega arith),
      ),
      sort_items-IsSorted got.items,
    )

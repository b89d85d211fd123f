-- ===== src/Dirty/Listed.antt =====
-- src/state.rs: the list of `list_dirty` and a conversation that the asking consumer owes.
use rust_zap.Prelude.{
  ℕ, suc, ◌+◌, ◌≤◌, ◌≡◌, refl, ◌∙◌, Bool, true, ◌&&◌, ◌||◌, some, String, List, [], ◌∷◌, ◌++◌,
  arith, inl, inr, Bool-cases, length, any,
}
use rust_zap.Prelude.Int.{ℤ, leb_ℤ, le→leb_ℤ}
use rust_zap.Dict.{Dict, ◌==◌, lookup, triple_eq, quadruple_eq, string_eq}
use rust_zap.Dict.Laws.{beq_refl}
use rust_zap.Models.{Time, DirtyConversationItem}
use rust_zap.Store.{StoreInner, DirtyRecord, Key₃, Key₄}
use rust_zap.Dirty.{
  Leasing, list_dirty, gather, lease_loop, add_lease, is_leasable, is_full, sort_items, insert_item,
}
use rust_zap.Dirty.Leases.{length-add_lease, IsKeyed}
use rust_zap.Dirty.NoLoss.{Owes, Steps, Steps-Owes}

lookup-length :
    (k : Key₃) (m : Dict Key₃ DirtyRecord) (d : DirtyRecord)
    → lookup k m ≡ some d
    → suc 0 ≤ length m
unfolding lookup
lookup-length k [] d h = absurd (cc h)
lookup-length k (e ∷ m) d h = omega arith

keyed_at :
    (k : Key₃) (m : Dict Key₃ DirtyRecord) (d : DirtyRecord)
    → IsKeyed m
    → lookup k m ≡ some d
    → k.2 ≡ d.conversation_id
unfolding lookup
keyed_at k [] d h at = absurd (cc at)
keyed_at k ((j, e) ∷ m) d h at = elim (Bool-cases (triple_eq.beq j k)) [
  | inl same ↦
      let here : j ≡ k = (triple_eq.beq_iff j k).0 same in
      let that : e ≡ d = ground arith in rw (← here, ← that) h.0
  | inr other ↦ keyed_at k m d h.1 (ground arith)
]

full-le : (limit : ℕ) (acc : Leasing) → is_full limit acc ≡ true → limit ≤ length acc.items
unfolding is_full
full-le limit acc h = ground arith

module _ (P : DirtyConversationItem → Bool) where
  any-append :
      (r : List DirtyConversationItem) (a : DirtyConversationItem)
      → any P (r ++ a ∷ []) ≡ (any P r || P a)
  any-append [] a = ground arith
  any-append (b ∷ r) a = ground (arith, any-append r a)

  any-insert_item :
      (a : DirtyConversationItem) (r : List DirtyConversationItem)
      → any P (insert_item a r) ≡ (P a || any P r)
  unfolding insert_item
  any-insert_item a [] = refl
  any-insert_item a (b ∷ r) = ground (arith, any-insert_item a r)

  any-sort_items : (r : List DirtyConversationItem) → any P (sort_items r) ≡ any P r
  unfolding sort_items
  any-sort_items [] = refl
  any-sort_items (a ∷ r) = ground (arith, any-insert_item a (sort_items r), any-sort_items r)

-- An item is about the conversation, from `q` on.
abbrev pub is_about : String → ℤ → DirtyConversationItem → Bool
is_about v q i = i.conversation_id == v && leb_ℤ q i.max_seq

module _ (p c x : String) (state : Dict Key₄ ℤ) (now : Time) (token : ℕ → String) (limit : ℕ)
    (v : String) (q : ℤ) where
  any-add_lease :
      (t : String) (e : Key₃ × DirtyRecord) (acc : Leasing)
      → any (is_about v q) (add_lease p c x state now t e acc).items
        ≡ (any (is_about v q) acc.items || (e.1.conversation_id == v && leb_ℤ q e.1.max_seq))
  unfolding add_lease
  any-add_lease t e acc = any-append (is_about v q) acc.items _

  loop-keeps :
      (m : Dict Key₃ DirtyRecord) (acc : Leasing)
      → any (is_about v q) acc.items ≡ true
      → any (is_about v q) (lease_loop p c x state now token limit m acc).items ≡ true
  unfolding lease_loop
  loop-keeps [] acc h = h
  loop-keeps (e ∷ m) acc h = elim (Bool-cases (is_leasable p c x state e)) [
    | inr skip ↦ rw (skip, lease_loop) (loop-keeps m acc h)
    | inl take_it ↦
        let acc' = add_lease p c x state now (token (length acc.items)) e acc in
        let kept : any (is_about v q) acc'.items ≡ true =
          ground (arith, any-add_lease (token (length acc.items)) e acc) in
        elim (Bool-cases (is_full limit acc')) [
          | inl full ↦ rw (take_it, lease_loop) (rw full kept)
          | inr room ↦ rw (take_it, lease_loop) (rw room (loop-keeps m acc' kept))
        ]
  ]

  loop-adds :
      (e : Key₃ × DirtyRecord) (m : Dict Key₃ DirtyRecord) (acc : Leasing)
      → is_leasable p c x state e ≡ true
      → (e.1.conversation_id == v && leb_ℤ q e.1.max_seq) ≡ true
      → any (is_about v q) (lease_loop p c x state now token limit (e ∷ m) acc).items ≡ true
  unfolding lease_loop
  loop-adds e m acc due about =
      let acc' = add_lease p c x state now (token (length acc.items)) e acc in
      let there : any (is_about v q) acc'.items ≡ true =
        ground (arith, any-add_lease (token (length acc.items)) e acc) in
      elim (Bool-cases (is_full limit acc')) [
        | inl full ↦ rw (due, lease_loop) (rw full there)
        | inr room ↦ rw (due, lease_loop) (rw room (loop-keeps m acc' there))
      ]

  -- A due record that stands in the map is reached if the list has room for all that stand in it.
  loop-lists :
      (d : DirtyRecord) (m : Dict Key₃ DirtyRecord) (acc : Leasing)
      → lookup (p, c, v) m ≡ some d
      → is_leasable p c x state ((p, c, v), d) ≡ true
      → (d.conversation_id == v && leb_ℤ q d.max_seq) ≡ true
      → length acc.items + length m ≤ limit
      → any (is_about v q) (lease_loop p c x state now token limit m acc).items ≡ true
  unfolding lease_loop lookup is_full
  loop-lists d [] acc at due about room = absurd (cc at)
  loop-lists d ((k, e) ∷ m) acc at due about room = elim (Bool-cases (triple_eq.beq k (p, c, v))) [
    | inl same ↦
        let here : k ≡ (p, c, v) = (triple_eq.beq_iff k (p, c, v)).0 same in
        let that : e ≡ d = ground arith in
        loop-adds (k, e) m acc (rw (here, that) due) (rw that about)
    | inr other ↦
        let later : lookup (p, c, v) m ≡ some d = ground arith in
        elim (Bool-cases (is_leasable p c x state (k, e))) [
          | inr skip ↦ rw (skip, lease_loop) (loop-lists d m acc later due about (omega arith))
          | inl take_it ↦
              let acc' = add_lease p c x state now (token (length acc.items)) (k, e) acc in
              let grown = length-add_lease p c x state now (token (length acc.items)) (k, e) acc in
              elim (Bool-cases (is_full limit acc')) [
                | inr more ↦
                    rw (take_it, lease_loop)
                      (rw more (loop-lists d m acc' later due about (omega (arith, grown))))
                | inl full ↦
                    let more = lookup-length (p, c, v) m d later in
                    let over = full-le limit acc' full in absurd (omega (arith, grown, more, over))
              ]
        ]
  ]

module _ (p c v x : String) (q : ℤ) where
  -- A consumer that owes a sequence number is due the conversation.
  Owes-is_leasable :
      (s : StoreInner) (o : Owes p c v x q s)
      → is_leasable p c x s.consumer_state ((p, c, v), o.mark) ≡ true
  unfolding is_leasable
  Owes-is_leasable s o =
      let known = o.registered in
      rw known (rw (beq_refl p, beq_refl c) (ground (arith, o.covers, o.behind)))

  -- While a consumer owes the sequence number `q` of a conversation, and whatever marks, leases and
  -- acks have come since, an ack of its own up to `q` left out, a list with room for every dirty
  -- record holds the conversation, up to a sequence number that is at least `q`.
  pub list_dirty_owed :
      (limit : ℕ) (now : Time) (token : ℕ → String) (s t : StoreInner)
      → Owes p c v x q s
      → Steps p c v x q s t
      → IsKeyed t.dirty
      → length t.dirty ≤ limit
      → any (is_about v q) (list_dirty p c x limit now token t).1 ≡ true
  unfolding list_dirty gather
  list_dirty_owed limit now token s t o steps keyed room =
      let o' = Steps-Owes p c v x q steps o in
      let got = gather p c x limit now token t in
      let named : v ≡ o'.mark.conversation_id =
        keyed_at (p, c, v) t.dirty o'.mark keyed o'.marked in
      let about : (o'.mark.conversation_id == v && leb_ℤ q o'.mark.max_seq) ≡ true =
        rw (← named, beq_refl v, le→leb_ℤ q o'.mark.max_seq o'.covers) refl in
      any-sort_items (is_about v q) got.items
      ∙ loop-lists p c x t.consumer_state now token limit v q o'.mark t.dirty
          (record { leases = []; consumer_entries = []; items = [] }) o'.marked
          (Owes-is_leasable t o') about (omega arith)

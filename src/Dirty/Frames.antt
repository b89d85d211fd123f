-- ===== src/Dirty/Frames.antt =====
-- What each operation on dirty conversations leaves alone, and what `all_consumers_done` says of one
-- consumer.
use rust_zap.Prelude.{
  ◌&&◌, ◌≡◌, refl, Bool, true, false, some, List, [], ◌∷◌, String, arith, inl, inr, Bool-cases,
  Option-cases, ltb,
}
use rust_zap.Prelude.Int.{ℤ, leb_ℤ, ◌≤ℤ◌}
use text.Mathlib.TextEquality.{eq_iff}
use rust_zap.Dict.{
  Dict, Eq, insert, ◌==◌, lookup, modify_or_insert, quadruple_eq, triple_eq, string_eq,
}
use rust_zap.Dict.Laws.{lookup-modify_or_insert}
use rust_zap.Error.{Result, ApiError, err}
use rust_zap.Models.{Time, DirtyAckRequest}
use rust_zap.Store.{Key₄, StoreInner, DirtyRecord, DirtyLeaseRecord}
use rust_zap.Dirty.{Acked, all_consumers_done, register_consumers, settle, ack_dirty}

module _ {ℓ κ} {K : Type ℓ} {V : Type κ} ⦃e : Eq K⦄ where
  -- `entry(k).or_insert(d)` keeps what is there.
  pub lookup-or_insert_kept :
      (k j : K) (d v : V) (m : Dict K V)
      → lookup j m ≡ some v
      → lookup j (modify_or_insert k (λ old. old) d m) ≡ some v
  lookup-or_insert_kept k j d v m h = elim (Bool-cases (k == j)) [
    | inl same ↦
        let at_k : lookup k m ≡ some v = rw ((e.beq_iff k j).0 same) h in
        rw (lookup-modify_or_insert k j (λ old. old) d m) (rw same (rw at_k))
    | inr other ↦ rw (lookup-modify_or_insert k j (λ old. old) d m) (rw other h)
  ]

pub lookup-register_consumers :
    (r : List (Key₄ × ℤ)) (k : Key₄) (n : ℤ) (m : Dict Key₄ ℤ)
    → lookup k m ≡ some n
    → lookup k (register_consumers r m) ≡ some n
unfolding register_consumers
lookup-register_consumers [] k n m h = h
lookup-register_consumers ((j, d) ∷ r) k n m h =
    lookup-register_consumers r k n (modify_or_insert j (λ old. old) d m)
      (lookup-or_insert_kept j k d n m h)

-- If all registered consumers of a conversation are done, each of them is.
pub all_consumers_done-one :
    (p c v x : String) (max_seq n : ℤ) (m : Dict Key₄ ℤ)
    → all_consumers_done p c v max_seq m ≡ true
    → lookup (p, c, x, v) m ≡ some n
    → max_seq ≤ℤ n
unfolding lookup
all_consumers_done-one p c v x max_seq n [] done h = cc
all_consumers_done-one p c v x max_seq n (((p', c', x', v'), n') ∷ m) done h = ground (
  arith,
  eq_iff p' p,
  eq_iff c' c,
  eq_iff v' v,
  eq_iff x' x,
  all_consumers_done-one p c v x max_seq n m,
)

-- The two ways in which `ack_dirty` ends: refused with the state untouched, or settled.
pub data AckView (p c v : String) (r : DirtyAckRequest) (now : Time) (s : StoreInner)
    : Result Acked × StoreInner → Type 0 where
  refused : (e : ApiError) → AckView p c v r now s (err e, s)
  accepted :
      (d : DirtyRecord) (l : DirtyLeaseRecord)
      → lookup (p, c, v) s.dirty ≡ some d
      → lookup (p, c, r.consumer_id, v) s.dirty_leases ≡ some l
      → (l.lease_token == r.lease_token) ≡ true
      → ltb l.locked_until now ≡ false
      → AckView p c v r now s (settle (p, c, v) (p, c, r.consumer_id, v) d r.processed_until_seq s)

leased-view :
    (p c v : String) (r : DirtyAckRequest) (now : Time) (s : StoreInner) (d : DirtyRecord)
    (l : DirtyLeaseRecord)
    → lookup (p, c, v) s.dirty ≡ some d
    → lookup (p, c, r.consumer_id, v) s.dirty_leases ≡ some l
    → (held fresh : Bool) → (l.lease_token == r.lease_token) ≡ held
    → ltb l.locked_until now ≡ fresh
    → AckView p c v r now s (ack_dirty p c v r now s)
unfolding ack_dirty
leased-view p c v r now s d l hd hl false f eh ef =
    rw (hd, ack_dirty) (rw hl (rw eh (AckView.refused _)))
leased-view p c v r now s d l hd hl true true eh ef =
    rw (hd, ack_dirty) (rw hl (rw eh (rw ef (AckView.refused _))))
leased-view p c v r now s d l hd hl true false eh ef =
    rw (hd, ack_dirty) (rw hl (rw eh (rw ef (AckView.accepted d l hd hl eh ef))))

pub ack_dirty-view :
    (p c v : String) (r : DirtyAckRequest) (now : Time) (s : StoreInner)
    → AckView p c v r now s (ack_dirty p c v r now s)
unfolding ack_dirty
ack_dirty-view p c v r now s = elim (Option-cases (lookup (p, c, v) s.dirty)) [
  | inl gone ↦ rw (gone, ack_dirty) (AckView.refused _)
  | inr (d, hd) ↦ elim (Option-cases (lookup (p, c, r.consumer_id, v) s.dirty_leases)) [
    | inl gone ↦ rw (hd, ack_dirty) (rw gone (AckView.refused _))
    | inr (l, hl) ↦ leased-view p c v r now s d l hd hl _ _ refl refl
  ]
]

-- An acknowledgement is no change to the messages.
ack-by_id :
    (p c v : String) (r : DirtyAckRequest) (now : Time) (s : StoreInner)
    (out : Result Acked × StoreInner)
    → AckView p c v r now s out
    → out.1.messages_by_id ≡ s.messages_by_id
unfolding settle
ack-by_id p c v r now s _ (AckView.refused e) = refl
ack-by_id p c v r now s _ (AckView.accepted d l hd hl eh ef) =
    let consumers =
      insert {K = Key₄} (p, c, r.consumer_id, v) r.processed_until_seq s.consumer_state in
    elim (Bool-cases
      (leb_ℤ d.max_seq r.processed_until_seq && all_consumers_done p c v d.max_seq consumers)) [
        | inl both ↦ rw (both, settle) refl
        | inr either ↦ rw (either, settle) refl
      ]

pub ack_dirty-messages :
    (p c v : String) (r : DirtyAckRequest) (now : Time) (s : StoreInner)
    → (ack_dirty p c v r now s).1.messages_by_id ≡ s.messages_by_id
ack_dirty-messages p c v r now s =
    ack-by_id p c v r now s (ack_dirty p c v r now s) (ack_dirty-view p c v r now s)

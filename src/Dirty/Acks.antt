-- ===== src/Dirty/Acks.antt =====
-- src/state.rs: what `ack_dirty` replies and leaves, by its branches.
use rust_zap.Prelude.{
  ◌≡◌, refl, true, ◌&&◌, some, none, String, arith, inl, inr, Bool-cases, is_some_and,
}
use rust_zap.Prelude.Int.{ℤ, leb_ℤ}
use rust_zap.Dict.{Dict, lookup, insert, remove, triple_eq, quadruple_eq, string_eq}
use rust_zap.Dict.Laws.{lookup-remove, lookup-insert_self, beq_refl}
use rust_zap.Error.{Result, ApiError, ok, err}
use rust_zap.Models.{Time, DirtyAckRequest}
use rust_zap.Store.{StoreInner, DirtyRecord, DirtyLeaseRecord, Key₃, Key₄}
use rust_zap.Dirty.{Acked, clean, still_dirty, ack_dirty, settle, all_consumers_done}
use rust_zap.Dirty.Frames.{AckView, ack_dirty-view}

module _ (p c v : String) (r : DirtyAckRequest) where
  lookup-removed : (k : Key₄) (m : Dict Key₄ DirtyLeaseRecord) → lookup k (remove k m) ≡ none
  lookup-removed k m = rw (lookup-remove k k m) (rw (beq_refl k))

  dirty-removed : (k : Key₃) (m : Dict Key₃ DirtyRecord) → lookup k (remove k m) ≡ none
  dirty-removed k m = rw (lookup-remove k k m) (rw (beq_refl k))

  -- What an ack has done, by its reply.
  abbrev pub Replies : StoreInner → Result Acked × StoreInner → Type 0
  Replies s (err e, t) = t ≡ s
  Replies s (ok clean, t) =
      (lookup (p, c, v) t.dirty ≡ none)
      × (is_some_and (lookup (p, c, v) s.dirty)
            (λ d. all_consumers_done p c v d.max_seq t.consumer_state)
          ≡ true)
      × (lookup (p, c, r.consumer_id, v) t.dirty_leases ≡ none)
  Replies s (ok (still_dirty m), t) =
      (t.dirty ≡ s.dirty)
      × (lookup (p, c, r.consumer_id, v) t.consumer_state ≡ some r.processed_until_seq)
      × (lookup (p, c, r.consumer_id, v) t.dirty_leases ≡ none)

  settle-Replies :
      (d : DirtyRecord) (s : StoreInner)
      → lookup (p, c, v) s.dirty ≡ some d
      → Replies s (settle (p, c, v) (p, c, r.consumer_id, v) d r.processed_until_seq s)
  unfolding settle
  settle-Replies d s h =
      let k : Key₄ = (p, c, r.consumer_id, v) in
      let consumers = insert k r.processed_until_seq s.consumer_state in
      elim (Bool-cases
        (leb_ℤ d.max_seq r.processed_until_seq && all_consumers_done p c v d.max_seq consumers)) [
          | inl yes_all ↦
              let all_done : all_consumers_done p c v d.max_seq consumers ≡ true = ground arith in
              rw yes_all
                (dirty-removed (p, c, v) s.dirty, rw h all_done, lookup-removed k s.dirty_leases)
          | inr not_all ↦ rw not_all (
            refl,
            lookup-insert_self k r.processed_until_seq s.consumer_state,
            lookup-removed k s.dirty_leases,
          )
        ]

  view-Replies :
      (now : Time) (s : StoreInner) {out : Result Acked × StoreInner}
      → AckView p c v r now s out
      → Replies s out
  view-Replies now s (AckView.refused e) = refl
  view-Replies now s (AckView.accepted d l hd hl eh ef) = settle-Replies d s hd

  -- An ack that is refused changes nothing. One that replies "not dirty" has taken the flag down,
  -- and every consumer registered for the conversation had reached the flag's sequence number. One
  -- that replies "still dirty" has left all flags and recorded how far the consumer has come. Either
  -- way the consumer's lease is gone.
  pub ack_dirty-Replies : (now : Time) (s : StoreInner) → Replies s (ack_dirty p c v r now s)
  ack_dirty-Replies now s = view-Replies now s (ack_dirty-view p c v r now s)

  lease_gone :
      (s : StoreInner) (out : Result Acked × StoreInner) {a : Acked}
      → out.0 ≡ ok a
      → Replies s out
      → lookup (p, c, r.consumer_id, v) out.1.dirty_leases ≡ none
  lease_gone s (err e, t) h w = cc
  lease_gone s (ok clean, t) h w = w.2
  lease_gone s (ok (still_dirty m), t) h w = w.2

  no_lease :
      (r' : DirtyAckRequest) (now : Time) (s : StoreInner) {out : Result Acked × StoreInner}
      → lookup (p, c, r'.consumer_id, v) s.dirty_leases ≡ none
      → AckView p c v r' now s out
      → (e : ApiError) × (out ≡ (err e, s))
  no_lease r' now s h (AckView.refused e) = (e, refl)
  no_lease r' now s h (AckView.accepted d l hd hl eh ef) = absurd (cc (hl))

  -- A lease is good for one ack: after an ack that was accepted, the same consumer's next ack of
  -- the conversation, with any token and at any time, is refused and changes nothing.
  pub ack_dirty_once :
      (token : String) (n : ℤ) (now later : Time) (s : StoreInner) {a : Acked}
      → (ack_dirty p c v r now s).0 ≡ ok a
      → let s' = (ack_dirty p c v r now s).1 in
        let again =
          ack_dirty p c v
            (record { consumer_id = r.consumer_id; processed_until_seq = n; lease_token = token })
            later
            s' in
        (e : ApiError) × (again ≡ (err e, s'))
  ack_dirty_once token n now later s h =
      let s' = (ack_dirty p c v r now s).1 in
      let r' : DirtyAckRequest = record {
        consumer_id = r.consumer_id;
        processed_until_seq = n;
        lease_token = token;
      } in
      no_lease r' later s' (lease_gone s (ack_dirty p c v r now s) h (ack_dirty-Replies now s))
        (ack_dirty-view p c v r' later s')

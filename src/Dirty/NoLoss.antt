-- ===== src/Dirty/NoLoss.antt =====
-- src/state.rs: a consumer that owes a sequence number of a conversation, over marks, leases and
-- acks.
use rust_zap.Prelude.{
  ℕ, ◌≡◌, ◌∙◌, sym, ap, true, false, ◌&&◌, some, String, arith, inl, inr, Bool-cases,
}
use rust_zap.Prelude.Int.{ℤ, ◌≤ℤ◌, ◌<ℤ◌, leb_ℤ, max_ℤ_bounds}
use rust_zap.Dict.{◌==◌, lookup, insert, modify_or_insert, triple_eq, quadruple_eq, string_eq}
use rust_zap.Dict.Laws.{lookup-insert, lookup-remove, lookup-modify_or_insert}
use rust_zap.Models.{Time, DirtyAckRequest}
use rust_zap.Events.{Stamp}
use rust_zap.Store.{StoreInner, DirtyRecord, Key₃, Key₄, push_event_inner}
use rust_zap.Dirty.{
  mark_dirty_inner, list_dirty, ack_dirty, settle, raise_dirty, new_dirty, all_consumers_done,
  gather, Acked,
}
use rust_zap.Error.{Result}
use rust_zap.Dirty.Frames.{
  AckView, ack_dirty-view, lookup-register_consumers, all_consumers_done-one,
}

module _ (p c v x : String) (q : ℤ) where
  -- The consumer `x` has registered for the conversation and has not reached `q`, which the
  -- conversation's dirty record covers.
  pub record Owes (s : StoreInner) : Type 0 where
    pub mark : DirtyRecord
    pub marked : lookup (p, c, v) s.dirty ≡ some mark
    pub covers : q ≤ℤ mark.max_seq
    pub seen : ℤ
    pub registered : lookup (p, c, x, v) s.consumer_state ≡ some seen
    pub behind : seen <ℤ q

  -- What can happen to the dirty state: a mark, a lease by any consumer, and an ack by any consumer
  -- of any conversation, but for an ack of this one by `x` from `q` on.
  pub data Step : StoreInner → StoreInner → Type 0 where
    mark :
        (s : StoreInner) (p' c' v' : String) (n : ℤ) (ch : String) (now : Time) (stamp : Stamp)
        → Step s (mark_dirty_inner p' c' v' n ch now stamp s)
    lease :
        (s : StoreInner) (p' c' x' : String) (limit : ℕ) (now : Time) (token : ℕ → String)
        → Step s (list_dirty p' c' x' limit now token s).0
    ack :
        (s : StoreInner) (p' c' v' : String) (r : DirtyAckRequest) (now : Time)
        → (◌≡◌ {A = Key₄} (p', c', r.consumer_id, v') (p, c, x, v) → r.processed_until_seq <ℤ q)
        → Step s (ack_dirty p' c' v' r now s).1

  pub data Steps : StoreInner → StoreInner → Type 0 where
    done : {s : StoreInner} → Steps s s
    then : {s t u : StoreInner} → Steps s t → Step t u → Steps s u

  mark-Owes :
      (k : Key₃) (n : ℤ) (now : Time) (d : DirtyRecord) (s : StoreInner) (m : DirtyRecord)
      → lookup (p, c, v) s.dirty ≡ some m
      → q ≤ℤ m.max_seq
      → (m' : DirtyRecord) × (lookup (p, c, v) (modify_or_insert k (raise_dirty n now) d s.dirty)
          ≡ some m')
        × (q ≤ℤ m'.max_seq)
  unfolding raise_dirty
  mark-Owes k n now d s m h b = elim (Bool-cases (k == (p, c, v))) [
    | inl same ↦
        let e : k ≡ (p, c, v) = (triple_eq.beq_iff k (p, c, v)).0 same in
        (
          raise_dirty n now m,
          rw (lookup-modify_or_insert k (p, c, v) (raise_dirty n now) d s.dirty) (rw (same, e, h)),
          ground (arith, max_ℤ_bounds m.max_seq n),
        )
    | inr other ↦
        (m, rw (lookup-modify_or_insert k (p, c, v) (raise_dirty n now) d s.dirty) (rw other h), b)
  ]

  -- What an `insert` into `consumer_state` leaves of the consumer's own entry.
  insert-behind :
      (k : Key₄) (n : ℤ) (s : StoreInner)
      → Owes s
      → (k ≡ (p, c, x, v) → n <ℤ q)
      → (seen : ℤ) × (lookup (p, c, x, v) (insert k n s.consumer_state) ≡ some seen) × (seen <ℤ q)
  insert-behind k n s o h = elim (Bool-cases (k == (p, c, x, v))) [
    | inl same ↦ (
      n,
      rw (lookup-insert k (p, c, x, v) n s.consumer_state) (rw same),
      h ((quadruple_eq.beq_iff k (p, c, x, v)).0 same),
    )
    | inr other ↦ (
      o.seen,
      rw (lookup-insert k (p, c, x, v) n s.consumer_state) (rw other o.registered),
      o.behind,
    )
  ]

  -- The branch of `settle` that takes the record away is not the record's of the conversation owed.
  removed-other :
      (p' c' v' : String) (k : Key₄) (d : DirtyRecord) (n seen : ℤ) (s : StoreInner) (o : Owes s)
      → lookup (p', c', v') s.dirty ≡ some d
      → all_consumers_done p' c' v' d.max_seq (insert k n s.consumer_state) ≡ true
      → lookup (p, c, x, v) (insert k n s.consumer_state) ≡ some seen
      → seen <ℤ q
      → (triple_eq.beq (p', c', v') (p, c, v)) ≡ false
  removed-other p' c' v' k d n seen s o at all_done reg low =
      elim (Bool-cases (triple_eq.beq (p', c', v') (p, c, v))) [
        | inr other ↦ other
        | inl same ↦
            let e : ◌≡◌ {A = Key₃} (p', c', v') (p, c, v) =
              (triple_eq.beq_iff (p', c', v') (p, c, v)).0 same in
            let here : some o.mark ≡ some d = sym o.marked ∙ (rw (← e) at) in
            let same_mark : o.mark ≡ d = cc here in
            let covers' : q ≤ℤ d.max_seq = rw (← same_mark) o.covers in
            let done' : all_consumers_done p c v d.max_seq (insert k n s.consumer_state) ≡ true =
              rw
                (← ap (λ (t : Key₃). t.0) e, ← ap (λ (t : Key₃). t.1) e, ← ap (λ (t : Key₃). t.2) e)
                all_done in
            absurd (
              omega (
                arith,
                all_consumers_done-one p c v x d.max_seq seen (insert k n s.consumer_state) done'
                    reg,
                covers',
                low,
              ))
      ]

  settle-Owes :
      (p' c' v' : String) (k : Key₄) (d : DirtyRecord) (n : ℤ) (s : StoreInner)
      → Owes s
      → lookup (p', c', v') s.dirty ≡ some d
      → (k ≡ (p, c, x, v) → n <ℤ q)
      → Owes (settle (p', c', v') k d n s).1
  unfolding settle
  settle-Owes p' c' v' k d n s o at h =
      let (seen, reg, low) = insert-behind k n s o h in
      let consumers = insert k n s.consumer_state in
      elim (Bool-cases (leb_ℤ d.max_seq n && all_consumers_done p' c' v' d.max_seq consumers)) [
        | inr no_removal ↦ rw no_removal (record {
          mark = o.mark;
          marked = o.marked;
          covers = o.covers;
          seen = seen;
          registered = reg;
          behind = low;
        })
        | inl removal ↦
            let all_done : all_consumers_done p' c' v' d.max_seq consumers ≡ true = ground arith in
            let other = removed-other p' c' v' k d n seen s o at all_done reg low in
            rw removal (record {
              mark = o.mark;
              marked = rw (lookup-remove (p', c', v') (p, c, v) s.dirty) (rw other o.marked);
              covers = o.covers;
              seen = seen;
              registered = reg;
              behind = low;
            })
      ]

  view-Owes :
      (p' c' v' : String) (r : DirtyAckRequest) (now : Time) (s : StoreInner)
      {out : Result Acked × StoreInner}
      → Owes s
      → (◌≡◌ {A = Key₄} (p', c', r.consumer_id, v') (p, c, x, v) → r.processed_until_seq <ℤ q)
      → AckView p' c' v' r now s out
      → Owes out.1
  view-Owes p' c' v' r now s o h (AckView.refused e) = o
  view-Owes p' c' v' r now s o h (AckView.accepted d l hd hl eh ef) =
      settle-Owes p' c' v' (p', c', r.consumer_id, v') d r.processed_until_seq s o hd h

  pub Step-Owes : {s t : StoreInner} → Step s t → Owes s → Owes t
  unfolding mark_dirty_inner push_event_inner list_dirty
  Step-Owes (mark s p' c' v' n ch now stamp) o =
      let (m, at, b) =
        mark-Owes (p', c', v') n now (new_dirty v' n now) s o.mark o.marked o.covers in
      record {
        mark = m;
        marked = at;
        covers = b;
        seen = o.seen;
        registered = o.registered;
        behind = o.behind;
      }
  Step-Owes (lease s p' c' x' limit now token) o = record {
    mark = o.mark;
    marked = o.marked;
    covers = o.covers;
    seen = o.seen;
    registered =
        lookup-register_consumers (gather p' c' x' limit now token s).consumer_entries (p, c, x, v)
          o.seen s.consumer_state o.registered;
    behind = o.behind;
  }
  Step-Owes (ack s p' c' v' r now h) o =
      view-Owes p' c' v' r now s o h (ack_dirty-view p' c' v' r now s)

  pub Steps-Owes : {s t : StoreInner} → Steps s t → Owes s → Owes t
  Steps-Owes done o = o
  Steps-Owes (then r st) o = Step-Owes st (Steps-Owes r o)

-- ===== src/Updates/Kept.antt =====
-- src/state.rs: the two places of a message under the result of a dispatch, receipts, flags and
-- reactions.
use rust_zap.Prelude.{
  String, ◌≡◌, refl, ◌∙◌, sym, ap, Bool, false, Option, none, some, List, [], ◌∷◌, ◌++◌, arith, inl,
  inr, Bool-cases, if◌then◌else◌, Option-cases, map, All, All-append, map-append, subst,
}
use rust_zap.Dict.{Dict, ◌==◌, string_eq, lookup, insert}
use rust_zap.Dict.Laws.{lookup-insert, lookup-insert_self}
use rust_zap.Dict.Distinct.{is_in, Distinct}
use rust_zap.Error.{Result, ok, err}
use rust_zap.Json.{Value}
use rust_zap.Models.{Time, Message}
use rust_zap.Store.{StoreInner, push_event_inner}
use rust_zap.Dirty.{mark_dirty_inner}
use rust_zap.Messages.{
  MessageInput, MessageDraws, open_conversation, build_message, store_message, announce_message,
  record_message_inner, rewrite_message,
}
use rust_zap.Messages.Opening.{open_conversation_frame}
use rust_zap.Messages.Sequence.{messages_of, record_message-messages}
use rust_zap.Updates.{
  UpdateDraws, edit_message, announcing, message_event, mark_message_dirty, with_dispatch,
  with_status, with_flag, with_reaction, update_outbound_after_dispatch,
  update_receipt_with_context, set_message_flag, set_message_reaction,
}
use rust_zap.Updates.Agreement.{Agrees, IsListed, keyed_at, insert-IsKeyed, rewrite-Agrees}

-- A change that keeps a message's id and conversation.
abbrev Keeps : (Message → Message) → Type 0
Keeps change =
    (m : Message) → ((change m).id ≡ m.id) × ((change m).conversation_id ≡ m.conversation_id)

edit_message-Agrees :
    (id : String) (change : Message → Message) (s : StoreInner)
    → Keeps change
    → Agrees s
    → Agrees (edit_message id change s).1
unfolding edit_message
edit_message-Agrees id change s k a = elim (Option-cases (lookup id s.messages_by_id)) [
  | inl missing ↦ rw (missing, edit_message) a
  | inr (old, e) ↦
      let named : (change old).id ≡ id = (k old).0 ∙ keyed_at id s.messages_by_id old a.keyed e in
      let at : lookup (change old).id s.messages_by_id ≡ some old =
        ap (λ (x : String). lookup x s.messages_by_id) named ∙ e in
      rw (e, edit_message)
        (subst (λ (x : String). Agrees (rewrite_message x (change old) s)) named
          (rewrite-Agrees (change old) old s at (sym (k old).1) a))
]

-- What is announced is no change to the messages.
announcing-Agrees :
    (announce : Message → StoreInner → StoreInner) (out : Result Message × StoreInner)
    → ((m : Message) (s : StoreInner) → Agrees s → Agrees (announce m s))
    → Agrees out.1
    → Agrees (announcing announce out).1
unfolding announcing
announcing-Agrees announce (err e, s) h a = a
announcing-Agrees announce (ok m, s) h a = h m s a

event-Agrees :
    (kind : String) (m n : Message) (payload : List (String × Value)) (draws : UpdateDraws)
    (s : StoreInner)
    → Agrees s
    → Agrees (message_event kind m payload draws.stamp s)
      × Agrees (message_event kind m payload draws.stamp (mark_message_dirty n draws s))
unfolding message_event push_event_inner mark_message_dirty mark_dirty_inner
event-Agrees kind m n payload draws s a =
    (record { keyed = a.keyed; listed = a.listed }, record { keyed = a.keyed; listed = a.listed })

with_flag-Keeps : (flag : String) (value : Bool) (now : Time) → Keeps (with_flag flag value now)
unfolding with_flag
with_flag-Keeps flag value now m = elim (Bool-cases (flag == "pin")) [
  | inl pin ↦ rw (pin, with_flag) (refl, refl)
  | inr other ↦ elim (Bool-cases (flag == "star")) [
    | inl star ↦ rw (other, with_flag) (rw star (refl, refl))
    | inr none_of ↦ rw (other, with_flag) (rw none_of (refl, refl))
  ]
]

-- While the copies of every message under its id and in its conversation's list agree, each of the
-- four changes to a stored message keeps them in agreement, whether the message is there or not.
pub updates-Agrees :
    (ts : Time → String) (id status receipt flag : String) (wa_id error reaction : Option String)
    (value : Bool) (seen : Option Time) (draws : UpdateDraws) (s : StoreInner)
    → Agrees s
    → Agrees (update_outbound_after_dispatch id wa_id status error draws s).1
      × Agrees (update_receipt_with_context ts id receipt seen draws s).1
      × Agrees (set_message_flag id flag value draws.now s).1
      × Agrees (set_message_reaction id reaction draws s).1
unfolding update_outbound_after_dispatch update_receipt_with_context set_message_flag
    set_message_reaction with_dispatch with_status with_reaction
updates-Agrees ts id status receipt flag wa_id error reaction value seen draws s a = (
  announcing-Agrees _ (edit_message id (with_dispatch wa_id status error draws.now) s)
      (λ m t b. (event-Agrees _ m m _ draws t b).1)
      (edit_message-Agrees id (with_dispatch wa_id status error draws.now) s (λ m. (refl, refl)) a),
  announcing-Agrees _ (edit_message id (with_status receipt draws.now) s)
      (λ m t b. (event-Agrees _ m m _ draws t b).1)
      (edit_message-Agrees id (with_status receipt draws.now) s (λ m. (refl, refl)) a),
  edit_message-Agrees id (with_flag flag value draws.now) s (with_flag-Keeps flag value draws.now)
      a,
  announcing-Agrees _ (edit_message id (with_reaction reaction draws.now) s)
      (λ m t b. (event-Agrees _ m m _ draws t b).0)
      (edit_message-Agrees id (with_reaction reaction draws.now) s (λ m. (refl, refl)) a),
)

pub record_message-by_id :
    (m : MessageInput) (draws : MessageDraws) (s : StoreInner)
    → let (message, t) = record_message_inner m draws s in
      t.messages_by_id ≡ insert message.id message s.messages_by_id
unfolding record_message_inner store_message build_message announce_message push_event_inner
    mark_dirty_inner
record_message-by_id m draws s =
    let (contact, conversation, t) = open_conversation m draws.now s in
    let message = build_message m draws contact conversation.last_seq in
    ap (λ (u : StoreInner). insert message.id message u.messages_by_id)
      (open_conversation_frame m draws.now s)

module _ (by_id : Dict String Message) (u : Message) (fresh : lookup u.id by_id ≡ none) where
  fresh-listed :
      (v : String) (ms : List Message)
      → All (λ m. (lookup m.id by_id ≡ some m) × (m.conversation_id ≡ v)) ms
      → All (λ m. (lookup m.id (insert u.id u by_id) ≡ some m) × (m.conversation_id ≡ v)) ms
        × (is_in u.id (map (λ m. m.id) ms) ≡ false)
  fresh-listed v [] h = (tt, refl)
  fresh-listed v (m ∷ ms) h =
      let other : (u.id == m.id) ≡ false = elim (Bool-cases (u.id == m.id)) [
        | inr differs ↦ differs
        | inl same ↦
            let i : u.id ≡ m.id = (string_eq.beq_iff u.id m.id).0 same in
            let both : none ≡ some m = sym fresh ∙ ap (λ (x : String). lookup x by_id) i ∙ h.0.0 in
            absurd (cc both)
      ] in
      let rest = fresh-listed v ms h.1 in
      (
        ((rw (lookup-insert u.id m.id u by_id) (rw other h.0.0), h.0.1), rest.0),
        ground (arith, string_eq.beq_iff u.id m.id, string_eq.beq_iff m.id u.id, rest.1),
      )

Distinct-append :
    (r : List String) (k : String) → Distinct r → is_in k r ≡ false → Distinct (r ++ k ∷ [])
Distinct-append [] k d out = (refl, tt)
Distinct-append (j ∷ r) k d out = (apart r d.0, Distinct-append r k d.1 (ground arith))
  where
    apart : (r : List String) → is_in j r ≡ false → is_in j (r ++ k ∷ []) ≡ false
    apart [] h = ground (arith, string_eq.beq_iff j k, string_eq.beq_iff k j)
    apart (i ∷ r) h = ground (arith, apart r)

record_message-ids :
    (m : MessageInput) (draws : MessageDraws) (s : StoreInner)
    → let (message, t) = record_message_inner m draws s in
      (message.id ≡ draws.message_id) × (message.conversation_id ≡ m.conversation_id)
unfolding record_message_inner build_message
record_message-ids m draws s = (refl, refl)

appended :
    (by_id : Dict String Message) (u : Message) (v : String) (ms : List Message)
    → u.conversation_id ≡ v
    → All (λ m. (lookup m.id (insert u.id u by_id) ≡ some m) × (m.conversation_id ≡ v)) ms
    → is_in u.id (map (λ m. m.id) ms) ≡ false
    → Distinct (map (λ m. m.id) ms)
    → IsListed (insert u.id u by_id) v (ms ++ u ∷ [])
appended by_id u v ms e h out d = (
  All-append (λ m. (lookup m.id (insert u.id u by_id) ≡ some m) × (m.conversation_id ≡ v)) ms
      (u ∷ []) h ((lookup-insert_self u.id u by_id, e), tt),
  rw (map-append (λ (m : Message). m.id) ms (u ∷ []))
      (Distinct-append (map (λ m. m.id) ms) u.id d out),
)

-- A message that is appended to one list and stored under its own new id keeps the agreement.
pub append-Agrees :
    (k : String) (message : Message) (s t : StoreInner)
    → Agrees s
    → lookup message.id s.messages_by_id ≡ none
    → message.conversation_id ≡ k
    → t.messages_by_id ≡ insert message.id message s.messages_by_id
    → ((v : String)
        → messages_of v t ≡ (if k == v then messages_of v s ++ message ∷ [] else messages_of v s))
    → Agrees t
append-Agrees k message s t a new own stored listed = record {
  keyed = rw stored (insert-IsKeyed message message.id s.messages_by_id refl a.keyed);
  listed = λ v.
      let ms = messages_of v s in
      let kept = fresh-listed s.messages_by_id message new v ms (a.listed v).0 in
      rw (stored, listed v)
        (elim (Bool-cases (k == v)) [
          | inl same ↦
              let here = own ∙ (string_eq.beq_iff k v).0 same in
              rw same (appended s.messages_by_id message v ms here kept.0 kept.1 (a.listed v).1)
          | inr other ↦ rw other (kept.0, (a.listed v).1)
        ]);
}

-- A message that is recorded under a new id keeps the copies of every message in agreement.
pub record_message-Agrees :
    (m : MessageInput) (draws : MessageDraws) (s : StoreInner)
    → Agrees s
    → lookup draws.message_id s.messages_by_id ≡ none
    → Agrees (record_message_inner m draws s).1
record_message-Agrees m draws s a fresh =
    let (message, t) = record_message_inner m draws s in
    let ids = record_message-ids m draws s in
    append-Agrees m.conversation_id message s t a (rw (ids.0) fresh) ids.1
      (record_message-by_id m draws s) (record_message-messages m draws s)

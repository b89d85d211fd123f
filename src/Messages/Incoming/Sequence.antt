-- ===== src/Messages/Incoming/Sequence.antt =====
-- src/state.rs: the sequence numbers of incoming messages.
use rust_zap.Prelude.{◌≡◌, ◌∙◌, ap, String, [], ◌∷◌, ◌++◌, inl, inr, Option-cases, if◌then◌else◌}
use rust_zap.Prelude.Int.{◌<ℤ◌, i64_max, increment}
use rust_zap.Dict.{◌==◌, string_eq}
use rust_zap.Store.{StoreInner, push_event_inner}
use rust_zap.Dirty.{mark_dirty_inner}
use rust_zap.Messages.{MessageDraws, store_message}
use rust_zap.Messages.Sequence.{
  IsSequenced, messages_of, seq_of, pushed, counted, append-IsSequenced,
}
use rust_zap.Messages.Incoming.{
  WhatsappMessageInput, already_stored, see_people, incoming_conversation, incoming_message,
  announce_incoming, record_new, record_whatsapp_message,
}
use rust_zap.Messages.Incoming.Opening.{see_people-SeesPeople, incoming_conversation-last_seq}

pub record_new-messages :
    (input : WhatsappMessageInput) (draws : MessageDraws) (s : StoreInner) (v : String)
    → let (message, t) = record_new input draws s in
      messages_of v t
      ≡ (if input.conversation_id == v then messages_of v s ++ message ∷ [] else messages_of v s)
unfolding record_new store_message incoming_message announce_incoming push_event_inner
    mark_dirty_inner
record_new-messages input draws s v =
    let message = (record_new input draws s).0 in
    let (contact, sender, seen) = see_people input draws.now s in
    pushed input.conversation_id v message seen.messages_by_conversation
    ∙ ap
        (λ (u : StoreInner).
          if input.conversation_id == v then messages_of v u ++ message ∷ [] else messages_of v u)
        (see_people-SeesPeople input draws.now s)

record_new-seq :
    (input : WhatsappMessageInput) (draws : MessageDraws) (s : StoreInner) (v : String)
    → let (message, t) = record_new input draws s in
      seq_of v t ≡ (if input.conversation_id == v then message.conversation_seq else seq_of v s)
unfolding record_new store_message incoming_message announce_incoming push_event_inner
    mark_dirty_inner
record_new-seq input draws s v =
    let message = (record_new input draws s).0 in
    let (contact, sender, seen) = see_people input draws.now s in
    counted input.conversation_id v (incoming_conversation input draws.now contact seen) seen
    ∙ ap
        (λ (u : StoreInner).
          if input.conversation_id == v then message.conversation_seq else seq_of v u)
        (see_people-SeesPeople input draws.now s)

record_new-next :
    (input : WhatsappMessageInput) (draws : MessageDraws) (s : StoreInner)
    → (record_new input draws s).0.conversation_seq ≡ increment (seq_of input.conversation_id s)
unfolding record_new incoming_message
record_new-next input draws s =
    let (contact, sender, seen) = see_people input draws.now s in
    incoming_conversation-last_seq input draws.now contact seen
    ∙ ap (λ (u : StoreInner). increment (seq_of input.conversation_id u))
        (see_people-SeesPeople input draws.now s)

-- While the conversation's counter is below the greatest `i64`, a report from WhatsApp keeps every
-- conversation's messages strictly rising in their sequence numbers, none past the counter.
pub record_whatsapp_message-IsSequenced :
    (input : WhatsappMessageInput) (draws : MessageDraws) (s : StoreInner)
    → IsSequenced s
    → seq_of input.conversation_id s <ℤ i64_max
    → IsSequenced (record_whatsapp_message input draws s).1
unfolding record_whatsapp_message
record_whatsapp_message-IsSequenced input draws s h room =
    elim (Option-cases (already_stored input s)) [
      | inl new ↦
          let (message, t) = record_new input draws s in
          rw (new, record_whatsapp_message)
            (append-IsSequenced input.conversation_id message s t h room
              (record_new-messages input draws s) (record_new-seq input draws s)
              (record_new-next input draws s)).0
      | inr (old, stored) ↦ rw (stored, record_whatsapp_message) h
    ]

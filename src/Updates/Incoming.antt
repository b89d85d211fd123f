-- ===== src/Updates/Incoming.antt =====
-- src/state.rs: the two places of a message under reports from WhatsApp.
use rust_zap.Prelude.{◌≡◌, refl, none, inl, inr, Option-cases}
use rust_zap.Dict.{lookup, string_eq}
use rust_zap.Store.{StoreInner}
use rust_zap.Messages.{MessageDraws}
use rust_zap.Messages.Incoming.{
  WhatsappMessageInput, already_stored, incoming_message, record_new, record_whatsapp_message,
}
use rust_zap.Messages.Incoming.Once.{record_new-stored}
use rust_zap.Messages.Incoming.Sequence.{record_new-messages}
use rust_zap.Updates.Agreement.{Agrees}
use rust_zap.Updates.Kept.{append-Agrees}

record_new-Agrees :
    (input : WhatsappMessageInput) (draws : MessageDraws) (s : StoreInner)
    → Agrees s
    → lookup draws.message_id s.messages_by_id ≡ none
    → Agrees (record_new input draws s).1
unfolding record_new incoming_message
record_new-Agrees input draws s a fresh =
    let (message, t) = record_new input draws s in
    append-Agrees input.conversation_id message s t a fresh refl (record_new-stored input draws s)
      (record_new-messages input draws s)

-- A report from WhatsApp that draws a new id, of a message stored already or not, keeps the copies
-- of every message in agreement.
pub record_whatsapp_message-Agrees :
    (input : WhatsappMessageInput) (draws : MessageDraws) (s : StoreInner)
    → Agrees s
    → lookup draws.message_id s.messages_by_id ≡ none
    → Agrees (record_whatsapp_message input draws s).1
unfolding record_whatsapp_message
record_whatsapp_message-Agrees input draws s a fresh =
    elim (Option-cases (already_stored input s)) [
      | inl new ↦ rw (new, record_whatsapp_message) (record_new-Agrees input draws s a fresh)
      | inr (old, stored) ↦ rw (stored, record_whatsapp_message) a
    ]

-- ===== src/Tests/Incoming.antt =====
-- The theorems on incoming messages at concrete states.
use rust_zap.Prelude.{◌≡◌, refl, none, some, arith}
use rust_zap.Dict.{lookup}
use rust_zap.Store.{empty}
use rust_zap.Messages.Incoming.{WhatsappMessageInput, record_whatsapp_message}
use rust_zap.Messages.Incoming.Once.{record_whatsapp_message_once}
use rust_zap.Messages.Incoming.Sequence.{record_whatsapp_message-IsSequenced}
use rust_zap.Messages.Sequence.{IsSequenced}
use rust_zap.Updates.Agreement.{Agrees}
use rust_zap.Updates.Incoming.{record_whatsapp_message-Agrees}
use rust_zap.Tests.Fixtures.{message_draws}

abbrev group_message : WhatsappMessageInput
group_message = record {
  project_id = "p";
  company_id = "c";
  channel_id = "channel";
  conversation_id = "120363@g.us";
  contact_id = none;
  contact_alt_jid = none;
  contact_name = none;
  direction = "inbound";
  message_type = "text";
  text = some "hello";
  status = "received";
  wa_message_id = some "3EB0";
  sender_contact_id = some "77001@lid";
  sender_alt_jid = some "5511999@s.whatsapp.net";
  sender_name = some "Ana";
  created_at_wa = 900;
}

record_whatsapp_message_once_example :
    let (message, t) = record_whatsapp_message group_message (message_draws "msg_1") empty in
    record_whatsapp_message group_message (message_draws "msg_2") t ≡ (message, t)
record_whatsapp_message_once_example =
    record_whatsapp_message_once group_message (message_draws "msg_1") (message_draws "msg_2") empty
      "3EB0" refl

empty-IsSequenced : IsSequenced empty
unfolding lookup
empty-IsSequenced v = tt

record_whatsapp_message-IsSequenced_example :
    IsSequenced (record_whatsapp_message group_message (message_draws "msg_1") empty).1
unfolding lookup
record_whatsapp_message-IsSequenced_example =
    record_whatsapp_message-IsSequenced group_message (message_draws "msg_1") empty
      empty-IsSequenced (omega arith)

empty-Agrees : Agrees empty
unfolding lookup
empty-Agrees = record { keyed = tt; listed = λ v. (tt, tt) }

record_whatsapp_message-Agrees_example :
    Agrees (record_whatsapp_message group_message (message_draws "msg_1") empty).1
unfolding lookup
record_whatsapp_message-Agrees_example =
    record_whatsapp_message-Agrees group_message (message_draws "msg_1") empty empty-Agrees refl

-- ===== src/Tests/Fixtures.antt =====
-- Small requests and stores for the examples.
use rust_zap.Prelude.{inr, ◌<>◌, ℕ, String, true, none, some, [], ◌∷◌, unwrap_or}
use rust_zap.Prelude.Int.{pos}
use rust_zap.Events.{Stamp, new_event}
use rust_zap.Error.{Result, ok}
use rust_zap.Json.{Value, object, str, pos_int, boolean}
use rust_zap.Models.{SendMessageRequest, Conversation, CommonEvent, MediaObject}
use rust_zap.Config.{AppConfig}
use rust_zap.Config.Environment.{app_config}
use rust_zap.Messages.{MessageInput, MessageDraws, record_message_inner, new_conversation}
use rust_zap.Send.{SendDraws}
use rust_zap.Store.{StoreInner, empty}
use rust_zap.Dirty.{mark_dirty_inner, list_dirty}

abbrev pub stamp : Stamp
stamp = record { event_id = "evt_1"; trace_id = "trc_1"; correlation_id = "cor_1"; now = 5 }

abbrev pub token : ℕ → String
token n = "lease_1"

-- A conversation with three messages that a consumer has just leased.
abbrev pub leased : StoreInner
leased =
    (list_dirty "p" "c" "worker" 10 5 token
      (mark_dirty_inner "p" "c" "v" (pos 3) "channel" 5 stamp empty)).0

abbrev pub message_draws : String → MessageDraws
message_draws id = record {
  now = 1000;
  message_id = id;
  wa_message_id = "wamid_1";
  dirty_now = 1001;
  dirty_stamp = stamp;
  stamp = stamp;
}

abbrev pub send_draws : String → SendDraws
send_draws id = record {
  message = message_draws id;
  media_now = 1002;
  attach_now = 1003;
  stamp = stamp;
}

abbrev pub chat : String
chat = "5511999@s.whatsapp.net"

abbrev pub inbound : MessageInput
inbound = record {
  project_id = "p";
  company_id = "c";
  conversation_id = chat;
  direction = "inbound";
  message_type = "text";
  text = some "hello";
  status = "received";
  quoted_message_id = none;
  channel_account_id = none;
  sender_contact_id = none;
  sender_display_name = some "Ana";
  sender_profile_picture_url = none;
  sent_by_external_user_id = none;
}

-- Two messages in one conversation.
abbrev pub one_message : StoreInner
one_message = (record_message_inner inbound (message_draws "msg_1") empty).1

abbrev pub two_messages : StoreInner
two_messages = (record_message_inner inbound (message_draws "msg_2") one_message).1

abbrev pub send_text : String → SendMessageRequest
send_text t = record {
  message_type = "text";
  text = some t;
  media_id = none;
  caption = none;
  filename = none;
  quoted_message_id = none;
  metadata = none;
}

-- A stand-in for the hash: the text itself.
abbrev pub text_hash : SendMessageRequest → Result String
text_hash request = ok (unwrap_or request.text "")

abbrev pub conversation : Conversation
conversation = new_conversation inbound 1000 none none

abbrev pub one_conversation : StoreInner
one_conversation = record empty { conversations = (chat, conversation) ∷ [] }

-- The defaults of an empty environment, but for a few settings.
abbrev pub config : AppConfig
unfolding app_config
config =
    let defaults = app_config (λ key. none) (λ t. inr t) in
    record defaults {
      public_base_url = "http://localhost:8080/";
      webhook = record defaults.webhook {
        delivery_enabled = true;
        max_batch_size = 50;
        max_retries = 3;
        retry_base_seconds = 2;
        retry_max_seconds = 60;
      };
      media_temp_retention_days = 7;
    }

-- An event of the company, and a callback that takes it.
abbrev pub event : CommonEvent
event =
    new_event "message.received" "p" "c" none none none none
      (object (("text", str "hello") ∷ ("size", pos_int 3) ∷ [])) stamp

abbrev pub callback : Value
callback = object (
    ("id", str "cb")
    ∷ ("project_id", str "p")
    ∷ ("company_id", str "c")
    ∷ ("url", str "https://example.com/hook")
    ∷ ("encrypted_secret", str "sealed")
    ∷ ("enabled", boolean true)
    ∷ [])

abbrev pub with_callback : StoreInner
with_callback = record empty { callbacks = ("cb", callback) ∷ []; events = event ∷ [] }

abbrev pub seal : String → Result String
seal secret = ok ("sealed " <> secret)

abbrev pub image : MediaObject
image = record {
  id = "media_1";
  project_id = "p";
  company_id = "c";
  conversation_id = chat;
  message_id = none;
  media_type = "image";
  mime_type = "image/png";
  original_filename = none;
  size_bytes = 3;
  sha256 = "00";
  storage_status = "stored";
  bucket = none;
  object_key = none;
  permanent_object_key = none;
  public_url = none;
  thumbnail_url = none;
  width = none;
  height = none;
  duration_seconds = none;
  expires_at = none;
  saved_at = none;
  created_at = 1;
  updated_at = 1;
}

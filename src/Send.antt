-- ===== src/Send.antt =====
-- src/state.rs: `prepare_send_message_with_actor`, which stores an outbound message once for each
-- idempotency key. The hash of a request (`sha256_json`, SHA-256 over serde's bytes) is a parameter.
pub mod Idempotency
use rust_zap.Prelude.{
  ℕ, String, ◌<>◌, Bool, true, false, ◌&&◌, Option, none, some, List, [], ◌∷◌, if◌then◌else◌, not,
  or_else, unwrap_or, and_then, map_option, then_some,
}
use rust_zap.Dict.{Dict, ◌==◌, string_eq, triple_eq, lookup, insert}
use rust_zap.Error.{
  Result, ok, err, not_found, bad_request, payload_too_large, internal, idempotency_conflict, ◌>>=◌,
}
use rust_zap.Json.{Value, str, object, of_option, get_str}
use rust_zap.Models.{Time, Message, Conversation, MediaObject, SendMessageRequest}
use rust_zap.Events.{Stamp, new_event}
use rust_zap.Store.{StoreInner, IdempotencyRecord, Key₃, push_event_inner}
use rust_zap.Conversations.{resolve_conversation_id_inner}
use rust_zap.Messages.{
  MessageInput, MessageDraws, record_message_inner, attach_media_to_message_inner,
}

pub record SendMessageOutcome : Type 0 where
  pub message : Message
  pub should_dispatch : Bool

-- What one call draws, in order: the message's, the media's two clock readings, the event's.
pub record SendDraws : Type 0 where
  pub message : MessageDraws
  pub media_now : Time
  pub attach_now : Time
  pub stamp : Stamp

-- The replay of a key: the message that the key's first call stored, or a conflict.
unfoldable pub replay : String → IdempotencyRecord → StoreInner → Result SendMessageOutcome
replay request_hash idempotent inner =
    if idempotent.request_hash == request_hash
    then elim (lookup idempotent.message_id inner.messages_by_id) [
      | none ↦
          err (internal ("cached idempotency message " <> (idempotent.message_id <> " missing")))
      | some message ↦ ok (record { message = message; should_dispatch = false })
    ]
    else err (idempotency_conflict "same Idempotency-Key used with different request body")

-- The tests on the media that a request names, in order.
unfoldable pub check_media :
    (project_id company_id conversation_id media_id : String)
    → Option MediaObject
    → Result MediaObject
check_media project_id company_id conversation_id media_id none =
    err (not_found ("media " <> (media_id <> " not found")))
check_media project_id company_id conversation_id media_id (some media) =
    if not (media.project_id == project_id && media.company_id == company_id)
    then err (not_found ("media " <> (media_id <> " not found")))
    else if not (media.conversation_id == conversation_id)
    then err (
        bad_request
          ("media " <> (media_id <> (" belongs to conversation " <> media.conversation_id))))
    else if media.storage_status == "rejected"
    then err (payload_too_large ("media " <> (media_id <> " was rejected by the upload policy")))
    else ok media

unfoldable pub request_media :
    (project_id company_id conversation_id : String)
    → SendMessageRequest
    → StoreInner
    → Result (Option MediaObject)
request_media project_id company_id conversation_id request inner = elim request.media_id [
  | none ↦ ok none
  | some media_id ↦
      check_media project_id company_id conversation_id media_id (lookup media_id inner.media)
      >>= λ media. ok (some media)
]

abbrev pub is_text : Option String → String → Bool
is_text none t = false
is_text (some u) t = u == t

is_connected : String → String → Value → Bool
is_connected project_id company_id channel =
    is_text (get_str "project_id" channel) project_id
    && (is_text (get_str "company_id" channel) company_id
        && is_text (get_str "status" channel) "connected")

unfoldable pub connected_channel_for_project_company :
    Dict String Value → String → String → Option String
unfolding is_connected
connected_channel_for_project_company [] project_id company_id = none
connected_channel_for_project_company ((id, channel) ∷ r) project_id company_id =
    if is_connected project_id company_id channel
    then some id
    else connected_channel_for_project_company r project_id company_id

-- The link from a media object to the message that carries it, and back.
unfoldable pub link_media :
    Option MediaObject → SendDraws → Message → StoreInner → Message × StoreInner
link_media none draws message inner = (message, inner)
link_media (some media) draws message inner = elim (lookup media.id inner.media) [
  | none ↦
      let (attached, after) =
        attach_media_to_message_inner message.id media draws.attach_now inner in
      (unwrap_or attached message, after)
  | some stored ↦
      let linked = record stored { message_id = some message.id; updated_at = draws.media_now } in
      let (attached, after) =
        attach_media_to_message_inner message.id linked draws.attach_now
          (record inner { media = insert media.id linked inner.media }) in
      (unwrap_or attached message, after)
]

unfoldable pub input_of :
    (project_id company_id conversation_id : String)
    → SendMessageRequest
    → Option String
    → Option MediaObject
    → StoreInner
    → MessageInput
input_of project_id company_id conversation_id request actor media inner = record {
  project_id = project_id;
  company_id = company_id;
  conversation_id = conversation_id;
  direction = "outbound";
  message_type = unwrap_or (map_option (λ m. m.media_type) media) request.message_type;
  text = or_else request.text request.caption;
  status = "queued";
  quoted_message_id = request.quoted_message_id;
  channel_account_id =
      or_else (map_option (λ v. v.channel_account_id) (lookup conversation_id inner.conversations))
        (connected_channel_for_project_company inner.channels project_id company_id);
  sender_contact_id = none;
  sender_display_name = none;
  sender_profile_picture_url = none;
  sent_by_external_user_id = actor;
}

-- The key is tied to the message, and the request to send is announced.
unfoldable pub register_send :
    Key₃ → (request_hash conversation_id : String) → Stamp → Message → StoreInner → StoreInner
register_send idem_key request_hash conversation_id stamp message inner =
    push_event_inner
      (new_event "outbound.send.requested" idem_key.0 idem_key.1 (some message.channel_account_id)
        (some conversation_id) (some message.id) (some message.conversation_seq)
        (object (
          ("message_id", str message.id)
          ∷ ("media_id", of_option message.media_id)
          ∷ ("message_type", str message.message_type)
          ∷ []))
        stamp)
      (record inner {
        idempotency =
            insert idem_key (record { request_hash = request_hash; message_id = message.id })
              inner.idempotency;
      })

-- The first call of a key, once its media has been looked at.
unfoldable pub send_new :
    Key₃
    → (request_hash conversation_id : String) → SendMessageRequest
    → Option String
    → Option MediaObject
    → SendDraws
    → StoreInner
    → SendMessageOutcome × StoreInner
send_new idem_key request_hash conversation_id request actor media draws inner =
    let (recorded, stored) =
      record_message_inner
        (input_of idem_key.0 idem_key.1 conversation_id request actor media inner) draws.message
        inner in
    let (message, linked) = link_media media draws recorded stored in
    (
      record { message = message; should_dispatch = true },
      register_send idem_key request_hash conversation_id draws.stamp message linked,
    )

finish_send :
    Key₃
    → (request_hash conversation_id : String) → SendMessageRequest
    → Option String
    → SendDraws
    → StoreInner
    → Result (Option MediaObject)
    → Result SendMessageOutcome × StoreInner
finish_send idem_key request_hash conversation_id request actor draws inner (err e) = (err e, inner)
finish_send idem_key request_hash conversation_id request actor draws inner (ok media) =
    let (outcome, after) =
      send_new idem_key request_hash conversation_id request actor media draws inner in
    (ok outcome, after)

module _ (sha256_json : SendMessageRequest → Result String) where
  unfoldable pub prepare_send_message_with_actor :
      (project_id company_id conversation_id idempotency_key : String)
      → SendMessageRequest
      → Option String
      → SendDraws
      → StoreInner
      → Result SendMessageOutcome × StoreInner
  unfolding finish_send
  prepare_send_message_with_actor project_id company_id asked idempotency_key request actor draws
        inner =
      elim (sha256_json request) [
        | err e ↦ (err e, inner)
        | ok request_hash ↦
            let idem_key : Key₃ = (project_id, company_id, idempotency_key) in
            let conversation_id = resolve_conversation_id_inner inner project_id company_id asked in
            elim (lookup idem_key inner.idempotency) [
              | some idempotent ↦ (replay request_hash idempotent inner, inner)
              | none ↦
                  finish_send idem_key request_hash conversation_id request actor draws inner
                    (request_media project_id company_id conversation_id request inner)
            ]
      ]

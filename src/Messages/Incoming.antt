-- ===== src/Messages/Incoming.antt =====
-- src/state.rs: `record_whatsapp_message`, which stores what the WhatsApp client has seen arrive or
-- leave, once for each id of WhatsApp's.
pub mod Opening
pub mod Once
pub mod Sequence
use rust_zap.Prelude.{
  ℕ, String, Bool, true, false, ◌&&◌, Option, none, some, List, [], ◌∷◌, if◌then◌else◌, not,
  or_else, unwrap_or, and_then, map_option, then_some, find, is_some_and,
}
use rust_zap.Prelude.Int.{ℤ, pos, increment}
use rust_zap.Dict.{Dict, ◌==◌, string_eq, lookup, insert, values}
use rust_zap.Json.{Value, str, object, of_option}
use rust_zap.Models.{Time, Conversation, Message}
use rust_zap.Models.Delivery.{delivery_state, delivery_state_text}
use rust_zap.Events.{new_event}
use rust_zap.Store.{StoreInner, ContactRecord, GroupRecord, push_event_inner}
use rust_zap.Dirty.{mark_dirty_inner}
use rust_zap.Jid.{
  is_group_jid, display_name_for_jid, group_subject_for_jid, phone_number_from_value,
  rustzap_profile_picture_media_id,
}
use rust_zap.Contacts.{upsert_group_member_inner}
use rust_zap.Contacts.Enrichment.{upsert_contact_with_alt_inner}
use rust_zap.Conversations.{apply_group_record_to_conversation}
use rust_zap.Messages.{MessageDraws, store_message}

pub record WhatsappMessageInput : Type 0 where
  pub project_id : String
  pub company_id : String
  pub channel_id : String
  pub conversation_id : String
  pub contact_id : Option String
  pub contact_alt_jid : Option String
  pub contact_name : Option String
  pub direction : String
  pub message_type : String
  pub text : Option String
  pub status : String
  pub wa_message_id : Option String
  pub sender_contact_id : Option String
  pub sender_alt_jid : Option String
  pub sender_name : Option String
  pub created_at_wa : Time

abbrev pub is_same : WhatsappMessageInput → String → Message → Bool
is_same input wa_message_id message =
    message.channel_account_id == input.channel_id
    && (is_some_and message.wa_message_id (λ w. w == wa_message_id)
        && message.direction == input.direction)

-- The message that is stored under the same id of WhatsApp's already.
unfoldable pub already_stored : WhatsappMessageInput → StoreInner → Option Message
already_stored input inner =
    and_then input.wa_message_id (λ w. find (is_same input w) (values inner.messages_by_id))

abbrev pub is_group_of : WhatsappMessageInput → Bool
is_group_of input = is_group_jid input.conversation_id

abbrev pub is_group_inbound : WhatsappMessageInput → Bool
is_group_inbound input = is_group_of input && input.direction == "inbound"

unfoldable pub chat_contact_id : WhatsappMessageInput → Option String
chat_contact_id input = or_else input.contact_id (
    if is_group_inbound input
    then input.sender_contact_id
    else then_some (not (is_group_of input)) input.conversation_id)

-- A contact that the message names, brought up to date.
unfoldable pub see_contact :
    WhatsappMessageInput
    → (contact_id name alt_jid : Option String) → Time
    → StoreInner
    → Option ContactRecord × StoreInner
see_contact input none name alt_jid now inner = (none, inner)
see_contact input (some contact_id) name alt_jid now inner =
    let (contact, after) =
      upsert_contact_with_alt_inner
        (record {
          project_id = input.project_id;
          company_id = input.company_id;
          channel_id = some input.channel_id;
          contact_id = contact_id;
          push_name = name;
          profile_picture_url = none;
          now = now;
        })
        alt_jid inner in
    (some contact, after)

unfoldable pub see_member :
    WhatsappMessageInput → Time → (sender contact : Option ContactRecord) → StoreInner → StoreInner
see_member input now sender contact inner =
    elim (if is_group_of input then input.sender_contact_id else none) [
      | none ↦ inner
      | some sender_contact_id ↦
          upsert_group_member_inner input.conversation_id sender_contact_id
            (unwrap_or
              (or_else (map_option (λ c. c.display_name) (or_else sender contact))
                input.sender_name)
              (display_name_for_jid sender_contact_id))
            now inner
    ]

-- The chat's contact, the sender, and the store with both and the group's member in it.
unfoldable pub see_people :
    WhatsappMessageInput
    → Time
    → StoreInner
    → Option ContactRecord × Option ContactRecord × StoreInner
see_people input now inner =
    let (contact, with_contact) =
      see_contact input (chat_contact_id input) input.contact_name input.contact_alt_jid now
        inner in
    let (sender, with_sender) =
      see_contact input (if is_group_inbound input then input.sender_contact_id else none)
        input.sender_name input.sender_alt_jid now with_contact in
    (contact, sender, see_member input now sender contact with_sender)

-- What the chat shows: of the group, or of the contact.
pub record Shown : Type 0 where
  pub display_name : Option String
  pub display_phone : Option String
  pub avatar_url : Option String
  pub profile_picture_url : Option String
  pub profile_picture_media_id : Option String

unfoldable pub shown_of : WhatsappMessageInput → Option ContactRecord → Option GroupRecord → Shown
shown_of input contact group =
    if is_group_of input
    then record {
      display_name = some (
          unwrap_or (and_then group (λ g. g.subject))
            (group_subject_for_jid input.conversation_id));
      display_phone = none;
      avatar_url = and_then group (λ g. g.avatar_url);
      profile_picture_url = and_then group (λ g. g.profile_picture_url);
      profile_picture_media_id =
          and_then group (λ g. rustzap_profile_picture_media_id g.profile_picture_media_id);
    }
    else record {
      display_name = map_option (λ c. c.display_name) contact;
      display_phone = and_then contact (λ c. c.phone_e164);
      avatar_url = and_then contact (λ c. c.avatar_url);
      profile_picture_url = and_then contact (λ c. c.profile_picture_url);
      profile_picture_media_id =
          and_then contact (λ c. rustzap_profile_picture_media_id c.profile_picture_media_id);
    }

unfoldable pub first_conversation : WhatsappMessageInput → Shown → Time → Conversation
first_conversation input shown now = record {
  id = input.conversation_id;
  project_id = input.project_id;
  company_id = input.company_id;
  channel_account_id = input.channel_id;
  conversation_type = if is_group_of input then "group" else "direct";
  contact_id = if is_group_of input then none else chat_contact_id input;
  group_id = then_some (is_group_of input) input.conversation_id;
  display_name = shown.display_name;
  display_phone = shown.display_phone;
  phone_number = and_then shown.display_phone phone_number_from_value;
  profile_picture_media_id = shown.profile_picture_media_id;
  avatar_url = shown.avatar_url;
  profile_picture_url = shown.profile_picture_url;
  last_seq = pos 0;
  last_message_at = none;
  unread_count = pos 0;
  is_archived = false;
  is_muted = false;
  is_pinned = false;
  control_mode = "manual";
  created_at = now;
  updated_at = now;
}

unfoldable pub show_in :
    WhatsappMessageInput → Shown → Option GroupRecord → Conversation → Conversation
show_in input shown group conversation =
    if is_group_of input
    then apply_group_record_to_conversation input.conversation_id group conversation
    else record conversation {
      display_name = or_else shown.display_name conversation.display_name;
      phone_number = elim shown.display_phone [
        | none ↦ conversation.phone_number
        | some phone ↦ phone_number_from_value phone
      ];
      display_phone = or_else shown.display_phone conversation.display_phone;
      avatar_url = or_else shown.avatar_url conversation.avatar_url;
      profile_picture_url = or_else shown.profile_picture_url conversation.profile_picture_url;
      profile_picture_media_id =
          or_else shown.profile_picture_media_id conversation.profile_picture_media_id;
    }

unfoldable pub count_incoming : WhatsappMessageInput → Time → Conversation → Conversation
count_incoming input now conversation = record conversation {
  last_seq = increment conversation.last_seq;
  last_message_at = some input.created_at_wa;
  updated_at = now;
  unread_count =
      if input.direction == "inbound"
      then increment conversation.unread_count
      else conversation.unread_count;
}

unfoldable pub incoming_conversation :
    WhatsappMessageInput → Time → Option ContactRecord → StoreInner → Conversation
incoming_conversation input now contact inner =
    let group = if is_group_of input then lookup input.conversation_id inner.groups else none in
    let shown = shown_of input contact group in
    count_incoming input now (
      show_in input shown group (
        unwrap_or (lookup input.conversation_id inner.conversations)
          (first_conversation input shown now)))

unfoldable pub incoming_message :
    WhatsappMessageInput → MessageDraws → (sender contact : Option ContactRecord) → ℤ → Message
incoming_message input draws sender contact seq = record {
  id = draws.message_id;
  project_id = input.project_id;
  company_id = input.company_id;
  conversation_id = input.conversation_id;
  channel_account_id = input.channel_id;
  conversation_seq = seq;
  wa_message_id = input.wa_message_id;
  direction = input.direction;
  sender_contact_id = input.sender_contact_id;
  sender_display_name =
      if input.direction == "inbound"
      then or_else (map_option (λ c. c.display_name) (or_else sender contact)) input.sender_name
      else none;
  message_type = input.message_type;
  text = input.text;
  media_id = none;
  media_url = none;
  thumbnail_url = none;
  mime_type = none;
  file_name = none;
  quoted_message_id = none;
  status = input.status;
  error_message = none;
  is_starred = false;
  is_pinned = false;
  reaction = none;
  sent_by_source = then_some (input.direction == "outbound") "whatsapp-rust";
  sent_by_external_user_id = if input.direction == "outbound" then input.sender_name else none;
  created_at_wa = input.created_at_wa;
  created_at = draws.now;
  updated_at = draws.now;
}

unfoldable pub announce_incoming : Message → MessageDraws → StoreInner → StoreInner
announce_incoming message draws inner =
    push_event_inner
      (new_event (if message.direction == "inbound" then "message.received" else "message.sent")
        message.project_id message.company_id (some message.channel_account_id)
        (some message.conversation_id) (some message.id) (some message.conversation_seq)
        (object (
          ("wa_message_id", of_option message.wa_message_id)
          ∷ ("status", str message.status)
          ∷ ("delivery_state", str (delivery_state_text (delivery_state message)))
          ∷ []))
        draws.stamp)
      (mark_dirty_inner message.project_id message.company_id message.conversation_id
        message.conversation_seq message.channel_account_id draws.dirty_now draws.dirty_stamp inner)

-- A message that is not stored yet.
unfoldable pub record_new : WhatsappMessageInput → MessageDraws → StoreInner → Message × StoreInner
record_new input draws inner =
    let (contact, sender, seen) = see_people input draws.now inner in
    let conversation = incoming_conversation input draws.now contact seen in
    let message = incoming_message input draws sender contact conversation.last_seq in
    (
      message,
      announce_incoming message draws (
          store_message message (record seen {
            conversations = insert input.conversation_id conversation seen.conversations;
          })),
    )

unfoldable pub record_whatsapp_message :
    WhatsappMessageInput → MessageDraws → StoreInner → Message × StoreInner
record_whatsapp_message input draws inner = elim (already_stored input inner) [
  | none ↦ record_new input draws inner
  | some existing ↦ (existing, inner)
]

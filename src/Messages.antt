-- ===== src/Messages.antt =====
-- src/state.rs: `record_message_inner`, which stores a message of the API or of the simulator, and
-- what reads and decorates stored messages.
pub mod Opening
pub mod Sequence
pub mod Pages
pub mod Incoming
use rust_zap.Prelude.{
  ℕ, String, ◌<>◌, Bool, true, false, ◌&&◌, Option, none, some, List, [], ◌∷◌, ◌++◌, if◌then◌else◌,
  not, or_else, unwrap_or, and_then, map_option, is_some, then_some, find,
}
use rust_zap.Prelude.Int.{ℤ, pos, increment}
use rust_zap.Dict.{Dict, ◌==◌, string_eq, lookup, insert, modify_or_insert}
use rust_zap.Json.{Value, str, object, of_option}
use rust_zap.Models.{Time, Conversation, Message, MediaObject}
use rust_zap.Models.Delivery.{delivery_state, delivery_state_text}
use rust_zap.Events.{Stamp, new_event}
use rust_zap.Store.{StoreInner, ContactRecord, GroupRecord, push_event_inner}
use rust_zap.Dirty.{mark_dirty_inner}
use rust_zap.Jid.{
  is_group_jid, display_name_for_jid, group_subject_for_jid, phone_number_from_value,
  rustzap_profile_picture_media_id,
}
use rust_zap.Contacts.{ContactUpsertInput, upsert_contact_inner, upsert_group_member_inner}
use rust_zap.Conversations.{apply_group_record_to_conversation}

-- The arguments of `record_message_inner`.
pub record MessageInput : Type 0 where
  pub project_id : String
  pub company_id : String
  pub conversation_id : String
  pub direction : String
  pub message_type : String
  pub text : Option String
  pub status : String
  pub quoted_message_id : Option String
  pub channel_account_id : Option String
  pub sender_contact_id : Option String
  pub sender_display_name : Option String
  pub sender_profile_picture_url : Option String
  pub sent_by_external_user_id : Option String

-- What one call draws: the clock, twice, and the identifiers, with their prefixes.
pub record MessageDraws : Type 0 where
  pub now : Time
  pub message_id : String
  pub wa_message_id : String
  pub dirty_now : Time
  pub dirty_stamp : Stamp
  pub stamp : Stamp

abbrev pub channel_of : MessageInput → String
channel_of m = unwrap_or m.channel_account_id "channel_dev"

unfoldable pub contact_id_of : MessageInput → Option String
contact_id_of m =
    let direct = if is_group_jid m.conversation_id then none else some m.conversation_id in
    if m.direction == "inbound" then or_else m.sender_contact_id direct else direct

unfoldable pub contact_step : MessageInput → Time → StoreInner → Option ContactRecord × StoreInner
contact_step m now inner = elim (contact_id_of m) [
  | none ↦ (none, inner)
  | some contact_id ↦
      let (contact, after) =
        upsert_contact_inner
          (record {
            project_id = m.project_id;
            company_id = m.company_id;
            channel_id = some (channel_of m);
            contact_id = contact_id;
            push_name = m.sender_display_name;
            profile_picture_url = m.sender_profile_picture_url;
            now = now;
          })
          inner in
      (some contact, after)
]

unfoldable pub member_step : MessageInput → Time → Option ContactRecord → StoreInner → StoreInner
member_step m now contact inner = elim m.sender_contact_id [
  | none ↦ inner
  | some sender ↦
      if is_group_jid m.conversation_id
      then upsert_group_member_inner m.conversation_id sender
          (unwrap_or (or_else m.sender_display_name (map_option (λ c. c.display_name) contact))
            (display_name_for_jid sender))
          now inner
      else inner
]

unfoldable pub group_of : MessageInput → StoreInner → Option GroupRecord
group_of m inner =
    if is_group_jid m.conversation_id then lookup m.conversation_id inner.groups else none

abbrev pub display_name_of :
    MessageInput → Option ContactRecord → Option GroupRecord → Option String
display_name_of m contact group =
    if is_group_jid m.conversation_id
    then some
        (unwrap_or (and_then group (λ g. g.subject)) (group_subject_for_jid m.conversation_id))
    else map_option (λ c. c.display_name) contact

abbrev pub display_phone_of : MessageInput → Option ContactRecord → Option String
display_phone_of m contact =
    if is_group_jid m.conversation_id then none else and_then contact (λ c. c.phone_e164)

unfoldable pub new_conversation :
    MessageInput → Time → Option ContactRecord → Option GroupRecord → Conversation
new_conversation m now contact group =
    let is_group = is_group_jid m.conversation_id in
    let phone = display_phone_of m contact in
    record {
      id = m.conversation_id;
      project_id = m.project_id;
      company_id = m.company_id;
      channel_account_id = channel_of m;
      conversation_type = if is_group then "group" else "direct";
      contact_id = if is_group then none else contact_id_of m;
      group_id = then_some is_group m.conversation_id;
      display_name = display_name_of m contact group;
      display_phone = phone;
      phone_number = and_then phone phone_number_from_value;
      profile_picture_media_id =
          if is_group
          then and_then group (λ g. rustzap_profile_picture_media_id g.profile_picture_media_id)
          else and_then contact (λ c. rustzap_profile_picture_media_id c.profile_picture_media_id);
      avatar_url =
          if is_group
          then and_then group (λ g. g.avatar_url)
          else and_then contact (λ c. c.avatar_url);
      profile_picture_url =
          if is_group
          then and_then group (λ g. g.profile_picture_url)
          else and_then contact (λ c. c.profile_picture_url);
      last_seq = pos 0;
      last_message_at = none;
      unread_count = pos 0;
      is_archived = false;
      is_muted = false;
      is_pinned = false;
      control_mode = "autopilot";
      created_at = now;
      updated_at = now;
    }

unfoldable pub refresh_conversation :
    MessageInput → Option ContactRecord → Option GroupRecord → Conversation → Conversation
refresh_conversation m contact group conversation =
    if is_group_jid m.conversation_id
    then apply_group_record_to_conversation m.conversation_id group conversation
    else record conversation {
      display_name = or_else (display_name_of m contact group) conversation.display_name;
      phone_number = elim (display_phone_of m contact) [
        | none ↦ conversation.phone_number
        | some phone ↦ phone_number_from_value phone
      ];
      display_phone = or_else (display_phone_of m contact) conversation.display_phone;
    }

-- The counters that a new message moves.
unfoldable pub count_message : MessageInput → Time → Conversation → Conversation
count_message m now conversation = record conversation {
  last_seq = increment conversation.last_seq;
  last_message_at = some now;
  updated_at = now;
  unread_count =
      if m.direction == "inbound"
      then increment conversation.unread_count
      else conversation.unread_count;
}

unfoldable pub build_message : MessageInput → MessageDraws → Option ContactRecord → ℤ → Message
build_message m draws contact seq = record {
  id = draws.message_id;
  project_id = m.project_id;
  company_id = m.company_id;
  conversation_id = m.conversation_id;
  channel_account_id = channel_of m;
  conversation_seq = seq;
  wa_message_id = some draws.wa_message_id;
  direction = m.direction;
  sender_contact_id = m.sender_contact_id;
  sender_display_name = or_else m.sender_display_name (map_option (λ c. c.display_name) contact);
  message_type = m.message_type;
  text = m.text;
  media_id = none;
  media_url = none;
  thumbnail_url = none;
  mime_type = none;
  file_name = none;
  quoted_message_id = m.quoted_message_id;
  status = m.status;
  error_message = none;
  is_starred = false;
  is_pinned = false;
  reaction = none;
  sent_by_source = then_some (m.direction == "outbound") "rustzap_api";
  sent_by_external_user_id = if m.direction == "outbound" then m.sent_by_external_user_id else none;
  created_at_wa = draws.now;
  created_at = draws.now;
  updated_at = draws.now;
}

unfoldable pub store_message : Message → StoreInner → StoreInner
store_message message inner = record inner {
  messages_by_conversation =
      modify_or_insert message.conversation_id (λ ms. ms ++ message ∷ []) (message ∷ [])
        inner.messages_by_conversation;
  messages_by_id = insert message.id message inner.messages_by_id;
}

unfoldable pub announce_message : Message → MessageDraws → StoreInner → StoreInner
announce_message message draws inner =
    push_event_inner
      (new_event (if message.direction == "inbound" then "message.received" else "message.queued")
        message.project_id message.company_id (some message.channel_account_id)
        (some message.conversation_id) (some message.id) (some message.conversation_seq)
        (object (
          ("message_id", str message.id)
          ∷ ("status", str message.status)
          ∷ ("delivery_state", str (delivery_state_text (delivery_state message)))
          ∷ []))
        draws.stamp)
      (mark_dirty_inner message.project_id message.company_id message.conversation_id
        message.conversation_seq message.channel_account_id draws.dirty_now draws.dirty_stamp inner)

-- The conversation that the message goes to, found or made, with its counters moved.
unfoldable pub open_conversation :
    MessageInput → Time → StoreInner → Option ContactRecord × Conversation × StoreInner
open_conversation m now inner =
    let (contact, after_contact) = contact_step m now inner in
    let ready = member_step m now contact after_contact in
    let group = group_of m ready in
    let conversation = count_message m now (
      refresh_conversation m contact group (
        unwrap_or (lookup m.conversation_id ready.conversations)
          (new_conversation m now contact group))) in
    (
      contact,
      conversation,
      record ready { conversations = insert m.conversation_id conversation ready.conversations },
    )

unfoldable pub record_message_inner :
    MessageInput → MessageDraws → StoreInner → Message × StoreInner
record_message_inner m draws inner =
    let (contact, conversation, opened) = open_conversation m draws.now inner in
    let message = build_message m draws contact conversation.last_seq in
    (message, announce_message message draws (store_message message opened))

-- `iter_mut().find(|message| message.id == updated.id)` and a write to what is found.
unfoldable pub replace_message : Message → List Message → List Message
replace_message updated [] = []
replace_message updated (m ∷ ms) =
    if m.id == updated.id then updated ∷ ms else m ∷ replace_message updated ms

-- A write to a message that is stored: under its id, and in its conversation's list.
unfoldable pub rewrite_message : String → Message → StoreInner → StoreInner
rewrite_message message_id updated inner = record inner {
  messages_by_id = insert message_id updated inner.messages_by_id;
  messages_by_conversation = elim (lookup updated.conversation_id inner.messages_by_conversation) [
    | none ↦ inner.messages_by_conversation
    | some messages ↦
        insert updated.conversation_id (replace_message updated messages)
          inner.messages_by_conversation
  ];
}

unfoldable pub with_media : MediaObject → Time → Message → Message
with_media media now message = record message {
  media_id = some media.id;
  media_url = media.public_url;
  thumbnail_url = media.thumbnail_url;
  mime_type = some media.mime_type;
  file_name = media.original_filename;
  updated_at = now;
}

unfoldable pub attach_media_to_message_inner :
    String → MediaObject → Time → StoreInner → Option Message × StoreInner
attach_media_to_message_inner message_id media now inner =
    elim (lookup message_id inner.messages_by_id) [
      | none ↦ (none, inner)
      | some message ↦
          let updated = with_media media now message in
          (some updated, rewrite_message message_id updated inner)
    ]

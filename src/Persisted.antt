-- ===== src/Persisted.antt =====
-- src/state.rs: the store as it is saved and loaded, `PersistedStore`, and what is left out of it:
-- WhatsApp's surfaces for updates, such as status broadcasts and newsletters.
pub mod Saved
pub mod Clean
pub mod Kept
pub mod RoundTrip
use rust_zap.Prelude.{
  String, Bool, true, false, ◌&&◌, ◌||◌, Option, none, some, List, [], ◌∷◌, ◌++◌, if◌then◌else◌,
  not, any, map, retain, filter_map, flat_map, is_some_and, is_none_or, or_else, unwrap_or,
}
use rust_zap.Prelude.Int.{ℤ, pos}
use rust_zap.Text.{trim, is_empty, split_char, replace_char}
use rust_zap.Dict.{
  Eq, Dict, ◌==◌, string_eq, pair_eq, triple_eq, quadruple_eq, lookup, insert, keys, values,
  contains_key,
}
use rust_zap.Dict.Distinct.{is_in}
use rust_zap.Json.{Value, get_str}
use rust_zap.Models.{
  Time, Conversation, Message, MediaObject, Transcript, QrState, CommonEvent,
  WebhookDeliveryAttempt,
}
use rust_zap.Store.{
  ContactRecord, GroupMemberRecord, GroupRecord, IdempotencyRecord, MediaUploadIdempotencyRecord,
  DirtyRecord, DirtyLeaseRecord, Key₃, Key₄, StoreInner,
}
use rust_zap.Jid.{
  is_updates_surface_jid, is_group_jid, group_subject_for_jid, display_name_for_jid, phone_from_jid,
  phone_number_from_jid,
}

pub record PersistedStore : Type 0 where
  pub projects : Dict String Value
  pub companies : List ((String × String) × Value)
  pub api_keys : Dict String Value
  pub channels : Dict String Value
  pub conversations : Dict String Conversation
  pub messages_by_conversation : Dict String (List Message)
  pub messages_by_id : Dict String Message
  pub idempotency : List (Key₃ × IdempotencyRecord)
  pub media_upload_idempotency : List (Key₃ × MediaUploadIdempotencyRecord)
  pub dirty : List (Key₃ × DirtyRecord)
  pub dirty_leases : List (Key₄ × DirtyLeaseRecord)
  pub consumer_state : List (Key₄ × ℤ)
  pub contacts : Dict String ContactRecord
  pub groups : Dict String GroupRecord
  pub group_members : Dict String (Dict String GroupMemberRecord)
  pub group_profile_refreshes : Dict String Time
  pub media : Dict String MediaObject
  pub transcripts : Dict String Transcript
  pub qr : Dict String QrState
  pub events : List CommonEvent
  pub callbacks : Dict String Value
  pub webhook_delivery_attempts : List WebhookDeliveryAttempt
  pub audit_logs : List Value

abbrev pub conversation_updates_surface : Conversation → Bool
conversation_updates_surface conversation =
    is_updates_surface_jid conversation.id
    || (is_some_and conversation.contact_id is_updates_surface_jid
        || is_some_and conversation.group_id is_updates_surface_jid)

abbrev pub contact_updates_surface : ContactRecord → Bool
contact_updates_surface contact =
    is_updates_surface_jid contact.id
    || (is_some_and contact.canonical_jid is_updates_surface_jid
        || is_some_and contact.lid is_updates_surface_jid)

abbrev pub group_updates_surface : String → GroupRecord → Bool
group_updates_surface group_id group =
    is_updates_surface_jid group_id || is_some_and group.wa_jid is_updates_surface_jid

abbrev pub group_member_updates_surface : GroupMemberRecord → Bool
group_member_updates_surface member =
    is_updates_surface_jid member.group_id
    || (is_updates_surface_jid member.contact_id
        || is_some_and member.wa_jid is_updates_surface_jid)

abbrev pub message_updates_surface : Message → Bool
message_updates_surface message =
    is_updates_surface_jid message.conversation_id
    || is_some_and message.sender_contact_id is_updates_surface_jid

unfoldable pub key_updates_surface : String → Bool
unfolding split_char
key_updates_surface key =
    any is_updates_surface_jid (split_char b'|' key)
    || (any is_updates_surface_jid (split_char 0 key) || is_updates_surface_jid key)

-- `collect()` into a `HashMap`: of two entries with one key the later stands.
unfoldable pub collect_into {ℓ κ} :
    {K : Type ℓ} {V : Type κ} ⦃e : Eq K⦄ → Dict K V → List (K × V) → Dict K V
collect_into map [] = map
collect_into map ((k, v) ∷ r) = collect_into (insert k v map) r

-- The keys of refreshes, without NUL.
abbrev pub plain_key : String × Time → String × Time
plain_key (key, at) = (replace_char 0 "|" key, at)

unfoldable pub normalize_group_profile_refreshes : Dict String Time → Dict String Time
normalize_group_profile_refreshes refreshes = collect_into [] (map plain_key refreshes)

unfoldable pub disallowed_conversations : PersistedStore → List String
disallowed_conversations store =
    map (λ (v : Conversation). v.id)
      (retain conversation_updates_surface (values store.conversations))
    ++ retain is_updates_surface_jid (keys store.messages_by_conversation)

-- `retain` on the inner collections, and on those that are left with something.
abbrev pub filled {ℓ κ} : {A : Type ℓ} {B : Type κ} → A → List B → Option (A × List B)
filled key [] = none
filled key (x ∷ xs) = some (key, x ∷ xs)

abbrev pub keep_filled {ℓ κ} :
    {A : Type ℓ} {B : Type κ} → (A → Bool) → (B → Bool) → A × List B → Option (A × List B)
keep_filled drops p (key, items) = if drops key then none else filled key (retain p items)

module _ (disallowed : List String) where
  abbrev pub is_disallowed_message : Message → Bool
  is_disallowed_message message =
      is_in message.conversation_id disallowed || message_updates_surface message

  abbrev pub is_disallowed_key : String → Bool
  is_disallowed_key id = is_in id disallowed || is_updates_surface_jid id

  unfoldable pub removed_message_ids : PersistedStore → List String
  removed_message_ids store =
      keys (retain (λ (e : String × Message). is_disallowed_message e.1) store.messages_by_id)
      ++ map (λ (m : Message). m.id)
          (retain is_disallowed_message
            (flat_map (λ (ms : List Message). ms) (values store.messages_by_conversation)))

  -- The writes of `sanitize_updates_surfaces`, before the placeholders.
  unfoldable pub drop_surfaces : List String → PersistedStore → PersistedStore
  drop_surfaces removed store =
      let media =
        retain
          (λ (e : String × MediaObject).
            not (is_in e.1.conversation_id disallowed)
            && (not (is_updates_surface_jid e.1.conversation_id)
                && is_none_or e.1.message_id (λ id. not (is_in id removed))))
          store.media in
      record store {
        conversations =
            retain (λ (e : String × Conversation). not (conversation_updates_surface e.1))
              store.conversations;
        contacts =
            retain (λ (e : String × ContactRecord). not (contact_updates_surface e.1))
              store.contacts;
        groups =
            retain (λ (e : String × GroupRecord). not (group_updates_surface e.0 e.1)) store.groups;
        group_members =
            filter_map
              (keep_filled is_disallowed_key
                (λ (e : String × GroupMemberRecord). not (group_member_updates_surface e.1)))
              store.group_members;
        group_profile_refreshes =
            retain (λ (e : String × Time). not (key_updates_surface e.0))
              store.group_profile_refreshes;
        messages_by_id =
            retain
              (λ (e : String × Message).
                not (is_in e.0 removed)
                && (not (is_in e.1.conversation_id disallowed)
                    && not (message_updates_surface e.1)))
              store.messages_by_id;
        messages_by_conversation =
            filter_map
              (keep_filled is_disallowed_key
                (λ (m : Message). not (is_in m.id removed) && not (message_updates_surface m)))
              store.messages_by_conversation;
        media = media;
        transcripts =
            retain (λ (e : String × Transcript). not (is_in e.0 removed)) store.transcripts;
        idempotency =
            retain
              (λ (e : Key₃ × IdempotencyRecord).
                not (is_in e.0.2 disallowed)
                && (not (is_updates_surface_jid e.0.2) && not (is_in e.1.message_id removed)))
              store.idempotency;
        media_upload_idempotency =
            retain (λ (e : Key₃ × MediaUploadIdempotencyRecord). contains_key e.1.media_id media)
              store.media_upload_idempotency;
        dirty = retain (λ (e : Key₃ × DirtyRecord). not (is_in e.0.2 disallowed)) store.dirty;
        dirty_leases =
            retain (λ (e : Key₄ × DirtyLeaseRecord). not (is_in e.0.3 disallowed))
              store.dirty_leases;
        consumer_state =
            retain (λ (e : Key₄ × ℤ). not (is_in e.0.3 disallowed)) store.consumer_state;
        events =
            retain
              (λ (event : CommonEvent).
                is_none_or event.conversation_id (λ id. not (is_updates_surface_jid id))
                && is_none_or event.message_id (λ id. not (is_in id removed)))
              store.events;
      }

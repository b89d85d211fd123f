-- ===== src/Persisted/Saved.antt =====
-- src/state.rs: `sanitize_updates_surfaces` with its placeholders for the conversations of media,
-- and the store made into what is saved and back.
use rust_zap.Prelude.{
  String, Bool, false, ◌&&◌, none, some, List, [], ◌∷◌, if◌then◌else◌, not, retain, is_some_and,
  or_else, unwrap_or, then_some, first, filter_map,
}
use rust_zap.Prelude.Int.{pos}
use rust_zap.Text.{trim, is_empty}
use rust_zap.Dict.{
  Dict, ◌==◌, string_eq, pair_eq, triple_eq, quadruple_eq, insert, values, contains_key,
}
use rust_zap.Json.{Value, get_str}
use rust_zap.Models.{Conversation, MediaObject}
use rust_zap.Store.{StoreInner}
use rust_zap.Jid.{
  is_group_jid, group_subject_for_jid, display_name_for_jid, phone_from_jid, phone_number_from_jid,
}
use rust_zap.Persisted.{
  PersistedStore, collect_into, normalize_group_profile_refreshes, disallowed_conversations,
  removed_message_ids, drop_surfaces,
}

abbrev pub channel_belongs_to_company : Value → (project_id company_id : String) → Bool
channel_belongs_to_company channel project_id company_id =
    is_some_and (get_str "project_id" channel) (λ p. p == project_id)
    && is_some_and (get_str "company_id" channel) (λ c. c == company_id)

abbrev pub ids_where : (Value → Bool) → Dict String Value → List String
ids_where p = filter_map (λ (e : String × Value). then_some (p e.1) e.0)

unfoldable pub placeholder_channel_for_project_company :
    Dict String Value → (project_id company_id : String) → String
placeholder_channel_for_project_company channels project_id company_id =
    let belongs = λ (channel : Value). channel_belongs_to_company channel project_id company_id in
    let is_connected =
      λ (channel : Value). is_some_and (get_str "status" channel) (λ s. s == "connected") in
    unwrap_or
      (or_else
        (first (ids_where (λ (channel : Value). belongs channel && is_connected channel) channels))
        (first (ids_where belongs channels)))
      "channel_dev"

unfoldable pub placeholder_conversation : Dict String Value → MediaObject → Conversation
placeholder_conversation channels media =
    let id = media.conversation_id in
    let is_group = is_group_jid id in
    record {
      id = id;
      project_id = media.project_id;
      company_id = media.company_id;
      channel_account_id =
          placeholder_channel_for_project_company channels media.project_id media.company_id;
      conversation_type = if is_group then "group" else "direct";
      contact_id = if is_group then none else some id;
      group_id = none;
      display_name = some (if is_group then group_subject_for_jid id else display_name_for_jid id);
      display_phone = if is_group then none else phone_from_jid id;
      phone_number = if is_group then none else phone_number_from_jid id;
      profile_picture_media_id = none;
      avatar_url = none;
      profile_picture_url = none;
      last_seq = pos 0;
      last_message_at = none;
      unread_count = pos 0;
      is_archived = false;
      is_muted = false;
      is_pinned = false;
      control_mode = "manual";
      created_at = media.created_at;
      updated_at = media.updated_at;
    }

abbrev pub is_orphan : Dict String Conversation → MediaObject → Bool
is_orphan conversations media =
    not (is_empty (trim media.conversation_id))
    && not (contains_key media.conversation_id conversations)

unfoldable pub add_placeholders :
    Dict String Value → List MediaObject → Dict String Conversation → Dict String Conversation
add_placeholders channels [] conversations = conversations
add_placeholders channels (media ∷ r) conversations = add_placeholders channels r (
    if contains_key media.conversation_id conversations
    then conversations
    else insert media.conversation_id (placeholder_conversation channels media) conversations)

unfoldable pub ensure_media_conversation_placeholders : PersistedStore → PersistedStore
ensure_media_conversation_placeholders store = record store {
  conversations =
      add_placeholders store.channels (retain (is_orphan store.conversations) (values store.media))
        store.conversations;
}

unfoldable pub sanitize_updates_surfaces : PersistedStore → PersistedStore
sanitize_updates_surfaces store =
    let disallowed = disallowed_conversations store in
    ensure_media_conversation_placeholders
      (drop_surfaces disallowed (removed_message_ids disallowed store) store)

-- The store's fields as they are saved.
unfoldable pub saved_fields : StoreInner → PersistedStore
saved_fields inner = record {
  projects = inner.projects;
  companies = inner.companies;
  api_keys = inner.api_keys;
  channels = inner.channels;
  conversations = inner.conversations;
  messages_by_conversation = inner.messages_by_conversation;
  messages_by_id = inner.messages_by_id;
  idempotency = inner.idempotency;
  media_upload_idempotency = inner.media_upload_idempotency;
  dirty = inner.dirty;
  dirty_leases = inner.dirty_leases;
  consumer_state = inner.consumer_state;
  contacts = inner.contacts;
  groups = inner.groups;
  group_members = inner.group_members;
  group_profile_refreshes = normalize_group_profile_refreshes inner.group_profile_refreshes;
  media = inner.media;
  transcripts = inner.transcripts;
  qr = inner.qr;
  events = inner.events;
  callbacks = inner.callbacks;
  webhook_delivery_attempts = inner.webhook_delivery_attempts;
  audit_logs = inner.audit_logs;
}

unfoldable pub from_inner : StoreInner → PersistedStore
from_inner inner = sanitize_updates_surfaces (saved_fields inner)

unfoldable pub loaded_fields : PersistedStore → StoreInner
loaded_fields store = record {
  projects = store.projects;
  companies = collect_into [] store.companies;
  api_keys = store.api_keys;
  channels = store.channels;
  conversations = store.conversations;
  messages_by_conversation = store.messages_by_conversation;
  messages_by_id = store.messages_by_id;
  idempotency = collect_into [] store.idempotency;
  media_upload_idempotency = collect_into [] store.media_upload_idempotency;
  media_upload_idempotency_inflight = [];
  dirty = collect_into [] store.dirty;
  dirty_leases = collect_into [] store.dirty_leases;
  consumer_state = collect_into [] store.consumer_state;
  contacts = store.contacts;
  groups = store.groups;
  group_members = store.group_members;
  group_profile_refreshes = normalize_group_profile_refreshes store.group_profile_refreshes;
  media = store.media;
  transcripts = store.transcripts;
  qr = store.qr;
  events = store.events;
  internal_processed_event_ids = [];
  callbacks = store.callbacks;
  webhook_delivery_attempts = store.webhook_delivery_attempts;
  audit_logs = store.audit_logs;
  sent = [];
}

unfoldable pub into_inner : PersistedStore → StoreInner
into_inner store = loaded_fields (sanitize_updates_surfaces store)

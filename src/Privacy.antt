-- ===== src/Privacy.antt =====
-- src/state.rs: what a company can ask for a contact's sake: `privacy_export_contact` and
-- `anonymize_contact`. `ts` is the RFC 3339 text of a time; serde's text of a record is the record.
pub mod Forgotten
use rust_zap.Prelude.{
  String, ◌<>◌, Bool, true, false, ◌&&◌, ◌||◌, Option, none, some, List, [], ◌∷◌, if◌then◌else◌,
  map, retain, is_some_and,
}
use rust_zap.Text.{take_chars}
use rust_zap.Dict.{Dict, ◌==◌, string_eq, insert, values, map_values}
use rust_zap.Dict.Distinct.{is_in}
use rust_zap.Json.{Value, boolean, str, object}
use rust_zap.Error.{Result, ok, err, ◌>>=◌}
use rust_zap.Models.{Time, Conversation, Message, MediaObject, Transcript}
use rust_zap.Store.{StoreInner, ContactRecord}
use rust_zap.Audit.{audit_log}
use rust_zap.Contacts.Aliases.{
  contact_aliases_for_record, contact_for_inner, resolve_contact_id_inner,
}
use rust_zap.Contacts.Views.{contact_json}

-- The object that an export replies with.
pub record PrivacyExport : Type 0 where
  pub contact : Value
  pub conversations : List Conversation
  pub messages : List Message
  pub media : List MediaObject
  pub transcripts : List Transcript

module _ (project_id company_id : String) (aliases : List String) where
  abbrev pub is_with_contact : Conversation → Bool
  is_with_contact conversation =
      conversation.project_id == project_id
      && (conversation.company_id == company_id
          && is_some_and conversation.contact_id (λ id. is_in id aliases))

  abbrev pub is_from_contact : Message → Bool
  is_from_contact message =
      message.project_id == project_id
      && (message.company_id == company_id
          && is_some_and message.sender_contact_id (λ id. is_in id aliases))

  unfoldable pub export_of : Value → StoreInner → PrivacyExport
  export_of contact inner =
      let conversations = retain is_with_contact (values inner.conversations) in
      let conversation_ids = map (λ (v : Conversation). v.id) conversations in
      let messages =
        retain
          (λ (m : Message).
            m.project_id == project_id
            && (m.company_id == company_id
                && (is_in m.conversation_id conversation_ids
                    || is_some_and m.sender_contact_id (λ id. is_in id aliases))))
          (values inner.messages_by_id) in
      let message_ids = map (λ (m : Message). m.id) messages in
      record {
        contact = contact;
        conversations = conversations;
        messages = messages;
        media =
            retain
              (λ (m : MediaObject).
                m.project_id == project_id
                && (m.company_id == company_id
                    && (is_in m.conversation_id conversation_ids
                        || is_some_and m.message_id (λ id. is_in id message_ids))))
              (values inner.media);
        transcripts =
            retain
              (λ (t : Transcript).
                t.project_id == project_id
                && (t.company_id == company_id && is_in t.message_id message_ids))
              (values inner.transcripts);
      }

  -- The writes to a conversation and to a message, where they are the contact's.
  unfoldable pub anonymize_conversation : String → Time → Conversation → Conversation
  anonymize_conversation name now conversation =
      if is_with_contact conversation
      then record conversation {
        display_name = some name;
        display_phone = none;
        phone_number = none;
        avatar_url = none;
        profile_picture_url = none;
        updated_at = now;
      }
      else conversation

  unfoldable pub anonymize_message : String → (delete_messages : Bool) → Time → Message → Message
  anonymize_message name delete_messages now message =
      if is_from_contact message
      then record message {
        sender_display_name = some name;
        text = if delete_messages then none else message.text;
        updated_at = now;
      }
      else message

unfoldable pub privacy_export_contact :
    (ts : Time → String)
    → (project_id company_id contact_id : String) → StoreInner
    → Result PrivacyExport
privacy_export_contact ts project_id company_id contact_id inner = do
  contact ← contact_for_inner inner project_id company_id contact_id
  ok (
      export_of project_id company_id (contact_aliases_for_record contact) (contact_json ts contact)
        inner)

abbrev pub anonymous_name : ContactRecord → String
anonymous_name contact = "anonymous_" <> take_chars 8 contact.id

unfoldable pub anonymize_record : Time → ContactRecord → ContactRecord
anonymize_record now contact = record contact {
  phone_e164 = none;
  push_name = none;
  display_name = anonymous_name contact;
  business_description = none;
  avatar_url = none;
  profile_picture_url = none;
  last_contact_at = now;
}

-- The writes to the store, the contact standing under `resolved`.
unfoldable pub anonymize_store :
    (project_id company_id resolved : String)
    → ContactRecord
    → (delete_messages : Bool) → Time
    → StoreInner
    → StoreInner
anonymize_store project_id company_id resolved contact delete_messages now inner =
    let aliases = contact_aliases_for_record contact in
    let name = anonymous_name contact in
    let in_message = anonymize_message project_id company_id aliases name delete_messages now in
    record inner {
      contacts = insert resolved (anonymize_record now contact) inner.contacts;
      conversations =
          map_values (anonymize_conversation project_id company_id aliases name now)
            inner.conversations;
      messages_by_id = map_values in_message inner.messages_by_id;
      messages_by_conversation = map_values (map in_message) inner.messages_by_conversation;
    }

-- What a call draws: the clock, and the id and the time of the audit entry.
pub record PrivacyDraws : Type 0 where
  pub now : Time
  pub audit_id : String
  pub audit_now : Time

unfoldable pub anonymize_contact :
    (ts : Time → String)
    → (project_id company_id contact_id : String) → (delete_messages : Bool) → PrivacyDraws
    → StoreInner
    → Result Value × StoreInner
anonymize_contact ts project_id company_id contact_id delete_messages draws inner =
    let resolved = resolve_contact_id_inner inner project_id company_id contact_id in
    elim (contact_for_inner inner project_id company_id contact_id) [
      | err failure ↦ (err failure, inner)
      | ok contact ↦ (
        ok (
            object (
              ("contact_id", str contact_id)
              ∷ ("technical_contact_id", str resolved)
              ∷ ("anonymized", boolean true)
              ∷ ("deleted", boolean delete_messages)
              ∷ ("pii_redacted", boolean true)
              ∷ [])),
        audit_log ts project_id company_id
            (if delete_messages then "privacy.delete" else "privacy.anonymize") "contact"
            (some resolved)
            (object (
              ("pii_redacted", boolean true)
              ∷ ("message_text_deleted", boolean delete_messages)
              ∷ []))
            draws.audit_id draws.audit_now
            (anonymize_store project_id company_id resolved contact delete_messages draws.now
              inner),
      )
    ]

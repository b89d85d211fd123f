-- ===== src/Conversations.antt =====
-- src/state.rs: how a request's conversation id is resolved inside a company, and the fields of a
-- conversation that a message refreshes.
pub mod Reading
pub mod Patch
pub mod Resolve
pub mod Meaning
use Prim.Native.String.{compare}
use text.Mathlib.Text.{is_le}
use rust_zap.Prelude.{
  ℕ, String, ◌<>◌, Bool, true, false, ◌&&◌, Option, none, some, List, [], ◌∷◌, ◌++◌, if◌then◌else◌,
  not, or_else, unwrap_or, and_then, map_option, is_some_and, is_some, then_some, find,
}
use rust_zap.Text.{trim, contains_char}
use rust_zap.Dict.{Dict, ◌==◌, string_eq, lookup, values}
use rust_zap.Error.{Result, ok, err, not_found, ◌>>=◌}
use rust_zap.Models.{Time, Conversation}
use rust_zap.Store.{StoreInner, ContactRecord, GroupRecord}
use rust_zap.Jid.{
  phone_from_jid, phone_number_from_value, phone_number_from_jid, phone_to_jid,
  group_subject_for_jid, rustzap_profile_picture_media_id,
}
use rust_zap.Contacts.{contact_phone_number}
use rust_zap.Text.Order.{sort_texts, dedup}
use rust_zap.Contacts.Aliases.{phone_in}

abbrev pub conversation_matches_tenant : Conversation → String → String → Bool
conversation_matches_tenant conversation project_id company_id =
    conversation.project_id == project_id && conversation.company_id == company_id

pub is_phone : Option String → String → Bool
is_phone none phone_number = false
is_phone (some n) phone_number = n == phone_number

-- The pushes of one round of the loop over the contacts.
pub aliases_of : String → String → String → ContactRecord → List String
unfolding contact_phone_number is_phone
aliases_of project_id company_id phone_number contact =
    if contact.project_id == project_id
      && (contact.company_id == company_id && is_phone (contact_phone_number contact) phone_number)
    then elim contact.lid [ none ↦ [] | some l ↦ l ∷ [] ]
      ++ (elim contact.canonical_jid [ none ↦ [] | some j ↦ j ∷ [] ] ++ contact.id ∷ [])
    else []

pub aliases_loop : String → String → String → List ContactRecord → List String
unfolding aliases_of
aliases_loop project_id company_id phone_number [] = []
aliases_loop project_id company_id phone_number (contact ∷ r) =
    aliases_of project_id company_id phone_number contact
    ++ aliases_loop project_id company_id phone_number r

abbrev pub is_owned : StoreInner → String → String → String → Bool
is_owned inner project_id company_id id =
    is_some_and (lookup id inner.conversations)
      (λ conversation. conversation_matches_tenant conversation project_id company_id)

unfoldable pub conversation_id_for_phone_number_inner :
    StoreInner → (project_id company_id phone_number : String) → Option String
unfolding aliases_loop sort_texts dedup phone_to_jid
conversation_id_for_phone_number_inner inner project_id company_id phone_number =
    find (is_owned inner project_id company_id) (
      dedup (
        sort_texts (
          aliases_loop project_id company_id phone_number (values inner.contacts)
          ++ phone_to_jid phone_number ∷ [])))

unfoldable pub resolve_conversation_id_inner :
    StoreInner → (project_id company_id conversation_id : String) → String
unfolding phone_in
resolve_conversation_id_inner inner project_id company_id conversation_id =
    let trimmed = trim conversation_id in
    if is_owned inner project_id company_id trimmed then trimmed else elim (phone_in trimmed) [
      | none ↦ trimmed
      | some phone_number ↦
          unwrap_or
            (conversation_id_for_phone_number_inner inner project_id company_id phone_number)
            (phone_to_jid phone_number)
    ]

-- `filter(…).ok_or_else(…)`
unfoldable pub only_owned : String → String → Option Conversation → Result Conversation
only_owned project_id company_id none = err (not_found "conversation not found")
only_owned project_id company_id (some conversation) =
    if conversation_matches_tenant conversation project_id company_id
    then ok conversation
    else err (not_found "conversation not found")

unfoldable pub conversation_for_inner :
    StoreInner → (project_id company_id conversation_id : String) → Result Conversation
conversation_for_inner inner project_id company_id conversation_id =
    only_owned project_id company_id (
      lookup (resolve_conversation_id_inner inner project_id company_id conversation_id)
        inner.conversations)

unfoldable pub public_conversation_id : Conversation → String
public_conversation_id conversation = unwrap_or conversation.phone_number conversation.id

unfoldable pub apply_group_record_to_conversation :
    String → Option GroupRecord → Conversation → Conversation
unfolding group_subject_for_jid rustzap_profile_picture_media_id
apply_group_record_to_conversation group_id group conversation = record conversation {
  conversation_type = "group";
  contact_id = none;
  group_id = some group_id;
  display_phone = none;
  phone_number = none;
  display_name =
      some (unwrap_or (and_then group (λ g. g.subject)) (group_subject_for_jid group_id));
  profile_picture_media_id =
      and_then group (λ g. rustzap_profile_picture_media_id g.profile_picture_media_id);
  avatar_url = and_then group (λ g. g.avatar_url);
  profile_picture_url = and_then group (λ g. g.profile_picture_url);
}

unfoldable pub conversation_phone_number_for_inner : StoreInner → Conversation → Option String
unfolding phone_number_from_value phone_number_from_jid contact_phone_number
conversation_phone_number_for_inner inner conversation =
    if conversation.conversation_type == "group"
    then none
    else or_else conversation.phone_number (
        or_else (and_then conversation.display_phone phone_number_from_value) (
          or_else (phone_number_from_jid conversation.id) (
            or_else
              (and_then (and_then conversation.contact_id (λ id. lookup id inner.contacts))
                contact_phone_number)
              (and_then (lookup conversation.id inner.contacts) contact_phone_number))))

show_phone : String → Conversation → Conversation
show_phone phone_number conversation = record conversation {
  display_phone = or_else conversation.display_phone (some ("+" <> phone_number));
  phone_number = some phone_number;
}

unfoldable pub apply_public_conversation_fields : StoreInner → Conversation → Conversation
unfolding show_phone
apply_public_conversation_fields inner conversation =
    let shown = record conversation {
      profile_picture_media_id =
          rustzap_profile_picture_media_id conversation.profile_picture_media_id;
    } in
    if conversation.conversation_type == "group"
    then record shown { phone_number = none }
    else elim (conversation_phone_number_for_inner inner shown) [
      | none ↦ shown
      | some phone_number ↦ show_phone phone_number shown
    ]

-- What `conversation` shows of a stored conversation.
unfoldable pub publish : StoreInner → Conversation → Conversation
publish inner stored = apply_public_conversation_fields inner (
    if stored.conversation_type == "group"
    then apply_group_record_to_conversation stored.id (lookup stored.id inner.groups) stored
    else stored)

unfoldable pub conversation :
    (project_id company_id conversation_id : String) → StoreInner → Result Conversation
conversation project_id company_id conversation_id inner = do
  stored ← conversation_for_inner inner project_id company_id conversation_id
  ok (publish inner stored)

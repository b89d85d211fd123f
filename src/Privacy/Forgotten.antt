-- ===== src/Privacy/Forgotten.antt =====
-- src/state.rs: what `anonymize_contact` leaves of a contact.
use rust_zap.Prelude.{
  ◌≡◌, ◌<>◌, refl, String, Bool, false, ◌&&◌, Option, none, some, List, [], arith, inl, inr,
  Bool-cases, if◌then◌else◌, map, map_option, All, is_some, is_some_and, not, unwrap_or, ◌||◌,
}
use rust_zap.Dict.{◌==◌, string_eq, lookup, values}
use rust_zap.Dict.Laws.{lookup-insert, beq_refl}
use rust_zap.Dict.Retain.{lookup-map_values, All-map_values, All-map}
use rust_zap.Text.{take_chars}
use rust_zap.Error.{Result, ok, err, Result-cases}
use rust_zap.Json.{Value}
use rust_zap.Models.{Time, Conversation, Message}
use rust_zap.Store.{StoreInner, ContactRecord}
use rust_zap.Messages.Sequence.{messages_of}
use rust_zap.Audit.{audit_log}
use rust_zap.Contacts.Aliases.{
  contact_aliases_for_record, contact_for_inner, resolve_contact_id_inner,
}
use rust_zap.Privacy.{
  is_with_contact, is_from_contact, anonymize_conversation, anonymize_message, anonymize_record,
  anonymize_store, PrivacyDraws, anonymize_contact,
}

abbrev pub shows_contact : Conversation → Bool
shows_contact v =
    is_some v.display_phone
    || (is_some v.phone_number || (is_some v.avatar_url || is_some v.profile_picture_url))

abbrev pub is_named : String → Message → Bool
is_named name m = is_some_and m.sender_display_name (λ n. n == name)

abbrev pub is_titled : String → Conversation → Bool
is_titled name v = is_some_and v.display_name (λ n. n == name)

module _ (p c : String) (aliases : List String) (name : String) where
  -- A conversation with the contact is under the anonymous name, with no number and no picture.
  abbrev pub IsFaceless : Conversation → Type 0
  IsFaceless v =
      ((is_with_contact p c aliases v && shows_contact v) ≡ false)
      × ((is_with_contact p c aliases v && not (is_titled name v)) ≡ false)

  anonymize_conversation-IsFaceless :
      (now : Time) (v : Conversation) → IsFaceless (anonymize_conversation p c aliases name now v)
  unfolding anonymize_conversation
  anonymize_conversation-IsFaceless now v = elim (Bool-cases (is_with_contact p c aliases v)) [
    | inl with_contact ↦
        rw with_contact (rw with_contact refl, rw (with_contact, beq_refl name) refl)
    | inr other ↦ rw other (rw other refl, rw other refl)
  ]

module _ (p c : String) (aliases : List String) (name : String) (delete_messages : Bool) where
  -- A message of the contact's is under the anonymous name, and has no text if that is to go.
  abbrev pub IsNameless : Message → Type 0
  IsNameless m =
      ((is_from_contact p c aliases m && not (is_named name m)) ≡ false)
      × ((is_from_contact p c aliases m && (delete_messages && is_some m.text)) ≡ false)

  anonymize_message-IsNameless :
      (now : Time) (m : Message)
      → IsNameless (anonymize_message p c aliases name delete_messages now m)
  unfolding anonymize_message
  anonymize_message-IsNameless now m = elim (Bool-cases (is_from_contact p c aliases m)) [
    | inl from ↦ rw from (rw (from, beq_refl name) refl, rw from (ground arith))
    | inr other ↦ rw other (rw other refl, rw other refl)
  ]

  listed-IsNameless :
      (now : Time) (o : Option (List Message))
      → All IsNameless (
          unwrap_or
            (map_option (map (anonymize_message p c aliases name delete_messages now)) o)
            [])
  listed-IsNameless now none = tt
  listed-IsNameless now (some ms) =
      All-map IsNameless (anonymize_message p c aliases name delete_messages now)
        (anonymize_message-IsNameless now) ms

module _ (p c asked : String) (delete_messages : Bool) where
  -- What an anonymisation leaves, by its reply.
  abbrev pub IsForgotten : StoreInner → Result Value × StoreInner → Type 0
  IsForgotten s (err e, t) = t ≡ s
  IsForgotten s (ok reply, t) =
      (contact : ContactRecord) × (left : ContactRecord) × (contact_for_inner s p c asked
        ≡ ok contact)
      × ((k : String)
          → lookup k t.contacts ≡ (
              if resolve_contact_id_inner s p c asked == k then some left else lookup k s.contacts))
      × (left.display_name ≡ "anonymous_" <> take_chars 8 contact.id)
      × (left.phone_e164 ≡ none)
      × (left.push_name ≡ none)
      × (left.business_description ≡ none)
      × (left.avatar_url ≡ none)
      × (left.profile_picture_url ≡ none)
      × All (IsFaceless p c (contact_aliases_for_record contact) left.display_name)
          (values t.conversations)
      × All (IsNameless p c (contact_aliases_for_record contact) left.display_name delete_messages)
          (values t.messages_by_id)
      × ((v : String)
          → All
              (IsNameless p c (contact_aliases_for_record contact) left.display_name
                delete_messages)
              (messages_of v t))

  pub anonymize_contact-IsForgotten :
      (ts : Time → String) (draws : PrivacyDraws) (s : StoreInner)
      → IsForgotten s (anonymize_contact ts p c asked delete_messages draws s)
  unfolding anonymize_contact anonymize_store anonymize_record audit_log
  anonymize_contact-IsForgotten ts draws s = elim (Result-cases (contact_for_inner s p c asked)) [
    | inl (e, refused) ↦ rw (refused, anonymize_contact) refl
    | inr (contact, found) ↦
        let aliases = contact_aliases_for_record contact in
        let left = anonymize_record draws.now contact in
        rw (found, anonymize_contact)
          (
            contact,
            left,
            found,
            (λ k. lookup-insert (resolve_contact_id_inner s p c asked) k left s.contacts),
            refl,
            refl,
            refl,
            refl,
            refl,
            refl,
            All-map_values (IsFaceless p c aliases left.display_name)
                (anonymize_conversation p c aliases left.display_name draws.now)
                (anonymize_conversation-IsFaceless p c aliases left.display_name draws.now)
                s.conversations,
            All-map_values (IsNameless p c aliases left.display_name delete_messages)
                (anonymize_message p c aliases left.display_name delete_messages draws.now)
                (anonymize_message-IsNameless p c aliases left.display_name delete_messages
                  draws.now)
                s.messages_by_id,
            (λ v.
                rw
                  (lookup-map_values
                    (map
                      (anonymize_message p c aliases left.display_name delete_messages draws.now))
                    v s.messages_by_conversation)
                  (listed-IsNameless p c aliases left.display_name delete_messages draws.now
                    (lookup v s.messages_by_conversation))),
          )
  ]

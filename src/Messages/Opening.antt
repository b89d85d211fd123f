-- ===== src/Messages/Opening.antt =====
-- src/state.rs: what `open_conversation` does to the store.
use rust_zap.Prelude.{
  ◌≡◌, refl, ◌∙◌, ap, Option, none, some, inl, inr, Bool-cases, Option-cases, unwrap_or,
}
use rust_zap.Prelude.Int.{ℤ, pos, increment}
use rust_zap.Dict.{lookup, insert, string_eq}
use rust_zap.Models.{Time, Conversation}
use rust_zap.Store.{StoreInner, ContactRecord, GroupRecord}
use rust_zap.Jid.{is_group_jid}
use rust_zap.Contacts.{upsert_contact_inner, upsert_group_member_inner}
use rust_zap.Conversations.{apply_group_record_to_conversation}
use rust_zap.Messages.{
  MessageInput, contact_id_of, contact_step, member_step, group_of, new_conversation,
  refresh_conversation, count_message, open_conversation,
}

-- The sequence number of the last message of a conversation, 0 where there is none.
abbrev pub last_seq_of : Option Conversation → ℤ
last_seq_of none = pos 0
last_seq_of (some conversation) = conversation.last_seq

contact_step_frame :
    (m : MessageInput) (now : Time) (s : StoreInner)
    → (contact_step m now s).1 ≡ record s { contacts = (contact_step m now s).1.contacts }
unfolding contact_step upsert_contact_inner
contact_step_frame m now s = elim (Option-cases (contact_id_of m)) [
  | inl nobody ↦ rw (nobody, contact_step) refl
  | inr (id, e) ↦ rw (e, contact_step) refl
]

member_step_frame :
    (m : MessageInput) (now : Time) (contact : Option ContactRecord) (s : StoreInner)
    → member_step m now contact s
      ≡ record s { group_members = (member_step m now contact s).group_members }
unfolding member_step upsert_group_member_inner
member_step_frame m now contact s = elim (Option-cases m.sender_contact_id) [
  | inl nobody ↦ rw (nobody, member_step) refl
  | inr (id, e) ↦ elim (Bool-cases (is_group_jid m.conversation_id)) [
    | inl group ↦ rw (e, member_step) (rw group refl)
    | inr direct ↦ rw (e, member_step) (rw direct refl)
  ]
]

-- The store when the contact and the member have been seen to.
abbrev ready : MessageInput → Time → StoreInner → StoreInner
ready m now s = let (contact, t) = contact_step m now s in member_step m now contact t

ready_frame :
    (m : MessageInput) (now : Time) (s : StoreInner)
    → ready m now s ≡ record s {
      contacts = (contact_step m now s).1.contacts;
      group_members = (ready m now s).group_members;
    }
ready_frame m now s =
    let (contact, t) = contact_step m now s in
    member_step_frame m now contact t
    ∙ ap (λ (u : StoreInner). record u { group_members = (ready m now s).group_members })
        (contact_step_frame m now s)

pub open_conversation_frame :
    (m : MessageInput) (now : Time) (s : StoreInner)
    → let (contact, conversation, t) = open_conversation m now s in
      t ≡ record s {
        contacts = (contact_step m now s).1.contacts;
        group_members = (ready m now s).group_members;
        conversations = insert m.conversation_id conversation s.conversations;
      }
unfolding open_conversation
open_conversation_frame m now s =
    let (contact, conversation, t) = open_conversation m now s in
    ap
      (λ (u : StoreInner). record u {
        conversations = insert m.conversation_id conversation u.conversations;
      })
      (ready_frame m now s)

refresh_conversation-last_seq :
    (m : MessageInput) (contact : Option ContactRecord) (group : Option GroupRecord)
    (v : Conversation)
    → (refresh_conversation m contact group v).last_seq ≡ v.last_seq
unfolding refresh_conversation apply_group_record_to_conversation
refresh_conversation-last_seq m contact group v =
    elim (Bool-cases (is_group_jid m.conversation_id)) [
      | inl group_chat ↦ rw group_chat refl
      | inr direct ↦ rw direct refl
    ]

-- A message moves its conversation's sequence number on by one, from 0 in a new conversation.
pub open_conversation-last_seq :
    (m : MessageInput) (now : Time) (s : StoreInner)
    → (open_conversation m now s).1.last_seq
      ≡ increment (last_seq_of (lookup m.conversation_id s.conversations))
unfolding open_conversation count_message new_conversation
open_conversation-last_seq m now s =
    let (contact, t) = contact_step m now s in
    let u = member_step m now contact t in
    let group = group_of m u in
    ap increment (
      refresh_conversation-last_seq m contact group (
        unwrap_or (lookup m.conversation_id u.conversations) (new_conversation m now contact group))
      ∙ opened_seq (lookup m.conversation_id u.conversations)
      ∙ ap (λ (w : StoreInner). last_seq_of (lookup m.conversation_id w.conversations))
          (ready_frame m now s))
  where
    opened_seq :
        (o : Option Conversation)
        → (unwrap_or o
            (new_conversation m now (contact_step m now s).0 (group_of m (ready m now s)))).last_seq
          ≡ last_seq_of o
    opened_seq none = refl
    opened_seq (some v) = refl

-- ===== src/Messages/Incoming/Opening.antt =====
-- src/state.rs: what an incoming message does to the store besides being stored.
use rust_zap.Prelude.{
  ◌≡◌, refl, ◌∙◌, sym, ap, String, Option, none, some, inl, inr, Bool-cases, Option-cases,
  unwrap_or, if◌then◌else◌,
}
use rust_zap.Prelude.Int.{increment}
use rust_zap.Dict.{lookup, string_eq}
use rust_zap.Models.{Time, Conversation}
use rust_zap.Store.{StoreInner, ContactRecord, GroupRecord}
use rust_zap.Contacts.{upsert_group_member_inner}
use rust_zap.Contacts.Enrichment.{upsert_contact_with_alt_frame}
use rust_zap.Conversations.{apply_group_record_to_conversation}
use rust_zap.Messages.Opening.{last_seq_of}
use rust_zap.Messages.Incoming.{
  WhatsappMessageInput, is_group_of, is_group_inbound, chat_contact_id, see_contact, see_member,
  see_people, Shown, first_conversation, show_in, count_incoming, incoming_conversation,
}

-- The two stores differ in contacts and group members at most.
abbrev pub SeesPeople : StoreInner → StoreInner → Type 0
SeesPeople s t = t ≡ record s { contacts = t.contacts; group_members = t.group_members }

contacts-SeesPeople : (s t : StoreInner) → t ≡ record s { contacts = t.contacts } → SeesPeople s t
contacts-SeesPeople s t f =
    f
    ∙ ap (λ (w : StoreInner). record s { contacts = t.contacts; group_members = w.group_members })
        (sym f)

see_contact-SeesPeople :
    (input : WhatsappMessageInput) (id name alt : Option String) (now : Time) (s : StoreInner)
    → SeesPeople s (see_contact input id name alt now s).1
unfolding see_contact
see_contact-SeesPeople input none name alt now s = refl
see_contact-SeesPeople input (some id) name alt now s =
    contacts-SeesPeople s _ (upsert_contact_with_alt_frame _ alt s)

see_member-SeesPeople :
    (input : WhatsappMessageInput) (now : Time) (sender contact : Option ContactRecord)
    (s : StoreInner)
    → SeesPeople s (see_member input now sender contact s)
unfolding see_member upsert_group_member_inner
see_member-SeesPeople input now sender contact s =
    elim (Option-cases (if is_group_of input then input.sender_contact_id else none)) [
      | inl nobody ↦ rw (nobody, see_member) refl
      | inr (id, e) ↦ rw (e, see_member) refl
    ]

SeesPeople-then : (s t u : StoreInner) → SeesPeople s t → SeesPeople t u → SeesPeople s u
SeesPeople-then s t u first second =
    second
    ∙ ap (λ (w : StoreInner). record w { contacts = u.contacts; group_members = u.group_members })
        first

pub see_people-SeesPeople :
    (input : WhatsappMessageInput) (now : Time) (s : StoreInner)
    → let (contact, sender, t) = see_people input now s in SeesPeople s t
unfolding see_people
see_people-SeesPeople input now s =
    let (contact, t) =
      see_contact input (chat_contact_id input) input.contact_name input.contact_alt_jid now s in
    let sender_id = if is_group_inbound input then input.sender_contact_id else none in
    let (sender, u) = see_contact input sender_id input.sender_name input.sender_alt_jid now t in
    SeesPeople-then s u _
      (SeesPeople-then s t u
        (see_contact-SeesPeople input (chat_contact_id input) input.contact_name
          input.contact_alt_jid now s)
        (see_contact-SeesPeople input sender_id input.sender_name input.sender_alt_jid now t))
      (see_member-SeesPeople input now sender contact u)

show_in-last_seq :
    (input : WhatsappMessageInput) (shown : Shown) (group : Option GroupRecord) (v : Conversation)
    → (show_in input shown group v).last_seq ≡ v.last_seq
unfolding show_in apply_group_record_to_conversation
show_in-last_seq input shown group v = elim (Bool-cases (is_group_of input)) [
  | inl group_chat ↦ rw group_chat refl
  | inr direct ↦ rw direct refl
]

opened_seq :
    (input : WhatsappMessageInput) (shown : Shown) (now : Time) (o : Option Conversation)
    → (unwrap_or o (first_conversation input shown now)).last_seq ≡ last_seq_of o
unfolding first_conversation
opened_seq input shown now none = refl
opened_seq input shown now (some v) = refl

pub incoming_conversation-last_seq :
    (input : WhatsappMessageInput) (now : Time) (contact : Option ContactRecord) (s : StoreInner)
    → (incoming_conversation input now contact s).last_seq
      ≡ increment (last_seq_of (lookup input.conversation_id s.conversations))
unfolding incoming_conversation count_incoming
incoming_conversation-last_seq input now contact s = ap increment (
    show_in-last_seq input _ _ _
    ∙ opened_seq input _ now (lookup input.conversation_id s.conversations))

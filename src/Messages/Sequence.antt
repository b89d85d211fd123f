-- ===== src/Messages/Sequence.antt =====
-- src/state.rs: the sequence numbers that `record_message_inner` gives, and the lists of messages.
use rust_zap.Prelude.{
  String, ◌≡◌, refl, ◌∙◌, ap, Option, none, some, List, [], ◌∷◌, ◌++◌, arith, inl, inr, Bool-cases,
  unwrap_or, map_option, if◌then◌else◌, All,
}
use rust_zap.Prelude.Int.{ℤ, ◌≤ℤ◌, ◌<ℤ◌, i64_max, increment, lt-increment}
use rust_zap.Dict.{Dict, ◌==◌, lookup, insert, modify_or_insert, string_eq}
use rust_zap.Dict.Laws.{lookup-insert, lookup-modify_or_insert}
use rust_zap.Models.{Conversation, Message}
use rust_zap.Store.{StoreInner, push_event_inner}
use rust_zap.Dirty.{mark_dirty_inner}
use rust_zap.Messages.{
  MessageInput, MessageDraws, open_conversation, build_message, store_message, announce_message,
  record_message_inner,
}
use rust_zap.Messages.Opening.{last_seq_of, open_conversation_frame, open_conversation-last_seq}

-- The list rises strictly in its sequence numbers, and none is past `n`.
abbrev pub Numbered : List Message → ℤ → Type 0
Numbered [] n = Unit
Numbered (m ∷ r) n =
    (m.conversation_seq ≤ℤ n) × All (λ k. m.conversation_seq <ℤ k.conversation_seq) r × Numbered r n

abbrev pub messages_of : String → StoreInner → List Message
messages_of v s = unwrap_or (lookup v s.messages_by_conversation) []

abbrev pub seq_of : String → StoreInner → ℤ
seq_of v s = last_seq_of (lookup v s.conversations)

-- Every conversation's stored messages rise up to the conversation's own counter.
abbrev pub IsSequenced : StoreInner → Type 0
IsSequenced s = (v : String) → Numbered (messages_of v s) (seq_of v s)

append-lower :
    (a : Message) (r : List Message) (m : Message)
    → All (λ k. a.conversation_seq <ℤ k.conversation_seq) r
    → a.conversation_seq <ℤ m.conversation_seq
    → All (λ k. a.conversation_seq <ℤ k.conversation_seq) (r ++ m ∷ [])
append-lower a [] m h l = (l, tt)
append-lower a (b ∷ r) m h l = (h.0, append-lower a r m h.1 l)

Numbered-append :
    (r : List Message) (m : Message) (n : ℤ)
    → Numbered r n
    → n <ℤ m.conversation_seq
    → Numbered (r ++ m ∷ []) m.conversation_seq
Numbered-append [] m n h l = (omega arith, tt, tt)
Numbered-append (a ∷ r) m n h l =
    (omega arith, append-lower a r m h.1 (omega arith), Numbered-append r m n h.2 l)

pub pushed :
    (k v : String) (x : Message) (d : Dict String (List Message))
    → unwrap_or (lookup v (modify_or_insert k (λ ms. ms ++ x ∷ []) (x ∷ []) d)) []
      ≡ (if k == v then unwrap_or (lookup v d) [] ++ x ∷ [] else unwrap_or (lookup v d) [])
pushed k v x d = elim (Bool-cases (k == v)) [
  | inl same ↦
      rw (lookup-modify_or_insert k v (λ ms. ms ++ x ∷ []) (x ∷ []) d)
        (rw same (rw ((string_eq.beq_iff k v).0 same) (opened (lookup v d))))
  | inr other ↦ rw (lookup-modify_or_insert k v (λ ms. ms ++ x ∷ []) (x ∷ []) d) (rw other refl)
]
  where
    opened :
        (o : Option (List Message))
        → unwrap_or (some (unwrap_or (map_option (λ ms. ms ++ x ∷ []) o) (x ∷ []))) []
          ≡ unwrap_or o [] ++ x ∷ []
    opened none = refl
    opened (some ms) = refl

pub counted :
    (k v : String) (w : Conversation) (s : StoreInner)
    → last_seq_of (lookup v (insert k w s.conversations))
      ≡ (if k == v then w.last_seq else seq_of v s)
counted k v w s = elim (Bool-cases (k == v)) [
  | inl same ↦ rw (lookup-insert k v w s.conversations) (rw same refl)
  | inr other ↦ rw (lookup-insert k v w s.conversations) (rw other refl)
]

-- A message is appended to its conversation's list, and to no other.
pub record_message-messages :
    (m : MessageInput) (draws : MessageDraws) (s : StoreInner) (v : String)
    → let (message, t) = record_message_inner m draws s in
      messages_of v t
      ≡ (if m.conversation_id == v then messages_of v s ++ message ∷ [] else messages_of v s)
unfolding record_message_inner store_message build_message announce_message push_event_inner
    mark_dirty_inner
record_message-messages m draws s v =
    let (contact, conversation, t) = open_conversation m draws.now s in
    let message = build_message m draws contact conversation.last_seq in
    pushed m.conversation_id v message t.messages_by_conversation
    ∙ ap
        (λ (u : StoreInner).
          if m.conversation_id == v then messages_of v u ++ message ∷ [] else messages_of v u)
        (open_conversation_frame m draws.now s)

-- The message takes its conversation's next number, and no other conversation's counter moves.
pub record_message-seq :
    (m : MessageInput) (draws : MessageDraws) (s : StoreInner) (v : String)
    → let (message, t) = record_message_inner m draws s in
      (seq_of v t ≡ (if m.conversation_id == v then message.conversation_seq else seq_of v s))
      × (message.conversation_seq ≡ increment (seq_of m.conversation_id s))
unfolding record_message_inner store_message build_message announce_message push_event_inner
    mark_dirty_inner
record_message-seq m draws s v =
    let (contact, conversation, t) = open_conversation m draws.now s in
    (
      ap (λ (u : StoreInner). seq_of v u) (open_conversation_frame m draws.now s)
          ∙ counted m.conversation_id v conversation s,
      open_conversation-last_seq m draws.now s,
    )

-- A message that is appended to one list and takes the counter's next number keeps the lists
-- rising.
pub append-IsSequenced :
    (k : String) (message : Message) (s t : StoreInner)
    → IsSequenced s
    → seq_of k s <ℤ i64_max
    → ((v : String)
        → messages_of v t ≡ (if k == v then messages_of v s ++ message ∷ [] else messages_of v s))
    → ((v : String) → seq_of v t ≡ (if k == v then message.conversation_seq else seq_of v s))
    → message.conversation_seq ≡ increment (seq_of k s)
    → IsSequenced t × (seq_of k s <ℤ message.conversation_seq)
append-IsSequenced k message s t h room listed counted next =
    let above : seq_of k s <ℤ message.conversation_seq = rw next (lt-increment (seq_of k s) room) in
    (
      (λ v. elim (Bool-cases (k == v)) [
        | inl same ↦
            let e = (string_eq.beq_iff k v).0 same in
            rw (listed v, counted v)
              (rw same
                (Numbered-append (messages_of v s) message (seq_of v s) (h v) (rw (← e) above)))
        | inr other ↦ rw (listed v, counted v) (rw other (h v))
      ]),
      above,
    )

-- While the conversation's counter is below the greatest `i64`, a recorded message keeps every
-- conversation's messages strictly rising in their sequence numbers, none past the counter, and
-- takes a number above the counter.
pub record_message-IsSequenced :
    (m : MessageInput) (draws : MessageDraws) (s : StoreInner)
    → IsSequenced s
    → seq_of m.conversation_id s <ℤ i64_max
    → let (message, t) = record_message_inner m draws s in
      IsSequenced t × (seq_of m.conversation_id s <ℤ message.conversation_seq)
record_message-IsSequenced m draws s h room =
    let (message, t) = record_message_inner m draws s in
    append-IsSequenced m.conversation_id message s t h room (record_message-messages m draws s)
      (λ v. (record_message-seq m draws s v).0) (record_message-seq m draws s m.conversation_id).1

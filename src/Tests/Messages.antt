-- ===== src/Tests/Messages.antt =====
-- The theorems on stored messages at concrete states.
use rust_zap.Prelude.{suc, ◌≡◌, ◌∙◌, ◌++◌, none, [], ◌∷◌, arith, length, map, if◌then◌else◌}
use rust_zap.Prelude.Int.{pos, ◌<ℤ◌}
use rust_zap.Dict.{lookup, ◌==◌, string_eq}
use rust_zap.Store.{empty}
use rust_zap.Conversations.{conversation_for_inner}
use rust_zap.Conversations.Meaning.{IsFound, conversation_for_inner-IsFound}
use rust_zap.Messages.{record_message_inner}
use rust_zap.Messages.Sequence.{
  IsSequenced, messages_of, seq_of, record_message-messages, record_message-seq,
  record_message-IsSequenced,
}
use rust_zap.Messages.Pages.{normalize_message_media_urls}
use rust_zap.Messages.Pages.Walk.{read_pages, list_messages-read_pages}
use rust_zap.Tests.Fixtures.{
  chat, inbound, message_draws, one_message, two_messages, config, one_conversation,
}

record_message-messages_example : messages_of chat two_messages ≡ (
    if chat == chat
    then messages_of chat one_message
      ++ (record_message_inner inbound (message_draws "msg_2") one_message).0 ∷ []
    else messages_of chat one_message)
record_message-messages_example =
    record_message-messages inbound (message_draws "msg_2") one_message chat

empty-IsSequenced : IsSequenced empty
unfolding lookup
empty-IsSequenced v = tt

one_message-IsSequenced : IsSequenced one_message
unfolding lookup
one_message-IsSequenced =
    (record_message-IsSequenced inbound (message_draws "msg_1") empty empty-IsSequenced
      (omega arith)).0

one_message-seq : seq_of chat one_message ≡ pos 1
unfolding lookup
one_message-seq =
    (record_message-seq inbound (message_draws "msg_1") empty chat).0
    ∙ (record_message-seq inbound (message_draws "msg_1") empty chat).1

record_message-IsSequenced_example :
    let (message, t) = record_message_inner inbound (message_draws "msg_2") one_message in
    IsSequenced t × (seq_of chat one_message <ℤ message.conversation_seq)
record_message-IsSequenced_example =
    record_message-IsSequenced inbound (message_draws "msg_2") one_message one_message-IsSequenced
      (rw one_message-seq (omega arith))

list_messages-read_pages_example :
    read_pages config chat 1 two_messages (suc (length (messages_of chat two_messages))) none
    ≡ map (normalize_message_media_urls config) (messages_of chat two_messages)
list_messages-read_pages_example =
    list_messages-read_pages config chat 0 two_messages (seq_of chat two_messages)
      (record_message-IsSequenced_example.0 chat)

conversation_for_inner-IsFound_example :
    IsFound "p" "c" one_conversation "5511999"
      (conversation_for_inner one_conversation "p" "c" "5511999")
conversation_for_inner-IsFound_example =
    conversation_for_inner-IsFound "p" "c" one_conversation "5511999"

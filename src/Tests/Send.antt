-- ===== src/Tests/Send.antt =====
-- The theorems on sends at concrete requests.
use rust_zap.Prelude.{◌≡◌, refl, ap, true, false, none, some}
use rust_zap.Dict.{lookup}
use rust_zap.Error.{Result, ok, err, idempotency_conflict}
use rust_zap.Store.{StoreInner, empty}
use rust_zap.Conversations.{resolve_conversation_id_inner}
use rust_zap.Messages.{record_message_inner}
use rust_zap.Models.{Message}
use rust_zap.Send.{
  send_new, link_media, request_media, input_of, SendMessageOutcome,
  prepare_send_message_with_actor,
}
use rust_zap.Send.Idempotency.{prepare_send-replay, prepare_send-conflict, prepare_send-error}
use rust_zap.Tests.Fixtures.{chat, send_text, text_hash, send_draws, message_draws}

abbrev first : Result SendMessageOutcome × StoreInner
first =
    prepare_send_message_with_actor text_hash "p" "c" chat "key" (send_text "hi") none
      (send_draws "msg_1") empty

abbrev sent : Message
sent =
    (record_message_inner (input_of "p" "c" chat (send_text "hi") none none empty)
      (message_draws "msg_1") empty).0

first_sent : first.0 ≡ ok (record { message = sent; should_dispatch = true })
unfolding prepare_send_message_with_actor send_new link_media request_media lookup
    resolve_conversation_id_inner rust_zap.Text.trim
    rust_zap.Conversations.conversation_id_for_phone_number_inner
first_sent = refl

prepare_send-replay_example :
    prepare_send_message_with_actor text_hash "p" "c" "5511888" "key"
      (send_text "hi")
      (some "u")
      (send_draws "msg_2")
      first.1
    ≡ (ok (record { message = sent; should_dispatch = false }), first.1)
prepare_send-replay_example =
    prepare_send-replay text_hash ("p", "c", "key") chat (send_text "hi") none (send_draws "msg_1")
      empty "5511888" (send_text "hi") (some "u") (send_draws "msg_2") first_sent refl

prepare_send-conflict_example :
    prepare_send_message_with_actor text_hash "p" "c" chat "key"
      (send_text "bye")
      none
      (send_draws "msg_2")
      first.1
    ≡ (err (idempotency_conflict "same Idempotency-Key used with different request body"), first.1)
prepare_send-conflict_example =
    prepare_send-conflict text_hash ("p", "c", "key") chat (send_text "hi") none
      (send_draws "msg_1") empty chat (send_text "bye") none (send_draws "msg_2") first_sent refl
      (λ e. cc e)

prepare_send-error_example :
    (prepare_send_message_with_actor text_hash "p" "c" chat "key"
      (send_text "bye")
      none
      (send_draws "msg_2")
      first.1).1
    ≡ first.1
prepare_send-error_example =
    prepare_send-error text_hash ("p", "c", "key") chat (send_text "bye") none (send_draws "msg_2")
      first.1
      (ap (λ (out : Result SendMessageOutcome × StoreInner). out.0) prepare_send-conflict_example)

-- ===== src/Tests/Updates.antt =====
-- The theorems on changes to stored messages at concrete states.
use rust_zap.Prelude.{refl, true, String, none, some}
use rust_zap.Dict.{lookup}
use rust_zap.Models.{Time}
use rust_zap.Store.{empty}
use rust_zap.Messages.{record_message_inner}
use rust_zap.Updates.{
  UpdateDraws, update_outbound_after_dispatch, update_receipt_with_context, set_message_flag,
  set_message_reaction,
}
use rust_zap.Updates.Agreement.{Agrees}
use rust_zap.Updates.Kept.{updates-Agrees, record_message-Agrees}
use rust_zap.Tests.Fixtures.{inbound, message_draws, one_message, stamp}

empty-Agrees : Agrees empty
unfolding lookup
empty-Agrees = record { keyed = tt; listed = λ v. (tt, tt) }

one_message-Agrees : Agrees (record_message_inner inbound (message_draws "msg_1") empty).1
unfolding lookup
one_message-Agrees = record_message-Agrees inbound (message_draws "msg_1") empty empty-Agrees refl

abbrev no_time : Time → String
no_time t = "2026-01-01T00:00:00Z"

abbrev draws : UpdateDraws
draws = record { now = 2000; dirty_now = 2001; dirty_stamp = stamp; stamp = stamp }

updates-Agrees_example :
    Agrees
      (update_outbound_after_dispatch "msg_1"
        (some "wamid")
        "sent_to_whatsapp"
        none
        draws
        one_message).1
    × Agrees (update_receipt_with_context no_time "msg_1" "read" (some 1900) draws one_message).1
    × Agrees (set_message_flag "msg_1" "pin" true draws.now one_message).1
    × Agrees (set_message_reaction "msg_1" (some "+1") draws one_message).1
updates-Agrees_example =
    updates-Agrees no_time "msg_1" "sent_to_whatsapp" "read" "pin" (some "wamid") none (some "+1")
      true (some 1900) draws one_message one_message-Agrees

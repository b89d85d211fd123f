-- ===== src/Tests/Dispatch.antt =====
-- The theorems on dispatches at concrete states.
use rust_zap.Prelude.{◌≡◌, refl, String, none, some, [], true, false, or_else}
use rust_zap.Dict.{lookup, insert}
use rust_zap.Error.{ok}
use rust_zap.Json.{get, get_field, get_str, object}
use rust_zap.Models.{Time, Message, CommonEvent}
use rust_zap.Store.{StoreInner, empty}
use rust_zap.Messages.{record_message_inner}
use rust_zap.Updates.{message_for_company, UpdateDraws, set_message_flag}
use rust_zap.Dispatch.{
  ended, Blob, Sent, DispatchDraws, is_terminal, finish_dispatch, process_outbound_send_request,
}
use rust_zap.Dispatch.Steps.{Step, Steps}
use rust_zap.Dispatch.Once.{finish_dispatch_once}
use rust_zap.Tests.Fixtures.{stamp, inbound, message_draws, one_message}

abbrev no_time : Time → String
no_time t = "2026-01-01T00:00:00Z"

abbrev draws : DispatchDraws
draws = record {
  reconcile_now = 1;
  reconcile_stamp = stamp;
  status_now = 2;
  qr_now = 3;
  update = record { now = 4; dirty_now = 5; dirty_stamp = stamp; stamp = stamp };
}

abbrev request : CommonEvent
request = record {
  event_id = "evt_2";
  event_type = "outbound.send.requested";
  project_id = "p";
  company_id = "c";
  channel_id = none;
  conversation_id = none;
  message_id = some "msg_1";
  conversation_seq = none;
  trace_id = "trc_2";
  causation_id = none;
  correlation_id = "cor_2";
  occurred_at = 6;
  produced_at = 6;
  payload = object [];
}

abbrev message : Message
message = (record_message_inner inbound (message_draws "msg_1") empty).0

named : or_else (get_str "message_id" request.payload) request.message_id ≡ some message.id
unfolding get get_field record_message_inner rust_zap.Messages.build_message
named = refl

found :
    message_for_company request.project_id request.company_id message.id one_message ≡ ok message
unfolding message_for_company record_message_inner lookup insert rust_zap.Updates.of_company
    rust_zap.Messages.announce_message rust_zap.Store.push_event_inner
    rust_zap.Dirty.mark_dirty_inner rust_zap.Messages.store_message
    rust_zap.Messages.open_conversation rust_zap.Messages.member_step rust_zap.Messages.contact_step
    rust_zap.Messages.contact_id_of rust_zap.Jid.is_group_jid rust_zap.Contacts.upsert_contact_inner
    rust_zap.Messages.build_message
found = refl

-- The message is sent, then flagged, and the dispatch of the same request is begun anew.
abbrev after_sending : StoreInner
after_sending = (finish_dispatch no_time message "channel" (Sent.sent "wamid") draws one_message).1

abbrev after_flag : StoreInner
after_flag = (set_message_flag message.id "star" true 7 after_sending).1

abbrev later : StoreInner
later = (process_outbound_send_request no_time request false true Blob.bytes draws after_flag).1

steps : Steps no_time message.id after_sending later
steps =
    Steps.then (Steps.then Steps.done (Step.flag after_sending message.id "star" true 7))
      (Step.work after_flag request false true Blob.bytes draws)

finish_dispatch_once_example :
    (m n : Message) × ((finish_dispatch no_time message "channel"
        (Sent.sent "wamid")
        draws
        one_message).0
      ≡ ok m)
    × (is_terminal m.status ≡ true)
    × (is_terminal n.status ≡ true)
    × (process_outbound_send_request no_time request true true Blob.bytes draws later
        ≡ (ended (ok n), later))
finish_dispatch_once_example =
    finish_dispatch_once no_time request message message "channel" (Sent.sent "wamid") true true
      Blob.bytes draws draws one_message later named found steps

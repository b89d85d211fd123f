-- ===== src/Dispatch.antt =====
-- src/state.rs: the dispatch of a message to WhatsApp: `dispatch_prepared_message` up to the sending
-- and from its result on, and the worker's `process_outbound_send_request`. What the provider says
-- of a channel and what the storage has of a media object are arguments.
pub mod Ended
pub mod Working
pub mod Steps
pub mod Once
use rust_zap.Prelude.{
  ℕ, String, ◌<>◌, Bool, true, false, ◌&&◌, ◌||◌, Option, none, some, List, [], ◌∷◌, if◌then◌else◌,
  not, or_else, unwrap_or, and_then, map_option, is_some_and,
}
use rust_zap.Text.{contains_text}
use rust_zap.Dict.{◌==◌, string_eq, lookup}
use rust_zap.Json.{Value, get_str}
use rust_zap.Error.{Result, ok, err, bad_request, ◌>>=◌}
use rust_zap.Models.{Time, Message, Conversation, CommonEvent}
use rust_zap.Events.{Stamp}
use rust_zap.Store.{StoreInner}
use rust_zap.Jid.{is_group_jid, phone_to_jid}
use rust_zap.Conversations.{conversation_matches_tenant, conversation_phone_number_for_inner}
use rust_zap.Channels.{is_status, reconcile_channel_runtime_status, set_channel_status, set_qr}
use rust_zap.Updates.{UpdateDraws, update_outbound_after_dispatch, message_for_company}

abbrev pub channel_for_conversation : String → StoreInner → Option String
channel_for_conversation conversation_id inner =
    map_option (λ v. v.channel_account_id) (lookup conversation_id inner.conversations)

abbrev pub target_in : StoreInner → Message → Option Conversation → String
target_in inner message none = message.conversation_id
target_in inner message (some conversation) =
    if not (conversation_matches_tenant conversation message.project_id message.company_id)
    then message.conversation_id
    else if conversation.conversation_type == "group"
    then conversation.id
    else unwrap_or
        (map_option phone_to_jid (conversation_phone_number_for_inner inner conversation))
        message.conversation_id

-- A direct message goes to the phone number, where one is known.
unfoldable pub outbound_send_target_jid : Message → StoreInner → String
outbound_send_target_jid message inner =
    if is_group_jid message.conversation_id
    then message.conversation_id
    else target_in inner message (lookup message.conversation_id inner.conversations)

-- What a dispatch comes to before anything is sent: an answer, or a send to an address.
pub data Begun : Type 0 where
  ended : Result Message → Begun
  sends : (channel_id target : String) → Begun

-- What the storage has: nothing of the bytes, an error, or the bytes.
pub data Blob : Type 0 where
  bytes : Blob
  no_bytes : Blob
  unreadable : String → Blob

-- What the provider answers to a send.
pub data Sent : Type 0 where
  sent : String → Sent
  refused : String → Sent
  timed_out : Sent

abbrev pub is_terminal : String → Bool
is_terminal status = status == "sent_to_whatsapp" || status == "failed"

-- The clock and the draws of one dispatch.
pub record DispatchDraws : Type 0 where
  pub reconcile_now : Time
  pub reconcile_stamp : Stamp
  pub status_now : Time
  pub qr_now : Time
  pub update : UpdateDraws

abbrev pub ended_by : Result Message × StoreInner → Begun × StoreInner
ended_by (r, inner) = (ended r, inner)

module _ (ts : Time → String) where
  unfoldable pub fail : String → String → DispatchDraws → StoreInner → Result Message × StoreInner
  fail message_id reason draws inner =
      update_outbound_after_dispatch message_id none "failed" (some reason) draws.update inner

  -- The channel is marked as gone.
  unfoldable pub mark_gone : String → DispatchDraws → StoreInner → StoreInner
  mark_gone channel_id draws inner =
      (set_qr ts channel_id "disconnected" none draws.qr_now
        (set_channel_status ts channel_id "disconnected" none draws.status_now inner).1).1

  unfoldable pub check_blob :
      Message → String → String → Blob → DispatchDraws → StoreInner → Begun × StoreInner
  check_blob message channel_id media_id bytes draws inner =
      (sends channel_id (outbound_send_target_jid message inner), inner)
  check_blob message channel_id media_id no_bytes draws inner =
      ended_by
        (fail message.id ("media " <> (media_id <> " has no upload bytes available")) draws inner)
  check_blob message channel_id media_id (unreadable reason) draws inner =
      ended_by (fail message.id reason draws inner)

  -- What is sent: the media, else the text; with neither the dispatch ends.
  unfoldable pub choose_send :
      Message → Option String → String → Blob → DispatchDraws → StoreInner → Begun × StoreInner
  choose_send message request_text channel_id blob draws inner = elim message.media_id [
    | some media_id ↦ check_blob message channel_id media_id blob draws inner
    | none ↦ elim request_text [
      | some text ↦ (sends channel_id (outbound_send_target_jid message inner), inner)
      | none ↦ (ended (ok message), inner)
    ]
  ]

  abbrev pub not_connected : String → String
  not_connected channel_id = "WhatsApp channel " <> (channel_id <> " is not connected")

  -- `first` and `second` are what the provider says of the channel, twice.
  unfoldable pub begin_dispatch :
      Message
      → Option String
      → (first second : Bool) → Blob
      → DispatchDraws
      → StoreInner
      → Begun × StoreInner
  begin_dispatch message request_text first second blob draws inner =
      let channel_id =
        unwrap_or (channel_for_conversation message.conversation_id inner)
          message.channel_account_id in
      let seen =
        reconcile_channel_runtime_status ts first channel_id draws.reconcile_now
          draws.reconcile_stamp inner in
      if not (is_some_and (lookup channel_id seen.channels) (is_status "connected"))
      then ended_by (fail message.id (not_connected channel_id) draws seen)
      else if not second
      then ended_by
          (fail message.id (not_connected channel_id) draws (mark_gone channel_id draws seen))
      else choose_send message request_text channel_id blob draws seen

  -- The message's state once the answer is there, in the store as it then is.
  unfoldable pub finish_dispatch :
      Message → String → Sent → DispatchDraws → StoreInner → Result Message × StoreInner
  finish_dispatch message channel_id (sent wa_message_id) draws inner =
      update_outbound_after_dispatch message.id (some wa_message_id) "sent_to_whatsapp" none
        draws.update inner
  finish_dispatch message channel_id (refused error_message) draws inner =
      fail message.id error_message draws (
        if contains_text error_message "is not connected"
        then mark_gone channel_id draws inner
        else inner)
  finish_dispatch message channel_id timed_out draws inner =
      fail message.id "WhatsApp send timed out" draws inner

  unfoldable pub begin_message :
      CommonEvent
      → (first second : Bool) → Blob
      → DispatchDraws
      → StoreInner
      → Result Message
      → Begun × StoreInner
  begin_message event first second blob draws inner (err e) = (ended (err e), inner)
  begin_message event first second blob draws inner (ok message) =
      if is_terminal message.status
      then (ended (ok message), inner)
      else begin_dispatch message (or_else (get_str "text" event.payload) message.text) first second
          blob draws inner

  -- The worker, up to the sending.
  unfoldable pub process_outbound_send_request :
      CommonEvent → (first second : Bool) → Blob → DispatchDraws → StoreInner → Begun × StoreInner
  process_outbound_send_request event first second blob draws inner =
      elim (or_else (get_str "message_id" event.payload) event.message_id) [
        | none ↦ (ended (err (bad_request "outbound send event missing message_id")), inner)
        | some message_id ↦
            begin_message event first second blob draws inner
              (message_for_company event.project_id event.company_id message_id inner)
      ]

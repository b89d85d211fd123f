-- ===== src/Dispatch/Working.antt =====
-- src/state.rs: the two halves of a dispatch, against a message whose own dispatch has ended.
use rust_zap.Prelude.{
  ◌≡◌, refl, String, Bool, true, false, Option, none, some, inl, inr, Bool-cases, Option-cases, not,
  unwrap_or, or_else, is_some_and,
}
use rust_zap.Dict.{string_eq, lookup}
use rust_zap.Error.{Result, ok, err}
use rust_zap.Json.{get_str}
use rust_zap.Text.{contains_text}
use rust_zap.Models.{Time, Message, CommonEvent}
use rust_zap.Events.{Stamp}
use rust_zap.Store.{StoreInner, push_event_inner}
use rust_zap.Channels.{is_status, set_channel_status, set_qr, reconcile_channel_runtime_status}
use rust_zap.Updates.{message_for_company}
use rust_zap.Dispatch.{
  Blob, bytes, no_bytes, unreadable, Sent, sent, refused, timed_out, DispatchDraws, is_terminal,
  fail, mark_gone, check_blob, choose_send, channel_for_conversation, not_connected, begin_dispatch,
  finish_dispatch, begin_message, process_outbound_send_request,
}
use rust_zap.Dispatch.Ended.{IsEnded, kept, update-IsEnded}

module _ (ts : Time → String) (p c id : String) where
  reconcile-by_id :
      (connected : Bool) (channel_id : String) (now : Time) (stamp : Stamp) (s : StoreInner)
      → (reconcile_channel_runtime_status ts connected channel_id now stamp s).messages_by_id
        ≡ s.messages_by_id
  unfolding reconcile_channel_runtime_status push_event_inner
  reconcile-by_id true channel_id now stamp s = refl
  reconcile-by_id false channel_id now stamp s =
      elim (Option-cases (lookup channel_id s.channels)) [
        | inl missing ↦ rw (missing, reconcile_channel_runtime_status) refl
        | inr (channel, e) ↦ elim (Bool-cases (is_status "connected" channel)) [
          | inl up ↦ rw (e, reconcile_channel_runtime_status) (rw up refl)
          | inr down ↦ rw (e, reconcile_channel_runtime_status) (rw down refl)
        ]
      ]

  fail-IsEnded :
      (key reason : String) (draws : DispatchDraws) (s : StoreInner)
      → IsEnded p c id s
      → IsEnded p c id (fail ts key reason draws s).1
  unfolding fail
  fail-IsEnded key reason draws s k =
      update-IsEnded p c id key none "failed" (some reason) draws.update s refl k

  mark_gone-IsEnded :
      (channel_id : String) (draws : DispatchDraws) (s : StoreInner)
      → IsEnded p c id s
      → IsEnded p c id (mark_gone ts channel_id draws s)
  unfolding mark_gone set_channel_status set_qr
  mark_gone-IsEnded channel_id draws s k = kept p c id s (mark_gone ts channel_id draws s) refl k

  pub finish-IsEnded :
      (message : Message) (channel_id : String) (answer : Sent) (draws : DispatchDraws)
      (s : StoreInner)
      → IsEnded p c id s
      → IsEnded p c id (finish_dispatch ts message channel_id answer draws s).1
  unfolding finish_dispatch
  finish-IsEnded message channel_id (sent wa_id) draws s k =
      update-IsEnded p c id message.id (some wa_id) "sent_to_whatsapp" none draws.update s refl k
  finish-IsEnded message channel_id timed_out draws s k =
      fail-IsEnded message.id "WhatsApp send timed out" draws s k
  finish-IsEnded message channel_id (refused text) draws s k =
      elim (Bool-cases (contains_text text "is not connected")) [
        | inl gone ↦
            rw (gone, finish_dispatch)
              (fail-IsEnded message.id text draws (mark_gone ts channel_id draws s)
                (mark_gone-IsEnded channel_id draws s k))
        | inr there ↦ rw (there, finish_dispatch) (fail-IsEnded message.id text draws s k)
      ]

  check_blob-IsEnded :
      (message : Message) (channel_id media_id : String) (blob : Blob) (draws : DispatchDraws)
      (s : StoreInner)
      → IsEnded p c id s
      → IsEnded p c id (check_blob ts message channel_id media_id blob draws s).1
  unfolding check_blob
  check_blob-IsEnded message channel_id media_id bytes draws s k = k
  check_blob-IsEnded message channel_id media_id no_bytes draws s k =
      fail-IsEnded message.id _ draws s k
  check_blob-IsEnded message channel_id media_id (unreadable reason) draws s k =
      fail-IsEnded message.id reason draws s k

  choose_send-IsEnded :
      (message : Message) (text : Option String) (channel_id : String) (blob : Blob)
      (draws : DispatchDraws) (s : StoreInner)
      → IsEnded p c id s
      → IsEnded p c id (choose_send ts message text channel_id blob draws s).1
  unfolding choose_send
  choose_send-IsEnded message text channel_id blob draws s k =
      elim (Option-cases message.media_id) [
        | inr (media_id, e) ↦
            rw (e, choose_send) (check_blob-IsEnded message channel_id media_id blob draws s k)
        | inl bare ↦ elim (Option-cases text) [
          | inr (words, t) ↦ rw (bare, choose_send) (rw t k)
          | inl mute ↦ rw (bare, choose_send) (rw mute k)
        ]
      ]

  begin_dispatch-IsEnded :
      (message : Message) (text : Option String) (first second : Bool) (blob : Blob)
      (draws : DispatchDraws) (s : StoreInner)
      → IsEnded p c id s
      → IsEnded p c id (begin_dispatch ts message text first second blob draws s).1
  unfolding begin_dispatch
  begin_dispatch-IsEnded message text first second blob draws s k =
      let channel_id =
        unwrap_or (channel_for_conversation message.conversation_id s) message.channel_account_id in
      let seen =
        reconcile_channel_runtime_status ts first channel_id draws.reconcile_now
          draws.reconcile_stamp s in
      let k' =
        kept p c id s seen
          (reconcile-by_id first channel_id draws.reconcile_now draws.reconcile_stamp s) k in
      elim (Bool-cases
        (not (is_some_and (lookup channel_id seen.channels) (is_status "connected")))) [
          | inl away ↦
              rw (away, begin_dispatch)
                (fail-IsEnded message.id (not_connected ts channel_id) draws seen k')
          | inr there ↦ elim (Bool-cases (not second)) [
            | inl gone ↦
                rw (there, begin_dispatch)
                  (rw gone (
                    fail-IsEnded message.id (not_connected ts channel_id) draws
                      (mark_gone ts channel_id draws seen)
                      (mark_gone-IsEnded channel_id draws seen k')))
            | inr up ↦
                rw (there, begin_dispatch)
                  (rw up (choose_send-IsEnded message text channel_id blob draws seen k'))
          ]
        ]

  begin_message-IsEnded :
      (event : CommonEvent) (first second : Bool) (blob : Blob) (draws : DispatchDraws)
      (s : StoreInner) (found : Result Message)
      → IsEnded p c id s
      → IsEnded p c id (begin_message ts event first second blob draws s found).1
  unfolding begin_message
  begin_message-IsEnded event first second blob draws s (err e) k = k
  begin_message-IsEnded event first second blob draws s (ok message) k =
      elim (Bool-cases (is_terminal message.status)) [
        | inl over ↦ rw (over, begin_message) k
        | inr going ↦
            rw (going, begin_message) (begin_dispatch-IsEnded message _ first second blob draws s k)
      ]

  pub work-IsEnded :
      (event : CommonEvent) (first second : Bool) (blob : Blob) (draws : DispatchDraws)
      (s : StoreInner)
      → IsEnded p c id s
      → IsEnded p c id (process_outbound_send_request ts event first second blob draws s).1
  unfolding process_outbound_send_request
  work-IsEnded event first second blob draws s k =
      elim (Option-cases (or_else (get_str "message_id" event.payload) event.message_id)) [
        | inl unnamed ↦ rw (unnamed, process_outbound_send_request) k
        | inr (key, e) ↦
            rw (e, process_outbound_send_request)
              (begin_message-IsEnded event first second blob draws s
                (message_for_company event.project_id event.company_id key s) k)
      ]

-- ===== src/Dispatch/Once.antt =====
-- src/state.rs: a send request that the worker meets again once the dispatch of its message has
-- ended.
use rust_zap.Prelude.{
  ◌<>◌, ◌≡◌, refl, ◌∙◌, sym, ap, String, Bool, true, ◌&&◌, Option, none, some, inl, inr, Bool-cases,
  Option-cases, or_else,
}
use rust_zap.Dict.{◌==◌, string_eq, lookup}
use rust_zap.Dict.Laws.{lookup-insert_self}
use rust_zap.Error.{Result, ok, err, not_found}
use rust_zap.Json.{get_str}
use rust_zap.Text.{contains_text}
use rust_zap.Models.{Time, Message, CommonEvent}
use rust_zap.Store.{StoreInner, push_event_inner}
use rust_zap.Dirty.{mark_dirty_inner}
use rust_zap.Messages.{rewrite_message}
use rust_zap.Channels.{set_channel_status, set_qr}
use rust_zap.Updates.{
  UpdateDraws, edit_message, announcing, message_event, mark_message_dirty, with_dispatch,
  update_outbound_after_dispatch, of_company, message_for_company,
}
use rust_zap.Dispatch.Ended.{Owned}
use rust_zap.Dispatch.Steps.{Steps, Steps-IsEnded}
use rust_zap.Dispatch.{
  ended, Blob, Sent, sent, refused, timed_out, DispatchDraws, is_terminal, fail, mark_gone,
  finish_dispatch, begin_message, process_outbound_send_request,
}

-- A message whose dispatch has ended, as a reply and in the store.
abbrev pub Ends : String → String → String → Result Message × StoreInner → Type 0
Ends p c id out =
    (m : Message) × (out.0 ≡ ok m) × (is_terminal m.status ≡ true) × Owned p c id m out.1

module _ (p c id : String) where
  pub owned :
      (m : Message) (s : StoreInner) → message_for_company p c id s ≡ ok m → Owned p c id m s
  unfolding message_for_company of_company
  owned m s h = elim (Option-cases (lookup id s.messages_by_id)) [
    | inl missing ↦
        let no : message_for_company p c id s
            ≡ err (not_found ("message " <> (id <> " not found"))) =
          rw (missing, message_for_company) refl in
        absurd (cc (no, h))
    | inr (n, e) ↦
        let reads : message_for_company p c id s ≡ of_company p c id (some n) =
          rw (e, message_for_company) refl in
        let that : of_company p c id (some n) ≡ ok m = sym reads ∙ h in
        elim (Bool-cases (n.project_id == p && n.company_id == c)) [
          | inl own ↦
              let same : ok n ≡ ok m = sym (rw (own, of_company) refl) ∙ that in
              let one : n ≡ m = cc same in (rw e (ap (λ (x : Message). some x) one), rw (← one) own)
          | inr foreign ↦
              let no : of_company p c id (some n)
                  ≡ err (not_found ("message " <> (id <> " not found"))) =
                rw (foreign, of_company) refl in
              absurd (cc (no, that))
        ]
  ]

  update-Ends :
      (wa_id : Option String) (status : String) (error : Option String) (draws : UpdateDraws)
      (old : Message) (s : StoreInner)
      → is_terminal status ≡ true
      → Owned p c id old s
      → Ends p c id (update_outbound_after_dispatch id wa_id status error draws s)
  unfolding update_outbound_after_dispatch edit_message announcing message_event mark_message_dirty
      mark_dirty_inner push_event_inner with_dispatch rewrite_message
  update-Ends wa_id status error draws old s final o =
      let new = with_dispatch wa_id status error draws.now old in
      rw (o.0, edit_message) (new, refl, final, (lookup-insert_self id new s.messages_by_id, o.1))

module _ (ts : Time → String) (message : Message) (p c : String) where
  finish-Ends :
      (channel_id : String) (answer : Sent) (draws : DispatchDraws) (old : Message) (s : StoreInner)
      → Owned p c message.id old s
      → Ends p c message.id (finish_dispatch ts message channel_id answer draws s)
  unfolding finish_dispatch fail mark_gone set_channel_status set_qr
  finish-Ends channel_id (sent wa_id) draws old s o =
      update-Ends p c message.id (some wa_id) "sent_to_whatsapp" none draws.update old s refl o
  finish-Ends channel_id timed_out draws old s o =
      update-Ends p c message.id none "failed" (some "WhatsApp send timed out") draws.update old s
        refl o
  finish-Ends channel_id (refused text) draws old s o =
      elim (Bool-cases (contains_text text "is not connected")) [
        | inl gone ↦
            rw (gone, finish_dispatch)
              (update-Ends p c message.id none "failed" (some text) draws.update old
                (mark_gone ts channel_id draws s) refl o)
        | inr there ↦
            rw (there, finish_dispatch)
              (update-Ends p c message.id none "failed" (some text) draws.update old s refl o)
      ]

worker-ended :
    (ts : Time → String) (event : CommonEvent) (id : String) (m : Message) (first second : Bool)
    (blob : Blob) (draws : DispatchDraws) (s : StoreInner)
    → or_else (get_str "message_id" event.payload) event.message_id ≡ some id
    → Owned event.project_id event.company_id id m s
    → is_terminal m.status ≡ true
    → process_outbound_send_request ts event first second blob draws s ≡ (ended (ok m), s)
unfolding process_outbound_send_request message_for_company of_company begin_message
worker-ended ts event id m first second blob draws s named o final =
    rw (named, process_outbound_send_request)
      (rw (o.0, message_for_company) (rw (o.1, of_company) (rw (final, begin_message) refl)))

-- However WhatsApp answers a send, the message of a company ends as sent or failed. After that, over
-- any dispatches, flags, reactions, messages recorded under other ids, leases and acks, and any
-- receipts of other messages but none of this one, the worker that meets the request again, with any
-- readings of the channel and the storage, answers with the message as it then stands, still sent or
-- failed, sends nothing and changes nothing.
pub finish_dispatch_once :
    (ts : Time → String) (event : CommonEvent) (message stored : Message) (channel_id : String)
    (answer : Sent) (first second : Bool) (blob : Blob) (draws draws_again : DispatchDraws)
    (s u : StoreInner)
    → or_else (get_str "message_id" event.payload) event.message_id ≡ some message.id
    → message_for_company event.project_id event.company_id message.id s ≡ ok stored
    → Steps ts message.id (finish_dispatch ts message channel_id answer draws s).1 u
    → (m n : Message) × ((finish_dispatch ts message channel_id answer draws s).0 ≡ ok m)
      × (is_terminal m.status ≡ true)
      × (is_terminal n.status ≡ true)
      × (process_outbound_send_request ts event first second blob draws_again u ≡ (ended (ok n), u))
finish_dispatch_once ts event message stored channel_id answer first second blob draws draws_again s
      u named found steps =
    let p = event.project_id in
    let c = event.company_id in
    let own = owned p c message.id stored s found in
    let (m, reply, final, after) =
      finish-Ends ts message p c channel_id answer draws stored s own in
    let (n, still, later) = Steps-IsEnded ts p c message.id steps (m, final, after) in
    (
      m,
      n,
      reply,
      final,
      still,
      worker-ended ts event message.id n first second blob draws_again u named later still,
    )

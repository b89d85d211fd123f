-- ===== src/Dispatch/Steps.antt =====
-- src/state.rs: what can happen in the store once the dispatch of a message has ended, the receipts
-- of that message left out.
use rust_zap.Prelude.{ℕ, ◌≡◌, refl, ◌∙◌, ap, String, Bool, false, Option}
use rust_zap.Dict.{Dict, ◌==◌, string_eq, lookup}
use rust_zap.Dict.Laws.{lookup-insert}
use rust_zap.Models.{Time, Message, CommonEvent, DirtyAckRequest}
use rust_zap.Store.{StoreInner, push_event_inner}
use rust_zap.Dirty.{mark_dirty_inner, list_dirty, ack_dirty}
use rust_zap.Messages.{MessageInput, MessageDraws, record_message_inner}
use rust_zap.Updates.{
  UpdateDraws, edit_message, message_event, mark_message_dirty, with_status, with_flag,
  with_reaction, update_receipt_with_context, set_message_flag, set_message_reaction,
}
use rust_zap.Updates.Kept.{record_message-by_id}
use rust_zap.Dispatch.{Blob, Sent, DispatchDraws, finish_dispatch, process_outbound_send_request}
use rust_zap.Dispatch.Ended.{
  IsEnded, kept, edit_message-IsEnded, announcing-IsEnded, with_flag-Fits,
}
use rust_zap.Dispatch.Working.{finish-IsEnded, work-IsEnded}
use rust_zap.Dirty.Frames.{ack_dirty-messages}
use rust_zap.Dict.{quadruple_eq, triple_eq}

-- What can happen: either half of the dispatch of any message, by a worker or not; a receipt of
-- another message; a flag or a reaction on any; another message stored; and what the consumers do.
pub data Step (ts : Time → String) (id : String) : StoreInner → StoreInner → Type 0 where
  work :
      (s : StoreInner) (event : CommonEvent) (first second : Bool) (blob : Blob)
      (draws : DispatchDraws)
      → Step ts id s (process_outbound_send_request ts event first second blob draws s).1
  finish :
      (s : StoreInner) (message : Message) (channel_id : String) (answer : Sent)
      (draws : DispatchDraws)
      → Step ts id s (finish_dispatch ts message channel_id answer draws s).1
  receipt :
      (s : StoreInner) (other kind : String) (seen : Option Time) (draws : UpdateDraws)
      → (other == id) ≡ false
      → Step ts id s (update_receipt_with_context ts other kind seen draws s).1
  flag :
      (s : StoreInner) (any kind : String) (value : Bool) (now : Time)
      → Step ts id s (set_message_flag any kind value now s).1
  react :
      (s : StoreInner) (any : String) (reaction : Option String) (draws : UpdateDraws)
      → Step ts id s (set_message_reaction any reaction draws s).1
  record_new :
      (s : StoreInner) (m : MessageInput) (draws : MessageDraws)
      → ((record_message_inner m draws s).0.id == id) ≡ false
      → Step ts id s (record_message_inner m draws s).1
  lease :
      (s : StoreInner) (p c x : String) (limit : ℕ) (now : Time) (token : ℕ → String)
      → Step ts id s (list_dirty p c x limit now token s).0
  ack :
      (s : StoreInner) (p c v : String) (r : DirtyAckRequest) (now : Time)
      → Step ts id s (ack_dirty p c v r now s).1

pub data Steps (ts : Time → String) (id : String) : StoreInner → StoreInner → Type 0 where
  done : {s : StoreInner} → Steps ts id s s
  then : {s t u : StoreInner} → Steps ts id s t → Step ts id t u → Steps ts id s u

module _ (ts : Time → String) (p c id : String) where
  step-IsEnded : {s t : StoreInner} → Step ts id s t → IsEnded p c id s → IsEnded p c id t
  unfolding update_receipt_with_context set_message_flag set_message_reaction message_event
      mark_message_dirty mark_dirty_inner push_event_inner with_status with_reaction list_dirty
  step-IsEnded (Step.work s event first second blob draws) k =
      work-IsEnded ts p c id event first second blob draws s k
  step-IsEnded (Step.finish s message channel_id answer draws) k =
      finish-IsEnded ts p c id message channel_id answer draws s k
  step-IsEnded (Step.receipt s other kind seen draws apart) k =
      announcing-IsEnded p c id _ (edit_message other (with_status kind draws.now) s) (λ m t. refl)
        (edit_message-IsEnded p c id other (with_status kind draws.now) s
          (λ same. absurd (cc (same, apart))) k)
  step-IsEnded (Step.flag s any kind value now) k =
      edit_message-IsEnded p c id any (with_flag kind value now) s
        (λ same. with_flag-Fits p c id kind value now) k
  step-IsEnded (Step.react s any reaction draws) k =
      announcing-IsEnded p c id _ (edit_message any (with_reaction reaction draws.now) s)
        (λ m t. refl)
        (edit_message-IsEnded p c id any (with_reaction reaction draws.now) s
          (λ same m h. (h, refl, refl)) k)
  step-IsEnded (Step.record_new s m draws apart) (n, final, o) =
      let new = (record_message_inner m draws s).0 in
      (
        n,
        final,
        (
          ap (λ (d : Dict String Message). lookup id d) (record_message-by_id m draws s)
              ∙ rw (lookup-insert new.id id new s.messages_by_id, apart) o.0,
          o.1,
        ),
      )
  step-IsEnded (Step.lease s p' c' x limit now token) k =
      kept p c id s (list_dirty p' c' x limit now token s).0 refl k
  step-IsEnded (Step.ack s p' c' v r now) k =
      kept p c id s (ack_dirty p' c' v r now s).1 (ack_dirty-messages p' c' v r now s) k

  -- Whatever happens, a message of the company's whose dispatch has ended stays such a one.
  pub Steps-IsEnded : {s t : StoreInner} → Steps ts id s t → IsEnded p c id s → IsEnded p c id t
  Steps-IsEnded Steps.done k = k
  Steps-IsEnded (Steps.then before step) k = step-IsEnded step (Steps-IsEnded before k)

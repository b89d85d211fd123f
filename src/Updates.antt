-- ===== src/Updates.antt =====
-- src/state.rs: what changes a message that is stored: the result of a dispatch, receipts, flags and
-- reactions. `ts` is the RFC 3339 text of a time.
pub mod Agreement
pub mod Kept
pub mod Incoming
use rust_zap.Prelude.{
  ℕ, String, ◌<>◌, ◌&&◌, Bool, true, false, Option, none, some, List, [], ◌∷◌, if◌then◌else◌,
  or_else, map_option, find, is_some_and,
}
use rust_zap.Dict.{Dict, ◌==◌, string_eq, lookup, values}
use rust_zap.Json.{Value, str, object, of_option}
use rust_zap.Error.{Result, ok, err, not_found, ◌>>=◌}
use rust_zap.Models.{Time, Message}
use rust_zap.Models.Delivery.{delivery_state, delivery_state_text}
use rust_zap.Events.{Stamp, new_event}
use rust_zap.Store.{StoreInner, push_event_inner}
use rust_zap.Dirty.{mark_dirty_inner}
use rust_zap.Messages.{rewrite_message}

-- A change to a message under its id and in its conversation's list.
unfoldable pub edit_message :
    String → (Message → Message) → StoreInner → Result Message × StoreInner
edit_message message_id change inner = elim (lookup message_id inner.messages_by_id) [
  | none ↦ (err (not_found ("message " <> (message_id <> " not found"))), inner)
  | some message ↦
      let updated = change message in (ok updated, rewrite_message message_id updated inner)
]

-- What follows a change, where there was one.
unfoldable pub announcing :
    (Message → StoreInner → StoreInner) → Result Message × StoreInner → Result Message × StoreInner
announcing announce (err e, inner) = (err e, inner)
announcing announce (ok updated, inner) = (ok updated, announce updated inner)

-- What a call draws: the clock, and what the dirty mark and the event draw.
pub record UpdateDraws : Type 0 where
  pub now : Time
  pub dirty_now : Time
  pub dirty_stamp : Stamp
  pub stamp : Stamp

unfoldable pub message_event :
    String → Message → List (String × Value) → Stamp → StoreInner → StoreInner
message_event event_type message payload stamp inner =
    push_event_inner
      (new_event event_type message.project_id message.company_id (some message.channel_account_id)
        (some message.conversation_id) (some message.id) (some message.conversation_seq)
        (object payload) stamp)
      inner

unfoldable pub mark_message_dirty : Message → UpdateDraws → StoreInner → StoreInner
mark_message_dirty message draws inner =
    mark_dirty_inner message.project_id message.company_id message.conversation_id
      message.conversation_seq message.channel_account_id draws.dirty_now draws.dirty_stamp inner

unfoldable pub with_dispatch : Option String → String → Option String → Time → Message → Message
with_dispatch wa_message_id status error_message now message = record message {
  wa_message_id = or_else wa_message_id message.wa_message_id;
  status = status;
  error_message = error_message;
  updated_at = now;
}

unfoldable pub dispatch_event_type : String → String
dispatch_event_type status =
    if status == "sent_to_whatsapp"
    then "message.sent"
    else if status == "failed"
    then "message.failed"
    else "message.updated"

unfoldable pub update_outbound_after_dispatch :
    String
    → Option String
    → String
    → Option String
    → UpdateDraws
    → StoreInner
    → Result Message × StoreInner
update_outbound_after_dispatch message_id wa_message_id status error_message draws inner =
    announcing
      (λ updated after.
        message_event (dispatch_event_type status) updated
          (("message_id", str updated.id)
            ∷ ("wa_message_id", of_option updated.wa_message_id)
            ∷ ("status", str updated.status)
            ∷ ("delivery_state", str (delivery_state_text (delivery_state updated)))
            ∷ ("error_message", of_option updated.error_message)
            ∷ [])
          draws.stamp (mark_message_dirty updated draws after))
      (edit_message message_id (with_dispatch wa_message_id status error_message draws.now) inner)

unfoldable pub with_status : String → Time → Message → Message
with_status status now message = record message { status = status; updated_at = now }

module _ (ts : Time → String) where
  unfoldable pub update_receipt_with_context :
      String → String → Option Time → UpdateDraws → StoreInner → Result Message × StoreInner
  update_receipt_with_context message_id receipt_type created_at_wa draws inner =
      announcing
        (λ updated after.
          message_event "message.receipt" updated
            (("message_id", str updated.id)
              ∷ ("wa_message_id", of_option updated.wa_message_id)
              ∷ ("receipt_type", str receipt_type)
              ∷ ("status", str updated.status)
              ∷ ("delivery_state", str (delivery_state_text (delivery_state updated)))
              ∷ ("created_at_wa", of_option (map_option ts created_at_wa))
              ∷ [])
            draws.stamp (mark_message_dirty updated draws after))
        (edit_message message_id (with_status receipt_type draws.now) inner)

  abbrev pub has_wa_id : String → Message → Bool
  has_wa_id wa_message_id message = is_some_and message.wa_message_id (λ id. id == wa_message_id)

  unfoldable pub update_receipt_by_wa_id_with_context :
      String → String → Option Time → UpdateDraws → StoreInner → Result Message × StoreInner
  update_receipt_by_wa_id_with_context wa_message_id receipt_type created_at_wa draws inner =
      elim (find (has_wa_id wa_message_id) (values inner.messages_by_id)) [
        | none ↦ (err (not_found ("wa message " <> (wa_message_id <> " not found"))), inner)
        | some message ↦
            update_receipt_with_context message.id receipt_type created_at_wa draws inner
      ]

unfoldable pub with_flag : String → Bool → Time → Message → Message
with_flag flag value now message =
    if flag == "pin"
    then record message { is_pinned = value; updated_at = now }
    else if flag == "star"
    then record message { is_starred = value; updated_at = now }
    else record message { updated_at = now }

unfoldable pub set_message_flag :
    String → String → Bool → Time → StoreInner → Result Message × StoreInner
set_message_flag message_id flag value now inner =
    edit_message message_id (with_flag flag value now) inner

unfoldable pub of_company : String → String → String → Option Message → Result Message
of_company project_id company_id message_id none =
    err (not_found ("message " <> (message_id <> " not found")))
of_company project_id company_id message_id (some message) =
    if message.project_id == project_id && message.company_id == company_id
    then ok message
    else err (not_found ("message " <> (message_id <> " not found")))

unfoldable pub message_for_company :
    (project_id company_id message_id : String) → StoreInner → Result Message
message_for_company project_id company_id message_id inner =
    of_company project_id company_id message_id (lookup message_id inner.messages_by_id)

abbrev pub after_check :
    Result Message → StoreInner → Result Message × StoreInner → Result Message × StoreInner
after_check (err e) inner then_out = (err e, inner)
after_check (ok message) inner then_out = then_out

unfoldable pub set_message_flag_for_company :
    (project_id company_id message_id flag : String)
    → Bool
    → Time
    → StoreInner
    → Result Message × StoreInner
set_message_flag_for_company project_id company_id message_id flag value now inner =
    after_check (message_for_company project_id company_id message_id inner) inner
      (set_message_flag message_id flag value now inner)

unfoldable pub with_reaction : Option String → Time → Message → Message
with_reaction reaction now message = record message { reaction = reaction; updated_at = now }

unfoldable pub set_message_reaction :
    String → Option String → UpdateDraws → StoreInner → Result Message × StoreInner
set_message_reaction message_id reaction draws inner =
    announcing
      (λ updated after.
        message_event "message.reaction" updated (("reaction", of_option updated.reaction) ∷ [])
          draws.stamp after)
      (edit_message message_id (with_reaction reaction draws.now) inner)

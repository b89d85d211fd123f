-- ===== src/Messages/Incoming/Once.antt =====
-- src/state.rs: `record_whatsapp_message` on a message that has been reported before.
use rust_zap.Prelude.{
  ◌≡◌, refl, ◌∙◌, ap, sym, String, Bool, true, none, some, [], ◌∷◌, inl, inr, Option-cases, find,
  and_then, arith,
}
use rust_zap.Dict.{Dict, string_eq, insert, values}
use rust_zap.Dict.Laws.{beq_refl}
use rust_zap.Models.{Message}
use rust_zap.Store.{StoreInner, push_event_inner}
use rust_zap.Dirty.{mark_dirty_inner}
use rust_zap.Messages.{MessageDraws, store_message}
use rust_zap.Messages.Incoming.{
  WhatsappMessageInput, is_same, already_stored, incoming_message, announce_incoming, record_new,
  record_whatsapp_message,
}
use rust_zap.Messages.Incoming.Opening.{see_people-SeesPeople}

-- An entry that passes a test, put into a map where none does, is what a search finds.
find-insert :
    (p : Message → Bool) (k : String) (m : Message) (d : Dict String Message)
    → p m ≡ true
    → find p (values d) ≡ none
    → find p (values (insert k m d)) ≡ some m
unfolding insert
find-insert p k m [] good h = rw good refl
find-insert p k m ((j, n) ∷ d) good h = ground (arith, find-insert p k m d good)

-- A new message is put under its id and passes the test on the same request.
pub record_new-stored :
    (input : WhatsappMessageInput) (draws : MessageDraws) (s : StoreInner)
    → let (message, t) = record_new input draws s in
      t.messages_by_id ≡ insert draws.message_id message s.messages_by_id
unfolding record_new announce_incoming push_event_inner mark_dirty_inner store_message
    incoming_message
record_new-stored input draws s =
    let (message, t) = record_new input draws s in
    ap (λ (u : StoreInner). insert draws.message_id message u.messages_by_id)
      (see_people-SeesPeople input draws.now s)

record_new-is_same :
    (input : WhatsappMessageInput) (draws : MessageDraws) (s : StoreInner) (w : String)
    → input.wa_message_id ≡ some w
    → is_same input w (record_new input draws s).0 ≡ true
unfolding record_new incoming_message
record_new-is_same input draws s w named =
    rw (named, beq_refl input.channel_id, beq_refl input.direction) (rw (beq_refl w) refl)

record_new-already_stored :
    (input : WhatsappMessageInput) (draws : MessageDraws) (s : StoreInner) (w : String)
    → input.wa_message_id ≡ some w
    → already_stored input s ≡ none
    → let (message, t) = record_new input draws s in already_stored input t ≡ some message
unfolding already_stored
record_new-already_stored input draws s w named new =
    let message = (record_new input draws s).0 in
    let searched : (u : StoreInner)
        → already_stored input u ≡ find (is_same input w) (values u.messages_by_id) =
      λ u. ap (λ o. and_then o (λ x. find (is_same input x) (values u.messages_by_id))) named in
    searched (record_new input draws s).1
    ∙ ap (λ d. find (is_same input w) (values d)) (record_new-stored input draws s)
    ∙ find-insert (is_same input w) draws.message_id message s.messages_by_id
        (record_new-is_same input draws s w named) (sym (searched s) ∙ new)

repeats :
    (input : WhatsappMessageInput) (again : MessageDraws) (out : Message × StoreInner)
    → already_stored input out.1 ≡ some out.0
    → record_whatsapp_message input again out.1 ≡ out
unfolding record_whatsapp_message
repeats input again out stored = rw (stored, record_whatsapp_message) refl

-- A report of a message that WhatsApp names, made again whatever the clock and the identifiers say,
-- is answered with the message of the first report and changes nothing.
pub record_whatsapp_message_once :
    (input : WhatsappMessageInput) (draws again : MessageDraws) (s : StoreInner) (w : String)
    → input.wa_message_id ≡ some w
    → let (message, t) = record_whatsapp_message input draws s in
      record_whatsapp_message input again t ≡ (message, t)
unfolding record_whatsapp_message
record_whatsapp_message_once input draws again s w named =
    repeats input again (record_whatsapp_message input draws s)
      (elim (Option-cases (already_stored input s)) [
        | inl new ↦
            rw (new, record_whatsapp_message) (record_new-already_stored input draws s w named new)
        | inr (old, stored) ↦ rw (stored, record_whatsapp_message) stored
      ])

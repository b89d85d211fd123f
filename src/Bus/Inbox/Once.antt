-- ===== src/Bus/Inbox/Once.antt =====
-- src/eventbus.rs: a message whose event a group has handled and committed, met again by that
-- group.
use rust_zap.Prelude.{
  String, ◌≡◌, refl, sym, subst, true, false, Option, none, some, List, [], ◌∷◌, ◌⊎◌, inl, inr,
  Bool-cases, arith,
}
use rust_zap.Dict.{string_eq}
use rust_zap.Dict.Laws.{beq_refl}
use rust_zap.Json.{Value}
use rust_zap.Models.{CommonEvent}
use rust_zap.Bus.{
  EventBusError, EventSourceOffset, ConsumerHandlerStatus, commit, KafkaConsumerMessage,
}
use rust_zap.Bus.Inbox.{
  InboxRow, ConsumeDraws, is_of, event_inbox_processed, mark_event_inbox_processed, commit_message,
  mark_message, settle_message, handle_unless, check_message, consume_message, Handler,
}

module _ (to_value : CommonEvent → Value) where
  marked :
      (group : String) (event again : CommonEvent) (source source_again : EventSourceOffset)
      (rows : List InboxRow)
      → event.event_id ≡ again.event_id
      → event_inbox_processed group again source_again
          (mark_event_inbox_processed to_value group event source rows)
        ≡ true
  unfolding event_inbox_processed mark_event_inbox_processed
  marked group event again source source_again [] same =
      rw (same, beq_refl group, beq_refl again.event_id) refl
  marked group event again source source_again (row ∷ rows) same =
      elim (Bool-cases (is_of group event row)) [
        | inl own ↦
            let mine : is_of group again row ≡ true = rw (← same) own in rw own (rw mine refl)
        | inr other ↦
            let later = marked group event again source source_again rows same in
            rw other (ground (arith, later))
      ]

module _ {ℓ} {S : Type ℓ} (to_value : CommonEvent → Value) where
  -- A call that commits has written the row.
  written :
      (mark_error commit_error : Option String) (rows new after : List InboxRow) (s t : S)
      → mark_message to_value mark_error commit_error rows new s ≡ (inl commit, after, t)
      → after ≡ new
  written none none rows new after s t h = cc h
  written none (some error) rows new after s t h = absurd (cc h)
  written (some error) commit_error rows new after s t h = absurd (cc h)

  settled :
      (draws : ConsumeDraws) (group : String) (message : KafkaConsumerMessage)
      (rows after : List InboxRow) (t : S) (result : (ConsumerHandlerStatus ⊎ EventBusError) × S)
      → settle_message to_value draws group message rows result ≡ (inl commit, after, t)
      → after ≡ mark_event_inbox_processed to_value group message.event message.source rows
  settled draws group message rows after t (inr error, s) h = absurd (cc h)
  settled draws group message rows after t (inl status, s) h =
      written draws.mark_error draws.commit_error rows _ after s t h

  handled_first :
      (handler : Handler S) (draws : ConsumeDraws) (group : String) (message : KafkaConsumerMessage)
      (rows after : List InboxRow) (s t : S)
      → event_inbox_processed group message.event message.source rows ≡ false
      → consume_message to_value handler draws group message rows s ≡ (inl commit, after, t)
      → after ≡ mark_event_inbox_processed to_value group message.event message.source rows
  unfolding consume_message
  handled_first handler draws group message rows after s t new h = checked draws.check_error h
    where
      checked :
          (check_error : Option String)
          → check_message to_value check_error handler draws group message rows s
            ≡ (inl commit, after, t)
          → after ≡ mark_event_inbox_processed to_value group message.event message.source rows
      checked (some error) k = absurd (cc k)
      checked none k = settled draws group message rows after t (handler message s) (
          subst
            (λ b.
              handle_unless to_value b handler draws group message rows s ≡ (inl commit, after, t))
            new k)

  -- When a group has handled a message and committed it, also as a dead letter, a message with the
  -- same event is only committed there, wherever it comes from: no handler is called, and nothing
  -- changes. The database and the broker answer the second call.
  pub consume_message_once :
      (handler again : Handler S) (draws draws_again : ConsumeDraws) (group : String)
      (message message_again : KafkaConsumerMessage) (rows after : List InboxRow) (s t u : S)
      → event_inbox_processed group message.event message.source rows ≡ false
      → consume_message to_value handler draws group message rows s ≡ (inl commit, after, t)
      → message.event.event_id ≡ message_again.event.event_id
      → draws_again.check_error ≡ none
      → draws_again.commit_error ≡ none
      → consume_message to_value again draws_again group message_again after u
        ≡ (inl commit, after, u)
  unfolding consume_message
  consume_message_once handler again draws draws_again group message message_again rows after s t u
        new first same checks commits =
      let seen : event_inbox_processed group message_again.event message_again.source after ≡ true =
        subst (λ r. event_inbox_processed group message_again.event message_again.source r ≡ true)
          (sym (handled_first handler draws group message rows after s t new first))
          (marked to_value group message.event message_again.event message.source
            message_again.source rows same) in
      subst
        (λ c.
          check_message to_value c again draws_again group message_again after u
          ≡ (inl commit, after, u))
        (sym checks)
        (subst
          (λ b.
            handle_unless to_value b again draws_again group message_again after u
            ≡ (inl commit, after, u))
          (sym seen)
          (subst (λ c. commit_message to_value c (after, u) ≡ (inl commit, after, u)) (sym commits)
            refl))

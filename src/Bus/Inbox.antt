-- ===== src/Bus/Inbox.antt =====
-- src/eventbus.rs: `consume_one_message_with_inbox`, src/db.rs: the table `event_inbox`, and
-- src/workers.rs: `handle_message` and the topics of the workers. A query or a commit that fails is
-- `some error`. The state `S` is what the handler works on.
pub mod Once
use rust_zap.Prelude.{
  String, Bool, true, false, ◌&&◌, ◌||◌, Option, none, some, List, [], ◌∷◌, any, ◌⊎◌, inl, inr,
  if◌then◌else◌,
}
use rust_zap.Prelude.Int.{ℤ, leb_ℤ}
use rust_zap.Dict.{◌==◌, string_eq}
use rust_zap.Json.{Value}
use rust_zap.Models.{Time, CommonEvent}
use rust_zap.Config.{KafkaConfig}
use rust_zap.Bus.{
  EventBusError, kafka_error, codec, EventSourceOffset, ConsumerHandlerStatus, processed, duplicate,
  dead_lettered, ConsumerCommitDecision, commit, do_not_commit, from_handler_result,
  KafkaConsumerMessage, deadletter_envelope,
}
use rust_zap.Bus.Topics.{topic_for_event, partition_key}
use rust_zap.Bus.Outbox.{Database, insert_kafka_deadletter}

pub record InboxRow : Type 0 where
  pub event_id : String
  pub consumer_group : String
  pub topic : String
  pub partition : ℤ
  pub offset_value : ℤ
  pub payload_json : Value

abbrev pub eq_ℤ : ℤ → ℤ → Bool
eq_ℤ a b = leb_ℤ a b && leb_ℤ b a

abbrev pub is_of : String → CommonEvent → InboxRow → Bool
is_of consumer_group event row =
    row.consumer_group == consumer_group && row.event_id == event.event_id

abbrev pub is_at : String → EventSourceOffset → InboxRow → Bool
is_at consumer_group source row =
    row.consumer_group == consumer_group
    && (row.topic == source.topic
        && (eq_ℤ row.partition source.partition && eq_ℤ row.offset_value source.offset))

unfoldable pub event_inbox_processed :
    String → CommonEvent → EventSourceOffset → List InboxRow → Bool
event_inbox_processed consumer_group event source rows =
    any (λ (row : InboxRow). is_of consumer_group event row || is_at consumer_group source row) rows

-- `INSERT … ON CONFLICT (consumer_group, event_id) DO UPDATE`
unfoldable pub mark_event_inbox_processed :
    (to_value : CommonEvent → Value)
    → String
    → CommonEvent
    → EventSourceOffset
    → List InboxRow
    → List InboxRow
mark_event_inbox_processed to_value consumer_group event source [] =
    record {
      event_id = event.event_id;
      consumer_group = consumer_group;
      topic = source.topic;
      partition = source.partition;
      offset_value = source.offset;
      payload_json = to_value event;
    }
    ∷ []
mark_event_inbox_processed to_value consumer_group event source (row ∷ rows) =
    if is_of consumer_group event row
    then record row {
      topic = source.topic;
      partition = source.partition;
      offset_value = source.offset;
      payload_json = to_value event;
    }
      ∷ rows
    else row ∷ mark_event_inbox_processed to_value consumer_group event source rows

-- What the database and the broker answer to one call.
pub record ConsumeDraws : Type 0 where
  pub check_error : Option String
  pub mark_error : Option String
  pub commit_error : Option String

abbrev pub Outcome {ℓ} : Type ℓ → Type ℓ
Outcome S = (ConsumerCommitDecision ⊎ EventBusError) × List InboxRow × S

abbrev pub Handler {ℓ} : Type ℓ → Type ℓ
Handler S = KafkaConsumerMessage → S → (ConsumerHandlerStatus ⊎ EventBusError) × S

module _ {ℓ} {S : Type ℓ} (to_value : CommonEvent → Value) where
  -- `commit_message`
  abbrev pub commit_message : Option String → List InboxRow × S → Outcome S
  commit_message none (rows, s) = (inl commit, rows, s)
  commit_message (some error) (rows, s) = (inr (kafka_error error), rows, s)

  -- The mark in the inbox, by which `rows` become `marked`, and the commit.
  abbrev pub mark_message :
      (mark_error commit_error : Option String) → (rows marked : List InboxRow) → S → Outcome S
  mark_message (some error) commit_error rows marked s = (inr (kafka_error error), rows, s)
  mark_message none commit_error rows marked s = commit_message commit_error (marked, s)

  -- What follows the handler.
  abbrev pub settle_message :
      ConsumeDraws
      → String
      → KafkaConsumerMessage
      → List InboxRow
      → (ConsumerHandlerStatus ⊎ EventBusError) × S
      → Outcome S
  settle_message draws consumer_group message rows (inr error, s) = (inl do_not_commit, rows, s)
  settle_message draws consumer_group message rows (inl status, s) =
      mark_message draws.mark_error draws.commit_error rows
        (mark_event_inbox_processed to_value consumer_group message.event message.source rows) s

  abbrev pub handle_unless :
      Bool
      → Handler S
      → ConsumeDraws
      → String
      → KafkaConsumerMessage
      → List InboxRow
      → S
      → Outcome S
  handle_unless true handler draws consumer_group message rows s =
      commit_message draws.commit_error (rows, s)
  handle_unless false handler draws consumer_group message rows s =
      settle_message draws consumer_group message rows (handler message s)

  abbrev pub check_message :
      Option String
      → Handler S
      → ConsumeDraws
      → String
      → KafkaConsumerMessage
      → List InboxRow
      → S
      → Outcome S
  check_message (some error) handler draws consumer_group message rows s =
      (inr (kafka_error error), rows, s)
  check_message none handler draws consumer_group message rows s =
      handle_unless (event_inbox_processed consumer_group message.event message.source rows) handler
        draws consumer_group message rows s

  -- From the decoded message on.
  unfoldable pub consume_message :
      Handler S → ConsumeDraws → String → KafkaConsumerMessage → List InboxRow → S → Outcome S
  consume_message handler draws consumer_group message rows s =
      check_message draws.check_error handler draws consumer_group message rows s

  -- `received` is the message with serde's reading of its payload.
  unfoldable pub consume_one_message_with_inbox :
      Handler S
      → ConsumeDraws
      → String
      → (received : EventSourceOffset × Option (CommonEvent ⊎ String) ⊎ String) → List InboxRow
      → S
      → Outcome S
  consume_one_message_with_inbox handler draws consumer_group (inr error) rows s =
      (inr (kafka_error error), rows, s)
  consume_one_message_with_inbox handler draws consumer_group (inl (source, none)) rows s =
      (inr (kafka_error "Kafka message payload missing"), rows, s)
  consume_one_message_with_inbox handler draws consumer_group (inl (source, some (inr error))) rows
        s =
      (inr (codec error), rows, s)
  consume_one_message_with_inbox handler draws consumer_group (inl (source, some (inl event))) rows
        s =
      consume_message handler draws consumer_group (record { event = event; source = source }) rows
        s

-- The workers' names and what each subscribes to.
unfoldable pub worker_topics : KafkaConfig → List (String × String)
worker_topics kafka =
    ("raw-inbound", topic_for_event kafka "whatsapp.raw.inbound")
    ∷ ("outbound-send", topic_for_event kafka "outbound.send.requested")
    ∷ ("audio-transcription", topic_for_event kafka "audio.transcription.requested")
    ∷ []

module _ {ℓ} {S : Type ℓ} (ts : Time → String) (to_value : CommonEvent → Value)
    (process_whatsapp_raw_event process_outbound_send_request
      process_transcription_request : CommonEvent → S → (Unit {0} ⊎ String) × S) where
  unfoldable pub process_event : CommonEvent → S → (Unit {0} ⊎ String) × S
  process_event event s =
      if event.event_type == "whatsapp.raw.inbound"
      then process_whatsapp_raw_event event s
      else if event.event_type == "outbound.send.requested"
      then process_outbound_send_request event s
      else if event.event_type == "audio.transcription.requested"
      then process_transcription_request event s
      else (inl tt, s)

  -- What the worker makes of a failure: a dead letter, unless the database refuses it.
  abbrev pub handled :
      Option String
      → (id : String) → Time
      → KafkaConsumerMessage
      → Database
      → (Unit {0} ⊎ String) × S
      → (ConsumerHandlerStatus ⊎ EventBusError) × S × Database
  handled insert_error id now message db (inl done, s) = (inl processed, s, db)
  handled (some insert_error) id now message db (inr error, s) =
      (inr (kafka_error insert_error), s, db)
  handled none id now message db (inr error, s) = (
    inl dead_lettered,
    s,
    insert_kafka_deadletter to_value id (deadletter_envelope ts message.event 1 error now)
        (some message.source.topic) (partition_key message.event) db,
  )

  unfoldable pub handle_message :
      Option String
      → (id : String) → Time
      → KafkaConsumerMessage
      → S × Database
      → (ConsumerHandlerStatus ⊎ EventBusError) × S × Database
  handle_message insert_error id now message (s, db) =
      handled insert_error id now message db (process_event message.event s)

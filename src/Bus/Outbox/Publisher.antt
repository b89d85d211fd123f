-- ===== src/Bus/Outbox/Publisher.antt =====
-- src/eventbus.rs: `publish_outbox_record`, what the publisher does with a row that it has claimed,
-- and src/db.rs: `replay_kafka_deadletter`, which puts a dead letter back. serde's reading of an
-- event (`from_value`) and its encodings, the broker's answers and the database's are parameters; a
-- query that the database refuses is written to the log and leaves the rows.
use rust_zap.Prelude.{
  ℕ, ◌+◌, ◌*◌, ◌^◌, min, String, Bool, true, false, Option, none, some, List, ◌⊎◌, inl, inr, leb,
  is_some, if◌then◌else◌,
}
use rust_zap.Dict.{string_eq, lookup, insert}
use rust_zap.Json.{Value}
use rust_zap.Models.{Time, CommonEvent}
use rust_zap.Config.{KafkaConfig}
use rust_zap.Bus.{EventBusError, PublishAck, DeadLetterEnvelope, deadletter_envelope}
use rust_zap.Bus.Topics.{topic_for_event, partition_key}
use rust_zap.Bus.Payloads.{encode_event_for_kafka}
use rust_zap.Bus.Metrics.{
  EventBusRuntimeMetrics, attempt, succeed, fail, try_deadletter, count_deadletter,
}
use rust_zap.Bus.Outbox.{
  OutboxRow, OutboxRecord, queued, DeadLetterRow, Database, new_row, insert_kafka_deadletter,
  mark_event_outbox_published, mark_event_outbox_failed, mark_event_outbox_deadlettered,
}

-- serde and the texts that the bus writes.
pub record Codecs : Type 0 where
  pub from_value : Value → CommonEvent ⊎ String
  pub to_value : CommonEvent → Value
  pub to_vec : CommonEvent → List ℕ ⊎ String
  pub decimal : ℕ → String
  pub ts : Time → String
  pub error_text : EventBusError → String

-- What a call draws: the clock of the database and of the service, the id of a dead letter, and
-- whether the database carries out the queries.
pub record PublishDraws : Type 0 where
  pub now : Time
  pub failed_at : Time
  pub deadletter_id : String
  pub mark_works : Bool
  pub insert_works : Bool

abbrev pub if_works : Bool → (Database → Database) → Database → Database
if_works true query db = query db
if_works false query db = db

-- `saturating_add(1)` on an `i32`.
abbrev pub next_attempt : OutboxRecord → ℕ
next_attempt outbox_record = min (outbox_record.attempt_count + 1) 2147483647

-- `5 * 2^min(attempts, 6)`
abbrev pub backoff : ℕ → ℕ
backoff attempts = 5 * 2 ^ min attempts 6

module _ (codecs : Codecs) (kafka : KafkaConfig) (draws : PublishDraws) where
  abbrev insert_deadletter : OutboxRecord → DeadLetterEnvelope → Database → Database
  insert_deadletter outbox_record envelope = if_works draws.insert_works (
      insert_kafka_deadletter codecs.to_value draws.deadletter_id envelope
        (some outbox_record.topic) outbox_record.partition_key)

  -- A row that the service cannot read as an event.
  unfoldable pub fail_undecodable :
      OutboxRecord
      → (error : String) → EventBusRuntimeMetrics × Database
      → EventBusRuntimeMetrics × Database
  fail_undecodable outbox_record error (metrics, db) = (
    fail error metrics,
    if_works draws.mark_works (mark_event_outbox_failed outbox_record.event_id error 60 draws.now)
        db,
  )

  -- An event that may not go to Kafka.
  unfoldable pub deadletter_invalid :
      OutboxRecord
      → CommonEvent
      → (error : String) → EventBusRuntimeMetrics × Database
      → EventBusRuntimeMetrics × Database
  unfolding insert_deadletter
  deadletter_invalid outbox_record event error (metrics, db) =
      let envelope =
        deadletter_envelope codecs.ts event (outbox_record.attempt_count + 1) error
          draws.failed_at in
      (
        try_deadletter (fail error metrics),
        insert_deadletter outbox_record envelope (
            if_works draws.mark_works
              (mark_event_outbox_deadlettered outbox_record.event_id error draws.now) db),
      )

  -- What the broker answered: for the event, and for the dead letter where it comes to that.
  unfoldable pub settle_published :
      OutboxRecord
      → CommonEvent
      → (answer deadletter_answer : PublishAck ⊎ EventBusError) → EventBusRuntimeMetrics × Database
      → EventBusRuntimeMetrics × Database
  unfolding insert_deadletter
  settle_published outbox_record event (inl ack) deadletter_answer (metrics, db) = (
    succeed metrics,
    if_works draws.mark_works
        (mark_event_outbox_published outbox_record.event_id ack.partition ack.offset draws.now) db,
  )
  settle_published outbox_record event (inr failure) deadletter_answer (metrics, db) =
      let error = codecs.error_text failure in
      let attempts = next_attempt outbox_record in
      if leb kafka.retry_max_attempts attempts
      then (
        fail error (try_deadletter (count_deadletter deadletter_answer metrics)),
        if_works draws.mark_works
            (mark_event_outbox_deadlettered outbox_record.event_id error draws.now)
            (insert_deadletter outbox_record
              (deadletter_envelope codecs.ts event attempts error draws.failed_at) db),
      )
      else (
        fail error metrics,
        if_works draws.mark_works
            (mark_event_outbox_failed outbox_record.event_id error (backoff attempts) draws.now) db,
      )

  -- From the encoded payload on, and from what serde reads on.
  abbrev pub publish_encoded :
      OutboxRecord
      → CommonEvent
      → (answer deadletter_answer : PublishAck ⊎ EventBusError) → EventBusRuntimeMetrics × Database
      → List ℕ ⊎ EventBusError
      → EventBusRuntimeMetrics × Database
  publish_encoded outbox_record event answer deadletter_answer state (inr failure) =
      deadletter_invalid outbox_record event (codecs.error_text failure) state
  publish_encoded outbox_record event answer deadletter_answer state (inl payload) =
      settle_published outbox_record event answer deadletter_answer state

  abbrev pub publish_decoded :
      OutboxRecord
      → (answer deadletter_answer : PublishAck ⊎ EventBusError) → EventBusRuntimeMetrics × Database
      → CommonEvent ⊎ String
      → EventBusRuntimeMetrics × Database
  publish_decoded outbox_record answer deadletter_answer state (inr error) =
      fail_undecodable outbox_record error state
  publish_decoded outbox_record answer deadletter_answer state (inl event) =
      publish_encoded outbox_record event answer deadletter_answer state
        (encode_event_for_kafka codecs.decimal codecs.to_vec kafka event)

  unfoldable pub publish_outbox_record :
      OutboxRecord
      → (answer deadletter_answer : PublishAck ⊎ EventBusError) → EventBusRuntimeMetrics × Database
      → EventBusRuntimeMetrics × Database
  publish_outbox_record outbox_record answer deadletter_answer (metrics, db) =
      publish_decoded outbox_record answer deadletter_answer
        (attempt outbox_record.topic metrics, db) (codecs.from_value outbox_record.payload_json)

-- The row that a replay puts into the outbox, over the one that is there.
abbrev replayed_over : OutboxRow → Time → Option OutboxRow → OutboxRow
replayed_over new now none = new
replayed_over new now (some row) = record row {
  status = queued;
  topic = new.topic;
  partition_key = new.partition_key;
  payload_json = new.payload_json;
  next_attempt_at = now;
  locked_by = none;
  locked_until = none;
  updated_at = now;
}

unfoldable pub replay_row :
    Codecs
    → KafkaConfig
    → (id replayed_by : String) → Time
    → DeadLetterRow
    → CommonEvent
    → Database
    → Option String × Database
unfolding replayed_over
replay_row codecs kafka id replayed_by now row event db =
    let new =
      record (new_row codecs.to_value event (topic_for_event kafka event.event_type)
        (partition_key event) now) { payload_json = row.payload_json } in
    (
      some event.event_id,
      record {
        outbox =
            insert event.event_id (replayed_over new now (lookup event.event_id db.outbox))
              db.outbox;
        deadletters =
            insert id (record row { replayed_at = some now; replayed_by = some replayed_by })
              db.deadletters;
      },
    )

unfoldable pub replay_kafka_deadletter :
    Codecs
    → KafkaConfig
    → (id replayed_by : String) → Time
    → Database
    → (Option String ⊎ String) × Database
replay_kafka_deadletter codecs kafka id replayed_by now db = elim (lookup id db.deadletters) [
  | none ↦ (inl none, db)
  | some row ↦
      if is_some row.replayed_at
      then (inl none, db)
      else elim (codecs.from_value row.payload_json) [
        | inr error ↦ (inr "failed to decode Kafka deadletter payload", db)
        | inl event ↦
            let (replayed, after) = replay_row codecs kafka id replayed_by now row event db in
            (inl replayed, after)
      ]
]

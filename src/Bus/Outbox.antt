-- ===== src/Bus/Outbox.antt =====
-- src/db.rs: the table `event_outbox` of what is to be published, with its queries, and the table
-- of dead letters. A query is what it does to the rows; `now` is the database's clock. A count
-- beyond an `integer` is an error, which leaves the row. `to_value` is serde's encoding.
pub mod Publisher
pub mod Tries
use rust_zap.Prelude.{
  ℕ, ◌+◌, max, String, Bool, true, false, ◌&&◌, ◌||◌, Option, none, some, List, [], ◌∷◌, map, take,
  retain, length, sort_by, leb, ltb, is_none_or, is_some_and, map_option, unwrap_or, if◌then◌else◌,
}
use rust_zap.Prelude.Int.{ℤ}
use rust_zap.Dict.{Dict, ◌==◌, string_eq, lookup, insert, values, map_values}
use rust_zap.Dict.Distinct.{is_in}
use rust_zap.Json.{Value}
use rust_zap.Models.{Time, seconds, CommonEvent}
use rust_zap.Config.{KafkaConfig}
use rust_zap.Bus.{DeadLetterEnvelope}
use rust_zap.Bus.Topics.{topic_for_event, partition_key}

pub data OutboxStatus : Type 0 where
  queued publishing published failed deadlettered : OutboxStatus

pub record OutboxRow : Type 0 where
  pub event_id : String
  pub event_type : String
  pub topic : String
  pub partition_key : String
  pub payload_json : Value
  pub status : OutboxStatus
  pub attempt_count : ℕ
  pub kafka_partition : Option ℤ
  pub kafka_offset : Option ℤ
  pub locked_by : Option String
  pub locked_until : Option Time
  pub next_attempt_at : Time
  pub last_error : Option String
  pub available_at : Time
  pub published_at : Option Time
  pub created_at : Time
  pub updated_at : Time

pub record OutboxRecord : Type 0 where
  pub event_id : String
  pub topic : String
  pub partition_key : String
  pub payload_json : Value
  pub attempt_count : ℕ

-- A row of `kafka_deadletters`; the original partition and offset are always -1.
pub record DeadLetterRow : Type 0 where
  pub event_id : String
  pub event_type : String
  pub source_topic : Option String
  pub partition_key : String
  pub retry_count : ℕ
  pub error_code : String
  pub payload_json : Value
  pub first_failed_at : String
  pub last_failed_at : String
  pub replayed_at : Option Time
  pub replayed_by : Option String

pub record Database : Type 0 where
  pub outbox : Dict String OutboxRow
  pub deadletters : Dict String DeadLetterRow

abbrev pub is_waiting : OutboxStatus → Bool
is_waiting queued = true
is_waiting failed = true
is_waiting publishing = false
is_waiting published = false
is_waiting deadlettered = false

abbrev pub is_publishing : OutboxStatus → Bool
is_publishing publishing = true
is_publishing queued = false
is_publishing failed = false
is_publishing published = false
is_publishing deadlettered = false

abbrev pub is_published : OutboxStatus → Bool
is_published published = true
is_published queued = false
is_published failed = false
is_published publishing = false
is_published deadlettered = false

module _ (to_value : CommonEvent → Value) where
  unfoldable pub new_row : CommonEvent → (topic partition_key : String) → Time → OutboxRow
  new_row event topic partition_key now = record {
    event_id = event.event_id;
    event_type = event.event_type;
    topic = topic;
    partition_key = partition_key;
    payload_json = to_value event;
    status = queued;
    attempt_count = 0;
    kafka_partition = none;
    kafka_offset = none;
    locked_by = none;
    locked_until = none;
    next_attempt_at = now;
    last_error = none;
    available_at = now;
    published_at = none;
    created_at = now;
    updated_at = now;
  }

  -- What an insert finds under the event's id.
  abbrev inserted_over : OutboxRow → Time → Option OutboxRow → OutboxRow
  inserted_over new now none = new
  inserted_over new now (some row) = record row {
    event_type = new.event_type;
    topic = new.topic;
    partition_key = new.partition_key;
    payload_json = new.payload_json;
    status = if is_published row.status then row.status else queued;
    updated_at = now;
  }

  unfoldable pub insert_event_outbox :
      CommonEvent → (topic partition_key : String) → Time → Database → Database
  unfolding inserted_over
  insert_event_outbox event topic partition_key now db =
      let new = new_row event topic partition_key now in
      record db {
        outbox =
            insert event.event_id (inserted_over new now (lookup event.event_id db.outbox))
              db.outbox;
      }

  -- The events of a saved store: `ON CONFLICT (event_id) DO NOTHING`.
  unfoldable pub enqueue_events :
      KafkaConfig → List CommonEvent → Time → Dict String OutboxRow → Dict String OutboxRow
  enqueue_events kafka [] now outbox = outbox
  enqueue_events kafka (event ∷ events) now outbox =
      let new = new_row event (topic_for_event kafka event.event_type) (partition_key event) now in
      enqueue_events kafka events now
        (insert event.event_id (unwrap_or (lookup event.event_id outbox) new) outbox)

  unfoldable pub insert_kafka_deadletter :
      (id : String)
      → DeadLetterEnvelope
      → (source_topic : Option String) → (partition_key : String) → Database
      → Database
  insert_kafka_deadletter id envelope source_topic partition_key db = record db {
    deadletters =
        insert id
          (record {
            event_id = envelope.event.event_id;
            event_type = envelope.event.event_type;
            source_topic = source_topic;
            partition_key = partition_key;
            retry_count = envelope.retry_count;
            error_code = envelope.error_code;
            payload_json = to_value envelope.event;
            first_failed_at = envelope.first_failed_at;
            last_failed_at = envelope.last_failed_at;
            replayed_at = none;
            replayed_by = none;
          })
          db.deadletters;
  }

abbrev pub is_free : Time → OutboxRow → Bool
is_free now row = is_none_or row.locked_until (λ until. ltb until now)

unfoldable pub is_claimable : Time → OutboxRow → Bool
is_claimable now row =
    (is_waiting row.status && leb row.next_attempt_at now
      || is_publishing row.status && is_some_and row.locked_until (λ until. ltb until now))
    && is_free now row

abbrev comes_first : OutboxRow → OutboxRow → Bool
comes_first a b =
    ltb a.available_at b.available_at
    || leb a.available_at b.available_at && leb a.created_at b.created_at

unfoldable pub record_of : OutboxRow → OutboxRecord
record_of row = record {
  event_id = row.event_id;
  topic = row.topic;
  partition_key = row.partition_key;
  payload_json = row.payload_json;
  attempt_count = row.attempt_count;
}

unfoldable pub claim_row : String → (lock_seconds : ℕ) → Time → OutboxRow → OutboxRow
claim_row worker_id lock_seconds now row = record row {
  status = publishing;
  locked_by = some worker_id;
  locked_until = some (now + seconds (max lock_seconds 1));
  updated_at = now;
}

unfoldable pub claim_event_outbox_batch :
    String → (limit lock_seconds : ℕ) → Time → Database → List OutboxRecord × Database
unfolding comes_first
claim_event_outbox_batch worker_id limit lock_seconds now db =
    let rows = take limit (sort_by comes_first (retain (is_claimable now) (values db.outbox))) in
    let ids = map (λ (row : OutboxRow). row.event_id) rows in
    (
      map record_of rows,
      record db {
        outbox =
            map_values
              (λ (row : OutboxRow).
                if is_in row.event_id ids then claim_row worker_id lock_seconds now row else row)
              db.outbox;
      },
    )

-- `UPDATE … WHERE event_id = $1`, with the count of attempts.
abbrev pub write_row : String → (OutboxRow → OutboxRow) → Database → Option OutboxRow → Database
write_row event_id change db none = db
write_row event_id change db (some row) =
    if ltb row.attempt_count 2147483647
    then record db { outbox = insert event_id (change row) db.outbox }
    else db

unfoldable pub update_row : String → (OutboxRow → OutboxRow) → Database → Database
update_row event_id change db = write_row event_id change db (lookup event_id db.outbox)

unfoldable pub published_row : (partition offset : ℤ) → Time → OutboxRow → OutboxRow
published_row partition offset now row = record row {
  status = published;
  attempt_count = row.attempt_count + 1;
  kafka_partition = some partition;
  kafka_offset = some offset;
  last_error = none;
  published_at = some now;
  updated_at = now;
}

unfoldable pub failed_row :
    (error : String) → (retry_after_seconds : ℕ) → Time → OutboxRow → OutboxRow
failed_row error retry_after_seconds now row = record row {
  status = failed;
  attempt_count = row.attempt_count + 1;
  last_error = some error;
  locked_by = none;
  locked_until = none;
  next_attempt_at = now + seconds (max retry_after_seconds 1);
  updated_at = now;
}

unfoldable pub deadlettered_row : (error : String) → Time → OutboxRow → OutboxRow
deadlettered_row error now row = record row {
  status = deadlettered;
  attempt_count = row.attempt_count + 1;
  last_error = some error;
  locked_by = none;
  locked_until = none;
  updated_at = now;
}

abbrev pub mark_event_outbox_published :
    String → (partition offset : ℤ) → Time → Database → Database
mark_event_outbox_published event_id partition offset now =
    update_row event_id (published_row partition offset now)

abbrev pub mark_event_outbox_failed :
    String → (error : String) → (retry_after_seconds : ℕ) → Time → Database → Database
mark_event_outbox_failed event_id error retry_after_seconds now =
    update_row event_id (failed_row error retry_after_seconds now)

abbrev pub mark_event_outbox_deadlettered : String → (error : String) → Time → Database → Database
mark_event_outbox_deadlettered event_id error now = update_row event_id (deadlettered_row error now)

unfoldable pub outbox_backlog_count : Database → ℕ
outbox_backlog_count db = length (
    retain (λ (row : OutboxRow). is_waiting row.status || is_publishing row.status)
      (values db.outbox))

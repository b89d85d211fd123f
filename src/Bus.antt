-- ===== src/Bus.antt =====
-- src/eventbus.rs: the bus to Kafka. Here are its records, its errors and its envelopes; the topics
-- are in Bus/Topics, what an event may carry in Bus/Payloads, the table of what is to be published
-- with its publisher in Bus/Outbox, and the consumers in Bus/Inbox. `ts` is the RFC 3339 text of a
-- time, `decimal` writes a number.
pub mod Topics
pub mod Payloads
pub mod Outbox
pub mod Inbox
pub mod Metrics
use rust_zap.Prelude.{
  ℕ, ◌+◌, String, ◌<>◌, Bool, true, false, Option, none, some, ◌⊎◌, inl, inr, leb, not, min,
  is_some_and, unwrap_or, map_option, if◌then◌else◌,
}
use rust_zap.Prelude.Int.{ℤ, pos, negsuc, max_ℤ, pos_part}
use rust_zap.Text.{is_empty, trim}
use rust_zap.Models.{Time, seconds, CommonEvent}
use rust_zap.Config.{KafkaConfig, EventBusMode}

pub record EventBusHealth : Type 0 where
  pub ok : Bool
  pub detail : String

pub data RdkafkaErrorCodeView : Type 0 where
  topic_already_exists : RdkafkaErrorCodeView
  other : ℤ → RdkafkaErrorCodeView

pub data EventBusError : Type 0 where
  missing_brokers : EventBusError
  raw_media_bytes : (event_id field : String) → EventBusError
  message_too_large : (event_id : String) (actual limit : ℕ) → EventBusError
  codec : String → EventBusError
  kafka_feature_disabled : EventBusError
  missing_topics : String → EventBusError
  kafka_topic_create : (topic : String) → RdkafkaErrorCodeView → EventBusError
  kafka_error : String → EventBusError

-- An error as its text, and `code:?`.
module _ (decimal : ℕ → String) (signed : ℤ → String) where
  abbrev pub code_text : RdkafkaErrorCodeView → String
  code_text topic_already_exists = "TopicAlreadyExists"
  code_text (other n) = "Other(" <> (signed n <> ")")

  unfoldable pub error_text : EventBusError → String
  error_text missing_brokers = "KAFKA_BROKERS missing"
  error_text (raw_media_bytes event_id field) =
      "event " <> (event_id <> (" contains raw media bytes in payload field " <> field))
  error_text (message_too_large event_id actual limit) =
      "event "
      <> (event_id
          <> (" encoded payload is "
              <> (decimal actual <> (" bytes, above limit " <> decimal limit))))
  error_text (codec error) = "event codec failed: " <> error
  error_text kafka_feature_disabled =
      "Kafka support is disabled; rebuild with --features external-integrations"
  error_text (missing_topics topics) = "Kafka missing required topics: " <> topics
  error_text (kafka_topic_create topic code) =
      "Kafka topic create failed for " <> (topic <> (": " <> code_text code))
  error_text (kafka_error error) = "Kafka error: " <> error

pub record TopicSpec : Type 0 where
  pub name : String
  pub partitions : ℤ
  pub replication_factor : ℤ
  pub retention_ms : ℤ

pub record PublishAck : Type 0 where
  pub topic : String
  pub partition : ℤ
  pub offset : ℤ
  pub key : String

pub record DeadLetterEnvelope : Type 0 where
  pub event : CommonEvent
  pub retry_count : ℕ
  pub first_failed_at : String
  pub last_failed_at : String
  pub error_code : String

pub record EventSourceOffset : Type 0 where
  pub topic : String
  pub partition : ℤ
  pub offset : ℤ

abbrev pub unknown : EventSourceOffset
unknown = record { topic = "unknown"; partition = negsuc 0; offset = negsuc 0 }

pub record RetryEnvelope : Type 0 where
  pub event : CommonEvent
  pub retry_count : ℕ
  pub source : EventSourceOffset
  pub first_failed_at : String
  pub last_failed_at : String
  pub next_attempt_at : String
  pub error_code : String

abbrev pub should_deadletter : KafkaConfig → RetryEnvelope → Bool
should_deadletter kafka envelope = leb kafka.retry_max_attempts envelope.retry_count

unfoldable pub into_deadletter : RetryEnvelope → DeadLetterEnvelope
into_deadletter envelope = record {
  event = envelope.event;
  retry_count = envelope.retry_count;
  first_failed_at = envelope.first_failed_at;
  last_failed_at = envelope.last_failed_at;
  error_code = envelope.error_code;
}

pub data ConsumerHandlerStatus : Type 0 where
  processed duplicate retried dead_lettered : ConsumerHandlerStatus

pub data ConsumerCommitDecision : Type 0 where
  commit do_not_commit : ConsumerCommitDecision

unfoldable pub from_handler_result : ConsumerHandlerStatus ⊎ EventBusError → ConsumerCommitDecision
from_handler_result (inl status) = commit
from_handler_result (inr error) = do_not_commit

pub record KafkaConsumerMessage : Type 0 where
  pub event : CommonEvent
  pub source : EventSourceOffset

abbrev is_given : Option String → Bool
is_given value = is_some_and value (λ t. not (is_empty (trim t)))

unfoldable pub health_check : EventBusMode → KafkaConfig → EventBusHealth
unfolding is_given
health_check EventBusMode.in_memory config = record { ok = true; detail = "in-memory event bus" }
health_check EventBusMode.postgres config = record {
  ok = true;
  detail = "postgres event bus drainer enabled";
}
health_check EventBusMode.kafka config =
    if is_given config.brokers
    then record { ok = true; detail = "kafka configured at " <> unwrap_or config.brokers "" }
    else record { ok = false; detail = "KAFKA_BROKERS missing" }

module _ (ts : Time → String) where
  unfoldable pub deadletter_envelope :
      CommonEvent → (retry_count : ℕ) → (error_code : String) → Time → DeadLetterEnvelope
  deadletter_envelope event retry_count error_code now = record {
    event = event;
    retry_count = retry_count;
    first_failed_at = ts now;
    last_failed_at = ts now;
    error_code = error_code;
  }

  -- The clock is read twice: `now`, and `later` for the next attempt.
  unfoldable pub retry_envelope_for_source :
      CommonEvent
      → (previous : Option RetryEnvelope) → (error_code : String) → EventSourceOffset
      → (retry_backoff_seconds : ℤ) → (now later : Time) → RetryEnvelope
  retry_envelope_for_source event previous error_code source retry_backoff_seconds now later =
      record {
        event = event;
        retry_count =
            unwrap_or
              (map_option (λ (e : RetryEnvelope). min (e.retry_count + 1) 4294967295) previous) 1;
        source = unwrap_or (map_option (λ (e : RetryEnvelope). e.source) previous) source;
        first_failed_at =
            unwrap_or (map_option (λ (e : RetryEnvelope). e.first_failed_at) previous) (ts now);
        last_failed_at = ts now;
        next_attempt_at = ts (later + seconds (pos_part (max_ℤ retry_backoff_seconds (pos 0))));
        error_code = error_code;
      }

  unfoldable pub retry_envelope :
      CommonEvent
      → (previous : Option RetryEnvelope) → (error_code : String) → (now later : Time)
      → RetryEnvelope
  retry_envelope event previous error_code now later =
      retry_envelope_for_source event previous error_code unknown (pos 0) now later

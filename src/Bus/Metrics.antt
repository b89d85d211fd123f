-- ===== src/Bus/Metrics.antt =====
-- src/eventbus.rs: what the bus counts, `EventBusHandle` with `publish_background`, and the task of
-- `spawn_kafka_publisher`. A channel to the task is the list of what was sent to it, and whether the
-- task still runs.
use rust_zap.Prelude.{
  ℕ, ◌+◌, String, Bool, true, false, Option, none, some, List, [], ◌∷◌, ◌++◌, length, drop, ◌⊎◌,
  inl, inr, leb, not, is_some_and, if◌then◌else◌,
}
use rust_zap.Text.{is_empty, trim}
use rust_zap.Models.{Time, CommonEvent}
use rust_zap.Config.{KafkaConfig, EventBusMode}
use rust_zap.Bus.{DeadLetterEnvelope, EventBusError, PublishAck, deadletter_envelope}
use rust_zap.Bus.Topics.{topic_for_event, required_topic_specs, names}

pub record EventBusRuntimeMetrics : Type 0 where
  pub publish_attempts : ℕ
  pub publish_successes : ℕ
  pub publish_failures : ℕ
  pub deadletter_attempts : ℕ
  pub deadletter_successes : ℕ
  pub outbox_enqueue_observed : ℕ
  pub last_topic : Option String
  pub last_error : Option String
  pub recent_deadletters : List DeadLetterEnvelope

pub record Channel : Type 0 where
  pub is_running : Bool
  pub sent : List CommonEvent

pub record EventBusHandle : Type 0 where
  pub mode : EventBusMode
  pub kafka_config : KafkaConfig
  pub tx : Option Channel
  pub metrics : EventBusRuntimeMetrics
  pub durable_outbox : Bool

pub record EventBusRuntimeSnapshot : Type 0 where
  pub mode : String
  pub kafka_required : Bool
  pub brokers_configured : Bool
  pub required_topics : List String
  pub publish_attempts : ℕ
  pub publish_successes : ℕ
  pub publish_failures : ℕ
  pub deadletter_attempts : ℕ
  pub deadletter_successes : ℕ
  pub last_topic : Option String
  pub last_error : Option String
  pub recent_deadletters : List DeadLetterEnvelope
  pub durable_outbox : Bool
  pub outbox_enqueue_observed : ℕ

abbrev mode_name : EventBusMode → String
mode_name EventBusMode.in_memory = "InMemory"
mode_name EventBusMode.postgres = "Postgres"
mode_name EventBusMode.kafka = "Kafka"

abbrev is_kafka : EventBusMode → Bool
is_kafka EventBusMode.kafka = true
is_kafka EventBusMode.in_memory = false
is_kafka EventBusMode.postgres = false

unfoldable pub snapshot : EventBusHandle → EventBusRuntimeSnapshot
unfolding mode_name is_kafka
snapshot handle = record {
  mode = mode_name handle.mode;
  kafka_required = is_kafka handle.mode;
  brokers_configured =
      is_some_and handle.kafka_config.brokers (λ value. not (is_empty (trim value)));
  required_topics = names (required_topic_specs handle.kafka_config);
  publish_attempts = handle.metrics.publish_attempts;
  publish_successes = handle.metrics.publish_successes;
  publish_failures = handle.metrics.publish_failures;
  deadletter_attempts = handle.metrics.deadletter_attempts;
  deadletter_successes = handle.metrics.deadletter_successes;
  last_topic = handle.metrics.last_topic;
  last_error = handle.metrics.last_error;
  recent_deadletters = handle.metrics.recent_deadletters;
  durable_outbox = handle.durable_outbox;
  outbox_enqueue_observed = handle.metrics.outbox_enqueue_observed;
}

abbrev pub not_running : EventBusRuntimeMetrics → EventBusRuntimeMetrics
not_running metrics = record metrics {
  publish_failures = metrics.publish_failures + 1;
  last_error = some "event bus publisher task is not running";
}

abbrev send_to : CommonEvent → EventBusHandle → Option Channel → EventBusHandle
send_to event handle none = handle
send_to event handle (some channel) =
    if channel.is_running
    then record handle { tx = some (record channel { sent = channel.sent ++ event ∷ [] }) }
    else record handle { metrics = not_running handle.metrics }

unfoldable pub publish_background : CommonEvent → EventBusHandle → EventBusHandle
unfolding send_to
publish_background event handle =
    if handle.durable_outbox
    then record handle {
      metrics = record handle.metrics {
        outbox_enqueue_observed = handle.metrics.outbox_enqueue_observed + 1;
      };
    }
    else send_to event handle handle.tx

abbrev pub attempt : String → EventBusRuntimeMetrics → EventBusRuntimeMetrics
attempt topic metrics = record metrics {
  publish_attempts = metrics.publish_attempts + 1;
  last_topic = some topic;
}

abbrev pub succeed : EventBusRuntimeMetrics → EventBusRuntimeMetrics
succeed metrics = record metrics {
  publish_successes = metrics.publish_successes + 1;
  last_error = none;
}

abbrev pub fail : String → EventBusRuntimeMetrics → EventBusRuntimeMetrics
fail error metrics = record metrics {
  publish_failures = metrics.publish_failures + 1;
  last_error = some error;
}

abbrev pub try_deadletter : EventBusRuntimeMetrics → EventBusRuntimeMetrics
try_deadletter metrics = record metrics { deadletter_attempts = metrics.deadletter_attempts + 1 }

-- `publish_deadletter(…).await.is_ok()`
abbrev pub count_deadletter :
    PublishAck ⊎ EventBusError → EventBusRuntimeMetrics → EventBusRuntimeMetrics
count_deadletter (inl ack) metrics = record metrics {
  deadletter_successes = metrics.deadletter_successes + 1;
}
count_deadletter (inr error) metrics = metrics

unfoldable pub keep_recent : DeadLetterEnvelope → List DeadLetterEnvelope → List DeadLetterEnvelope
keep_recent envelope recent =
    (if leb 20 (length recent) then drop 1 recent else recent) ++ envelope ∷ []

-- One event of the task of `spawn_kafka_publisher`: `answer` is what `publish` gives, and
-- `deadletter_answer` what `publish_deadletter` does.
unfoldable pub publish_event :
    (ts : Time → String)
    → (error_text : EventBusError → String) → KafkaConfig
    → CommonEvent
    → (answer deadletter_answer : PublishAck ⊎ EventBusError) → Time
    → EventBusRuntimeMetrics
    → EventBusRuntimeMetrics
publish_event ts error_text kafka event (inl ack) deadletter_answer now metrics =
    succeed (attempt (topic_for_event kafka event.event_type) metrics)
publish_event ts error_text kafka event (inr error) deadletter_answer now metrics =
    let envelope = deadletter_envelope ts event 1 (error_text error) now in
    let failing =
      try_deadletter
        (fail (error_text error) (attempt (topic_for_event kafka event.event_type) metrics)) in
    count_deadletter deadletter_answer
      (record failing { recent_deadletters = keep_recent envelope failing.recent_deadletters })

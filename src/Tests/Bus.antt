-- ===== src/Tests/Bus.antt =====
-- The bus on one event of the company.
use rust_zap.Prelude.{
  ℕ, ◌+◌, ◌≤◌, max, ◌-◌, String, ◌≡◌, refl, true, none, List, [], ◌∷◌, ◌⊎◌, inl, inr, arith,
}
use rust_zap.Prelude.Int.{pos}
use rust_zap.Dict.{string_eq, lookup, insert}
use rust_zap.Json.{null}
use rust_zap.Events.{new_event}
use rust_zap.Config.{KafkaConfig}
use rust_zap.Config.Environment.{app_config, kafka_config}
use rust_zap.Bus.{
  EventBusError, kafka_error, PublishAck, EventSourceOffset, ConsumerHandlerStatus, dead_lettered,
  commit, KafkaConsumerMessage,
}
use rust_zap.Bus.Topics.{
  topic_for_event, retry_topic, deadletter_topic, ensure_topics, ensure_specs, missing_specs,
  required_topic_specs, required_suffixes, check_created,
}
use rust_zap.Bus.Topics.Required.{IsReady, ensure_topics-IsReady}
use rust_zap.Bus.Payloads.{encode_event_for_kafka}
use rust_zap.Bus.Payloads.Checked.{IsChecked, encode_event_for_kafka-IsChecked}
use rust_zap.Bus.Metrics.{EventBusRuntimeMetrics}
use rust_zap.Bus.Outbox.{OutboxRow, Database, new_row, is_claimable, claim_row, record_of}
use rust_zap.Bus.Outbox.Publisher.{Codecs, PublishDraws, publish_outbox_record}
use rust_zap.Bus.Outbox.Tries.{Tries, no_more, one_more, claimed, Tries-bounded}
use rust_zap.Bus.Inbox.{InboxRow, ConsumeDraws, event_inbox_processed, consume_message}
use rust_zap.Bus.Inbox.Once.{consume_message_once}
use rust_zap.Tests.Fixtures.{config, event}

abbrev kafka : KafkaConfig
unfolding app_config
kafka = record config.kafka { retry_max_attempts = 2; enable_auto_create_topics = true }

abbrev decimal : ℕ → String
decimal n = "0"

ensure_topics-IsReady_example :
    IsReady kafka [] (topic_for_event kafka "message.received")
    × IsReady kafka [] (retry_topic kafka)
    × IsReady kafka [] (deadletter_topic kafka)
unfolding ensure_topics ensure_specs missing_specs required_topic_specs required_suffixes kafka
    kafka_config check_created
ensure_topics-IsReady_example =
    ensure_topics-IsReady kafka [] (λ specs. inl []) "message.received" refl

encode_event_for_kafka-IsChecked_example :
    IsChecked decimal kafka event (encode_event_for_kafka decimal (λ e. inl (1 ∷ [])) kafka event)
encode_event_for_kafka-IsChecked_example =
    encode_event_for_kafka-IsChecked decimal (λ e. inl (1 ∷ [])) kafka event

abbrev codecs : Codecs
codecs = record {
  from_value = λ v. inl event;
  to_value = λ e. null;
  to_vec = λ e. inl [];
  decimal = decimal;
  ts = λ t. "2026-01-01T00:00:00Z";
  error_text = λ e. "the broker is away";
}

abbrev row : OutboxRow
unfolding new_row
row = new_row codecs.to_value event "rustzap.message.persisted" "p:c" 5

abbrev start : Database
start = record { outbox = insert "evt_1" row []; deadletters = [] }

abbrev draws : PublishDraws
draws = record {
  now = 10;
  failed_at = 10;
  deadletter_id = "dl_1";
  mark_works = true;
  insert_works = true;
}

abbrev metrics : EventBusRuntimeMetrics
metrics = record {
  publish_attempts = 0;
  publish_successes = 0;
  publish_failures = 0;
  deadletter_attempts = 0;
  deadletter_successes = 0;
  outbox_enqueue_observed = 0;
  last_topic = none;
  last_error = none;
  recent_deadletters = [];
}

abbrev away : PublishAck ⊎ EventBusError
away = inr (kafka_error "away")

-- One try that fails.
abbrev after_one : Database
after_one =
    (publish_outbox_record codecs kafka draws (record_of (claim_row "w" 30 10 row)) away away
      (metrics, claimed "evt_1" "w" 30 10 row start)).1

one_try : Tries codecs kafka "evt_1" 1 start after_one
unfolding lookup insert is_claimable new_row
one_try = one_more start _ row "w" 30 10 away away draws metrics refl refl refl (no_more after_one)

Tries-bounded_example : 1 ≤ max 1 (kafka.retry_max_attempts - row.attempt_count)
unfolding lookup insert new_row new_event kafka
Tries-bounded_example =
    Tries-bounded codecs kafka row event 1 start after_one refl refl (omega arith) (omega arith)
      one_try

abbrev source : EventSourceOffset
source = record { topic = "rustzap.message.persisted"; partition = pos 1; offset = pos 7 }

abbrev message : KafkaConsumerMessage
message = record { event = event; source = source }

-- The same event, published again by a replay.
abbrev replayed : KafkaConsumerMessage
replayed = record { event = event; source = record source { offset = pos 8 } }

abbrev calm : ConsumeDraws
calm = record { check_error = none; mark_error = none; commit_error = none }

abbrev count_call : KafkaConsumerMessage → ℕ → (ConsumerHandlerStatus ⊎ EventBusError) × ℕ
count_call m n = (inl dead_lettered, n + 1)

abbrev inbox : List InboxRow
inbox = (consume_message codecs.to_value count_call calm "rustzap-main" message [] 0).1

-- A message that was handled as a dead letter: the replay reaches no handler.
consume_message_once_example :
    consume_message codecs.to_value count_call calm "rustzap-main" replayed inbox 1
    ≡ (inl commit, inbox, 1)
unfolding consume_message event_inbox_processed
consume_message_once_example =
    consume_message_once codecs.to_value count_call count_call calm calm "rustzap-main" message
      replayed [] inbox 0 1 1 refl refl refl refl refl

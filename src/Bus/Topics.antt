-- ===== src/Bus/Topics.antt =====
-- src/eventbus.rs: the topics of the bus, which one an event goes to, and how topics are made.
-- `existing` is what the broker lists, `created` what it answers to a request for topics.
pub mod Required
use rust_zap.Prelude.{
  ℕ, ◌*◌, String, ◌<>◌, Bool, true, false, ◌||◌, Option, none, some, List, [], ◌∷◌, map, any,
  retain, min, not, is_some, unwrap_or, ◌⊎◌, inl, inr, if◌then◌else◌,
}
use rust_zap.Prelude.Int.{ℤ, pos, negsuc}
use rust_zap.Dict.{◌==◌, string_eq}
use rust_zap.Dict.Distinct.{is_in}
use rust_zap.Text.{strip_prefix, ends_with}
use rust_zap.Text.Order.{sort_texts, dedup}
use rust_zap.Models.{CommonEvent}
use rust_zap.Config.{KafkaConfig}
use rust_zap.Bus.{
  TopicSpec, EventBusError, missing_topics, kafka_topic_create, kafka_error, RdkafkaErrorCodeView,
  topic_already_exists, other, EventBusHealth,
}

abbrev pub event_topic_suffixes : List String
event_topic_suffixes =
    "raw.inbound" ∷ "outbound.send.requested" ∷ "message.persisted" ∷ "media.download.requested"
    ∷ "media.stored" ∷ "audio.transcription.requested" ∷ "audio.transcribed" ∷ "conversation.dirty"
    ∷ "conversation.event" ∷ "delivery.receipt" ∷ "channel.status" ∷ "contact.updated"
    ∷ "group.event" ∷ "websocket.event" ∷ "system.event" ∷ []

abbrev pub starts_with : String → String → Bool
starts_with text prefix = is_some (strip_prefix text prefix)

abbrev pub is_message_event : String → Bool
is_message_event event_type = is_in event_type (
    "message.queued" ∷ "message.received" ∷ "message.sent" ∷ "message.failed" ∷ "message.updated"
    ∷ "message.persisted" ∷ "message.reaction" ∷ [])

abbrev pub is_channel_event : String → Bool
is_channel_event event_type =
    is_in event_type
      ("channel.connected" ∷ "channel.disconnected" ∷ "channel.qr" ∷ "channel.logged_out" ∷ [])

abbrev pub is_system_event : String → Bool
is_system_event event_type =
    ends_with event_type ".ignored"
    || (starts_with event_type "whatsapp_updates."
        || (starts_with event_type "history_sync." || event_type == "ignored_old_message"))

-- The arms of the `match`: a test and the suffix of its topic.
abbrev pub arms : String → List (Bool × String)
arms event_type =
    (event_type == "whatsapp.raw.inbound", "raw.inbound")
    ∷ (event_type == "outbound.send.requested", "outbound.send.requested")
    ∷ (is_message_event event_type, "message.persisted")
    ∷ (event_type == "media.download.requested", "media.download.requested")
    ∷ (event_type == "media.stored", "media.stored")
    ∷ (event_type == "audio.transcription.requested", "audio.transcription.requested")
    ∷ (
      event_type == "audio.transcribed" || event_type == "transcript.completed",
      "audio.transcribed",
    )
    ∷ (event_type == "conversation.dirty", "conversation.dirty")
    ∷ (
      event_type == "conversation.read" || event_type == "conversation.updated",
      "conversation.event",
    )
    ∷ (event_type == "message.receipt", "delivery.receipt")
    ∷ (is_channel_event event_type, "channel.status")
    ∷ (event_type == "contact.updated", "contact.updated")
    ∷ (starts_with event_type "group.", "group.event")
    ∷ (starts_with event_type "websocket.", "websocket.event")
    ∷ (is_system_event event_type, "system.event")
    ∷ []

unfoldable pub first_arm : List (Bool × String) → String
first_arm [] = "raw.inbound"
first_arm ((test, suffix) ∷ r) = if test then suffix else first_arm r

abbrev pub under_prefix : KafkaConfig → String → String
under_prefix kafka suffix = kafka.topic_prefix <> ("." <> suffix)

unfoldable pub topic_for_event : KafkaConfig → String → String
topic_for_event kafka event_type = under_prefix kafka (first_arm (arms event_type))

-- `saturating_mul` by a natural number on an `i64`.
abbrev pub saturated : ℕ → ℤ
saturated ℕ.zero = pos 0
saturated (ℕ.suc m) = negsuc (min m 9223372036854775807)

abbrev pub saturating_mul : ℤ → ℕ → ℤ
saturating_mul (pos n) k = pos (min (n * k) 9223372036854775807)
saturating_mul (negsuc n) k = saturated (ℕ.suc n * k)

unfoldable pub retention_ms : ℤ → ℤ
retention_ms hours = saturating_mul (saturating_mul (saturating_mul hours 60) 60) 1000

-- The suffixes of the `BTreeSet`.
unfoldable pub required_suffixes : KafkaConfig → List String
unfolding sort_texts dedup
required_suffixes kafka =
    dedup
      (sort_texts (kafka.retry_topic_suffix ∷ kafka.deadletter_topic_suffix ∷ event_topic_suffixes))

abbrev pub topic_spec : KafkaConfig → String → TopicSpec
topic_spec kafka suffix = record {
  name = under_prefix kafka suffix;
  partitions = kafka.default_partitions;
  replication_factor = kafka.default_replication_factor;
  retention_ms = retention_ms (
      if suffix == kafka.deadletter_topic_suffix
      then kafka.deadletter_retention_hours
      else kafka.message_retention_hours);
}

unfoldable pub required_topic_specs : KafkaConfig → List TopicSpec
required_topic_specs kafka = map (topic_spec kafka) (required_suffixes kafka)

abbrev pub retry_topic : KafkaConfig → String
retry_topic kafka = under_prefix kafka kafka.retry_topic_suffix

abbrev pub deadletter_topic : KafkaConfig → String
deadletter_topic kafka = under_prefix kafka kafka.deadletter_topic_suffix

abbrev key_tail : Option String → Option String → String
key_tail (some conversation_id) channel_id = ":" <> conversation_id
key_tail none (some channel_id) = ":" <> channel_id
key_tail none none = ""

unfoldable pub partition_key : CommonEvent → String
unfolding key_tail
partition_key event =
    event.project_id
    <> (":" <> (event.company_id <> key_tail event.conversation_id event.channel_id))

abbrev pub join : String → List String → String
join separator [] = ""
join separator (t ∷ []) = t
join separator (t ∷ u ∷ r) = t <> (separator <> join separator (u ∷ r))

unfoldable pub missing_specs : KafkaConfig → List String → List TopicSpec
missing_specs kafka existing =
    retain (λ (spec : TopicSpec). not (is_in spec.name existing)) (required_topic_specs kafka)

-- What the broker answers for one topic it was asked to make.
pub data Created : Type 0 where
  made : String → Created
  refused : String → RdkafkaErrorCodeView → Created

-- The loop over the answers.
unfoldable pub check_created : List Created → Unit {0} ⊎ EventBusError
check_created [] = inl tt
check_created (made topic ∷ r) = check_created r
check_created (refused topic topic_already_exists ∷ r) = check_created r
check_created (refused topic (other code) ∷ r) = inr (kafka_topic_create topic (other code))

abbrev pub names : List TopicSpec → List String
names = map (λ (spec : TopicSpec). spec.name)

-- `ensure_topics` once it knows what is missing.
unfoldable pub ensure_specs :
    KafkaConfig
    → (create_topics : List TopicSpec → List Created ⊎ String) → List TopicSpec
    → Unit {0} ⊎ EventBusError
ensure_specs kafka create_topics [] = inl tt
ensure_specs kafka create_topics (spec ∷ specs) =
    if kafka.enable_auto_create_topics
    then elim (create_topics (spec ∷ specs)) [
      | inr error ↦ inr (kafka_error error)
      | inl results ↦ check_created results
    ]
    else inr (missing_topics (join ", " (names (spec ∷ specs))))

unfoldable pub ensure_topics :
    KafkaConfig
    → (existing : List String ⊎ EventBusError)
    → (create_topics : List TopicSpec → List Created ⊎ String) → Unit {0} ⊎ EventBusError
ensure_topics kafka (inr error) create_topics = inr error
ensure_topics kafka (inl existing) create_topics =
    ensure_specs kafka create_topics (missing_specs kafka existing)

abbrev health_of : KafkaConfig → List String → EventBusHealth
health_of kafka [] = record { ok = true; detail = "kafka ready at " <> unwrap_or kafka.brokers "" }
health_of kafka (name ∷ r) = record {
  ok = false;
  detail = "Kafka missing required topics: " <> join ", " (name ∷ r);
}

-- `KafkaEventBus::health`
unfoldable pub kafka_health :
    KafkaConfig → List String ⊎ EventBusError → EventBusHealth ⊎ EventBusError
unfolding health_of
kafka_health kafka (inr error) = inr error
kafka_health kafka (inl existing) = inl (health_of kafka (names (missing_specs kafka existing)))

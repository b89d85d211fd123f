-- ===== src/Config/Environment.antt =====
-- src/config.rs: the settings read from the environment. `lookup` is `env::var(key).ok()`; the
-- decoding of a master key is a parameter.
use rust_zap.Prelude.{
  ℕ, zero, suc, ◌+◌, ◌-◌, ◌*◌, ◌^◌, String, Bool, true, false, ◌&&◌, not, Option, none, some, List,
  [], ◌∷◌, leb, nat_eq, if◌then◌else◌, and_then, map_option, keep_if, unwrap_or, or_else, ◌⊎◌, inl,
  inr,
}
use rust_zap.Prelude.Int.{ℤ, pos, negsuc}
use rust_zap.Dict.{◌==◌, string_eq}
use rust_zap.Text.{codes, trim, is_empty, is_ascii_digit}
use rust_zap.Config.{
  EventBusMode, MetadataDbMode, StorageProvider, ConsumerSignalMode, R2Config, KafkaConfig,
  WebhookConfig, GroqConfig, RateLimitConfig, SecretMasterKey, AppConfig,
}

-- The number that digits stand for after `n`, if it is below `bound`, and `str::parse` of Rust's
-- unsigned integers: an optional sign and at least one digit.
unfoldable pub digits : (bound : ℕ) → ℕ → List ℕ → Option ℕ
digits bound n [] = some n
digits bound n (c ∷ cs) =
    let rest = digits bound (10 * n + (c - b'0')) cs in
    if is_ascii_digit c && leb (suc (10 * n + (c - b'0'))) bound then rest else none

unfoldable pub parse_digits : (bound : ℕ) → List ℕ → Option ℕ
unfolding digits
parse_digits bound [] = none
parse_digits bound (c ∷ cs) = digits bound 0 (c ∷ cs)

abbrev unsigned : (bound : ℕ) → List ℕ → Option ℕ
unsigned bound [] = none
unsigned bound (c ∷ cs) =
    if nat_eq c b'+' then parse_digits bound cs else parse_digits bound (c ∷ cs)

abbrev pub parse_uint : (bits : ℕ) → String → Option ℕ
parse_uint bits text = unsigned (2 ^ bits) (codes text)

-- `str::parse` of the signed integers from `negsuc (bound - 1)` to `pos (bound - 1)`.
abbrev negated : ℕ → ℤ
negated zero = pos 0
negated (suc n) = negsuc n

abbrev signed : (bound : ℕ) → List ℕ → Option ℤ
signed bound [] = none
signed bound (c ∷ cs) =
    if nat_eq c b'-'
    then map_option negated (parse_digits (suc bound) cs)
    else map_option pos (unsigned bound (c ∷ cs))

abbrev pub parse_int : (bits : ℕ) → String → Option ℤ
parse_int bits text = signed (2 ^ (bits - 1)) (codes text)

abbrev parse_bool : String → Option Bool
parse_bool text = if text == "true" then some true else if text == "false" then some false else none

abbrev key_of : SecretMasterKey ⊎ String → Option SecretMasterKey
key_of (inl key) = some key
key_of (inr error) = none

abbrev key_error : SecretMasterKey ⊎ String → Option String
key_error (inl key) = none
key_error (inr error) = some error

module _ (lookup : String → Option String) where
  abbrev pub env_or : String → String → String
  env_or key default = unwrap_or (lookup key) default

  abbrev is_given : String → Bool
  is_given value = not (is_empty (trim value))

  abbrev pub env_first : List String → Option String
  env_first [] = none
  env_first (key ∷ keys) = or_else (keep_if is_given (lookup key)) (env_first keys)

  abbrev pub env_bool : String → Bool → Bool
  env_bool key default = unwrap_or (and_then (lookup key) parse_bool) default

  -- `env_u32`, and `env_u64` and `env_usize`.
  abbrev pub env_u32 : String → ℕ → ℕ
  env_u32 key default = unwrap_or (and_then (lookup key) (parse_uint 32)) default

  abbrev pub env_u64 : String → ℕ → ℕ
  env_u64 key default = unwrap_or (and_then (lookup key) (parse_uint 64)) default

  abbrev pub lookup_or : String → String → String
  lookup_or key default = unwrap_or (keep_if is_given (lookup key)) default

  abbrev pub lookup_i32 : String → ℤ → ℤ
  lookup_i32 key default = unwrap_or (and_then (lookup key) (parse_int 32)) default

  abbrev pub lookup_i64 : String → ℤ → ℤ
  lookup_i64 key default = unwrap_or (and_then (lookup key) (parse_int 64)) default

  unfoldable pub event_bus_mode : EventBusMode
  event_bus_mode =
      let mode = env_or "EVENT_BUS" "in_memory" in
      if mode == "kafka"
      then EventBusMode.kafka
      else if mode == "postgres"
      then EventBusMode.postgres
      else EventBusMode.in_memory

  unfoldable pub metadata_db_mode : MetadataDbMode
  metadata_db_mode =
      if env_or "RUSTZAP_METADATA_DB" "in_memory" == "postgres"
      then MetadataDbMode.postgres
      else MetadataDbMode.in_memory

  unfoldable pub consumer_signal_mode : ConsumerSignalMode
  consumer_signal_mode =
      let mode = env_or "CONSUMER_SIGNAL_MODE" "polling" in
      if mode == "websocket"
      then ConsumerSignalMode.websocket
      else if mode == "webhook"
      then ConsumerSignalMode.webhook
      else if mode == "kafka"
      then ConsumerSignalMode.kafka
      else if mode == "websocket_and_polling"
      then ConsumerSignalMode.websocket_and_polling
      else if mode == "webhook_and_polling"
      then ConsumerSignalMode.webhook_and_polling
      else ConsumerSignalMode.polling

  unfoldable pub storage_provider : StorageProvider
  storage_provider =
      if env_or "STORAGE_PROVIDER" "local_fs" == "r2"
      then StorageProvider.r2
      else StorageProvider.local_fs

  unfoldable pub r2_config : R2Config
  r2_config = record {
    endpoint = env_first ("R2_DEV_ENDPOINT" ∷ "R2_ENDPOINT" ∷ []);
    access_key_id = env_first ("R2_DEV_ACCESS_KEY_ID" ∷ "R2_ACCESS_KEY_ID" ∷ []);
    secret_access_key = env_first ("R2_DEV_SECRET_ACCESS_KEY" ∷ "R2_SECRET_ACCESS_KEY" ∷ []);
    bucket = unwrap_or (env_first ("R2_DEV_BUCKET" ∷ "R2_BUCKET" ∷ [])) "devbucket";
    public_url = env_first ("R2_DEV_PUBLIC_URL" ∷ "R2_PUBLIC_URL" ∷ []);
    region = unwrap_or (env_first ("R2_DEV_REGION" ∷ "R2_REGION" ∷ [])) "auto";
    base_prefix = unwrap_or (env_first ("R2_DEV_BASE_PREFIX" ∷ "R2_BASE_PREFIX" ∷ [])) "rustyzap";
  }

  unfoldable pub kafka_config : KafkaConfig
  kafka_config = record {
    brokers = keep_if is_given (lookup "KAFKA_BROKERS");
    client_id = lookup_or "KAFKA_CLIENT_ID" "rustzap";
    topic_prefix = lookup_or "KAFKA_TOPIC_PREFIX" "rustzap";
    consumer_group = lookup_or "KAFKA_CONSUMER_GROUP" "rustzap-main";
    retry_topic_suffix = lookup_or "KAFKA_RETRY_TOPIC_SUFFIX" "retry";
    deadletter_topic_suffix = lookup_or "KAFKA_DEADLETTER_TOPIC_SUFFIX" "deadletter";
    message_max_bytes = env_u64 "KAFKA_MESSAGE_MAX_BYTES" 1048576;
    enable_auto_create_topics = env_bool "KAFKA_ENABLE_AUTO_CREATE_TOPICS" true;
    default_partitions = lookup_i32 "KAFKA_DEFAULT_PARTITIONS" (pos 24);
    default_replication_factor = lookup_i32 "KAFKA_DEFAULT_REPLICATION_FACTOR" (pos 1);
    message_retention_hours = lookup_i64 "KAFKA_MESSAGE_RETENTION_HOURS" (pos 168);
    deadletter_retention_hours = lookup_i64 "KAFKA_DEADLETTER_RETENTION_HOURS" (pos 168);
    compression_type = lookup_or "KAFKA_COMPRESSION_TYPE" "none";
    producer_linger_ms = env_u64 "KAFKA_PRODUCER_LINGER_MS" 5;
    producer_batch_size_bytes = env_u64 "KAFKA_PRODUCER_BATCH_SIZE_BYTES" 65536;
    consumer_max_poll_records = env_u64 "KAFKA_CONSUMER_MAX_POLL_RECORDS" 500;
    retry_max_attempts = env_u32 "KAFKA_RETRY_MAX_ATTEMPTS" 8;
    request_timeout_ms = env_u64 "KAFKA_REQUEST_TIMEOUT_MS" 5000;
  }

  unfoldable pub webhook_config : WebhookConfig
  webhook_config = record {
    delivery_enabled = env_bool "WEBHOOK_DELIVERY_ENABLED" false;
    timeout_seconds = env_u64 "WEBHOOK_TIMEOUT_SECONDS" 10;
    max_batch_size = env_u64 "WEBHOOK_MAX_BATCH_SIZE" 100;
    max_retries = env_u32 "WEBHOOK_MAX_RETRIES" 8;
    retry_base_seconds = env_u64 "WEBHOOK_RETRY_BASE_SECONDS" 5;
    retry_max_seconds = env_u64 "WEBHOOK_RETRY_MAX_SECONDS" 3600;
    signing_header = env_or "WEBHOOK_SIGNING_HEADER" "X-RustZap-Signature";
    timestamp_header = env_or "WEBHOOK_TIMESTAMP_HEADER" "X-RustZap-Timestamp";
    event_id_header = env_or "WEBHOOK_EVENT_ID_HEADER" "X-RustZap-Event-Id";
  }

  unfoldable pub groq_config : GroqConfig
  groq_config = record {
    api_key = keep_if is_given (lookup "GROQ_API_KEY");
    stt_model = env_or "GROQ_STT_MODEL" "whisper-large-v3-turbo";
    stt_language = env_or "GROQ_STT_LANGUAGE" "pt";
    stt_response_format = env_or "GROQ_STT_RESPONSE_FORMAT" "verbose_json";
    stt_timeout_seconds = env_u64 "GROQ_STT_TIMEOUT_SECONDS" 60;
    stt_max_audio_mb = env_u64 "GROQ_STT_MAX_AUDIO_MB" 25;
    stt_enable_preprocessing = env_bool "GROQ_STT_ENABLE_PREPROCESSING" true;
    ffmpeg_path = env_or "FFMPEG_PATH" "/usr/bin/ffmpeg";
  }

  unfoldable pub rate_limit_config : RateLimitConfig
  rate_limit_config = record {
    requests_per_minute_per_project = env_u32 "RATE_LIMIT_REQUESTS_PER_MINUTE_PER_PROJECT" 6000;
    send_message_per_minute_per_channel =
        env_u32 "RATE_LIMIT_SEND_MESSAGE_PER_MINUTE_PER_CHANNEL" 120;
    send_message_per_minute_per_conversation =
        env_u32 "RATE_LIMIT_SEND_MESSAGE_PER_MINUTE_PER_CONVERSATION" 20;
    media_downloads_per_minute_per_channel =
        env_u32 "RATE_LIMIT_MEDIA_DOWNLOADS_PER_MINUTE_PER_CHANNEL" 300;
    stt_per_minute_per_project = env_u32 "RATE_LIMIT_STT_PER_MINUTE_PER_PROJECT" 120;
    admin_requests_per_minute = env_u32 "RATE_LIMIT_ADMIN_REQUESTS_PER_MINUTE" 300;
    ws_subscriptions_per_connection = env_u32 "RATE_LIMIT_WS_SUBSCRIPTIONS_PER_CONNECTION" 1000;
  }

  -- `secret_master_key_from_env`: nothing, a key, or what is wrong with it.
  abbrev pub secret_master_key_from_env :
      (String → SecretMasterKey ⊎ String) → Option (SecretMasterKey ⊎ String)
  secret_master_key_from_env from_env_value =
      map_option from_env_value
        (env_first ("RUSTZAP_SECRET_MASTER_KEY" ∷ "RUSTZAP_SECRETS_MASTER_KEY" ∷ []))

  unfoldable pub app_config : (String → SecretMasterKey ⊎ String) → AppConfig
  app_config from_env_value =
      let key = secret_master_key_from_env from_env_value in
      record {
        env = env_or "RUSTZAP_ENV" "development";
        bind_addr = env_or "RUSTZAP_BIND_ADDR" "0.0.0.0:8167";
        public_base_url = env_or "RUSTZAP_PUBLIC_BASE_URL" "http://localhost:8167";
        log_level = env_or "RUSTZAP_LOG_LEVEL" "info";
        dev_mode = env_bool "RUSTZAP_DEV_MODE" true;
        dev_simulation_enabled = env_bool "DEV_SIMULATION_ENABLED" false;
        admin_api_key = env_or "RUSTZAP_ADMIN_API_KEY" "dev_admin_key";
        project_api_key = env_or "RUSTZAP_PROJECT_API_KEY" "dev_project_key";
        metadata_db = metadata_db_mode;
        database_url = lookup "DATABASE_URL";
        database_max_connections = env_u32 "DATABASE_MAX_CONNECTIONS" 50;
        database_min_connections = env_u32 "DATABASE_MIN_CONNECTIONS" 5;
        wa_session_sqlite_dir = env_or "WA_SESSION_SQLITE_DIR" "/data/rustzap/wa-sessions";
        event_bus = event_bus_mode;
        consumer_signal_mode = consumer_signal_mode;
        storage_provider = storage_provider;
        local_storage_dir = env_or "LOCAL_STORAGE_DIR" "/tmp/rustzap/media";
        r2_ready_write_check = env_bool "R2_READY_WRITE_CHECK" false;
        r2 = r2_config;
        kafka = kafka_config;
        webhook = webhook_config;
        groq = groq_config;
        rate_limits = rate_limit_config;
        media_local_temp_dir = env_or "MEDIA_LOCAL_TEMP_DIR" "/data/rustzap/tmp-media";
        media_local_temp_max_gb = env_u64 "MEDIA_LOCAL_TEMP_MAX_GB" 20;
        media_sniff_magic_bytes = env_bool "MEDIA_SNIFF_MAGIC_BYTES" true;
        r2_presigned_url_ttl_seconds = env_u64 "R2_PRESIGNED_URL_TTL_SECONDS" 900;
        media_temp_retention_days = env_u32 "MEDIA_TEMP_RETENTION_DAYS" 30;
        media_quick_delete_threshold_mb = env_u64 "MEDIA_QUICK_DELETE_THRESHOLD_MB" 25;
        media_reject_threshold_mb = env_u64 "MEDIA_REJECT_THRESHOLD_MB" 100;
        webhook_signing_header = env_or "WEBHOOK_SIGNING_HEADER" "X-RustZap-Signature";
        secret_master_key = and_then key key_of;
        secret_master_key_error = and_then key key_error;
        log_redact_message_text = env_bool "RUSTZAP_LOG_REDACT_MESSAGE_TEXT" true;
        log_redact_phone = env_bool "RUSTZAP_LOG_REDACT_PHONE" true;
      }

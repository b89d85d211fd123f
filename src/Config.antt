-- ===== src/Config.antt =====
-- src/config.rs: the settings; Config/Environment reads them.
pub mod Environment
use rust_zap.Prelude.{
  ℕ, String, ◌<>◌, Bool, true, false, ◌&&◌, not, Option, none, List, map_option, is_some_and,
  nat_eq, if◌then◌else◌,
}
use rust_zap.Prelude.Int.{ℤ}
use rust_zap.Text.{is_empty}
use Prim.Native.Char.{code}

pub data EventBusMode : Type 0 where
  in_memory postgres kafka : EventBusMode

pub data MetadataDbMode : Type 0 where
  in_memory postgres : MetadataDbMode

pub data StorageProvider : Type 0 where
  local_fs r2 : StorageProvider

pub data ConsumerSignalMode : Type 0 where
  polling websocket webhook kafka websocket_and_polling webhook_and_polling : ConsumerSignalMode

pub record R2Config : Type 0 where
  pub endpoint : Option String
  pub access_key_id : Option String
  pub secret_access_key : Option String
  pub bucket : String
  pub public_url : Option String
  pub region : String
  pub base_prefix : String

pub record KafkaConfig : Type 0 where
  pub brokers : Option String
  pub client_id : String
  pub topic_prefix : String
  pub consumer_group : String
  pub retry_topic_suffix : String
  pub deadletter_topic_suffix : String
  pub message_max_bytes : ℕ
  pub enable_auto_create_topics : Bool
  pub default_partitions : ℤ
  pub default_replication_factor : ℤ
  pub message_retention_hours : ℤ
  pub deadletter_retention_hours : ℤ
  pub compression_type : String
  pub producer_linger_ms : ℕ
  pub producer_batch_size_bytes : ℕ
  pub consumer_max_poll_records : ℕ
  pub retry_max_attempts : ℕ
  pub request_timeout_ms : ℕ

pub record WebhookConfig : Type 0 where
  pub delivery_enabled : Bool
  pub timeout_seconds : ℕ
  pub max_batch_size : ℕ
  pub max_retries : ℕ
  pub retry_base_seconds : ℕ
  pub retry_max_seconds : ℕ
  pub signing_header : String
  pub timestamp_header : String
  pub event_id_header : String

pub record GroqConfig : Type 0 where
  pub api_key : Option String
  pub stt_model : String
  pub stt_language : String
  pub stt_response_format : String
  pub stt_timeout_seconds : ℕ
  pub stt_max_audio_mb : ℕ
  pub stt_enable_preprocessing : Bool
  pub ffmpeg_path : String

pub record RateLimitConfig : Type 0 where
  pub requests_per_minute_per_project : ℕ
  pub send_message_per_minute_per_channel : ℕ
  pub send_message_per_minute_per_conversation : ℕ
  pub media_downloads_per_minute_per_channel : ℕ
  pub stt_per_minute_per_project : ℕ
  pub admin_requests_per_minute : ℕ
  pub ws_subscriptions_per_connection : ℕ

-- `SecretMasterKey([u8; 32])`
pub record SecretMasterKey : Type 0 where
  pub bytes : List ℕ

-- A path is its text.
pub record AppConfig : Type 0 where
  pub env : String
  pub bind_addr : String
  pub public_base_url : String
  pub log_level : String
  pub dev_mode : Bool
  pub dev_simulation_enabled : Bool
  pub admin_api_key : String
  pub project_api_key : String
  pub metadata_db : MetadataDbMode
  pub database_url : Option String
  pub database_max_connections : ℕ
  pub database_min_connections : ℕ
  pub wa_session_sqlite_dir : String
  pub event_bus : EventBusMode
  pub consumer_signal_mode : ConsumerSignalMode
  pub storage_provider : StorageProvider
  pub local_storage_dir : String
  pub r2_ready_write_check : Bool
  pub r2 : R2Config
  pub kafka : KafkaConfig
  pub webhook : WebhookConfig
  pub groq : GroqConfig
  pub rate_limits : RateLimitConfig
  pub media_local_temp_dir : String
  pub media_local_temp_max_gb : ℕ
  pub media_sniff_magic_bytes : Bool
  pub r2_presigned_url_ttl_seconds : ℕ
  pub media_temp_retention_days : ℕ
  pub media_quick_delete_threshold_mb : ℕ
  pub media_reject_threshold_mb : ℕ
  pub webhook_signing_header : String
  pub secret_master_key : Option SecretMasterKey
  pub secret_master_key_error : Option String
  pub log_redact_message_text : Bool
  pub log_redact_phone : Bool

abbrev pub is_local_fs : StorageProvider → Bool
is_local_fs local_fs = true
is_local_fs r2 = false

keep_slash : ℕ → String → String → String
keep_slash c s String.[] = if nat_eq c b'/' then String.[] else s
keep_slash c s (String.◌∷◌ d t) = s

-- `trim_end_matches('/')`
unfoldable pub trim_end_slashes : String → String
unfolding keep_slash
trim_end_slashes String.[] = String.[]
trim_end_slashes (String.◌∷◌ c s) =
    let rest = trim_end_slashes s in keep_slash (code c) (String.◌∷◌ c rest) rest

-- `trim_start_matches('/')`
unfoldable pub trim_start_slashes : String → String
trim_start_slashes String.[] = String.[]
trim_start_slashes (String.◌∷◌ c s) =
    if nat_eq (code c) b'/' then trim_start_slashes s else String.◌∷◌ c s

unfoldable pub dev_media_url : AppConfig → String → String
unfolding trim_end_slashes
dev_media_url config media_id =
    trim_end_slashes config.public_base_url <> ("/dev-media/" <> media_id)

-- `R2Config::public_object_url`, and the same of an `AppConfig`.
unfoldable pub r2_object_url : R2Config → String → Option String
unfolding trim_end_slashes trim_start_slashes
r2_object_url config object_key =
    map_option (λ base. trim_end_slashes base <> ("/" <> trim_start_slashes object_key))
      config.public_url

unfoldable pub public_object_url : AppConfig → String → Option String
unfolding r2_object_url
public_object_url config object_key =
    if is_local_fs config.storage_provider then none else r2_object_url config.r2 object_key

abbrev filled_in : Option String → Bool
filled_in value = is_some_and value (λ t. not (is_empty t))

unfoldable pub can_upload : R2Config → Bool
unfolding filled_in
can_upload config =
    filled_in config.endpoint
    && (filled_in config.access_key_id
        && (filled_in config.secret_access_key && not (is_empty config.bucket)))

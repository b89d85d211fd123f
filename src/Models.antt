-- ===== src/Models.antt =====
-- src/models.rs: the records of the API. An `OffsetDateTime` is a `Time`, the nanoseconds since the
-- epoch; an `i64` is a `ℤ`.
pub mod Delivery
use rust_zap.Prelude.{ℕ, ◌*◌, String, Bool, Option}
use rust_zap.Prelude.Int.{ℤ}
use rust_zap.Json.{Value}

abbrev pub Time : Type 0
Time = ℕ

-- `Duration::seconds`, `Duration::days`
abbrev pub seconds : ℕ → Time
seconds n = n * 1000000000

abbrev pub days : ℕ → Time
days n = n * 86400000000000

pub record Conversation : Type 0 where
  pub id : String
  pub project_id : String
  pub company_id : String
  pub channel_account_id : String
  pub conversation_type : String
  pub contact_id : Option String
  pub group_id : Option String
  pub display_name : Option String
  pub display_phone : Option String
  pub phone_number : Option String
  pub profile_picture_media_id : Option String
  pub avatar_url : Option String
  pub profile_picture_url : Option String
  pub last_seq : ℤ
  pub last_message_at : Option Time
  pub unread_count : ℤ
  pub is_archived : Bool
  pub is_muted : Bool
  pub is_pinned : Bool
  pub control_mode : String
  pub created_at : Time
  pub updated_at : Time

pub record Message : Type 0 where
  pub id : String
  pub project_id : String
  pub company_id : String
  pub conversation_id : String
  pub channel_account_id : String
  pub conversation_seq : ℤ
  pub wa_message_id : Option String
  pub direction : String
  pub sender_contact_id : Option String
  pub sender_display_name : Option String
  pub message_type : String
  pub text : Option String
  pub media_id : Option String
  pub media_url : Option String
  pub thumbnail_url : Option String
  pub mime_type : Option String
  pub file_name : Option String
  pub quoted_message_id : Option String
  pub status : String
  pub error_message : Option String
  pub is_starred : Bool
  pub is_pinned : Bool
  pub reaction : Option String
  pub sent_by_source : Option String
  pub sent_by_external_user_id : Option String
  pub created_at_wa : Time
  pub created_at : Time
  pub updated_at : Time

pub record SendMessageRequest : Type 0 where
  pub message_type : String
  pub text : Option String
  pub media_id : Option String
  pub caption : Option String
  pub filename : Option String
  pub quoted_message_id : Option String
  pub metadata : Option Value

pub record QrState : Type 0 where
  pub channel_id : String
  pub status : String
  pub qr_code_text : Option String
  pub expires_at : Time

-- `duration_seconds` is an `f64` that the code carries and never computes with: its text.
pub record MediaObject : Type 0 where
  pub id : String
  pub project_id : String
  pub company_id : String
  pub conversation_id : String
  pub message_id : Option String
  pub media_type : String
  pub mime_type : String
  pub original_filename : Option String
  pub size_bytes : ℕ
  pub sha256 : String
  pub storage_status : String
  pub bucket : Option String
  pub object_key : Option String
  pub permanent_object_key : Option String
  pub public_url : Option String
  pub thumbnail_url : Option String
  pub width : Option ℕ
  pub height : Option ℕ
  pub duration_seconds : Option String
  pub expires_at : Option Time
  pub saved_at : Option Time
  pub created_at : Time
  pub updated_at : Time

pub record Transcript : Type 0 where
  pub id : String
  pub project_id : String
  pub company_id : String
  pub message_id : String
  pub media_id : Option String
  pub provider : String
  pub model : String
  pub language : String
  pub text : Option String
  pub raw_response_json : Value
  pub status : String
  pub error_message : Option String
  pub created_at : Time
  pub updated_at : Time

pub record DirtyConversationItem : Type 0 where
  pub conversation_id : String
  pub max_seq : ℤ
  pub reason : String
  pub priority : ℤ
  pub available_at : Time
  pub lease_token : String
  pub locked_until : Time

pub record DirtyAckRequest : Type 0 where
  pub consumer_id : String
  pub processed_until_seq : ℤ
  pub lease_token : String

pub record WebhookDeliveryAttempt : Type 0 where
  pub id : String
  pub project_id : String
  pub company_id : String
  pub callback_id : String
  pub event_id : String
  pub attempt : ℕ
  pub status : String
  pub http_status : Option ℕ
  pub error_message : Option String
  pub first_failed_at : Option Time
  pub last_failed_at : Option Time
  pub next_retry_at : Option Time
  pub created_at : Time

pub record CommonEvent : Type 0 where
  pub event_id : String
  pub event_type : String
  pub project_id : String
  pub company_id : String
  pub channel_id : Option String
  pub conversation_id : Option String
  pub message_id : Option String
  pub conversation_seq : Option ℤ
  pub trace_id : String
  pub causation_id : Option String
  pub correlation_id : String
  pub occurred_at : Time
  pub produced_at : Time
  pub payload : Value

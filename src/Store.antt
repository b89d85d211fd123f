-- ===== src/Store.antt =====
-- src/state.rs: `StoreInner`, the state behind the store's lock, and its records.
use rust_zap.Prelude.{ℕ, String, Bool, Option, List, [], ◌∷◌, ◌++◌}
use rust_zap.Prelude.Int.{ℤ}
use rust_zap.Dict.{Dict}
use rust_zap.Json.{Value}
use rust_zap.Models.{
  Time, Conversation, Message, MediaObject, Transcript, QrState, CommonEvent,
  WebhookDeliveryAttempt,
}

pub record ContactRecord : Type 0 where
  pub id : String
  pub canonical_jid : Option String
  pub lid : Option String
  pub project_id : String
  pub company_id : String
  pub channel_account_id : Option String
  pub phone_e164 : Option String
  pub push_name : Option String
  pub display_name : String
  pub profile_picture_media_id : Option String
  pub business_description : Option String
  pub profile_lookup_attempted_at : Option Time
  pub profile_lookup_failed_at : Option Time
  pub profile_lookup_failure_count : ℕ
  pub avatar_url : Option String
  pub profile_picture_url : Option String
  pub first_contact_at : Time
  pub last_contact_at : Time

pub record GroupMemberRecord : Type 0 where
  pub group_id : String
  pub contact_id : String
  pub wa_jid : Option String
  pub phone_e164 : Option String
  pub display_name : String
  pub role : String
  pub is_admin : Bool
  pub joined_at : Time
  pub updated_at : Time
  pub last_seen_at : Time

pub record GroupRecord : Type 0 where
  pub wa_jid : Option String
  pub subject : Option String
  pub description : Option String
  pub owner_jid : Option String
  pub subject_owner_jid : Option String
  pub profile_picture_media_id : Option String
  pub avatar_url : Option String
  pub profile_picture_url : Option String
  pub created_at_wa : Option Time
  pub members_count : Option ℕ
  pub admins_count : Option ℕ

pub record IdempotencyRecord : Type 0 where
  pub request_hash : String
  pub message_id : String

pub record MediaUploadIdempotencyRecord : Type 0 where
  pub request_hash : String
  pub media_id : String

pub record DirtyRecord : Type 0 where
  pub conversation_id : String
  pub max_seq : ℤ
  pub reason : String
  pub priority : ℤ
  pub available_at : Time
  pub lease_token : Option String
  pub locked_until : Option Time

pub record DirtyLeaseRecord : Type 0 where
  pub lease_token : String
  pub locked_until : Time
  pub max_seq : ℤ

abbrev pub Key₃ : Type 0
Key₃ = String × String × String

abbrev pub Key₄ : Type 0
Key₄ = String × String × String × String

-- `sent` is no field of the source: it is what `events_tx` and the event bus have been handed.
pub record StoreInner : Type 0 where
  pub projects : Dict String Value
  pub companies : Dict (String × String) Value
  pub api_keys : Dict String Value
  pub channels : Dict String Value
  pub conversations : Dict String Conversation
  pub messages_by_conversation : Dict String (List Message)
  pub messages_by_id : Dict String Message
  pub idempotency : Dict Key₃ IdempotencyRecord
  pub media_upload_idempotency : Dict Key₃ MediaUploadIdempotencyRecord
  pub media_upload_idempotency_inflight : Dict Key₃ String
  pub dirty : Dict Key₃ DirtyRecord
  pub dirty_leases : Dict Key₄ DirtyLeaseRecord
  pub consumer_state : Dict Key₄ ℤ
  pub contacts : Dict String ContactRecord
  pub groups : Dict String GroupRecord
  pub group_members : Dict String (Dict String GroupMemberRecord)
  pub group_profile_refreshes : Dict String Time
  pub media : Dict String MediaObject
  pub transcripts : Dict String Transcript
  pub qr : Dict String QrState
  pub events : List CommonEvent
  pub internal_processed_event_ids : List String
  pub callbacks : Dict String Value
  pub webhook_delivery_attempts : List WebhookDeliveryAttempt
  pub audit_logs : List Value
  pub sent : List CommonEvent

-- `StoreInner::default()`
abbrev pub empty : StoreInner
empty = record {
  projects = [];
  companies = [];
  api_keys = [];
  channels = [];
  conversations = [];
  messages_by_conversation = [];
  messages_by_id = [];
  idempotency = [];
  media_upload_idempotency = [];
  media_upload_idempotency_inflight = [];
  dirty = [];
  dirty_leases = [];
  consumer_state = [];
  contacts = [];
  groups = [];
  group_members = [];
  group_profile_refreshes = [];
  media = [];
  transcripts = [];
  qr = [];
  events = [];
  internal_processed_event_ids = [];
  callbacks = [];
  webhook_delivery_attempts = [];
  audit_logs = [];
  sent = [];
}

-- Every caller passes both the broadcast channel and the bus.
unfoldable pub push_event_inner : CommonEvent → StoreInner → StoreInner
push_event_inner event inner = record inner {
  sent = inner.sent ++ event ∷ [];
  events = inner.events ++ event ∷ [];
}

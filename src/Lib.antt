-- ===== src/Lib.antt =====
-- RustZap keeps WhatsApp conversations for the companies of a project: it stores what comes in and
-- what is sent, numbers messages, tells consumers which conversations have news, and hands requests
-- to workers as events. The state of the service is one record behind a lock, `StoreInner`
-- (src/state.rs); every operation takes the lock, so an operation is a function from the store to
-- its result and the store after it.
--
-- Store is `StoreInner` with its records, Models the records of src/models.rs, Error the errors of
-- src/error.rs, Config the settings of src/config.rs, Events how src/eventbus.rs makes an event.
-- Jid has the functions on WhatsApp ids and phone numbers of src/state.rs, Contacts and
-- Conversations its `upsert_contact_inner`, `upsert_contact_with_alt_inner`,
-- `enrich_contact_inner`, `upsert_group_member_inner`, `conversation_for_inner` and what they use;
-- Conversations/Reading is `mark_read`, Conversations/Patch `patch_conversation_metadata`. Messages
-- is `record_message_inner` and `attach_media_to_message_inner`, Messages/Incoming is
-- `record_whatsapp_message`, Messages/Pages is `list_messages`, Send is
-- `prepare_send_message_with_actor`, Dirty is `mark_dirty_inner`, `list_dirty` and `ack_dirty`.
-- Updates has what changes a stored message (`update_outbound_after_dispatch`,
-- `update_receipt_with_context`, `set_message_flag`, `set_message_reaction`), Webhooks the delivery
-- of events to callbacks, Callbacks their upsert, deletion, listing and addresses, all of
-- src/state.rs. Uploads has the stretches of `upload_outbound_media_idempotent` that hold the lock,
-- as steps of many calls; Channels is `reconcile_channel_runtime_status`, `set_channel_status`,
-- `set_qr` and `qr`, with Channels/Accounts (`create_channel`, `connect_channel`,
-- `disconnect_channel`) and Channels/Manager (`WhatsappManager` of src/whatsapp.rs); Dispatch is
-- `dispatch_prepared_message`, before and after what is sent, and the worker
-- `process_outbound_send_request`. RateLimit is src/rate_limit.rs with `enforce_rate_limit`.
-- Transcripts is src/transcription.rs with `request_transcript` and the worker
-- `process_transcription_request`, Retention is `apply_retention_once`, Privacy
-- `privacy_export_contact` and `anonymize_contact`, Persisted `PersistedStore`, what is saved and
-- loaded of the store, Companies the projects and companies, Audit `audit_log`. Bus is
-- src/eventbus.rs: Bus/Topics its topics, Bus/Payloads what may be sent, Bus/Metrics what it
-- counts, Bus/Outbox the outbox of src/db.rs with `publish_outbox_record`, Bus/Inbox the consumers
-- with `handle_message` of src/workers.rs. A saved store's events go into the outbox, the publisher
-- takes them to Kafka, and a worker hands them to Dispatch or Transcripts. A function keeps its
-- name; a function that is long in the source is a few functions here, one for each stretch of its
-- body. A send resolves the conversation (Conversations), records the message (Messages, which sees
-- to the contact and the group member in Contacts and marks the conversation in Dirty), links its
-- media and ties the key. Prelude, Text, Dict and Json are Rust's options, lists, integers, texts,
-- maps and serde's values. Tests holds the examples.
--
-- What a call draws is an argument: clock readings in nanoseconds and new identifiers. An `i64` is
-- an integer whose increment wraps at 2^63; a `HashMap` is an association list, and no theorem
-- depends on its order. `sent` is a field of the store that the source lacks: the events handed to
-- the broadcast channel and the bus. Every loop is structural recursion.
--
-- Not modelled: the HTTP routes, the tables that copy the store, object storage, the WhatsApp
-- client and the writing of the store to disk; they are input and output around these operations.
-- SHA-256 of a request, the HTTP exchange of a webhook, the encryption of secrets, the reading of a
-- URL, header access, the answers of PostgreSQL and Kafka, serde, the deletion of a stored object,
-- the answer of the transcription service and the RFC 3339 text of a time are parameters, of which
-- no theorem assumes more than what they answer in the call it is about. Counters of metrics other
-- than the bus's are left out.
pub mod Prelude
pub mod Text
pub mod Dict
pub mod Json
pub mod Error
pub mod Models
pub mod Jid
pub mod Events
pub mod Store
pub mod Audit
pub mod Dirty
pub mod Contacts
pub mod Conversations
pub mod Messages
pub mod Config
pub mod Send
pub mod Webhooks
pub mod Callbacks
pub mod RateLimit
pub mod Updates
pub mod Uploads
pub mod Channels
pub mod Dispatch
pub mod Retention
pub mod Bus
pub mod Companies
pub mod Transcripts
pub mod Privacy
pub mod Persisted
pub mod Tests

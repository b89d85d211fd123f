-- ===== src/Tests.antt =====
-- The theorems at concrete states.
mod Fixtures
mod Dirty
mod Messages
mod Send
mod Webhooks
mod Callbacks
mod RateLimit
mod Updates
mod Uploads
mod Channels
mod Dispatch
mod Conversations
mod Incoming
mod Retention
mod Transcripts
mod Privacy
mod Persisted
mod Bus

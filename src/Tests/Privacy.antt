-- ===== src/Tests/Privacy.antt =====
-- The theorem on anonymised contacts at a concrete store.
use rust_zap.Prelude.{String, true}
use rust_zap.Models.{Time}
use rust_zap.Privacy.{anonymize_contact}
use rust_zap.Privacy.Forgotten.{IsForgotten, anonymize_contact-IsForgotten}
use rust_zap.Tests.Fixtures.{chat, one_message}

abbrev no_time : Time → String
no_time t = "2026-01-01T00:00:00Z"

anonymize_contact-IsForgotten_example : IsForgotten "p" "c" chat true one_message (
    anonymize_contact no_time "p" "c" chat true
      (record { now = 50; audit_id = "1"; audit_now = 51 })
      one_message)
anonymize_contact-IsForgotten_example =
    anonymize_contact-IsForgotten "p" "c" chat true no_time
      (record { now = 50; audit_id = "1"; audit_now = 51 }) one_message

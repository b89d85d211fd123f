-- ===== src/Tests/Retention.antt =====
-- The theorems on retention at concrete stores.
use rust_zap.Prelude.{◌≡◌, refl, String, Bool, true, some, none, ◌||◌, not, keep_if}
use rust_zap.Dict.{lookup, string_eq}
use rust_zap.Retention.{CompanyPrivacyPolicy, is_expired_message, apply_company_retention}
use rust_zap.Retention.Removed.{is_stuck, retention-messages}
use rust_zap.Retention.Agreement.{retention-Agrees}
use rust_zap.Updates.Agreement.{Agrees}
use rust_zap.Updates.Kept.{record_message-Agrees}
use rust_zap.Store.{empty}
use rust_zap.Tests.Fixtures.{inbound, message_draws, one_message}

abbrev one_day : CompanyPrivacyPolicy
one_day = record {
  message_retention_days = some 1;
  media_temp_retention_days = none;
  transcript_retention_days = some 365;
  allow_transcript_storage = true;
}

abbrev deletes : String → Bool
deletes key = true

retention-messages_example :
    lookup "msg_1"
      (apply_company_retention "p" "c" one_day 86400000002000 deletes one_message).1.messages_by_id
    ≡ keep_if
        (λ m.
          is_stuck deletes "msg_1" one_message
          || not (is_expired_message "p" "c" one_day 86400000002000 m))
        (lookup "msg_1" one_message.messages_by_id)
unfolding lookup rust_zap.Messages.record_message_inner rust_zap.Messages.announce_message
    rust_zap.Store.push_event_inner rust_zap.Dirty.mark_dirty_inner rust_zap.Messages.store_message
    rust_zap.Dict.insert rust_zap.Messages.open_conversation rust_zap.Messages.member_step
    rust_zap.Messages.contact_step rust_zap.Messages.contact_id_of rust_zap.Jid.is_group_jid
    rust_zap.Contacts.upsert_contact_inner
retention-messages_example =
    retention-messages deletes "p" "c" one_day 86400000002000 "msg_1" one_message (refl, tt)

empty-Agrees : Agrees empty
unfolding lookup
empty-Agrees = record { keyed = tt; listed = λ v. (tt, tt) }

retention-Agrees_example :
    Agrees (apply_company_retention "p" "c" one_day 86400000002000 deletes one_message).1
unfolding lookup
retention-Agrees_example =
    retention-Agrees deletes "p" "c" one_day 86400000002000 one_message
      (record_message-Agrees inbound (message_draws "msg_1") empty empty-Agrees refl)

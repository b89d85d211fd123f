-- ===== src/Tests/Transcripts.antt =====
-- The theorem on transcripts at a concrete store.
use rust_zap.Prelude.{◌≡◌, refl, some, none, [], ◌∷◌}
use rust_zap.Dict.{lookup}
use rust_zap.Error.{ok}
use rust_zap.Events.{new_event}
use rust_zap.Json.{object, str}
use rust_zap.Models.{CommonEvent, Transcript}
use rust_zap.Store.{StoreInner}
use rust_zap.Updates.Agreement.{IsKeyed}
use rust_zap.Messages.{rewrite_message}
use rust_zap.Dispatch.{bytes, no_bytes}
use rust_zap.Transcripts.{TranscriptDraws}
use rust_zap.Transcripts.Worker.{transcribed, not_transcribed, process_transcription_request}
use rust_zap.Transcripts.Once.{process_transcription_request_once}
use rust_zap.Tests.Fixtures.{one_message, image, stamp, config}

-- A message with an image, which no transcript is made of.
abbrev with_image : StoreInner
with_image = record one_message { media = ("media_1", image) ∷ [] }

abbrev event : CommonEvent
event =
    new_event "audio.transcription.requested" "p" "c" none none (some "msg_1") none
      (object (("media_id", str "media_1") ∷ [])) stamp

abbrev draws : TranscriptDraws
draws = record {
  id = "1";
  now = 60;
  stamp = stamp;
  completed_stamp = stamp;
  dirty_now = 61;
  dirty_stamp = stamp;
}

abbrev skipped : Transcript
skipped = record {
  id = "tr_1";
  project_id = "p";
  company_id = "c";
  message_id = "msg_1";
  media_id = some "media_1";
  provider = "groq";
  model = "whisper-large-v3-turbo";
  language = "pt";
  text = none;
  raw_response_json = object (("lifecycle", str "skipped_unsupported_type") ∷ []);
  status = "skipped_unsupported_type";
  error_message = none;
  created_at = 60;
  updated_at = 60;
}

abbrev after : StoreInner
after =
    (process_transcription_request config event bytes (not_transcribed "") draws draws with_image).1

one_message-IsKeyed : IsKeyed one_message.messages_by_id
unfolding lookup rust_zap.Messages.record_message_inner rust_zap.Messages.announce_message
    rust_zap.Store.push_event_inner rust_zap.Dirty.mark_dirty_inner rust_zap.Messages.store_message
    rust_zap.Dict.insert rust_zap.Messages.open_conversation rust_zap.Messages.member_step
    rust_zap.Messages.contact_step rust_zap.Messages.contact_id_of rust_zap.Jid.is_group_jid
    rust_zap.Contacts.upsert_contact_inner
one_message-IsKeyed = (refl, tt)

is_skipped :
    (process_transcription_request config event bytes (not_transcribed "") draws draws with_image).0
    ≡ ok skipped
unfolding process_transcription_request rust_zap.Json.get new_event
    rust_zap.Transcripts.Worker.find_audio rust_zap.Updates.message_for_company
    rust_zap.Updates.of_company lookup rust_zap.Messages.record_message_inner
    rust_zap.Messages.announce_message rust_zap.Store.push_event_inner
    rust_zap.Dirty.mark_dirty_inner rust_zap.Messages.store_message rust_zap.Dict.insert
    rust_zap.Messages.open_conversation rust_zap.Messages.member_step rust_zap.Messages.contact_step
    rust_zap.Messages.contact_id_of rust_zap.Jid.is_group_jid rust_zap.Contacts.upsert_contact_inner
    rust_zap.Messages.build_message rust_zap.Transcripts.media_for_company
    rust_zap.Transcripts.media_of_company rust_zap.Transcripts.Worker.transcribe
    rust_zap.Transcripts.Worker.set_transcript_lifecycle
    rust_zap.Transcripts.Worker.stored_transcript rust_zap.Transcripts.transcript_with_lifecycle
    rust_zap.Text.strip_prefix rust_zap.Companies.company_allows_transcript_storage
    rust_zap.Companies.company rust_zap.Retention.company_privacy_policy
is_skipped = refl

process_transcription_request_once_example :
    process_transcription_request config event no_bytes (not_transcribed "later") draws draws after
    ≡ (ok skipped, after)
unfolding rust_zap.Json.get new_event
process_transcription_request_once_example =
    process_transcription_request_once config event "msg_1" bytes no_bytes (not_transcribed "")
      (not_transcribed "later") draws draws draws draws skipped with_image one_message-IsKeyed refl
      is_skipped refl

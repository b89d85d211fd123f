-- ===== src/Transcripts/Worker.antt =====
-- src/state.rs: the worker that makes transcripts, `process_transcription_request`, and its writes.
use rust_zap.Prelude.{
  ℕ, ◌*◌, String, ◌<>◌, true, Option, none, some, [], ◌∷◌, if◌then◌else◌, not, ltb, min, or_else,
  is_some, keep_if,
}
use rust_zap.Dict.{◌==◌, string_eq, lookup, insert}
use rust_zap.Json.{str, boolean, get_str, object}
use rust_zap.Error.{Result, ok, err, bad_request}
use rust_zap.Models.{Message, MediaObject, Transcript, CommonEvent}
use rust_zap.Config.{AppConfig}
use rust_zap.Events.{Stamp}
use rust_zap.Store.{StoreInner}
use rust_zap.Dirty.{mark_dirty_inner}
use rust_zap.Updates.{message_for_company}
use rust_zap.Companies.{company_allows_transcript_storage}
use rust_zap.Dispatch.{Blob, bytes, no_bytes, unreadable}
use rust_zap.Transcripts.{
  GroqTranscription, TranscriptLifecycle, processing, failed, skipped_size_limit,
  skipped_unsupported_type, TranscriptDraws, transcript_with_lifecycle, groq_transcript_from_result,
  is_audio, media_for_company, is_final, reference, push_transcript_event,
}

-- Transcripts keep no text where the company does not allow it.
abbrev pub redacted_for : Message → StoreInner → Transcript → Transcript
redacted_for message inner made =
    if company_allows_transcript_storage message.project_id message.company_id inner
    then made
    else record made { text = none; raw_response_json = object (("redacted", boolean true) ∷ []) }

-- A transcript that is made again keeps its id and the time it was created.
abbrev pub as_before : Option Transcript → Transcript → Transcript
as_before none made = made
as_before (some existing) made = record made { id = existing.id; created_at = existing.created_at }

-- The transcript as it is stored.
unfoldable pub stored_transcript : Message → Transcript → StoreInner → Transcript
stored_transcript message made inner =
    as_before (lookup message.id inner.transcripts) (redacted_for message inner made)

unfoldable pub store_transcript : Message → Transcript → StoreInner → StoreInner
store_transcript message made inner = record inner {
  transcripts = insert message.id made inner.transcripts;
}

unfoldable pub mark_transcribed : Message → TranscriptDraws → StoreInner → StoreInner
mark_transcribed message draws inner =
    mark_dirty_inner message.project_id message.company_id message.conversation_id
      message.conversation_seq message.channel_account_id draws.dirty_now draws.dirty_stamp inner

unfoldable pub set_transcript_lifecycle :
    Message
    → MediaObject
    → TranscriptLifecycle
    → (text : Option String) → TranscriptDraws
    → StoreInner
    → Result Transcript × StoreInner
set_transcript_lifecycle message media lifecycle text draws inner =
    let made =
      stored_transcript message
        (transcript_with_lifecycle message.project_id message.company_id message.id (some media.id)
          lifecycle text draws)
        inner in
    let kept = store_transcript message made inner in
    (
      ok made,
      if made.status == "completed"
          then mark_transcribed message draws (
              push_transcript_event "audio.transcribed" message.project_id message.company_id
                message
                (("message_id", str message.id)
                  ∷ ("media_id", str media.id)
                  ∷ ("transcript_id", str made.id)
                  ∷ ("status", str made.status)
                  ∷ [])
                draws.stamp kept)
          else kept,
    )

unfoldable pub set_completed_groq_transcript :
    Message
    → MediaObject
    → GroqTranscription
    → TranscriptDraws
    → StoreInner
    → Result Transcript × StoreInner
set_completed_groq_transcript message media result draws inner =
    let made =
      stored_transcript message
        (groq_transcript_from_result message.project_id message.company_id message.id
          (some media.id) result draws)
        inner in
    let announce = λ (event_type : String) (stamp : Stamp) (s : StoreInner).
      push_transcript_event event_type message.project_id message.company_id message
        (reference message media made) stamp s in
    (
      ok made,
      mark_transcribed message draws (
          announce "transcript.completed" draws.completed_stamp
            (announce "audio.transcribed" draws.stamp (store_transcript message made inner))),
    )

-- `media_blob`: `stored` is what the storage has under the object's key.
abbrev pub blob_of : String → Blob → Option MediaObject → Blob
blob_of media_id stored none = unreadable ("media " <> (media_id <> " not found"))
blob_of media_id stored (some media) =
    if is_some (or_else media.object_key media.permanent_object_key) then stored else no_bytes

unfoldable pub media_blob : String → Blob → StoreInner → Blob
media_blob media_id stored inner = blob_of media_id stored (lookup media_id inner.media)

-- What the transcription service answers.
pub data Answer : Type 0 where
  transcribed : GroqTranscription → Answer
  not_transcribed : String → Answer

-- The worker from the audio's bytes on.
unfoldable pub finish_transcription :
    Message
    → MediaObject
    → (media_id : String) → Blob
    → Answer
    → TranscriptDraws
    → StoreInner
    → Result Transcript × StoreInner
finish_transcription message media media_id bytes (transcribed result) draws inner =
    set_completed_groq_transcript message media result draws inner
finish_transcription message media media_id no_bytes answer draws inner =
    set_transcript_lifecycle message media
      (failed ("media " <> (media_id <> " has no stored bytes available for STT"))) none draws inner
finish_transcription message media media_id (unreadable error) answer draws inner =
    set_transcript_lifecycle message media (failed error) none draws inner
finish_transcription message media media_id bytes (not_transcribed error) draws inner =
    set_transcript_lifecycle message media (failed error) none draws inner

abbrev pub max_audio_bytes : AppConfig → ℕ
max_audio_bytes config = min (config.groq.stt_max_audio_mb * 1048576) 18446744073709551615

-- The worker once it has the message and the audio. The lock is let go between the two writes.
unfoldable pub transcribe :
    AppConfig
    → Message
    → MediaObject
    → (media_id : String) → Blob
    → Answer
    → (begun finished : TranscriptDraws) → StoreInner
    → Result Transcript × StoreInner
transcribe config message media media_id stored answer begun finished inner =
    if not (is_audio media)
    then set_transcript_lifecycle message media skipped_unsupported_type none finished inner
    else if ltb (max_audio_bytes config) media.size_bytes
    then set_transcript_lifecycle message media skipped_size_limit none finished inner
    else let (reply, processing_now) =
        set_transcript_lifecycle message media processing none begun inner in
      finish_transcription message media media_id (media_blob media_id stored processing_now) answer
        finished processing_now

-- What the worker finds before it transcribes: an answer, or the audio.
pub data Found : Type 0 where
  answered : Result Transcript → Found
  audio : Message → MediaObject → String → Found

abbrev pub media_found : Message → String → Result MediaObject → Found
media_found message media_id (err failure) = answered (err failure)
media_found message media_id (ok media) = audio message media media_id

abbrev pub media_sought : CommonEvent → Message → String → StoreInner → Option String → Found
media_sought event message message_id inner none =
    answered (err (bad_request ("message " <> (message_id <> " has no media to transcribe"))))
media_sought event message message_id inner (some media_id) =
    media_found message media_id
      (media_for_company event.project_id event.company_id media_id inner)

unfoldable pub find_audio : CommonEvent → String → StoreInner → Found
find_audio event message_id inner =
    elim (message_for_company event.project_id event.company_id message_id inner) [
      | err failure ↦ answered (err failure)
      | ok message ↦
          elim (keep_if (λ (t : Transcript). is_final t.status)
            (lookup message_id inner.transcripts)) [
              | some done ↦ answered (ok done)
              | none ↦
                  media_sought event message message_id inner
                    (or_else (get_str "media_id" event.payload) message.media_id)
            ]
    ]

-- `stored` is what the storage has of the audio, `answer` what the service makes of it.
unfoldable pub process_transcription_request :
    AppConfig
    → CommonEvent
    → Blob
    → Answer
    → (begun finished : TranscriptDraws) → StoreInner
    → Result Transcript × StoreInner
process_transcription_request config event stored answer begun finished inner =
    elim (or_else (get_str "message_id" event.payload) event.message_id) [
      | none ↦ (err (bad_request "transcription event missing message_id"), inner)
      | some message_id ↦ elim (find_audio event message_id inner) [
        | answered reply ↦ (reply, inner)
        | audio message media media_id ↦
            transcribe config message media media_id stored answer begun finished inner
      ]
    ]

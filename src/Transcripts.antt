-- ===== src/Transcripts.antt =====
-- The transcripts of audio messages: src/transcription.rs, and in src/state.rs what asks for one
-- (`request_transcript`) and the worker that makes it (`process_transcription_request`).
pub mod Worker
pub mod Once
use rust_zap.Prelude.{
  ℕ, ◌*◌, ◌⊎◌, inl, inr, String, ◌<>◌, Bool, true, false, ◌&&◌, ◌||◌, Option, none, some, List, [],
  ◌∷◌, if◌then◌else◌, not, ltb, min, or_else, unwrap_or, and_then, is_some, keep_if,
}
use rust_zap.Text.{strip_prefix}
use rust_zap.Dict.{Dict, ◌==◌, string_eq, lookup, insert}
use rust_zap.Json.{Value, str, boolean, get_str, object}
use rust_zap.Error.{Result, ok, err, not_found, bad_request, ◌>>=◌}
use rust_zap.Models.{Time, Message, MediaObject, Transcript, CommonEvent}
use rust_zap.Config.{AppConfig}
use rust_zap.Events.{Stamp, new_event}
use rust_zap.Store.{StoreInner, push_event_inner}
use rust_zap.Dirty.{mark_dirty_inner}
use rust_zap.Updates.{message_for_company}
use rust_zap.Dispatch.{Blob, bytes, no_bytes, unreadable}
use rust_zap.Companies.{company_allows_transcript_storage}

pub record GroqTranscription : Type 0 where
  pub text : String
  pub raw_response_json : Value

pub data TranscriptLifecycle : Type 0 where
  pending processing completed skipped_size_limit skipped_unsupported_type : TranscriptLifecycle
  failed : String → TranscriptLifecycle

abbrev pub status : TranscriptLifecycle → String
status pending = "pending"
status processing = "processing"
status completed = "completed"
status (failed message) = "failed"
status skipped_size_limit = "skipped_size_limit"
status skipped_unsupported_type = "skipped_unsupported_type"

abbrev pub lifecycle_error : TranscriptLifecycle → Option String
lifecycle_error (failed message) = some message
lifecycle_error pending = none
lifecycle_error processing = none
lifecycle_error completed = none
lifecycle_error skipped_size_limit = none
lifecycle_error skipped_unsupported_type = none

-- What one write of a transcript draws.
pub record TranscriptDraws : Type 0 where
  pub id : String
  pub now : Time
  pub stamp : Stamp
  pub completed_stamp : Stamp
  pub dirty_now : Time
  pub dirty_stamp : Stamp

unfoldable pub transcript_with_lifecycle :
    (project_id company_id message_id : String)
    → (media_id : Option String) → TranscriptLifecycle
    → (text : Option String) → TranscriptDraws
    → Transcript
transcript_with_lifecycle project_id company_id message_id media_id lifecycle text draws = record {
  id = "tr_" <> draws.id;
  project_id = project_id;
  company_id = company_id;
  message_id = message_id;
  media_id = media_id;
  provider = "groq";
  model = "whisper-large-v3-turbo";
  language = "pt";
  text = text;
  raw_response_json = object (("lifecycle", str (status lifecycle)) ∷ []);
  status = status lifecycle;
  error_message = lifecycle_error lifecycle;
  created_at = draws.now;
  updated_at = draws.now;
}

unfoldable pub groq_transcript_from_result :
    (project_id company_id message_id : String)
    → (media_id : Option String) → GroqTranscription
    → TranscriptDraws
    → Transcript
groq_transcript_from_result project_id company_id message_id media_id result draws =
    record (transcript_with_lifecycle project_id company_id message_id media_id completed
      (some result.text) draws) { raw_response_json = result.raw_response_json }

unfoldable pub mock_transcript :
    (project_id company_id message_id : String)
    → (media_id : Option String) → TranscriptDraws
    → Transcript
mock_transcript project_id company_id message_id media_id draws = record {
  id = "tr_" <> draws.id;
  project_id = project_id;
  company_id = company_id;
  message_id = message_id;
  media_id = media_id;
  provider = "groq";
  model = "whisper-large-v3-turbo";
  language = "pt";
  text = some "Transcricao simulada para audio de desenvolvimento.";
  raw_response_json = object (("mock", boolean true) ∷ []);
  status = "completed";
  error_message = none;
  created_at = draws.now;
  updated_at = draws.now;
}

-- `parse_groq_transcription_response`; the refusals' texts are the caller's.
unfoldable pub parse_groq_transcription_response :
    (is_success : Bool) → (refusal : String) → Value → GroqTranscription ⊎ String
parse_groq_transcription_response is_success refusal body =
    if is_success
    then elim (get_str "text" body) [
      | none ↦ inr "Groq STT response missing text"
      | some text ↦ inl (record { text = text; raw_response_json = body })
    ]
    else inr refusal

unfoldable pub transcript : String → StoreInner → Result Transcript
transcript message_id inner = elim (lookup message_id inner.transcripts) [
  | none ↦ err (not_found ("transcript for " <> (message_id <> " not found")))
  | some found ↦ ok found
]

unfoldable pub create_transcript :
    (project_id company_id message_id : String)
    → TranscriptDraws
    → StoreInner
    → Transcript × StoreInner
create_transcript project_id company_id message_id draws inner =
    let made = mock_transcript project_id company_id message_id none draws in
    (made, record inner { transcripts = insert message_id made inner.transcripts })

abbrev pub is_audio : MediaObject → Bool
is_audio media = is_some (strip_prefix media.mime_type "audio/")

unfoldable pub media_of_company :
    (project_id company_id media_id : String) → Option MediaObject → Result MediaObject
media_of_company project_id company_id media_id none =
    err (not_found ("media " <> (media_id <> " not found")))
media_of_company project_id company_id media_id (some media) =
    if media.project_id == project_id && media.company_id == company_id
    then ok media
    else err (not_found ("media " <> (media_id <> " not found")))

unfoldable pub media_for_company :
    (project_id company_id media_id : String) → StoreInner → Result MediaObject
media_for_company project_id company_id media_id inner =
    media_of_company project_id company_id media_id (lookup media_id inner.media)

-- A transcript that the request is answered with.
abbrev pub is_settled : String → Bool
is_settled s =
    s == "pending"
    || (s == "processing"
        || (s == "completed" || (s == "skipped_size_limit" || s == "skipped_unsupported_type")))

-- A transcript that the worker does not make again.
abbrev pub is_final : String → Bool
is_final s = s == "completed" || (s == "skipped_size_limit" || s == "skipped_unsupported_type")

abbrev pub reference : Message → MediaObject → Transcript → List (String × Value)
reference message media made =
    ("message_id", str message.id)
    ∷ ("media_id", str media.id)
    ∷ ("transcript_id", str made.id)
    ∷ []

unfoldable pub push_transcript_event :
    (event_type project_id company_id : String)
    → Message
    → List (String × Value)
    → Stamp
    → StoreInner
    → StoreInner
push_transcript_event event_type project_id company_id message payload stamp inner =
    push_event_inner
      (new_event event_type project_id company_id (some message.channel_account_id)
        (some message.conversation_id) (some message.id) (some message.conversation_seq)
        (object payload) stamp)
      inner

-- The request once the message and its audio are found. The second filter of the source, on
-- statuses that the first one has answered already, never passes.
unfoldable pub queue_transcript :
    (project_id company_id message_id : String)
    → Message
    → MediaObject
    → TranscriptDraws
    → StoreInner
    → Result Transcript × StoreInner
queue_transcript project_id company_id message_id message media draws inner =
    elim (keep_if (λ (t : Transcript). is_settled t.status) (lookup message_id inner.transcripts)) [
      | some settled ↦ (ok settled, inner)
      | none ↦
          let made =
            unwrap_or
              (keep_if
                (λ (t : Transcript).
                  t.status == "pending" || (t.status == "processing" || t.status == "completed"))
                (lookup message_id inner.transcripts))
              (transcript_with_lifecycle project_id company_id message_id (some media.id) pending
                none draws) in
          (
            ok made,
            push_transcript_event "audio.transcription.requested" project_id company_id message
                (reference message media made) draws.stamp
                (record inner { transcripts = insert message_id made inner.transcripts }),
          )
    ]

abbrev pub media_id_of : String → Option String → Result String
media_id_of message_id none =
    err (bad_request ("message " <> (message_id <> " has no media to transcribe")))
media_id_of message_id (some id) = ok id

abbrev pub audio_only : MediaObject → Result MediaObject
audio_only media =
    if is_audio media
    then ok media
    else err (bad_request ("media " <> (media.id <> " is not an audio object")))

-- The checks of a request.
unfoldable pub requested_audio :
    (project_id company_id message_id : String) → StoreInner → Result (Message × MediaObject)
requested_audio project_id company_id message_id inner = do
  message ← message_for_company project_id company_id message_id inner
  media_id ← media_id_of message_id message.media_id
  media ← media_for_company project_id company_id media_id inner
  audio ← audio_only media
  ok (message, audio)

unfoldable pub request_transcript :
    (project_id company_id message_id : String)
    → TranscriptDraws
    → StoreInner
    → Result Transcript × StoreInner
request_transcript project_id company_id message_id draws inner =
    elim (requested_audio project_id company_id message_id inner) [
      | err failure ↦ (err failure, inner)
      | ok (message, media) ↦
          queue_transcript project_id company_id message_id message media draws inner
    ]

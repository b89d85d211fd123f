-- ===== src/Transcripts/Once.antt =====
-- src/state.rs: a request for a transcript, met again by the worker once the transcript is final.
use rust_zap.Prelude.{
  ◌≡◌, ◌<>◌, ◌⊎◌, subst, refl, sym, ◌∙◌, ap, String, Bool, true, Option, none, some, inl, inr,
  Bool-cases, Option-cases, or_else, keep_if, ltb,
}
use rust_zap.Dict.{Dict, ◌==◌, string_eq, lookup, insert}
use rust_zap.Dict.Laws.{lookup-insert_self}
use rust_zap.Json.{get_str}
use rust_zap.Error.{ApiError, bad_request, Result, ok, err, Result-cases}
use rust_zap.Models.{Message, MediaObject, Transcript, CommonEvent}
use rust_zap.Config.{AppConfig}
use rust_zap.Store.{StoreInner, push_event_inner}
use rust_zap.Dirty.{mark_dirty_inner}
use rust_zap.Updates.{message_for_company}
use rust_zap.Updates.Agreement.{IsKeyed, keyed_at}
use rust_zap.Dispatch.Once.{owned}
use rust_zap.Dispatch.{Blob, bytes, no_bytes, unreadable}
use rust_zap.Transcripts.{
  TranscriptLifecycle, processing, failed, skipped_size_limit, skipped_unsupported_type,
  GroqTranscription, TranscriptDraws, is_audio, is_final, transcript_with_lifecycle,
  media_for_company, push_transcript_event,
}
use rust_zap.Transcripts.Worker.{
  stored_transcript, store_transcript, mark_transcribed, set_transcript_lifecycle,
  set_completed_groq_transcript, media_blob, Answer, transcribed, not_transcribed,
  finish_transcription, max_audio_bytes, transcribe, answered, audio, media_sought, find_audio,
  process_transcription_request,
}

-- The messages are as they were, and what is replied is what is stored.
abbrev pub Leaves : String → StoreInner → Result Transcript × StoreInner → Type 0
Leaves id s out =
    (out.1.messages_by_id ≡ s.messages_by_id)
    × ((made : Transcript) → out.0 ≡ ok made → lookup id out.1.transcripts ≡ some made)

stores :
    (id : String) (made m : Transcript) (d : Dict String Transcript)
    → ok made ≡ ok m
    → lookup id (insert id made d) ≡ some m
stores id made m d e =
    let same : made ≡ m = cc e in
    lookup-insert_self id made d ∙ ap (λ (t : Transcript). some t) same

module _ (message : Message) (media : MediaObject) where
  set_lifecycle-Leaves :
      (lifecycle : TranscriptLifecycle) (draws : TranscriptDraws) (s : StoreInner)
      → Leaves message.id s (set_transcript_lifecycle message media lifecycle none draws s)
  unfolding set_transcript_lifecycle store_transcript mark_transcribed mark_dirty_inner
      push_event_inner push_transcript_event
  set_lifecycle-Leaves lifecycle draws s =
      let made =
        stored_transcript message
          (transcript_with_lifecycle message.project_id message.company_id message.id
            (some media.id) lifecycle none draws)
          s in
      elim (Bool-cases (made.status == "completed")) [
        | inl done ↦
            rw (done, set_transcript_lifecycle)
              (refl, λ m e. stores message.id made m s.transcripts e)
        | inr other ↦
            rw (other, set_transcript_lifecycle)
              (refl, λ m e. stores message.id made m s.transcripts e)
      ]

  set_completed-Leaves :
      (result : GroqTranscription) (draws : TranscriptDraws) (s : StoreInner)
      → Leaves message.id s (set_completed_groq_transcript message media result draws s)
  unfolding set_completed_groq_transcript store_transcript mark_transcribed mark_dirty_inner
      push_event_inner push_transcript_event
  set_completed-Leaves result draws s = (refl, λ made e. stores message.id _ made s.transcripts e)

  finish-Leaves :
      (media_id : String) (blob : Blob) (answer : Answer) (draws : TranscriptDraws) (s : StoreInner)
      → Leaves message.id s (finish_transcription message media media_id blob answer draws s)
  unfolding finish_transcription
  finish-Leaves media_id bytes (transcribed result) draws s = set_completed-Leaves result draws s
  finish-Leaves media_id bytes (not_transcribed error) draws s =
      set_lifecycle-Leaves (failed error) draws s
  finish-Leaves media_id no_bytes answer draws s = set_lifecycle-Leaves _ draws s
  finish-Leaves media_id (unreadable error) answer draws s =
      set_lifecycle-Leaves (failed error) draws s

  transcribe-Leaves :
      (config : AppConfig) (media_id : String) (stored : Blob) (answer : Answer)
      (begun finished : TranscriptDraws) (s : StoreInner)
      → Leaves message.id s
          (transcribe config message media media_id stored answer begun finished s)
  unfolding transcribe
  transcribe-Leaves config media_id stored answer begun finished s =
      elim (Bool-cases (is_audio media)) [
        | inr other ↦ rw other (set_lifecycle-Leaves skipped_unsupported_type finished s)
        | inl sound ↦ elim (Bool-cases (ltb (max_audio_bytes config) media.size_bytes)) [
          | inl large ↦ rw (sound, large) (set_lifecycle-Leaves skipped_size_limit finished s)
          | inr fits ↦
              let t = (set_transcript_lifecycle message media processing none begun s).1 in
              let begins = set_lifecycle-Leaves processing begun s in
              let ends = finish-Leaves media_id (media_blob media_id stored t) answer finished t in
              rw (sound, fits) (ends.0 ∙ begins.0, ends.1)
        ]
      ]

-- The message is the company's, and a transcript that is not made again stands under its id.
abbrev pub IsDone : (p c id : String) → Transcript → StoreInner → Type 0
IsDone p c id made s =
    ((m : Message) × (message_for_company p c id s ≡ ok m))
    × (lookup id s.transcripts ≡ some made)
    × (is_final made.status ≡ true)

find-done :
    (event : CommonEvent) (id : String) (made : Transcript) (s : StoreInner)
    → IsDone event.project_id event.company_id id made s
    → find_audio event id s ≡ answered (ok made)
unfolding find_audio
find-done event id made s done =
    rw (done.0.1, find_audio) (rw (done.1, find_audio) (rw (done.2, find_audio) refl))

again :
    (config : AppConfig) (event : CommonEvent) (id : String) (stored : Blob) (answer : Answer)
    (begun finished : TranscriptDraws) (made : Transcript) (s : StoreInner)
    → or_else (get_str "message_id" event.payload) event.message_id ≡ some id
    → IsDone event.project_id event.company_id id made s
    → process_transcription_request config event stored answer begun finished s ≡ (ok made, s)
unfolding process_transcription_request
again config event id stored answer begun finished made s named done =
    rw (named, process_transcription_request)
      (rw (find-done event id made s done, process_transcription_request) refl)

keep_if-some :
    (p : Transcript → Bool) (o : Option Transcript) (t : Transcript)
    → keep_if p o ≡ some t
    → (o ≡ some t) × (p t ≡ true)
keep_if-some p none t h = absurd (cc h)
keep_if-some p (some u) t h = elim (Bool-cases (p u)) [
  | inl good ↦
      let at : u ≡ t = let e : some u ≡ some t = sym (rw good refl) ∙ h in cc e in
      (ap (λ (x : Transcript). some x) at, rw (← at) good)
  | inr bad ↦ let e : none ≡ some t = sym (rw bad refl) ∙ h in absurd (cc e)
]

-- What is found is an answer, which if it is good is done, or the company's own message.
abbrev Sought : CommonEvent → String → StoreInner → Type 0
Sought event id s =
    ((reply : Result Transcript) × (find_audio event id s ≡ answered reply)
      × ((made : Transcript)
          → reply ≡ ok made
          → IsDone event.project_id event.company_id id made s))
    ⊎ ((m : Message) × (media : MediaObject) × (media_id : String) × (find_audio event id s
          ≡ audio m media media_id)
        × (message_for_company event.project_id event.company_id id s ≡ ok m))

refuses :
    (event : CommonEvent) (id : String) (s : StoreInner) (e : ApiError)
    → find_audio event id s ≡ answered (err e)
    → Sought event id s
refuses event id s e h = inl (err e, h, λ made no. absurd (cc no))

seeks_media :
    (event : CommonEvent) (id : String) (s : StoreInner) (m : Message)
    → message_for_company event.project_id event.company_id id s ≡ ok m
    → find_audio event id s
      ≡ media_sought event m id s (or_else (get_str "media_id" event.payload) m.media_id)
    → Sought event id s
seeks_media event id s m own found =
    elim (Option-cases (or_else (get_str "media_id" event.payload) m.media_id)) [
      | inl missing ↦
          refuses event id s (bad_request ("message " <> (id <> " has no media to transcribe")))
            (found ∙ rw missing refl)
      | inr (media_id, at) ↦
          elim (Result-cases (media_for_company event.project_id event.company_id media_id s)) [
            | inl (e, refused) ↦ refuses event id s e (found ∙ rw at (rw refused refl))
            | inr (media, good) ↦ inr (m, media, media_id, found ∙ rw at (rw good refl), own)
          ]
    ]

sought : (event : CommonEvent) (id : String) (s : StoreInner) → Sought event id s
unfolding find_audio
sought event id s =
    elim (Result-cases (message_for_company event.project_id event.company_id id s)) [
      | inl (e, refused) ↦ refuses event id s e (rw (refused, find_audio) refl)
      | inr (m, own) ↦
          elim (Option-cases
            (keep_if (λ (t : Transcript). is_final t.status) (lookup id s.transcripts))) [
              | inl unmade ↦
                  seeks_media event id s m own (rw (own, find_audio) (rw (unmade, find_audio) refl))
              | inr (done, kept) ↦
                  let there = keep_if-some _ (lookup id s.transcripts) done kept in
                  inl (
                    ok done,
                    rw (own, find_audio) (rw (kept, find_audio) refl),
                    λ made e.
                        let same : done ≡ made = cc e in
                        subst (λ t. IsDone event.project_id event.company_id id t s) same
                          ((m, own), there.0, there.1),
                  )
            ]
    ]

of_company-keyed :
    (p c id : String) (m : Message) (s : StoreInner)
    → IsKeyed s.messages_by_id
    → message_for_company p c id s ≡ ok m
    → m.id ≡ id
of_company-keyed p c id m s keyed own =
    keyed_at id s.messages_by_id m keyed (owned p c id m s own).0

-- The messages of the company are found alike where the messages are the same.
same_message :
    (p c id : String) (m : Message) (s t : StoreInner)
    → t.messages_by_id ≡ s.messages_by_id
    → message_for_company p c id s ≡ ok m
    → message_for_company p c id t ≡ ok m
unfolding message_for_company
same_message p c id m s t same own = rw same own

first :
    (config : AppConfig) (event : CommonEvent) (id : String) (stored : Blob) (answer : Answer)
    (begun finished : TranscriptDraws) (made : Transcript) (s : StoreInner)
    → IsKeyed s.messages_by_id
    → or_else (get_str "message_id" event.payload) event.message_id ≡ some id
    → (process_transcription_request config event stored answer begun finished s).0 ≡ ok made
    → is_final made.status ≡ true
    → IsDone event.project_id event.company_id id made
        (process_transcription_request config event stored answer begun finished s).1
unfolding process_transcription_request
first config event id stored answer begun finished made s keyed named reply final =
    elim (sought event id s) [
      | inl (r, found, done) ↦
          let is : process_transcription_request config event stored answer begun finished s
              ≡ (r, s) =
            rw (named, process_transcription_request)
              (rw (found, process_transcription_request) refl) in
          subst (λ t. IsDone event.project_id event.company_id id made t.1) (sym is)
            (done made (sym (ap (λ (x : Result Transcript × StoreInner). x.0) is) ∙ reply))
      | inr (m, media, media_id, found, own) ↦
          let out = transcribe config m media media_id stored answer begun finished s in
          let is : process_transcription_request config event stored answer begun finished s ≡ out =
            rw (named, process_transcription_request)
              (rw (found, process_transcription_request) refl) in
          let left = transcribe-Leaves m media config media_id stored answer begun finished s in
          let at = of_company-keyed event.project_id event.company_id id m s keyed own in
          subst (λ t. IsDone event.project_id event.company_id id made t.1) (sym is)
            (
              (m, same_message event.project_id event.company_id id m s out.1 left.0 own),
              rw (← at)
                  (left.1 made (sym (ap (λ (x : Result Transcript × StoreInner). x.0) is) ∙ reply)),
              final,
            )
    ]

-- A request whose answer is a transcript that is completed or skipped, met again by the worker with
-- whatever the storage and the service say, is answered with the same transcript and changes
-- nothing. The messages stand under their own ids.
pub process_transcription_request_once :
    (config : AppConfig) (event : CommonEvent) (id : String) (stored stored_again : Blob)
    (answer answer_again : Answer) (begun finished begun_again finished_again : TranscriptDraws)
    (made : Transcript) (s : StoreInner)
    → IsKeyed s.messages_by_id
    → or_else (get_str "message_id" event.payload) event.message_id ≡ some id
    → (process_transcription_request config event stored answer begun finished s).0 ≡ ok made
    → is_final made.status ≡ true
    → let t = (process_transcription_request config event stored answer begun finished s).1 in
      process_transcription_request config event stored_again answer_again begun_again
        finished_again t
      ≡ (ok made, t)
process_transcription_request_once config event id stored stored_again answer answer_again begun
      finished begun_again finished_again made s keyed named reply final =
    again config event id stored_again answer_again begun_again finished_again made _ named
      (first config event id stored answer begun finished made s keyed named reply final)

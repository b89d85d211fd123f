-- ===== src/Retention.antt =====
-- src/state.rs: what a company's privacy policy lets go (`apply_company_retention`, with the
-- temporary media of `cleanup_expired_temp_media`). `delete_blocking` says whether storage could
-- delete an object. A number of days for which Rust's `Duration` has no room stops the source.
pub mod Removed
pub mod Agreement
use rust_zap.Prelude.{
  ℕ, ◌+◌, ◌-◌, String, Bool, true, false, ◌&&◌, ◌||◌, Option, none, some, List, [], ◌∷◌, map,
  if◌then◌else◌, not, leb, ltb, length, retain, filter_map, is_some, is_some_and, is_none_or,
  or_else, unwrap_or, and_then,
}
use rust_zap.Dict.{Dict, ◌==◌, string_eq, keys, values, map_values, remove}
use rust_zap.Dict.Distinct.{is_in}
use rust_zap.Json.{Value, null, boolean, pos_int, get, get_u64, get_bool, object}
use rust_zap.Models.{Time, days, Message, MediaObject, Transcript}
use rust_zap.Store.{StoreInner}
use rust_zap.Audit.{audit_log}

pub record CompanyPrivacyPolicy : Type 0 where
  pub message_retention_days : Option ℕ
  pub media_temp_retention_days : Option ℕ
  pub transcript_retention_days : Option ℕ
  pub allow_transcript_storage : Bool

pub record RetentionSummary : Type 0 where
  pub messages_removed : ℕ
  pub transcripts_removed : ℕ
  pub transcripts_redacted : ℕ
  pub media_removed : ℕ

unfoldable pub company_privacy_policy : Value → CompanyPrivacyPolicy
company_privacy_policy company =
    let privacy = unwrap_or (get "privacy" company) null in
    record {
      message_retention_days = or_else (get_u64 "message_retention_days" privacy) (some 365);
      media_temp_retention_days = or_else (get_u64 "media_temp_retention_days" privacy) (some 30);
      transcript_retention_days = or_else (get_u64 "transcript_retention_days" privacy) (some 365);
      allow_transcript_storage = unwrap_or (get_bool "allow_transcript_storage" privacy) true;
    }

-- Whether a time is at or before `retention_cutoff`: there is a cutoff, some days before now.
abbrev pub is_before_cutoff : Time → Option ℕ → Time → Bool
is_before_cutoff now limit at = is_some_and limit (λ n. leb (at + days n) now)

abbrev pub is_null : Value → Bool
is_null null = true
is_null other = false

abbrev pub is_temp : MediaObject → Bool
is_temp media =
    media.storage_status == "temp"
    || (media.storage_status == "quarantine" || media.storage_status == "outbound-temp")

-- What goes into a `HashSet`, once each.
unfoldable pub set_of : List String → List String
set_of [] = []
set_of (x ∷ xs) = let rest = set_of xs in if is_in x rest then rest else x ∷ rest

unfoldable pub delete_media_object_bytes_best_effort : (String → Bool) → MediaObject → Bool
delete_media_object_bytes_best_effort delete_blocking media =
    is_none_or media.object_key delete_blocking
    && is_none_or media.permanent_object_key
        (λ key. is_some_and media.object_key (λ k. k == key) || delete_blocking key)

-- The messages with a media object that could not be deleted.
unfoldable pub failed_message_ids : (String → Bool) → List MediaObject → List String
failed_message_ids delete_blocking media =
    filter_map (λ (m : MediaObject). m.message_id)
      (retain (λ (m : MediaObject). not (delete_media_object_bytes_best_effort delete_blocking m))
        media)

unfoldable pub remove_messages : List String → List String → StoreInner → StoreInner
remove_messages message_ids media_ids inner = record inner {
  messages_by_id =
      retain (λ (e : String × Message). not (is_in e.0 message_ids)) inner.messages_by_id;
  messages_by_conversation =
      map_values (retain (λ (m : Message). not (is_in m.id message_ids)))
        inner.messages_by_conversation;
  transcripts = retain (λ (e : String × Transcript). not (is_in e.0 message_ids)) inner.transcripts;
  media = retain (λ (e : String × MediaObject). not (is_in e.0 media_ids)) inner.media;
}

module _ (project_id company_id : String) (policy : CompanyPrivacyPolicy) (now : Time) where
  abbrev pub is_expired_message : Message → Bool
  is_expired_message message =
      message.project_id == project_id
      && (message.company_id == company_id
          && is_before_cutoff now policy.message_retention_days message.created_at)

  unfoldable pub candidate_message_ids : StoreInner → List String
  candidate_message_ids inner =
      keys (retain (λ (e : String × Message). is_expired_message e.1) inner.messages_by_id)

  unfoldable pub candidate_media : List String → StoreInner → List MediaObject
  candidate_media message_ids inner =
      retain
        (λ (media : MediaObject).
          is_some_and media.message_id (λ id. is_in id message_ids)
          || (is_temp media
              && (media.project_id == project_id
                  && (media.company_id == company_id
                      && is_before_cutoff now policy.media_temp_retention_days media.created_at))))
        (values inner.media)

  unfoldable pub removable_message_ids : (String → Bool) → StoreInner → List String
  removable_message_ids delete_blocking inner =
      let ids = candidate_message_ids inner in
      let failed = failed_message_ids delete_blocking (candidate_media ids inner) in
      retain (λ (id : String). not (is_in id failed)) ids

  unfoldable pub removable_media_ids : (String → Bool) → StoreInner → List String
  removable_media_ids delete_blocking inner =
      let media = candidate_media (candidate_message_ids inner) inner in
      let failed = failed_message_ids delete_blocking media in
      set_of (
        map (λ (m : MediaObject). m.id)
          (retain
            (λ (m : MediaObject).
              delete_media_object_bytes_best_effort delete_blocking m
              && is_none_or m.message_id (λ id. not (is_in id failed)))
            media))

  abbrev pub is_of_company : Transcript → Bool
  is_of_company transcript =
      transcript.project_id == project_id && transcript.company_id == company_id

  abbrev pub is_expired_transcript : Transcript → Bool
  is_expired_transcript transcript =
      is_of_company transcript
      && is_before_cutoff now policy.transcript_retention_days transcript.updated_at

  unfoldable pub remove_transcripts : StoreInner → StoreInner
  remove_transcripts inner = record inner {
    transcripts =
        retain (λ (e : String × Transcript). not (is_expired_transcript e.1)) inner.transcripts;
  }

  abbrev pub is_readable : Transcript → Bool
  is_readable transcript =
      is_of_company transcript
      && (is_some transcript.text || not (is_null transcript.raw_response_json))

  abbrev pub redact : Transcript → Transcript
  redact transcript =
      if is_readable transcript
      then record transcript {
        text = none;
        raw_response_json = object (("redacted", boolean true) ∷ []);
        updated_at = now;
      }
      else transcript

  unfoldable pub redact_transcripts : StoreInner → StoreInner
  redact_transcripts inner =
      if policy.allow_transcript_storage
      then inner
      else record inner { transcripts = map_values redact inner.transcripts }

  unfoldable pub apply_company_retention :
      (String → Bool) → StoreInner → RetentionSummary × StoreInner
  apply_company_retention delete_blocking inner =
      let message_ids = removable_message_ids delete_blocking inner in
      let media_ids = removable_media_ids delete_blocking inner in
      let removed = remove_messages message_ids media_ids inner in
      let kept = remove_transcripts removed in
      let redacted = redact_transcripts kept in
      (
        record {
          messages_removed = length message_ids;
          transcripts_removed = length removed.transcripts - length kept.transcripts;
          transcripts_redacted =
              if policy.allow_transcript_storage
              then 0
              else length (retain is_readable (values kept.transcripts));
          media_removed = length media_ids;
        },
        redacted,
      )

abbrev pub is_expired_temp : Time → MediaObject → Bool
is_expired_temp now media =
    is_temp media && is_some_and media.expires_at (λ expires_at. leb expires_at now)

abbrev pub remove_all : List String → Dict String MediaObject → Dict String MediaObject
remove_all [] media = media
remove_all (id ∷ ids) media = remove_all ids (remove id media)

unfoldable pub cleanup_expired_temp_media : (String → Bool) → Time → StoreInner → ℕ × StoreInner
cleanup_expired_temp_media delete_blocking now inner =
    let deleted =
      retain (delete_media_object_bytes_best_effort delete_blocking)
        (retain (is_expired_temp now) (values inner.media)) in
    let expired_ids = set_of (map (λ (m : MediaObject). m.id) deleted) in
    (length expired_ids, record inner { media = remove_all expired_ids inner.media })

abbrev pub add_summary : RetentionSummary → RetentionSummary → RetentionSummary
add_summary a b = record {
  messages_removed = a.messages_removed + b.messages_removed;
  transcripts_removed = a.transcripts_removed + b.transcripts_removed;
  transcripts_redacted = a.transcripts_redacted + b.transcripts_redacted;
  media_removed = a.media_removed + b.media_removed;
}

-- The loop over the companies. `draws` gives each company's audit entry its id and its time.
unfoldable pub retain_companies :
    (delete_blocking : String → Bool)
    → (ts : Time → String) → Time
    → (String × String → String × Time)
    → List ((String × String) × Value)
    → RetentionSummary
    → StoreInner
    → RetentionSummary × StoreInner
retain_companies delete_blocking ts now draws [] summary inner = (summary, inner)
retain_companies delete_blocking ts now draws (((project_id, company_id), value) ∷ companies)
      summary inner =
    let (id, at) = draws (project_id, company_id) in
    let (s, after) =
      apply_company_retention project_id company_id (company_privacy_policy value) now
        delete_blocking inner in
    let total =
      s.messages_removed + s.transcripts_removed + s.transcripts_redacted + s.media_removed in
    retain_companies delete_blocking ts now draws companies (add_summary summary s) (
      if ltb 0 total
      then audit_log ts project_id company_id "retention.apply" "company" (some company_id)
          (object (
            ("messages_removed", pos_int s.messages_removed)
            ∷ ("transcripts_removed", pos_int s.transcripts_removed)
            ∷ ("transcripts_redacted", pos_int s.transcripts_redacted)
            ∷ ("media_removed", pos_int s.media_removed)
            ∷ []))
          id at after
      else after)

unfoldable pub apply_retention_once :
    (delete_blocking : String → Bool)
    → (ts : Time → String) → (now later : Time) → (String × String → String × Time)
    → StoreInner
    → RetentionSummary × StoreInner
apply_retention_once delete_blocking ts now later draws inner =
    let zero_summary : RetentionSummary = record {
      messages_removed = 0;
      transcripts_removed = 0;
      transcripts_redacted = 0;
      media_removed = 0;
    } in
    let (summary, kept) =
      retain_companies delete_blocking ts now draws inner.companies zero_summary inner in
    let (cleaned, after) = cleanup_expired_temp_media delete_blocking later kept in
    (record summary { media_removed = summary.media_removed + cleaned }, after)

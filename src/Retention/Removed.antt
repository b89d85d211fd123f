-- ===== src/Retention/Removed.antt =====
-- src/state.rs: which messages a company's round of retention takes away.
use rust_zap.Prelude.{
  ◌≡◌, refl, ◌∙◌, ap, String, Bool, true, ◌&&◌, ◌||◌, Option, none, some, List, [], ◌∷◌,
  if◌then◌else◌, not, arith, inl, inr, Bool-cases, any, retain, filter_map, is_some, is_some_and,
  keep_if,
}
use rust_zap.Dict.{◌==◌, string_eq, lookup, keys, values}
use rust_zap.Dict.Distinct.{is_in, Distinct}
use rust_zap.Dict.Retain.{lookup-retain_keys, lookup-retain, is_in-keys, is_in-retain}
use rust_zap.Models.{Time, Message, MediaObject}
use rust_zap.Store.{StoreInner}
use rust_zap.Retention.{
  CompanyPrivacyPolicy, delete_media_object_bytes_best_effort, is_expired_message,
  candidate_message_ids, candidate_media, failed_message_ids, removable_message_ids,
  removable_media_ids, remove_messages, remove_transcripts, redact_transcripts,
  apply_company_retention,
}

abbrev pub is_of_message : String → MediaObject → Bool
is_of_message id media = is_some_and media.message_id (λ i. i == id)

-- What a search by message finds is not changed by a filter that lets the message's media pass.
is_in-filtered :
    (id : String) (bad candidate : MediaObject → Bool) (media : List MediaObject)
    → ((m : MediaObject) → is_of_message id m ≡ true → candidate m ≡ true)
    → is_in id
        (filter_map (λ (m : MediaObject). m.message_id) (retain bad (retain candidate media)))
      ≡ any (λ m. is_of_message id m && bad m) media
is_in-filtered id bad candidate [] h = refl
is_in-filtered id bad candidate (m ∷ media) h =
    ground (arith, h m, is_in-filtered id bad candidate media h)

some_in :
    (id : String) (ids : List String) (o : Option String)
    → is_some_and o (λ i. i == id) ≡ true
    → is_in id ids ≡ true
    → is_some_and o (λ i. is_in i ids) ≡ true
some_in id ids none of h = cc of
some_in id ids (some i) of h = rw ((string_eq.beq_iff i id).0 of) h

kept_or_gone :
    (stuck : Bool) (expired : Message → Bool) (o : Option Message)
    → (if not (not stuck && is_some (keep_if expired o)) then o else none)
      ≡ keep_if (λ m. stuck || not (expired m)) o
kept_or_gone stuck expired none = ground arith
kept_or_gone stuck expired (some m) = ground arith

module _ (delete_blocking : String → Bool) where
  -- A media object of the message cannot be deleted from storage.
  abbrev pub is_stuck : String → StoreInner → Bool
  is_stuck id s =
      any
        (λ media.
          is_of_message id media
          && not (delete_media_object_bytes_best_effort delete_blocking media))
        (values s.media)

  module _ (p c : String) (policy : CompanyPrivacyPolicy) (now : Time) where
    candidate_ids_lem :
        (id : String) (s : StoreInner)
        → Distinct (keys s.messages_by_id)
        → is_in id (candidate_message_ids p c policy now s)
          ≡ is_some (keep_if (is_expired_message p c policy now) (lookup id s.messages_by_id))
    unfolding candidate_message_ids
    candidate_ids_lem id s h =
        let expired = λ (e : String × Message). is_expired_message p c policy now e.1 in
        is_in-keys id (retain expired s.messages_by_id)
        ∙ ap (λ (o : Option Message). is_some o) (lookup-retain expired id s.messages_by_id h)

    failed_ids_lem :
        (id : String) (s : StoreInner)
        → is_in id (candidate_message_ids p c policy now s) ≡ true
        → is_in id (
            failed_message_ids delete_blocking
              (candidate_media p c policy now (candidate_message_ids p c policy now s) s))
          ≡ is_stuck id s
    unfolding failed_message_ids candidate_media
    failed_ids_lem id s h =
        is_in-filtered id _ _ (values s.media)
          (λ m of. rw (some_in id (candidate_message_ids p c policy now s) m.message_id of h) refl)

    removable_lem :
        (id : String) (s : StoreInner)
        → Distinct (keys s.messages_by_id)
        → is_in id (removable_message_ids p c policy now delete_blocking s) ≡ (
            not (is_stuck id s)
            && is_some (keep_if (is_expired_message p c policy now) (lookup id s.messages_by_id)))
    unfolding removable_message_ids
    removable_lem id s h =
        let ids = candidate_message_ids p c policy now s in
        let failed = failed_message_ids delete_blocking (candidate_media p c policy now ids s) in
        is_in-retain (λ (i : String). not (is_in i failed)) id ids
        ∙ elim (Bool-cases (is_in id ids)) [
          | inl due ↦
              rw (due, failed_ids_lem id s due) (rw (← candidate_ids_lem id s h) (rw due refl))
          | inr kept ↦ rw (← candidate_ids_lem id s h) (rw kept (ground arith))
        ]

    -- Only the transcripts are touched after the messages have gone.
    pub retention_frame :
        (s : StoreInner)
        → let t = (apply_company_retention p c policy now delete_blocking s).1 in
          t
          ≡ record (remove_messages
              (removable_message_ids p c policy now delete_blocking s)
              (removable_media_ids p c policy now delete_blocking s)
              s) { transcripts = t.transcripts }
    unfolding apply_company_retention remove_messages remove_transcripts redact_transcripts
    retention_frame s = elim (Bool-cases policy.allow_transcript_storage) [
      | inl allowed ↦ rw allowed refl
      | inr forbidden ↦ rw forbidden refl
    ]

    -- Where a company's messages are kept for some days, a round takes away its messages that are
    -- older, but for those with a media object that storage fails to delete, and no other message.
    pub retention-messages :
        (id : String) (s : StoreInner)
        → Distinct (keys s.messages_by_id)
        → lookup id (apply_company_retention p c policy now delete_blocking s).1.messages_by_id
          ≡ keep_if
              (λ m. is_stuck id s || not (is_expired_message p c policy now m))
              (lookup id s.messages_by_id)
    unfolding remove_messages
    retention-messages id s h =
        let ids = removable_message_ids p c policy now delete_blocking s in
        ap (λ (t : StoreInner). lookup id t.messages_by_id) (retention_frame s)
        ∙ lookup-retain_keys (λ (i : String). not (is_in i ids)) id s.messages_by_id
        ∙ ap (λ (b : Bool). if not b then lookup id s.messages_by_id else none)
            (removable_lem id s h)
        ∙ kept_or_gone (is_stuck id s) (is_expired_message p c policy now)
            (lookup id s.messages_by_id)

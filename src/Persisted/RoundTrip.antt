-- ===== src/Persisted/RoundTrip.antt =====
-- src/state.rs: `from_inner` followed by `into_inner`.
use rust_zap.Prelude.{
  ◌≡◌, refl, ◌∙◌, ap, String, Bool, true, false, ◌&&◌, Option, none, some, List, [], ◌∷◌, ◌++◌, not,
  retain, is_some_and, is_none_or, All, filter_map, flat_map, map, All-append,
}
use rust_zap.Dict.{Dict, string_eq, pair_eq, triple_eq, quadruple_eq, keys, values, contains_key}
use rust_zap.Dict.Distinct.{Distinct}
use rust_zap.Text.{replace_char}
use rust_zap.Models.{Time, Conversation, Message, MediaObject, CommonEvent}
use rust_zap.Store.{
  GroupRecord, GroupMemberRecord, IdempotencyRecord, MediaUploadIdempotencyRecord, Key₃, StoreInner,
}
use rust_zap.Jid.{is_updates_surface_jid}
use rust_zap.Persisted.{
  PersistedStore, conversation_updates_surface, contact_updates_surface, group_updates_surface,
  group_member_updates_surface, message_updates_surface, key_updates_surface, is_disallowed_key,
  is_disallowed_message, keep_filled, collect_into, normalize_group_profile_refreshes,
  disallowed_conversations, removed_message_ids, drop_surfaces,
}
use rust_zap.Persisted.Saved.{
  is_orphan, add_placeholders, ensure_media_conversation_placeholders, sanitize_updates_surfaces,
  saved_fields, from_inner, loaded_fields, into_inner,
}
use rust_zap.Persisted.Clean.{IsClean}
use rust_zap.Persisted.Kept.{
  retain_all, retain_none, All-implies, All-entries, All-everywhere, kept, is_filled, kept_filled,
  collect_whole, plain_keys,
}

-- A store that is saved whole: clean, with nothing empty that saving would leave out, every media
-- object's conversation there, and keys that differ, as a `HashMap`'s do.
pub record IsWhole (s : StoreInner) : Type 0 where
  pub clean : IsClean s
  pub members :
      All (λ (e : String × Dict String GroupMemberRecord). is_filled e.1 ≡ true) s.group_members
  pub lists : All (λ (e : String × List Message). is_filled e.1 ≡ true) s.messages_by_conversation
  pub refreshes :
      All
        (λ (e : String × Time). (key_updates_surface e.0 ≡ false) × (replace_char 0 "|" e.0 ≡ e.0))
        s.group_profile_refreshes
  pub requests :
      All (λ (e : Key₃ × IdempotencyRecord). is_updates_surface_jid e.0.2 ≡ false) s.idempotency
  pub uploads :
      All
        (λ (e : Key₃ × MediaUploadIdempotencyRecord). contains_key e.1.media_id s.media ≡ true)
        s.media_upload_idempotency
  pub homes : All (λ m. is_orphan s.conversations m ≡ false) (values s.media)
  pub companies_differ : Distinct (keys s.companies)
  pub requests_differ : Distinct (keys s.idempotency)
  pub uploads_differ : Distinct (keys s.media_upload_idempotency)
  pub dirty_differ : Distinct (keys s.dirty)
  pub leases_differ : Distinct (keys s.dirty_leases)
  pub consumers_differ : Distinct (keys s.consumer_state)
  pub refreshes_differ : Distinct (keys s.group_profile_refreshes)

module _ (s : StoreInner) (h : IsWhole s) where
  refreshes_whole :
      normalize_group_profile_refreshes s.group_profile_refreshes ≡ s.group_profile_refreshes
  unfolding normalize_group_profile_refreshes
  refreshes_whole =
      ap (λ (d : Dict String Time). collect_into [] d)
        (plain_keys s.group_profile_refreshes (
          All-implies _ (λ (e : String × Time). replace_char 0 "|" e.0 ≡ e.0) (λ e k. k.1)
            s.group_profile_refreshes h.refreshes))
      ∙ collect_whole s.group_profile_refreshes h.refreshes_differ

  -- The saved fields, with the keys of refreshes as they are.
  abbrev plain : PersistedStore
  plain = record (saved_fields s) { group_profile_refreshes = s.group_profile_refreshes }

  saved_whole : saved_fields s ≡ plain
  unfolding saved_fields
  saved_whole = λ i. record (saved_fields s) { group_profile_refreshes = refreshes_whole i }

  none_disallowed : disallowed_conversations plain ≡ []
  unfolding disallowed_conversations saved_fields
  none_disallowed =
      ap
        (λ (r : List Conversation).
          map (λ (v : Conversation). v.id) r
          ++ retain is_updates_surface_jid (keys s.messages_by_conversation))
        (retain_none conversation_updates_surface (values s.conversations) h.clean.conversations)
      ∙ retain_none is_updates_surface_jid (keys s.messages_by_conversation)
          (list_keys s.messages_by_conversation h.clean.lists)
    where
      list_keys :
          (d : Dict String (List Message))
          → All
              (λ (e : String × List Message).
                (is_updates_surface_jid e.0 ≡ false)
                × All (λ m. message_updates_surface m ≡ false) e.1)
              d
          → All (λ k. is_updates_surface_jid k ≡ false) (keys d)
      list_keys [] k = tt
      list_keys ((key, ms) ∷ d) k = (k.0.0, list_keys d k.1)

  none_removed : removed_message_ids [] plain ≡ []
  unfolding removed_message_ids saved_fields
  none_removed =
      ap
        (λ (r : Dict String Message).
          keys r
          ++ map (λ (m : Message). m.id)
              (retain (is_disallowed_message [])
                (flat_map (λ (ms : List Message). ms) (values s.messages_by_conversation))))
        (retain_none (λ (e : String × Message). is_disallowed_message [] e.1) s.messages_by_id
          (All-entries (λ m. message_updates_surface m ≡ false) s.messages_by_id h.clean.messages))
      ∙ ap (λ (r : List Message). map (λ (m : Message). m.id) r)
          (retain_none (is_disallowed_message []) _
            (listed s.messages_by_conversation h.clean.lists))
    where
      listed :
          (d : Dict String (List Message))
          → All
              (λ (e : String × List Message).
                (is_updates_surface_jid e.0 ≡ false)
                × All (λ m. message_updates_surface m ≡ false) e.1)
              d
          → All
              (λ m. message_updates_surface m ≡ false)
              (flat_map (λ (ms : List Message). ms) (values d))
      listed [] k = tt
      listed ((key, ms) ∷ d) k =
          All-append (λ m. message_updates_surface m ≡ false) ms _ k.0.1 (listed d k.1)

  entries_kept :
      {V : Type 0} (bad : V → Bool) (d : Dict String V)
      → All (λ v. bad v ≡ false) (values d)
      → retain (λ (e : String × V). not (bad e.1)) d ≡ d
  entries_kept {V} bad d k =
      kept (λ (e : String × V). bad e.1 ≡ false) (λ (e : String × V). not (bad e.1))
        (λ e b. rw b refl) d (All-entries (λ v. bad v ≡ false) d k)

  everything {ℓ} : {A : Type ℓ} (xs : List A) → retain (λ a. true) xs ≡ xs
  everything xs = retain_all (λ a. true) xs (All-everywhere (λ a. true ≡ true) (λ a. refl) xs)

  both {ℓ κ μ} :
      {A : Type ℓ} (P : A → Type κ) (Q : A → Type μ) (xs : List A)
      → All P xs
      → All Q xs
      → All (λ a. P a × Q a) xs
  both P Q [] k j = tt
  both P Q (x ∷ xs) k j = ((k.0, j.0), both P Q xs k.1 j.1)

  member_lists :
      (d : Dict String (Dict String GroupMemberRecord))
      → All
          (λ (e : String × Dict String GroupMemberRecord).
            (is_updates_surface_jid e.0 ≡ false)
            × All (λ m. group_member_updates_surface m ≡ false) (values e.1))
          d
      → All (λ (e : String × Dict String GroupMemberRecord). is_filled e.1 ≡ true) d
      → filter_map
          (keep_filled
            (is_disallowed_key [])
            (λ (e : String × GroupMemberRecord). not (group_member_updates_surface e.1)))
          d
        ≡ d
  member_lists d good full =
      kept_filled (is_disallowed_key [])
        (λ (e : String × GroupMemberRecord). not (group_member_updates_surface e.1)) d
        (All-implies _ _
          (λ (e : String × Dict String GroupMemberRecord) k. (
            k.0.0,
            All-implies
                (λ (x : String × GroupMemberRecord). group_member_updates_surface x.1 ≡ false)
                (λ x. not (group_member_updates_surface x.1) ≡ true) (λ x b. rw b refl) e.1
                (All-entries (λ m. group_member_updates_surface m ≡ false) e.1 k.0.1),
            k.1,
          ))
          d
          (both
            (λ (e : String × Dict String GroupMemberRecord).
              (is_updates_surface_jid e.0 ≡ false)
              × All (λ m. group_member_updates_surface m ≡ false) (values e.1))
            (λ e. is_filled e.1 ≡ true) d good full))

  message_lists :
      (d : Dict String (List Message))
      → All
          (λ (e : String × List Message).
            (is_updates_surface_jid e.0 ≡ false) × All (λ m. message_updates_surface m ≡ false) e.1)
          d
      → All (λ (e : String × List Message). is_filled e.1 ≡ true) d
      → filter_map
          (keep_filled
            (is_disallowed_key [])
            (λ (m : Message). true && not (message_updates_surface m)))
          d
        ≡ d
  message_lists d good full =
      kept_filled (is_disallowed_key []) (λ (m : Message). not (message_updates_surface m)) d
        (All-implies _ _
          (λ (e : String × List Message) k. (
            k.0.0,
            All-implies (λ m. message_updates_surface m ≡ false)
                (λ m. not (message_updates_surface m) ≡ true) (λ m b. rw b refl) e.1 k.0.1,
            k.1,
          ))
          d
          (both
            (λ (e : String × List Message).
              (is_updates_surface_jid e.0 ≡ false)
              × All (λ m. message_updates_surface m ≡ false) e.1)
            (λ e. is_filled e.1 ≡ true) d good full))

  none_or_true : {A : Type 0} (o : Option A) → is_none_or o (λ a. true) ≡ true
  none_or_true none = refl
  none_or_true (some a) = refl

  media_kept :
      retain
        (λ (e : String × MediaObject).
          not (is_updates_surface_jid e.1.conversation_id)
          && is_none_or e.1.message_id (λ id. true))
        s.media
      ≡ s.media
  media_kept =
      kept (λ (e : String × MediaObject). is_updates_surface_jid e.1.conversation_id ≡ false) _
        (λ e b. rw (b, none_or_true e.1.message_id) refl) s.media
        (All-entries (λ m. is_updates_surface_jid m.conversation_id ≡ false) s.media h.clean.media)

  event_kept :
      (e : CommonEvent)
      → is_some_and e.conversation_id is_updates_surface_jid ≡ false
      → (is_none_or e.conversation_id (λ id. not (is_updates_surface_jid id))
          && is_none_or e.message_id (λ id. true))
        ≡ true
  event_kept e b = rw (none_or_true e.message_id) (kept_id e.conversation_id b)
    where
      kept_id :
          (o : Option String)
          → is_some_and o is_updates_surface_jid ≡ false
          → (is_none_or o (λ id. not (is_updates_surface_jid id)) && true) ≡ true
      kept_id none b = refl
      kept_id (some id) b = rw b refl

  dropped_whole : drop_surfaces [] [] plain ≡ plain
  unfolding drop_surfaces saved_fields
  dropped_whole = λ i. record plain {
    conversations =
        entries_kept conversation_updates_surface s.conversations h.clean.conversations i;
    contacts = entries_kept contact_updates_surface s.contacts h.clean.contacts i;
    groups =
        kept (λ (e : String × GroupRecord). group_updates_surface e.0 e.1 ≡ false)
          (λ e. not (group_updates_surface e.0 e.1)) (λ e b. rw b refl) s.groups h.clean.groups i;
    group_members = member_lists s.group_members h.clean.members h.members i;
    group_profile_refreshes =
        kept
          (λ (e : String × Time).
            (key_updates_surface e.0 ≡ false) × (replace_char 0 "|" e.0 ≡ e.0))
          (λ e. not (key_updates_surface e.0)) (λ e b. rw (b.0) refl) s.group_profile_refreshes
          h.refreshes i;
    messages_by_id = entries_kept message_updates_surface s.messages_by_id h.clean.messages i;
    messages_by_conversation = message_lists s.messages_by_conversation h.clean.lists h.lists i;
    media = media_kept i;
    transcripts = everything s.transcripts i;
    idempotency =
        kept (λ (e : Key₃ × IdempotencyRecord). is_updates_surface_jid e.0.2 ≡ false)
          (λ e. not (is_updates_surface_jid e.0.2) && true) (λ e b. rw b refl) s.idempotency
          h.requests i;
    media_upload_idempotency =
        (ap
              (λ (d : Dict String MediaObject).
                retain (λ (e : Key₃ × MediaUploadIdempotencyRecord). contains_key e.1.media_id d)
                  s.media_upload_idempotency)
              media_kept
            ∙ retain_all
                (λ (e : Key₃ × MediaUploadIdempotencyRecord). contains_key e.1.media_id s.media)
                s.media_upload_idempotency h.uploads)
          i;
    dirty = everything s.dirty i;
    dirty_leases = everything s.dirty_leases i;
    consumer_state = everything s.consumer_state i;
    events =
        kept (λ (e : CommonEvent). is_some_and e.conversation_id is_updates_surface_jid ≡ false) _
          event_kept s.events h.clean.events i;
  }

  sanitized_whole : sanitize_updates_surfaces plain ≡ plain
  unfolding sanitize_updates_surfaces ensure_media_conversation_placeholders add_placeholders
      saved_fields
  sanitized_whole =
      ap
        (λ (d : List String).
          ensure_media_conversation_placeholders
            (drop_surfaces d (removed_message_ids d plain) plain))
        none_disallowed
      ∙ ap (λ (r : List String). ensure_media_conversation_placeholders (drop_surfaces [] r plain))
          none_removed
      ∙ ap (λ (t : PersistedStore). ensure_media_conversation_placeholders t) dropped_whole
      ∙ ap
          (λ (ms : List MediaObject). record plain {
            conversations = add_placeholders s.channels ms s.conversations;
          })
          (retain_none (is_orphan s.conversations) (values s.media) h.homes)

  -- A whole store that is saved and loaded is the store again, but for what is not saved: the
  -- uploads under way, the ids of handled events and what has been sent. Whole means: nothing of a
  -- status broadcast or a newsletter, no empty list of messages or members, upload records and media
  -- that point at what the store has, keys of picture refreshes without a NUL, and keys that differ.
  pub into_inner-from_inner : into_inner (from_inner s) ≡ record s {
    media_upload_idempotency_inflight = [];
    internal_processed_event_ids = [];
    sent = [];
  }
  unfolding into_inner from_inner loaded_fields saved_fields
  into_inner-from_inner =
      ap (λ (t : PersistedStore). into_inner (sanitize_updates_surfaces t)) saved_whole
      ∙ ap (λ (t : PersistedStore). into_inner t) sanitized_whole
      ∙ ap (λ (t : PersistedStore). loaded_fields t) sanitized_whole
      ∙ λ i. record s {
        companies = collect_whole s.companies h.companies_differ i;
        idempotency = collect_whole s.idempotency h.requests_differ i;
        media_upload_idempotency = collect_whole s.media_upload_idempotency h.uploads_differ i;
        media_upload_idempotency_inflight = [];
        dirty = collect_whole s.dirty h.dirty_differ i;
        dirty_leases = collect_whole s.dirty_leases h.leases_differ i;
        consumer_state = collect_whole s.consumer_state h.consumers_differ i;
        group_profile_refreshes = refreshes_whole i;
        internal_processed_event_ids = [];
        sent = [];
      }

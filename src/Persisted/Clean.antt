-- ===== src/Persisted/Clean.antt =====
-- src/state.rs: `into_inner` and the surfaces for updates.
use rust_zap.Prelude.{
  ◌≡◌, refl, sym, ◌∙◌, String, Bool, true, false, ◌&&◌, ◌||◌, Option, none, some, List, [], ◌∷◌,
  arith, inl, inr, Bool-cases, not, retain, is_some_and, All, All-filter_map, is_none_or, subst,
}
use rust_zap.Dict.{Dict, ◌==◌, string_eq, insert, values, contains_key}
use rust_zap.Dict.Distinct.{is_in}
use rust_zap.Models.{Conversation, Message, MediaObject, CommonEvent}
use rust_zap.Json.{Value}
use rust_zap.Store.{GroupRecord, GroupMemberRecord, StoreInner}
use rust_zap.Jid.{is_updates_surface_jid, is_group_jid}
use rust_zap.Persisted.{
  PersistedStore, conversation_updates_surface, contact_updates_surface, group_updates_surface,
  group_member_updates_surface, message_updates_surface, is_disallowed_key, filled, keep_filled,
  disallowed_conversations, removed_message_ids, drop_surfaces,
}
use rust_zap.Persisted.Saved.{
  placeholder_conversation, is_orphan, add_placeholders, ensure_media_conversation_placeholders,
  sanitize_updates_surfaces, loaded_fields, into_inner,
}

-- Nothing of the store is of a surface for updates.
pub record IsClean (s : StoreInner) : Type 0 where
  pub conversations : All (λ v. conversation_updates_surface v ≡ false) (values s.conversations)
  pub contacts : All (λ c. contact_updates_surface c ≡ false) (values s.contacts)
  pub groups : All (λ (e : String × GroupRecord). group_updates_surface e.0 e.1 ≡ false) s.groups
  pub members :
      All
        (λ (e : String × Dict String GroupMemberRecord).
          (is_updates_surface_jid e.0 ≡ false)
          × All (λ m. group_member_updates_surface m ≡ false) (values e.1))
        s.group_members
  pub messages : All (λ m. message_updates_surface m ≡ false) (values s.messages_by_id)
  pub lists :
      All
        (λ (e : String × List Message).
          (is_updates_surface_jid e.0 ≡ false) × All (λ m. message_updates_surface m ≡ false) e.1)
        s.messages_by_conversation
  pub media : All (λ m. is_updates_surface_jid m.conversation_id ≡ false) (values s.media)
  pub events : All (λ e. is_some_and e.conversation_id is_updates_surface_jid ≡ false) s.events

-- What a filter keeps passes every test that the filter implies.
All-retain {ℓ} :
    {A : Type ℓ} (p bad : A → Bool)
    → ((a : A) → p a ≡ true → bad a ≡ false)
    → (xs : List A) → All (λ a. bad a ≡ false) (retain p xs)
All-retain p bad h [] = tt
All-retain p bad h (x ∷ xs) = elim (Bool-cases (p x)) [
  | inl kept ↦ rw kept (h x kept, All-retain p bad h xs)
  | inr out ↦ rw out (All-retain p bad h xs)
]

values-retain {ℓ κ} :
    {K : Type ℓ} {V : Type κ} (p : K × V → Bool) (bad : V → Bool)
    → ((e : K × V) → p e ≡ true → bad e.1 ≡ false)
    → (d : Dict K V) → All (λ v. bad v ≡ false) (values (retain p d))
values-retain p bad h [] = tt
values-retain p bad h ((k, v) ∷ d) = elim (Bool-cases (p (k, v))) [
  | inl kept ↦ rw kept (h (k, v) kept, values-retain p bad h d)
  | inr out ↦ rw out (values-retain p bad h d)
]

not-true : (b : Bool) → not b ≡ true → b ≡ false
not-true b h = ground arith

All-kept {ℓ κ} :
    {A : Type ℓ} (P : A → Type κ) (p : A → Bool) (xs : List A) → All P xs → All P (retain p xs)
All-kept P p [] h = tt
All-kept P p (x ∷ xs) h = elim (Bool-cases (p x)) [
  | inl kept ↦ rw kept (h.0, All-kept P p xs h.1)
  | inr out ↦ rw out (All-kept P p xs h.1)
]

filled_lem {ℓ κ} :
    {A : Type ℓ} {B : Type κ} (key : A) (xs : List B) (y : A × List B)
    → filled key xs ≡ some y
    → (key, xs) ≡ y
filled_lem key [] y h = absurd (cc h)
filled_lem key (x ∷ xs) y h = cc h

keep_filled_lem {ℓ κ} :
    {A : Type ℓ} {B : Type κ} (drops : A → Bool) (p : B → Bool) (e y : A × List B)
    → keep_filled drops p e ≡ some y
    → (drops e.0 ≡ false) × ((e.0, retain p e.1) ≡ y)
keep_filled_lem drops p (key, items) y h = elim (Bool-cases (drops key)) [
  | inl out ↦ let no : none ≡ some y = sym (rw out refl) ∙ h in absurd (cc no)
  | inr kept ↦ (kept, filled_lem key (retain p items) y (sym (rw kept refl) ∙ h))
]

module _ {κ} {V : Type κ} (P : V → Type 0) where
  insert-All :
      (k : String) (v : V) (d : Dict String V)
      → P v
      → All P (values d)
      → All P (values (insert k v d))
  unfolding insert
  insert-All k v [] good h = (good, tt)
  insert-All k v ((j, w) ∷ d) good h = elim (Bool-cases (j == k)) [
    | inl same ↦ rw same (good, h.1)
    | inr other ↦ rw other (h.0, insert-All k v d good h.1)
  ]

abbrev IsShown : Conversation → Type 0
IsShown v = conversation_updates_surface v ≡ false

placeholder-IsShown :
    (channels : Dict String Value) (media : MediaObject)
    → is_updates_surface_jid media.conversation_id ≡ false
    → IsShown (placeholder_conversation channels media)
unfolding placeholder_conversation
placeholder-IsShown channels media h = elim (Bool-cases (is_group_jid media.conversation_id)) [
  | inl group ↦ rw (group, h) refl
  | inr direct ↦ rw (direct, h) refl
]

placeholders-IsShown :
    (channels : Dict String Value) (media : List MediaObject) (d : Dict String Conversation)
    → All (λ m. is_updates_surface_jid m.conversation_id ≡ false) media
    → All IsShown (values d)
    → All IsShown (values (add_placeholders channels media d))
unfolding add_placeholders
placeholders-IsShown channels [] d good h = h
placeholders-IsShown channels (m ∷ media) d good h =
    elim (Bool-cases (contains_key m.conversation_id d)) [
      | inl there ↦ rw there (placeholders-IsShown channels media d good.1 h)
      | inr missing ↦ rw missing (
          placeholders-IsShown channels media _ good.1 (
            insert-All IsShown m.conversation_id (placeholder_conversation channels m) d
              (placeholder-IsShown channels m good.0) h))
    ]

middle_false : (a b c : Bool) → (not a && (not b && c)) ≡ true → b ≡ false
middle_false a b c h = ground arith

last_false : (a b c : Bool) → (a && (b && not c)) ≡ true → c ≡ false
last_false a b c h = ground arith

right_false : (a b : Bool) → (a && not b) ≡ true → b ≡ false
right_false a b h = ground arith

or_false : (a b : Bool) → (a || b) ≡ false → b ≡ false
or_false a b h = ground arith

none_bad :
    (o : Option String) (b : Bool)
    → (is_none_or o (λ id. not (is_updates_surface_jid id)) && b) ≡ true
    → is_some_and o is_updates_surface_jid ≡ false
none_bad none b h = refl
none_bad (some id) b h = ground arith

members-IsClean :
    (disallowed : List String) (e y : String × Dict String GroupMemberRecord)
    → keep_filled
        (is_disallowed_key disallowed)
        (λ (x : String × GroupMemberRecord). not (group_member_updates_surface x.1))
        e
      ≡ some y
    → (is_updates_surface_jid y.0 ≡ false)
      × All (λ m. group_member_updates_surface m ≡ false) (values y.1)
members-IsClean disallowed e y h =
    let good = λ (x : String × GroupMemberRecord). not (group_member_updates_surface x.1) in
    let kept = keep_filled_lem (is_disallowed_key disallowed) good e y h in
    subst
      (λ (x : String × Dict String GroupMemberRecord).
        (is_updates_surface_jid x.0 ≡ false)
        × All (λ m. group_member_updates_surface m ≡ false) (values x.1))
      kept.1
      (
        or_false _ _ kept.0,
        values-retain good group_member_updates_surface (λ x k. not-true _ k) e.1,
      )

list-IsClean :
    (disallowed removed : List String) (e y : String × List Message)
    → keep_filled
        (is_disallowed_key disallowed)
        (λ (m : Message). not (is_in m.id removed) && not (message_updates_surface m))
        e
      ≡ some y
    → (is_updates_surface_jid y.0 ≡ false) × All (λ m. message_updates_surface m ≡ false) y.1
list-IsClean disallowed removed e y h =
    let good = λ (m : Message). not (is_in m.id removed) && not (message_updates_surface m) in
    let kept = keep_filled_lem (is_disallowed_key disallowed) good e y h in
    subst
      (λ (x : String × List Message).
        (is_updates_surface_jid x.0 ≡ false) × All (λ m. message_updates_surface m ≡ false) x.1)
      kept.1
      (or_false _ _ kept.0, All-retain good message_updates_surface (λ m k. right_false _ _ k) e.1)

-- Whatever was saved, what is loaded has nothing of a status broadcast or a newsletter: no
-- conversation, contact, group, group member, message in either place, media object or event.
pub into_inner-IsClean : (store : PersistedStore) → IsClean (into_inner store)
unfolding into_inner loaded_fields sanitize_updates_surfaces ensure_media_conversation_placeholders
    drop_surfaces
into_inner-IsClean store =
    let disallowed = disallowed_conversations store in
    let removed = removed_message_ids disallowed store in
    let kept = drop_surfaces disallowed removed store in
    let media : All (λ m. is_updates_surface_jid m.conversation_id ≡ false) (values kept.media) =
      values-retain _ (λ (m : MediaObject). is_updates_surface_jid m.conversation_id)
        (λ e h. middle_false _ _ _ h) store.media in
    record {
      conversations =
          placeholders-IsShown store.channels
            (retain (is_orphan kept.conversations) (values kept.media)) kept.conversations
            (All-kept (λ m. is_updates_surface_jid m.conversation_id ≡ false)
              (is_orphan kept.conversations) (values kept.media) media)
            (values-retain _ conversation_updates_surface (λ e h. not-true _ h)
              store.conversations);
      contacts = values-retain _ contact_updates_surface (λ e h. not-true _ h) store.contacts;
      groups =
          All-retain _ (λ (e : String × GroupRecord). group_updates_surface e.0 e.1)
            (λ e h. not-true _ h) store.groups;
      members = All-filter_map _ _ (λ e y h. members-IsClean disallowed e y h) store.group_members;
      messages =
          values-retain _ message_updates_surface (λ e h. last_false _ _ _ h) store.messages_by_id;
      lists =
          All-filter_map _ _ (λ e y h. list-IsClean disallowed removed e y h)
            store.messages_by_conversation;
      media = media;
      events =
          All-retain _ (λ (e : CommonEvent). is_some_and e.conversation_id is_updates_surface_jid)
            (λ e h. none_bad e.conversation_id _ h) store.events;
    }

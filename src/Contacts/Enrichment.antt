-- ===== src/Contacts/Enrichment.antt =====
-- src/state.rs: contacts with what another JID of theirs or a profile lookup says of them.
use rust_zap.Prelude.{
  ◌≡◌, refl, String, Bool, false, ◌&&◌, ◌||◌, Option, none, some, [], ◌∷◌, if◌then◌else◌, not,
  keep_if, or_else, unwrap_or, and_then, then_some, is_some, find, map_option, inl, inr,
  Option-cases,
}
use rust_zap.Text.{trim, is_empty, ends_with}
use rust_zap.Dict.{Dict, ◌==◌, string_eq, insert}
use rust_zap.Store.{StoreInner, ContactRecord}
use rust_zap.Jid.{phone_from_jid, display_name_for_jid, rustzap_profile_picture_media_id}
use rust_zap.Contacts.{ContactUpsertInput, is_named, upsert_contact_inner}

pub record ContactProfile : Type 0 where
  pub requested_jid : String
  pub resolved_jid : Option String
  pub lid : Option String
  pub phone_e164 : Option String
  pub business_description : Option String
  pub profile_picture_id : Option String
  pub profile_picture_media_id : Option String
  pub profile_picture_url : Option String

-- `ContactUpsertInput` and `ContactEnrichmentInput` name the same contact.
pub record ContactEnrichmentInput : Type 0 where
  pub contact : ContactUpsertInput
  pub profile : ContactProfile
  pub profile_lookup_succeeded : Bool

is_lid : String → Bool
unfolding ends_with
is_lid jid = ends_with jid "@lid"

profile_of : String → String → Option ContactProfile
unfolding is_lid phone_from_jid
profile_of contact_id alt_jid =
    let jids = contact_id ∷ alt_jid ∷ [] in
    let canonical_jid = find (λ jid. is_some (phone_from_jid jid)) jids in
    let lid = find is_lid jids in
    let phone_e164 =
      or_else (and_then canonical_jid phone_from_jid)
        (or_else (phone_from_jid contact_id) (phone_from_jid alt_jid)) in
    if not (is_some canonical_jid) && (not (is_some lid) && not (is_some phone_e164))
    then none
    else some (record {
      requested_jid = contact_id;
      resolved_jid = canonical_jid;
      lid = lid;
      phone_e164 = phone_e164;
      business_description = none;
      profile_picture_id = none;
      profile_picture_media_id = none;
      profile_picture_url = none;
    })

unfoldable pub contact_profile_from_alt : String → Option String → Option ContactProfile
unfolding trim profile_of
contact_profile_from_alt contact_id alt_jid =
    and_then
      (keep_if (λ value. not (value == contact_id))
        (keep_if (λ value. not (is_empty value)) (map_option trim alt_jid)))
      (profile_of contact_id)

canonical_of : ContactEnrichmentInput → Option String
unfolding is_lid
canonical_of input =
    or_else (keep_if (λ jid. not (is_lid jid)) input.profile.resolved_jid)
      (then_some (not (is_lid input.contact.contact_id)) input.contact.contact_id)

lid_of : ContactEnrichmentInput → Option String
unfolding is_lid
lid_of input =
    or_else input.profile.lid (then_some (is_lid input.contact.contact_id) input.contact.contact_id)

enriched_name : ContactEnrichmentInput → Option String → ContactRecord → String
unfolding is_named is_lid display_name_for_jid
enriched_name input phone_e164 entry =
    let is_placeholder =
      entry.display_name == entry.id
      || (is_lid entry.display_name
          || entry.display_name == display_name_for_jid input.contact.contact_id) in
    unwrap_or (keep_if is_named input.contact.push_name)
      (if is_placeholder then unwrap_or phone_e164 entry.display_name else entry.display_name)

-- The writes to the contact's own entry.
enriched : ContactEnrichmentInput → ContactRecord → ContactRecord
unfolding canonical_of lid_of enriched_name phone_from_jid trim is_named
    rustzap_profile_picture_media_id
enriched input entry =
    let profile = input.profile in
    let canonical_jid = canonical_of input in
    let phone_e164 = or_else profile.phone_e164 (and_then canonical_jid phone_from_jid) in
    let looked_up = input.profile_lookup_succeeded in
    let kept_media = rustzap_profile_picture_media_id entry.profile_picture_media_id in
    record entry {
      canonical_jid = canonical_jid;
      lid = lid_of input;
      phone_e164 = or_else phone_e164 entry.phone_e164;
      avatar_url = or_else profile.profile_picture_url entry.avatar_url;
      profile_picture_url = or_else profile.profile_picture_url entry.profile_picture_url;
      profile_picture_media_id =
          if is_some profile.profile_picture_media_id
          then or_else (rustzap_profile_picture_media_id profile.profile_picture_media_id)
              kept_media
          else entry.profile_picture_media_id;
      profile_lookup_attempted_at =
          if looked_up then some input.contact.now else entry.profile_lookup_attempted_at;
      profile_lookup_failed_at = if looked_up then none else entry.profile_lookup_failed_at;
      profile_lookup_failure_count = if looked_up then 0 else entry.profile_lookup_failure_count;
      business_description =
          or_else
            (keep_if (λ value. not (is_empty value)) (map_option trim profile.business_description))
            entry.business_description;
      push_name = or_else (keep_if is_named input.contact.push_name) entry.push_name;
      display_name = enriched_name input phone_e164 entry;
      last_contact_at = input.contact.now;
    }

insert_alias :
    String → ContactRecord → Option String → Dict String ContactRecord → Dict String ContactRecord
insert_alias contact_id contact none contacts = contacts
insert_alias contact_id contact (some alias) contacts =
    if alias == contact_id then contacts else insert alias (record contact { id = alias }) contacts

unfoldable pub enrich_contact_inner :
    ContactEnrichmentInput → StoreInner → ContactRecord × StoreInner
unfolding enriched insert_alias canonical_of lid_of
enrich_contact_inner input inner =
    let contact_id = input.contact.contact_id in
    let (entry, upserted) =
      upsert_contact_inner
        (record input.contact { profile_picture_url = input.profile.profile_picture_url }) inner in
    let contact = enriched input entry in
    (
      contact,
      record upserted {
        contacts = insert_alias contact_id contact (lid_of input) (
            insert_alias contact_id contact (canonical_of input)
              (insert contact_id contact upserted.contacts));
      },
    )

unfoldable pub upsert_contact_with_alt_inner :
    ContactUpsertInput → Option String → StoreInner → ContactRecord × StoreInner
upsert_contact_with_alt_inner input alt_jid inner =
    elim (contact_profile_from_alt input.contact_id alt_jid) [
      | none ↦ upsert_contact_inner input inner
      | some profile ↦
          enrich_contact_inner
            (record {
              contact = input;
              profile = record profile {
                profile_picture_url = or_else input.profile_picture_url profile.profile_picture_url;
              };
              profile_lookup_succeeded = false;
            })
            inner
    ]

-- Only the contacts are touched.
pub upsert_contact_with_alt_frame :
    (input : ContactUpsertInput) (alt_jid : Option String) (s : StoreInner)
    → let out = upsert_contact_with_alt_inner input alt_jid s in
      out.1 ≡ record s { contacts = out.1.contacts }
unfolding upsert_contact_with_alt_inner enrich_contact_inner upsert_contact_inner
upsert_contact_with_alt_frame input alt_jid s =
    elim (Option-cases (contact_profile_from_alt input.contact_id alt_jid)) [
      | inl alone ↦ rw (alone, upsert_contact_with_alt_inner) refl
      | inr (profile, e) ↦ rw (e, upsert_contact_with_alt_inner) refl
    ]

-- ===== src/Contacts.antt =====
-- src/state.rs: contacts and group members as messages bring them in, and the ways from a phone
-- number to a contact's aliases.
pub mod Enrichment
pub mod Aliases
pub mod Views
use rust_zap.Prelude.{
  String, Bool, false, Option, none, some, [], if◌then◌else◌, not, keep_if, or_else, unwrap_or,
  and_then, then_some,
}
use rust_zap.Text.{trim, is_empty, ends_with}
use rust_zap.Dict.{◌==◌, string_eq, lookup, insert, modify_or_insert}
use rust_zap.Models.{Time}
use rust_zap.Store.{StoreInner, ContactRecord, GroupMemberRecord}
use rust_zap.Jid.{
  phone_from_jid, display_name_for_jid, phone_number_from_value, phone_number_from_jid,
}

pub record ContactUpsertInput : Type 0 where
  pub project_id : String
  pub company_id : String
  pub channel_id : Option String
  pub contact_id : String
  pub push_name : Option String
  pub profile_picture_url : Option String
  pub now : Time

unfoldable pub is_named : String → Bool
unfolding trim
is_named value = not (is_empty (trim value))

new_contact : ContactUpsertInput → String → ContactRecord
unfolding ends_with phone_from_jid
new_contact input display_name = record {
  id = input.contact_id;
  canonical_jid = then_some (not (ends_with input.contact_id "@lid")) input.contact_id;
  lid = then_some (ends_with input.contact_id "@lid") input.contact_id;
  project_id = input.project_id;
  company_id = input.company_id;
  channel_account_id = input.channel_id;
  phone_e164 = phone_from_jid input.contact_id;
  push_name = input.push_name;
  display_name = display_name;
  profile_picture_media_id = none;
  business_description = none;
  profile_lookup_attempted_at = none;
  profile_lookup_failed_at = none;
  profile_lookup_failure_count = 0;
  avatar_url = input.profile_picture_url;
  profile_picture_url = input.profile_picture_url;
  first_contact_at = input.now;
  last_contact_at = input.now;
}

-- The writes to the entry, whether it was there or has just been made.
refresh_contact : ContactUpsertInput → String → ContactRecord → ContactRecord
unfolding is_named phone_from_jid
refresh_contact input display_name entry =
    let push_name = keep_if is_named input.push_name in
    record entry {
      project_id = input.project_id;
      company_id = input.company_id;
      channel_account_id = or_else input.channel_id entry.channel_account_id;
      last_contact_at = input.now;
      phone_e164 = or_else (phone_from_jid input.contact_id) entry.phone_e164;
      push_name = or_else push_name entry.push_name;
      display_name =
          unwrap_or push_name
            (if entry.display_name == entry.id then display_name else entry.display_name);
      avatar_url = or_else input.profile_picture_url entry.avatar_url;
      profile_picture_url = or_else input.profile_picture_url entry.profile_picture_url;
    }

unfoldable pub upsert_contact_inner : ContactUpsertInput → StoreInner → ContactRecord × StoreInner
unfolding new_contact refresh_contact is_named phone_from_jid display_name_for_jid
upsert_contact_inner input inner =
    let display_name =
      unwrap_or (or_else (keep_if is_named input.push_name) (phone_from_jid input.contact_id))
        (display_name_for_jid input.contact_id) in
    let entry =
      refresh_contact input display_name
        (unwrap_or (lookup input.contact_id inner.contacts) (new_contact input display_name)) in
    (entry, record inner { contacts = insert input.contact_id entry inner.contacts })

seen_member : String → String → Time → GroupMemberRecord → GroupMemberRecord
unfolding phone_from_jid
seen_member contact_id display_name now member = record member {
  wa_jid = some contact_id;
  phone_e164 = phone_from_jid contact_id;
  display_name = display_name;
  updated_at = now;
  last_seen_at = now;
}

new_member : String → String → String → Time → GroupMemberRecord
unfolding phone_from_jid
new_member group_id contact_id display_name now = record {
  group_id = group_id;
  contact_id = contact_id;
  wa_jid = some contact_id;
  phone_e164 = phone_from_jid contact_id;
  display_name = display_name;
  role = "member";
  is_admin = false;
  joined_at = now;
  updated_at = now;
  last_seen_at = now;
}

unfoldable pub upsert_group_member_inner :
    (group_id contact_id display_name : String) → Time → StoreInner → StoreInner
unfolding seen_member new_member
upsert_group_member_inner group_id contact_id display_name now inner =
    let members =
      modify_or_insert contact_id (seen_member contact_id display_name now)
        (new_member group_id contact_id display_name now)
        (unwrap_or (lookup group_id inner.group_members) []) in
    record inner { group_members = insert group_id members inner.group_members }

unfoldable pub contact_phone_number : ContactRecord → Option String
unfolding phone_number_from_value phone_number_from_jid
contact_phone_number contact = or_else (and_then contact.phone_e164 phone_number_from_value) (
    or_else (and_then contact.canonical_jid phone_number_from_jid)
      (phone_number_from_jid contact.id))

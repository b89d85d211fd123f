-- ===== src/Jid.antt =====
-- WhatsApp identifiers: the helpers of src/state.rs that read phone numbers and names out of a JID,
-- and `is_updates_surface_jid` of src/whatsapp.rs.
use rust_zap.Prelude.{
  String, ◌<>◌, Bool, false, ◌&&◌, ◌||◌, Option, none, some, if◌then◌else◌, nat_eq, unwrap_or,
  then_some, map_option, keep_if, not,
}
use rust_zap.Text.{
  trim, ends_with, before_char, strip_prefix, all_chars, keep_chars, codes, is_ascii_digit,
  is_ascii_hexdigit, is_empty, to_ascii_lowercase, codes_eq, codes_end_with,
}
use Prim.Native.String.{len}

unfoldable pub is_updates_surface_jid : String → Bool
unfolding codes_end_with trim
is_updates_surface_jid jid =
    let normalized = to_ascii_lowercase (codes (trim jid)) in
    codes_eq normalized (codes "status@broadcast")
    || codes_end_with normalized (codes "@newsletter")
    || codes_end_with normalized (codes "@broadcast")

unfoldable pub is_group_jid : String → Bool
unfolding ends_with
is_group_jid jid = ends_with jid "@g.us"

unfoldable pub phone_to_jid : String → String
unfolding keep_chars
phone_to_jid phone_e164 =
    let digits = keep_chars is_ascii_digit phone_e164 in
    if is_empty digits then phone_e164 else digits <> "@s.whatsapp.net"

unfoldable pub phone_number_from_value : String → Option String
unfolding keep_chars
phone_number_from_value value =
    let digits = keep_chars is_ascii_digit value in then_some (not (is_empty digits)) digits

is_phone_jid : String → Bool
unfolding ends_with all_chars before_char
is_phone_jid jid =
    ends_with jid "@s.whatsapp.net" && all_chars is_ascii_digit (before_char b'@' jid)

unfoldable pub phone_from_jid : String → Option String
unfolding is_phone_jid before_char
phone_from_jid jid = if is_phone_jid jid then some ("+" <> before_char b'@' jid) else none

unfoldable pub phone_number_from_jid : String → Option String
unfolding is_phone_jid before_char
phone_number_from_jid jid = if is_phone_jid jid then some (before_char b'@' jid) else none

unfoldable pub display_name_for_jid : String → String
unfolding phone_from_jid before_char
display_name_for_jid jid = unwrap_or (phone_from_jid jid) (before_char b'@' jid)

unfoldable pub group_subject_for_jid : String → String
unfolding before_char
group_subject_for_jid jid = "Grupo " <> before_char b'@' jid

-- The suffix is ASCII wherever the second test passes, so its bytes are its characters.
is_rustzap_media_id : String → Bool
unfolding strip_prefix all_chars
is_rustzap_media_id value = elim (strip_prefix value "media_") [
  | none ↦ false
  | some suffix ↦ nat_eq (len suffix) 32 && all_chars is_ascii_hexdigit suffix
]

unfoldable pub rustzap_profile_picture_media_id : Option String → Option String
unfolding trim is_rustzap_media_id
rustzap_profile_picture_media_id value = keep_if is_rustzap_media_id (map_option trim value)

-- ===== src/Contacts/Views.antt =====
-- src/state.rs: contacts as the API shows them. `ts` is the RFC 3339 text of a time.
use Prim.Native.String.{compare}
use text.Mathlib.Text.{is_le}
use rust_zap.Prelude.{
  String, ◌<>◌, Bool, true, false, Option, none, some, List, [], ◌∷◌, unwrap_or, map, retain,
  sort_by,
}
use rust_zap.Dict.{string_eq, lookup, values}
use rust_zap.Json.{Value, str, get_str, of_option, object}
use rust_zap.Error.{Result, ok, err, not_found, bad_request, ◌>>=◌}
use rust_zap.Models.{Time}
use rust_zap.Store.{StoreInner, ContactRecord}
use rust_zap.Jid.{phone_number_from_value, rustzap_profile_picture_media_id}
use rust_zap.Contacts.{contact_phone_number}
use rust_zap.Contacts.Aliases.{is_contact_of, contact_for_inner, contact_id_for_phone_number_inner}

-- `a <= b` of `Option<&str>`.
abbrev pub le_text : Option String → Option String → Bool
le_text none b = true
le_text (some a) none = false
le_text (some a) (some b) = is_le (compare a b)

module _ (ts : Time → String) where
  unfoldable pub contact_json : ContactRecord → Value
  contact_json contact =
      let phone_number = contact_phone_number contact in
      object (
        ("id", str (unwrap_or phone_number contact.id))
        ∷ ("technical_id", str contact.id)
        ∷ ("canonical_jid", of_option contact.canonical_jid)
        ∷ ("lid", of_option contact.lid)
        ∷ ("phone_e164", of_option contact.phone_e164)
        ∷ ("phone_number", of_option phone_number)
        ∷ ("push_name", of_option contact.push_name)
        ∷ ("display_name", str contact.display_name)
        ∷ (
          "profile_picture_media_id",
          of_option (rustzap_profile_picture_media_id contact.profile_picture_media_id),
        )
        ∷ ("business_description", of_option contact.business_description)
        ∷ ("avatar_url", of_option contact.avatar_url)
        ∷ ("profile_picture_url", of_option contact.profile_picture_url)
        ∷ ("first_contact_at", str (ts contact.first_contact_at))
        ∷ ("last_contact_at", str (ts contact.last_contact_at))
        ∷ [])

  -- The contacts of a company, the latest first.
  unfoldable pub contacts : (project_id company_id : String) → StoreInner → List Value
  contacts project_id company_id inner =
      sort_by (λ (a b : Value). le_text (get_str "last_contact_at" b) (get_str "last_contact_at" a))
        (map contact_json (retain (is_contact_of project_id company_id) (values inner.contacts)))

  unfoldable pub contact : (project_id company_id contact_id : String) → StoreInner → Result Value
  contact project_id company_id contact_id inner = do
    found ← contact_for_inner inner project_id company_id contact_id
    ok (contact_json found)

  abbrev contact_under : String → Option ContactRecord → Result Value
  contact_under phone_e164 none = err (not_found ("contact phone " <> (phone_e164 <> " not found")))
  contact_under phone_e164 (some found) = ok (contact_json found)

  unfoldable pub contact_by_phone :
      (project_id company_id phone_e164 : String) → StoreInner → Result Value
  unfolding contact_under
  contact_by_phone project_id company_id phone_e164 inner =
      elim (phone_number_from_value phone_e164) [
        | none ↦ err (bad_request "phone number is empty")
        | some phone_number ↦
            elim (contact_id_for_phone_number_inner inner project_id company_id phone_number) [
              | none ↦ err (not_found ("contact phone " <> (phone_e164 <> " not found")))
              | some id ↦ contact_under phone_e164 (lookup id inner.contacts)
            ]
      ]

-- ===== src/Contacts/Aliases.antt =====
-- src/state.rs: the ids that one contact goes by, and the contact that an id or a phone number means.
use Prim.Native.String.{compare}
use text.Mathlib.Text.{is_le}
use rust_zap.Prelude.{
  String, ◌<>◌, Bool, ◌&&◌, Option, none, some, List, [], ◌∷◌, if◌then◌else◌, not, or_else,
  unwrap_or, and_then, map, is_some_and, retain, first, cons_some, ◌||◌,
}
use rust_zap.Text.Order.{sort_texts, dedup}
use rust_zap.Text.{trim, contains_char, ends_with}
use rust_zap.Dict.{◌==◌, string_eq, lookup, values}
use rust_zap.Error.{Result, ok, err, not_found}
use rust_zap.Store.{StoreInner, ContactRecord}
use rust_zap.Jid.{phone_number_from_value, phone_number_from_jid}
use rust_zap.Contacts.{contact_phone_number}

unfoldable pub phone_in : String → Option String
unfolding phone_number_from_jid phone_number_from_value contains_char
phone_in trimmed =
    or_else (phone_number_from_jid trimmed)
      (if contains_char b'@' trimmed then none else phone_number_from_value trimmed)

unfoldable pub contact_aliases_for_record : ContactRecord → List String
unfolding sort_texts dedup
contact_aliases_for_record contact =
    dedup (sort_texts (contact.id ∷ cons_some contact.canonical_jid (cons_some contact.lid [])))

abbrev pub is_contact_of : (project_id company_id : String) → ContactRecord → Bool
is_contact_of project_id company_id contact =
    contact.project_id == project_id && contact.company_id == company_id

-- The order of the keys `(!id.ends_with("@lid"), id)`.
unfoldable pub id_comes_first : String → String → Bool
unfolding ends_with
id_comes_first a b =
    if ends_with a "@lid"
    then not (ends_with b "@lid") || is_le (compare a b)
    else not (ends_with b "@lid") && is_le (compare a b)

insert_id : String → List String → List String
insert_id a [] = a ∷ []
insert_id a (b ∷ r) = if id_comes_first a b then a ∷ b ∷ r else b ∷ insert_id a r

sort_ids : List String → List String
unfolding insert_id
sort_ids [] = []
sort_ids (a ∷ r) = insert_id a (sort_ids r)

unfoldable pub contact_id_for_phone_number_inner :
    StoreInner → (project_id company_id phone_number : String) → Option String
unfolding sort_ids
contact_id_for_phone_number_inner inner project_id company_id phone_number = first (
    sort_ids (
      map (λ (c : ContactRecord). c.id)
        (retain
          (λ (c : ContactRecord).
            is_contact_of project_id company_id c
            && is_some_and (contact_phone_number c) (λ n. n == phone_number))
          (values inner.contacts))))

unfoldable pub resolve_contact_id_inner :
    StoreInner → (project_id company_id contact_id : String) → String
unfolding phone_in trim
resolve_contact_id_inner inner project_id company_id contact_id =
    let trimmed = trim contact_id in
    if is_some_and (lookup trimmed inner.contacts) (is_contact_of project_id company_id)
    then trimmed
    else unwrap_or
        (and_then (phone_in trimmed)
          (contact_id_for_phone_number_inner inner project_id company_id))
        trimmed

-- `filter(…).ok_or_else(…)`
unfoldable pub only_contact_of :
    (project_id company_id contact_id : String) → Option ContactRecord → Result ContactRecord
only_contact_of project_id company_id contact_id none =
    err (not_found ("contact " <> (contact_id <> " not found")))
only_contact_of project_id company_id contact_id (some contact) =
    if is_contact_of project_id company_id contact
    then ok contact
    else err (not_found ("contact " <> (contact_id <> " not found")))

unfoldable pub contact_for_inner :
    StoreInner → (project_id company_id contact_id : String) → Result ContactRecord
contact_for_inner inner project_id company_id contact_id =
    let resolved = resolve_contact_id_inner inner project_id company_id contact_id in
    only_contact_of project_id company_id resolved (lookup resolved inner.contacts)

abbrev pub aliases_in : Result ContactRecord → Result (List String)
aliases_in (err failure) = err failure
aliases_in (ok contact) = ok (contact_aliases_for_record contact)

unfoldable pub contact_aliases_for_inner :
    StoreInner → (project_id company_id contact_id : String) → Result (List String)
contact_aliases_for_inner inner project_id company_id contact_id =
    aliases_in (contact_for_inner inner project_id company_id contact_id)

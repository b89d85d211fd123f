-- ===== src/Callbacks/Secrets.antt =====
-- src/state.rs: the secrets of callbacks, in `sanitize_callback` and in
-- `upgrade_legacy_callback_secrets`.
use rust_zap.Prelude.{
  ◌≡◌, refl, String, false, Option, none, some, arith, inl, inr, Option-cases, if◌then◌else◌,
  map_option,
}
use rust_zap.Dict.{◌==◌, string_eq, lookup}
use rust_zap.Dict.Retain.{lookup-map_values}
use rust_zap.Error.{Result-cases, Result, ok, err}
use rust_zap.Store.{StoreInner}
use rust_zap.Json.{
  Value, Fields, null, boolean, pos_int, neg_int, float, str, arr, obj, end, field, get, get_field,
  get_str, set, set_field, remove as remove_key, remove_field,
}
use rust_zap.Callbacks.{sanitize_callback, upgrade_callback, upgrade_legacy_callback_secrets}

remove_field-get :
    (key asked : String) (fields : Fields)
    → get_field asked (remove_field key fields)
      ≡ (if key == asked then none else get_field asked fields)
unfolding get_field remove_field
remove_field-get key asked end = ground arith
remove_field-get key asked (field held value rest) = ground (
  arith,
  string_eq.beq_iff key asked,
  string_eq.beq_iff held key,
  string_eq.beq_iff held asked,
  remove_field-get key asked rest,
)

pub remove_key-get :
    (key asked : String) (v : Value)
    → get asked (remove_key key v) ≡ (if key == asked then none else get asked v)
unfolding get remove_key
remove_key-get key asked (obj fields) = remove_field-get key asked fields
remove_key-get key asked (arr items) = ground arith
remove_key-get key asked null = ground arith
remove_key-get key asked (boolean b) = ground arith
remove_key-get key asked (pos_int n) = ground arith
remove_key-get key asked (neg_int n) = ground arith
remove_key-get key asked (float t) = ground arith
remove_key-get key asked (str t) = ground arith

-- What is shown of a callback has neither secret.
pub sanitize_callback-get :
    (v : Value)
    → (get "secret" (sanitize_callback v) ≡ none)
      × (get "encrypted_secret" (sanitize_callback v) ≡ none)
unfolding sanitize_callback
sanitize_callback-get v = (
  rw
      (
        remove_key-get "encrypted_secret" "secret" (remove_key "secret" v),
        remove_key-get "secret" "secret" v,
      )
      refl,
  rw (remove_key-get "encrypted_secret" "encrypted_secret" (remove_key "secret" v)) refl,
)

set_field-get :
    (key asked : String) (v : Value) (fields : Fields)
    → get_field asked (set_field key v fields)
      ≡ (if key == asked then some v else get_field asked fields)
unfolding get_field set_field
set_field-get key asked v end = ground arith
set_field-get key asked v (field held w rest) = ground (
  arith,
  string_eq.beq_iff key asked,
  string_eq.beq_iff held key,
  string_eq.beq_iff held asked,
  set_field-get key asked v rest,
)

-- A value with a field is an object, so that a field of it can be set.
set-get :
    (key asked : String) (v w : Value) (t : String)
    → get_str "secret" w ≡ some t
    → get asked (set key v w) ≡ (if key == asked then some v else get asked w)
unfolding get set
set-get key asked v (obj fields) t h = set_field-get key asked v fields
set-get key asked v (arr items) t h = absurd (cc h)
set-get key asked v null t h = absurd (cc h)
set-get key asked v (boolean b) t h = absurd (cc h)
set-get key asked v (pos_int n) t h = absurd (cc h)
set-get key asked v (neg_int n) t h = absurd (cc h)
set-get key asked v (float u) t h = absurd (cc h)
set-get key asked v (str u) t h = absurd (cc h)

-- The callback has this secret, encrypted, and none in the clear.
abbrev pub Holds : String → Value → Type 0
Holds sealed v = (get_str "encrypted_secret" v ≡ some sealed) × (get "secret" v ≡ none)

abbrev pub Encrypted : Result String → Value → Value → Type 0
Encrypted (ok sealed) old new = Holds sealed new
Encrypted (err e) old new = new ≡ old

-- By the encrypted secret and the one in the clear that the callback had.
abbrev pub Sealed :
    (String → Result String) → Option String → Option String → Value → Value → Type 0
Sealed encrypt (some sealed) clear old new = Holds sealed new
Sealed encrypt none (some clear) old new = Encrypted (encrypt clear) old new
Sealed encrypt none none old new = new ≡ old

-- What an upgrade makes of a callback: its secrets, and all else as it was.
abbrev pub Upgraded : (String → Result String) → Value → Value → Type 0
Upgraded encrypt old new =
    Sealed encrypt (get_str "encrypted_secret" old) (get_str "secret" old) old new
    × ((key : String)
        → ("secret" == key) ≡ false
        → ("encrypted_secret" == key) ≡ false
        → get key new ≡ get key old)

abbrev pub UpgradedAt : (String → Result String) → Option Value → Option Value → Type 0
UpgradedAt encrypt none after = after ≡ none
UpgradedAt encrypt (some old) after = (new : Value) × (after ≡ some new) × Upgraded encrypt old new

upgrade_callback-Upgraded :
    (encrypt : String → Result String) (v : Value) → Upgraded encrypt v (upgrade_callback encrypt v)
unfolding upgrade_callback
upgrade_callback-Upgraded encrypt v = elim (Option-cases (get_str "encrypted_secret" v)) [
  | inr (sealed, e) ↦
      rw (e, upgrade_callback)
        (
          (
            rw (remove_key-get "secret" "encrypted_secret" v) e,
            rw (remove_key-get "secret" "secret" v) refl,
          ),
          λ key a b. rw (remove_key-get "secret" key v, a) refl,
        )
  | inl e ↦ elim (Option-cases (get_str "secret" v)) [
    | inl bare ↦ rw (e, upgrade_callback) (rw bare (refl, λ key a b. refl))
    | inr (legacy, l) ↦ elim (Result-cases (encrypt legacy)) [
      | inl (fault, f) ↦ rw (e, upgrade_callback) (rw l (rw f (refl, λ key a b. refl)))
      | inr (sealed, f) ↦
          let put = set "encrypted_secret" (str sealed) v in
          rw (e, upgrade_callback)
            (rw l (
              rw f (
                (
                  rw
                      (
                        remove_key-get "secret" "encrypted_secret" put,
                        set-get "encrypted_secret" "encrypted_secret" (str sealed) v legacy l,
                      )
                      refl,
                  rw (remove_key-get "secret" "secret" put) refl,
                ),
                λ key a b.
                    rw
                      (
                        remove_key-get "secret" key put,
                        a,
                        set-get "encrypted_secret" key (str sealed) v legacy l,
                        b,
                      )
                      refl,
              )))
    ]
  ]
]

upgraded-at :
    (encrypt : String → Result String) (o : Option Value)
    → UpgradedAt encrypt o (map_option (upgrade_callback encrypt) o)
upgraded-at encrypt none = refl
upgraded-at encrypt (some v) =
    (upgrade_callback encrypt v, refl, upgrade_callback-Upgraded encrypt v)

-- Where there is a master key, the upgrade keeps every callback under its id: one with an encrypted
-- secret keeps that one and has none in the clear; one with a secret in the clear only has the
-- encryption of that secret instead, or stays as it was if the encryption fails; one without either
-- stays as it was; and no other key of a callback changes.
pub upgrade_legacy_callback_secrets_lem :
    (encrypt : String → Result String) (s : StoreInner) (id : String)
    → UpgradedAt encrypt
        (lookup id s.callbacks)
        (lookup id (upgrade_legacy_callback_secrets (some encrypt) s).callbacks)
unfolding upgrade_legacy_callback_secrets
upgrade_legacy_callback_secrets_lem encrypt s id =
    rw (lookup-map_values (upgrade_callback encrypt) id s.callbacks)
      (upgraded-at encrypt (lookup id s.callbacks))

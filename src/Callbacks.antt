-- ===== src/Callbacks.antt =====
-- src/state.rs: the callbacks of a company: `upsert_callback`, `delete_callback`, `list_callbacks`,
-- and `upgrade_legacy_callback_secrets`. Parameters: the encryption of a secret under the master key
-- (none where there is no key), the reading of a URL, and `ts`, the RFC 3339 text of a time.
pub mod Address
pub mod Tenancy
pub mod Secrets
use Prim.Native.String.{compare}
use text.Mathlib.Text.{is_le}
use rust_zap.Prelude.{
  ℕ, String, ◌<>◌, Bool, true, false, ◌&&◌, Option, none, some, List, [], ◌∷◌, ◌++◌, if◌then◌else◌,
  not, or_else, unwrap_or, and_then, map_option, is_some, retain, map,
}
use rust_zap.Dict.{Dict, ◌==◌, string_eq, values, map_values, lookup, insert, remove}
use rust_zap.Json.{
  Value, arr, str, boolean, pos_int, nil, cons, get, get_str, get_bool, get_u64, set,
  remove as remove_key, object, of_option,
}
use rust_zap.Error.{Result, ok, err, not_found, bad_request, ◌>>=◌}
use rust_zap.Models.{Time}
use rust_zap.Config.{AppConfig, WebhookConfig}
use rust_zap.Store.{StoreInner}
use rust_zap.Audit.{audit_log}
use rust_zap.Webhooks.{webhook_signal_enabled}
use rust_zap.Callbacks.Address.{Url, validate_callback_url}

-- `get(key).and_then(Value::as_str) == Some(text)`
abbrev pub has_text : Option String → String → Bool
has_text none text = false
has_text (some t) text = t == text

unfoldable pub callback_belongs_to_company : Value → String → String → Bool
callback_belongs_to_company callback project_id company_id =
    has_text (get_str "project_id" callback) project_id
    && has_text (get_str "company_id" callback) company_id

unfoldable pub sanitize_callback : Value → Value
sanitize_callback callback = remove_key "encrypted_secret" (remove_key "secret" callback)

-- `left["id"].as_str().cmp(&right["id"].as_str())` is not `Greater`.
unfoldable pub id_le : Option String → Option String → Bool
id_le none right = true
id_le (some left) none = false
id_le (some left) (some right) = is_le (compare left right)

insert_callback : Value → List Value → List Value
insert_callback callback [] = callback ∷ []
insert_callback callback (c ∷ r) =
    if id_le (get_str "id" callback) (get_str "id" c)
    then callback ∷ c ∷ r
    else c ∷ insert_callback callback r

-- `sort_by` is stable.
unfoldable pub sort_callbacks : List Value → List Value
unfolding insert_callback
sort_callbacks [] = []
sort_callbacks (c ∷ r) = insert_callback c (sort_callbacks r)

-- The callbacks of a company, without their secrets.
unfoldable pub list_callbacks : String → String → StoreInner → List Value
list_callbacks project_id company_id inner = sort_callbacks (
    map sanitize_callback (
      retain (λ callback. callback_belongs_to_company callback project_id company_id)
        (values inner.callbacks)))

abbrev pub Encryption : Type 0
Encryption = Option (String → Result String)

unfoldable pub encrypt_callback_secret : Encryption → String → Result String
encrypt_callback_secret none secret =
    err (bad_request "RUSTZAP_SECRET_MASTER_KEY is required to store webhook secrets")
encrypt_callback_secret (some encrypt) secret = encrypt secret

abbrev pub and_some : Result String → Result (Option String)
and_some r = r >>= λ t. ok (some t)

-- The secret to store, encrypted: the body's, the one that is stored, the stored one of old, or a
-- fresh one.
unfoldable pub choose_secret :
    AppConfig → Encryption → Value → Option Value → String → Result (Option String)
choose_secret config encryption body existing fresh = elim (get_str "secret" body) [
  | some secret ↦ and_some (encrypt_callback_secret encryption secret)
  | none ↦ elim (and_then existing (get_str "encrypted_secret")) [
    | some existing_secret ↦ ok (some existing_secret)
    | none ↦ elim (and_then existing (get_str "secret")) [
      | some legacy_secret ↦ and_some (encrypt_callback_secret encryption legacy_secret)
      | none ↦
          if is_some encryption
          then and_some (encrypt_callback_secret encryption ("whsec_" <> fresh))
          else if config.webhook.delivery_enabled && webhook_signal_enabled config
          then err
              (bad_request "RUSTZAP_SECRET_MASTER_KEY is required for webhook delivery secrets")
          else ok none
    ]
  ]
]

-- What a call draws: the clock and the ids of a callback, a secret and an audit entry.
pub record CallbackDraws : Type 0 where
  pub now : Time
  pub callback_id : String
  pub secret : String
  pub audit_id : String
  pub audit_now : Time

module _ (ts : Time → String) where
  unfoldable pub build_callback :
      AppConfig
      → (project_id company_id callback_id created_at callback_url : String) → Option String
      → Value
      → Time
      → Value
  build_callback config project_id company_id callback_id created_at callback_url secret body now =
      object (
        ("id", str callback_id)
        ∷ ("project_id", str project_id)
        ∷ ("company_id", str company_id)
        ∷ ("url", str callback_url)
        ∷ ("encrypted_secret", of_option secret)
        ∷ ("enabled", boolean (unwrap_or (get_bool "enabled" body) true))
        ∷ ("events", unwrap_or (get "events" body) (arr (cons (str "conversation.dirty") nil)))
        ∷ (
          "max_batch_size",
          pos_int (unwrap_or (get_u64 "max_batch_size" body) config.webhook.max_batch_size),
        )
        ∷ (
          "timeout_seconds",
          pos_int (unwrap_or (get_u64 "timeout_seconds" body) config.webhook.timeout_seconds),
        )
        ∷ ("created_at", str created_at)
        ∷ ("updated_at", str (ts now))
        ∷ [])

  -- What `upsert_callback` does once the secret is there.
  unfoldable pub store_callback :
      AppConfig
      → (project_id company_id callback_id callback_url : String) → Value
      → Option Value
      → CallbackDraws
      → StoreInner
      → Result (Option String)
      → Result Value × StoreInner
  store_callback config project_id company_id callback_id callback_url body existing draws inner
        (err e) =
      (err e, inner)
  store_callback config project_id company_id callback_id callback_url body existing draws inner
        (ok secret) =
      let created_at = unwrap_or (and_then existing (get_str "created_at")) (ts draws.now) in
      let callback =
        build_callback config project_id company_id callback_id created_at callback_url secret body
          draws.now in
      (
        ok (sanitize_callback callback),
        audit_log ts project_id company_id "callback.upsert" "consumer_callback"
            (get_str "id" callback)
            (object (("enabled", unwrap_or (get "enabled" callback) Value.null) ∷ []))
            draws.audit_id draws.audit_now
            (record inner { callbacks = insert callback_id callback inner.callbacks }),
      )

  unfoldable pub address_of : Value → Option Value → String
  address_of body existing =
      unwrap_or (or_else (get_str "url" body) (and_then existing (get_str "url")))
        "http://localhost:3000/webhook"

  unfoldable pub is_foreign : String → String → Option Value → Bool
  is_foreign project_id company_id none = false
  is_foreign project_id company_id (some callback) =
      not (callback_belongs_to_company callback project_id company_id)

  module _ (parse_url : String → Result Url) where
    unfoldable pub upsert_callback :
        AppConfig
        → Encryption
        → (project_id company_id : String) → Option String
        → Value
        → CallbackDraws
        → StoreInner
        → Result Value × StoreInner
    upsert_callback config encryption project_id company_id asked body draws inner =
        let callback_id = unwrap_or asked ("callback_" <> draws.callback_id) in
        let existing = lookup callback_id inner.callbacks in
        let callback_url = address_of body existing in
        if is_foreign project_id company_id existing
        then (err (not_found ("callback " <> (callback_id <> " not found"))), inner)
        else store_callback config project_id company_id callback_id callback_url body existing
            draws inner
            (validate_callback_url parse_url callback_url config.dev_mode >>= λ _.
              choose_secret config encryption body existing draws.secret)

  unfoldable pub delete_callback :
      (project_id company_id callback_id : String)
      → CallbackDraws
      → StoreInner
      → Result Value × StoreInner
  delete_callback project_id company_id callback_id draws inner =
      elim (lookup callback_id inner.callbacks) [
        | none ↦ (err (not_found ("callback " <> (callback_id <> " not found"))), inner)
        | some callback ↦
            if not (callback_belongs_to_company callback project_id company_id)
            then (err (not_found ("callback " <> (callback_id <> " not found"))), inner)
            else (
              ok (
                  object
                    (("deleted", boolean true) ∷ ("callback", sanitize_callback callback) ∷ [])),
              audit_log ts project_id company_id "callback.delete" "consumer_callback"
                  (some callback_id) (object (("deleted", boolean true) ∷ [])) draws.audit_id
                  draws.audit_now (record inner { callbacks = remove callback_id inner.callbacks }),
            )
      ]

-- One round of the loop of `upgrade_legacy_callback_secrets`.
unfoldable pub upgrade_callback : (String → Result String) → Value → Value
upgrade_callback encrypt callback = elim (get_str "encrypted_secret" callback) [
  | some _ ↦ remove_key "secret" callback
  | none ↦ elim (get_str "secret" callback) [
    | none ↦ callback
    | some legacy_secret ↦ elim (encrypt legacy_secret) [
      | err e ↦ callback
      | ok encrypted_secret ↦
          remove_key "secret" (set "encrypted_secret" (str encrypted_secret) callback)
    ]
  ]
]

unfoldable pub upgrade_legacy_callback_secrets : Encryption → StoreInner → StoreInner
upgrade_legacy_callback_secrets none inner = inner
upgrade_legacy_callback_secrets (some encrypt) inner = record inner {
  callbacks = map_values (upgrade_callback encrypt) inner.callbacks;
}

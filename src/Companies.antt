-- ===== src/Companies.antt =====
-- src/state.rs: projects, companies and the metadata of API keys. `ts` is the RFC 3339 text of a time.
use rust_zap.Prelude.{ℕ, String, Bool, true, false, Option, List, [], ◌∷◌, unwrap_or}
use rust_zap.Dict.{string_eq, pair_eq, lookup, insert}
use rust_zap.Json.{Value, Items, nil, cons, null, boolean, pos_int, str, object, of_option}
use rust_zap.Models.{Time}
use rust_zap.Store.{StoreInner}
use rust_zap.Retention.{company_privacy_policy}

abbrev pub texts : List String → Items
texts [] = nil
texts (t ∷ r) = cons (str t) (texts r)

module _ (ts : Time → String) where
  unfoldable pub upsert_project : (id name : String) → Time → StoreInner → Value × StoreInner
  upsert_project id name now inner =
      let project = object (
        ("id", str id)
        ∷ ("name", str name)
        ∷ ("status", str "active")
        ∷ ("created_at", str (ts now))
        ∷ ("updated_at", str (ts now))
        ∷ []) in
      (project, record inner { projects = insert id project inner.projects })

  unfoldable pub upsert_company :
      (media_temp_retention_days : ℕ)
      → (project_id company_id name : String) → Time
      → StoreInner
      → Value × StoreInner
  upsert_company media_temp_retention_days project_id company_id name now inner =
      let company = object (
        ("id", str company_id)
        ∷ ("project_id", str project_id)
        ∷ ("name", str name)
        ∷ ("status", str "active")
        ∷ ("created_at", str (ts now))
        ∷ ("updated_at", str (ts now))
        ∷ (
          "privacy",
          object (
              ("message_retention_days", pos_int 365)
              ∷ ("media_temp_retention_days", pos_int media_temp_retention_days)
              ∷ ("media_permanent_retention_policy", str "manual")
              ∷ ("transcript_retention_days", pos_int 365)
              ∷ ("allow_message_text_in_logs", boolean false)
              ∷ ("allow_transcript_storage", boolean true)
              ∷ []),
        )
        ∷ []) in
      (
        company,
        record inner { companies = insert (project_id, company_id) company inner.companies },
      )

  unfoldable pub store_api_key_metadata :
      (project_id : String)
      → (company_id : Option String) → (key_id key_hash : String) → (scopes : List String)
      → (name : String) → Time
      → StoreInner
      → Value × StoreInner
  store_api_key_metadata project_id company_id key_id key_hash scopes name now inner =
      let metadata = object (
        ("id", str key_id)
        ∷ ("project_id", str project_id)
        ∷ ("company_id", of_option company_id)
        ∷ ("name", str name)
        ∷ ("key_hash", str key_hash)
        ∷ ("scopes", Value.arr (texts scopes))
        ∷ ("status", str "active")
        ∷ ("created_at", str (ts now))
        ∷ ("revoked_at", null)
        ∷ []) in
      (metadata, record inner { api_keys = insert key_id metadata inner.api_keys })

unfoldable pub company : (project_id company_id : String) → StoreInner → Value
company project_id company_id inner = unwrap_or (lookup (project_id, company_id) inner.companies) (
    object (
      ("id", str company_id)
      ∷ ("project_id", str project_id)
      ∷ ("name", str "Development Company")
      ∷ ("status", str "active")
      ∷ []))

unfoldable pub company_allows_transcript_storage :
    (project_id company_id : String) → StoreInner → Bool
company_allows_transcript_storage project_id company_id inner =
    (company_privacy_policy (company project_id company_id inner)).allow_transcript_storage

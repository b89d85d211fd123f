-- ===== src/Audit.antt =====
-- src/state.rs: `audit_log`, the entries that sensitive operations leave. `ts` is the RFC 3339 text of
-- a time.
use rust_zap.Prelude.{String, ◌<>◌, Option, [], ◌∷◌, ◌++◌}
use rust_zap.Json.{Value, str, of_option, object}
use rust_zap.Models.{Time}
use rust_zap.Store.{StoreInner}

module _ (ts : Time → String) where
  unfoldable pub audit_log :
      (project_id company_id action resource_type : String)
      → Option String
      → Value
      → (audit_id : String) → Time
      → StoreInner
      → StoreInner
  audit_log project_id company_id action resource_type resource_id response audit_id now inner =
      record inner {
        audit_logs =
            inner.audit_logs
            ++ object (
                ("id", str ("audit_" <> audit_id))
                ∷ ("project_id", str project_id)
                ∷ ("company_id", str company_id)
                ∷ ("actor_type", str "api_key")
                ∷ ("action", str action)
                ∷ ("resource_type", str resource_type)
                ∷ ("resource_id", of_option resource_id)
                ∷ ("response_json", response)
                ∷ ("created_at", str (ts now))
                ∷ [])
              ∷ [];
      }

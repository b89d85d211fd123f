-- ===== src/Tests/Callbacks.antt =====
-- The theorems on callbacks at concrete states.
use rust_zap.Prelude.{String, some, [], ◌∷◌}
use rust_zap.Dict.{lookup, string_eq}
use rust_zap.Error.{Result, ok}
use rust_zap.Json.{Value, object, str}
use rust_zap.Store.{StoreInner}
use rust_zap.Models.{Time}
use rust_zap.Callbacks.{
  CallbackDraws, upsert_callback, delete_callback, upgrade_legacy_callback_secrets,
}
use rust_zap.Callbacks.Address.{Url, IpAddr}
use rust_zap.Callbacks.Secrets.{UpgradedAt, upgrade_legacy_callback_secrets_lem}
use rust_zap.Callbacks.Tenancy.{
  Upserted, Deleted, upsert_callback-Upserted, delete_callback-Deleted,
}
use rust_zap.Tests.Fixtures.{config, with_callback, seal}

abbrev no_time : Time → String
no_time t = "2026-01-01T00:00:00Z"

-- What a URL reader gives for an address on the Internet.
abbrev example_url : Url
example_url = record {
  scheme = "https";
  host = some "203.0.113.7";
  ip = some (IpAddr.v4 203 0 113 7);
}

abbrev read_url : String → Result Url
read_url url = ok example_url

abbrev draws : CallbackDraws
draws = record { now = 1000; callback_id = "1"; secret = "2"; audit_id = "3"; audit_now = 1001 }

-- A callback of old, with its secret in the clear.
abbrev old_callback : Value
old_callback = object (
    ("id", str "old")
    ∷ ("project_id", str "p")
    ∷ ("company_id", str "c")
    ∷ ("secret", str "whsec_0")
    ∷ [])

abbrev with_old : StoreInner
with_old = record with_callback { callbacks = ("old", old_callback) ∷ with_callback.callbacks }

upgrade_legacy_callback_secrets_lem_example :
    UpgradedAt seal
      (lookup "old" with_old.callbacks)
      (lookup "old" (upgrade_legacy_callback_secrets (some seal) with_old).callbacks)
upgrade_legacy_callback_secrets_lem_example =
    upgrade_legacy_callback_secrets_lem seal with_old "old"

abbrev body : Value
body = object (("url", str "https://203.0.113.7/hook") ∷ ("secret", str "whsec_1") ∷ [])

upsert_callback-Upserted_example :
    Upserted no_time "p" "c" (some seal) "cb" body "2" with_callback (
      upsert_callback no_time read_url config
        (some seal)
        "p"
        "c"
        (some "cb")
        body
        draws
        with_callback)
upsert_callback-Upserted_example =
    upsert_callback-Upserted no_time "p" "c" read_url config (some seal) (some "cb") body draws
      with_callback

delete_callback-Deleted_example :
    Deleted no_time "p" "c" "cb" with_callback
      (delete_callback no_time "p" "c" "cb" draws with_callback)
delete_callback-Deleted_example = delete_callback-Deleted no_time "p" "c" "cb" draws with_callback

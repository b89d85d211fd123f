-- ===== src/Tests/Webhooks.antt =====
-- The theorems on webhooks at concrete states.
use rust_zap.Prelude.{ℕ, ◌≡◌, String, none, All, map_option, if◌then◌else◌}
use rust_zap.Error.{Result, ok}
use rust_zap.Json.{get}
use rust_zap.Models.{CommonEvent}
use rust_zap.Webhooks.{pending_webhook_jobs, deliver_pending_webhooks_once, Response, AttemptDraws}
use rust_zap.Webhooks.Jobs.{IsDueJob, pending_webhook_jobs_lem}
use rust_zap.Webhooks.Rounds.{IsBounded, deliver_pending_webhooks_once-IsBounded}
use rust_zap.Webhooks.Payload.{compact_payload, IsCompact, is_bulky, compact_payload-IsCompact}
use rust_zap.Tests.Fixtures.{config, event, with_callback, seal}

pending_webhook_jobs_lem_example :
    All (IsDueJob config with_callback) (pending_webhook_jobs config 1000 with_callback)
pending_webhook_jobs_lem_example = pending_webhook_jobs_lem config 1000 with_callback

-- A callback that answers with an error.
abbrev refuses : ℕ → String → String → CommonEvent → Result Response
refuses timeout url secret sent = ok (Response.answered 500 "500 Internal Server Error")

abbrev draws : ℕ → AttemptDraws
draws n = record { id = "attempt_1"; retry_now = 1001; now = 1002 }

deliver_pending_webhooks_once-IsBounded_example :
    IsBounded config (deliver_pending_webhooks_once seal refuses config 1000 draws with_callback).1
deliver_pending_webhooks_once-IsBounded_example =
    deliver_pending_webhooks_once-IsBounded seal refuses config 1000 draws with_callback tt

compact_payload-IsCompact_example :
    IsCompact (compact_payload event.payload)
    × (compact_payload (compact_payload event.payload) ≡ compact_payload event.payload)
    × (get "size" (compact_payload event.payload)
        ≡ (if is_bulky "size" then none else map_option compact_payload (get "size" event.payload)))
compact_payload-IsCompact_example = compact_payload-IsCompact event.payload "size"

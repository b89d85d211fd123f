-- ===== src/Webhooks.antt =====
-- src/state.rs: the delivery of events to callbacks: which are due (`pending_webhook_jobs`), one
-- attempt (`deliver_webhook_job`), its record, and when to try again. The HTTP exchange, with the
-- signing of the body, and the decryption of a secret are parameters.
pub mod Payload
pub mod Jobs
pub mod Rounds
use rust_zap.Prelude.{
  ℕ, ◌+◌, ◌-◌, ◌*◌, ◌^◌, String, ◌<>◌, Bool, true, false, ◌&&◌, ◌||◌, Option, none, some, List, [],
  ◌∷◌, ◌++◌, if◌then◌else◌, not, min, max, ltb, leb, any, retain, or_else, unwrap_or, and_then,
  then_some, is_none_or, is_some_and, filter_map, flat_map,
}
use rust_zap.Dict.{◌==◌, string_eq, values}
use rust_zap.Json.{Value, Items, nil, cons, get, get_str, get_bool, get_u64, as_str, as_array}
use rust_zap.Error.{Result, ok, err, bad_request, internal, ◌>>=◌}
use rust_zap.Models.{Time, seconds, CommonEvent, WebhookDeliveryAttempt}
use rust_zap.Config.{AppConfig, WebhookConfig, ConsumerSignalMode}
use rust_zap.Store.{StoreInner}

abbrev pub is_webhook_mode : ConsumerSignalMode → Bool
is_webhook_mode ConsumerSignalMode.webhook = true
is_webhook_mode ConsumerSignalMode.webhook_and_polling = true
is_webhook_mode other = false

abbrev pub webhook_signal_enabled : AppConfig → Bool
webhook_signal_enabled config = is_webhook_mode config.consumer_signal_mode

abbrev pub any_item : (Value → Bool) → Items → Bool
any_item p nil = false
any_item p (cons v r) = p v || any_item p r

-- A callback without a list of events takes them all.
unfoldable pub callback_subscribes_to_event : Value → String → Bool
callback_subscribes_to_event callback event_type =
    is_none_or (and_then (get "events" callback) as_array)
      (any_item (λ event. is_some_and (as_str event) (λ name. name == "*" || name == event_type)))

pub record WebhookDeliveryJob : Type 0 where
  pub callback : Value
  pub event : CommonEvent
  pub attempt : ℕ
  pub first_failed_at : Option Time

-- `callback[key].as_str().unwrap_or_default()`
abbrev pub text_at : String → Value → String
text_at key callback = unwrap_or (get_str key callback) ""

-- The attempts that a callback has had at an event.
abbrev pub is_attempt_of : String → String → WebhookDeliveryAttempt → Bool
is_attempt_of callback_id event_id attempt =
    attempt.callback_id == callback_id && attempt.event_id == event_id

-- `max_by_key`, which gives the last of several greatest.
abbrev pub latest_from :
    WebhookDeliveryAttempt → List WebhookDeliveryAttempt → WebhookDeliveryAttempt
latest_from best [] = best
latest_from best (a ∷ r) = latest_from (if leb best.attempt a.attempt then a else best) r

abbrev pub latest : List WebhookDeliveryAttempt → Option WebhookDeliveryAttempt
latest [] = none
latest (a ∷ r) = some (latest_from a r)

abbrev pub is_success : WebhookDeliveryAttempt → Bool
is_success attempt = attempt.status == "success"

-- `saturating_add(1)` on a `u32`
abbrev pub next_attempt : ℕ → ℕ
next_attempt n = min (n + 1) 4294967295

-- The job that follows the last attempt, unless the attempts are used up or it is too early.
unfoldable pub retry_job :
    AppConfig → Time → Value → CommonEvent → WebhookDeliveryAttempt → Option WebhookDeliveryJob
retry_job config now callback event last_attempt =
    if leb config.webhook.max_retries last_attempt.attempt
    then none
    else if is_some_and last_attempt.next_retry_at (λ next_retry_at. ltb now next_retry_at)
    then none
    else some (record {
      callback = callback;
      event = event;
      attempt = next_attempt last_attempt.attempt;
      first_failed_at = or_else last_attempt.first_failed_at (some last_attempt.created_at);
    })

unfoldable pub job_after :
    AppConfig → Time → Value → CommonEvent → List WebhookDeliveryAttempt → Option WebhookDeliveryJob
job_after config now callback event attempts =
    if any is_success attempts then none else elim (latest attempts) [
      | none ↦
          some (record { callback = callback; event = event; attempt = 1; first_failed_at = none })
      | some last_attempt ↦ retry_job config now callback event last_attempt
    ]

-- The body of the inner loop.
unfoldable pub job_for :
    AppConfig → Time → List WebhookDeliveryAttempt → Value → CommonEvent → Option WebhookDeliveryJob
job_for config now attempts callback event =
    if not (
      event.project_id == text_at "project_id" callback
      && event.company_id == text_at "company_id" callback)
    then none
    else if not (callback_subscribes_to_event callback event.event_type)
    then none
    else job_after config now callback event
        (retain (is_attempt_of (text_at "id" callback) event.event_id) attempts)

unfoldable pub jobs_of_callback : AppConfig → Time → StoreInner → Value → List WebhookDeliveryJob
jobs_of_callback config now inner callback =
    if is_some_and (get_bool "enabled" callback) (λ b. b)
    then filter_map (job_for config now inner.webhook_delivery_attempts callback) inner.events
    else []

unfoldable pub pending_webhook_jobs : AppConfig → Time → StoreInner → List WebhookDeliveryJob
pending_webhook_jobs config now inner =
    flat_map (jobs_of_callback config now inner) (values inner.callbacks)

-- The delay doubles with each attempt, in `u64`s that stop at the greatest, up to a limit.
unfoldable pub retry_delay : ℕ → ℕ → ℕ → ℕ
retry_delay attempt retry_base_seconds retry_max_seconds =
    let exponent = min (attempt - 1) 16 in
    let delay =
      min (min (retry_base_seconds * 2 ^ exponent) 18446744073709551615)
        (max retry_max_seconds 1) in
    min delay 9223372036854775807

unfoldable pub next_webhook_retry_at : ℕ → ℕ → ℕ → Time → Time
unfolding retry_delay
next_webhook_retry_at attempt retry_base_seconds retry_max_seconds now =
    now + seconds (retry_delay attempt retry_base_seconds retry_max_seconds)

-- What came of one exchange: an HTTP status with its text, or a failure.
pub data Response : Type 0 where
  answered : ℕ → String → Response
  failed : String → Response

pub record WebhookAttemptInput : Type 0 where
  pub callback_id : String
  pub event : CommonEvent
  pub attempt : ℕ
  pub status : String
  pub http_status : Option ℕ
  pub error_message : Option String
  pub first_failed_at : Option Time
  pub next_retry_at : Option Time

-- What an attempt draws: its id, and the clock when the retry is set and when it is recorded.
pub record AttemptDraws : Type 0 where
  pub id : String
  pub retry_now : Time
  pub now : Time

unfoldable pub record_webhook_attempt : WebhookAttemptInput → AttemptDraws → StoreInner → StoreInner
record_webhook_attempt input draws inner =
    let is_failed = input.status == "failed" in
    record inner {
      webhook_delivery_attempts =
          inner.webhook_delivery_attempts
          ++ record {
            id = draws.id;
            project_id = input.event.project_id;
            company_id = input.event.company_id;
            callback_id = input.callback_id;
            event_id = input.event.event_id;
            attempt = input.attempt;
            status = input.status;
            http_status = input.http_status;
            error_message = input.error_message;
            first_failed_at =
                if is_failed then or_else input.first_failed_at (some draws.now) else none;
            last_failed_at = then_some is_failed draws.now;
            next_retry_at = input.next_retry_at;
            created_at = draws.now;
          }
            ∷ [];
    }

-- `StatusCode::is_success`
abbrev pub is_success_status : ℕ → Bool
is_success_status status = leb 200 status && ltb status 300

-- The three arms of the `match` on the response.
unfoldable pub outcome_of :
    AppConfig → String → WebhookDeliveryJob → Time → Response → WebhookAttemptInput
outcome_of config callback_id job now response =
    let retry_at = some (
      next_webhook_retry_at job.attempt config.webhook.retry_base_seconds
        config.webhook.retry_max_seconds now) in
    let base : Option ℕ → Option String → WebhookAttemptInput = λ http_status error_message.
      record {
        callback_id = callback_id;
        event = job.event;
        attempt = job.attempt;
        status = "failed";
        http_status = http_status;
        error_message = error_message;
        first_failed_at = job.first_failed_at;
        next_retry_at = retry_at;
      } in
    elim response [
      | answered status text ↦
          if is_success_status status
          then record {
            callback_id = callback_id;
            event = job.event;
            attempt = job.attempt;
            status = "success";
            http_status = some status;
            error_message = none;
            first_failed_at = none;
            next_retry_at = none;
          }
          else base (some status) (some ("webhook returned " <> text))
      | failed text ↦ base none (some text)
    ]

-- `?` in a loop
abbrev pub and_go_on :
    Result (Unit {0}) × StoreInner → (StoreInner → Result ℕ × StoreInner) → Result ℕ × StoreInner
and_go_on (err e, after) next = (err e, after)
and_go_on (ok done, after) next = next after

module _ (decrypt_callback_secret : String → Result String)
    -- the timeout in seconds, the address, the secret and the event; fails before it is sent
    (exchange : ℕ → String → String → CommonEvent → Result Response) where
  -- What `deliver_webhook_job` does up to the response.
  unfoldable pub attempt_job : AppConfig → WebhookDeliveryJob → Result Response
  attempt_job config job = elim (get_str "url" job.callback) [
    | none ↦ err (bad_request "callback url is required")
    | some url ↦ elim (get_str "encrypted_secret" job.callback) [
      | none ↦
          err (
            internal ("callback " <> (text_at "id" job.callback <> " is missing encrypted_secret")))
      | some encrypted_secret ↦ decrypt_callback_secret encrypted_secret >>= λ secret.
          let timeout_seconds =
            unwrap_or (get_u64 "timeout_seconds" job.callback) config.webhook.timeout_seconds in
          exchange (max timeout_seconds 1) url secret job.event
    ]
  ]

  unfoldable pub settle_job :
      AppConfig
      → WebhookDeliveryJob
      → AttemptDraws
      → StoreInner
      → Result Response
      → Result (Unit {0}) × StoreInner
  settle_job config job draws inner (err e) = (err e, inner)
  settle_job config job draws inner (ok response) = (
    ok tt,
    record_webhook_attempt
        (outcome_of config (text_at "id" job.callback) job draws.retry_now response) draws inner,
  )

  unfoldable pub deliver_webhook_job :
      AppConfig → WebhookDeliveryJob → AttemptDraws → StoreInner → Result (Unit {0}) × StoreInner
  deliver_webhook_job config job draws inner =
      settle_job config job draws inner (attempt_job config job)

  -- The loop stops at the first job that cannot be attempted.
  unfoldable pub deliver_jobs :
      AppConfig
      → (ℕ → AttemptDraws)
      → ℕ
      → List WebhookDeliveryJob
      → StoreInner
      → Result ℕ × StoreInner
  deliver_jobs config draws delivered [] inner = (ok delivered, inner)
  deliver_jobs config draws delivered (job ∷ jobs) inner =
      and_go_on (deliver_webhook_job config job (draws delivered) inner)
        (λ after. deliver_jobs config draws (delivered + 1) jobs after)

  unfoldable pub deliver_pending_webhooks_once :
      AppConfig → Time → (ℕ → AttemptDraws) → StoreInner → Result ℕ × StoreInner
  deliver_pending_webhooks_once config now draws inner =
      if not (config.webhook.delivery_enabled && webhook_signal_enabled config)
      then (ok 0, inner)
      else deliver_jobs config draws 0 (pending_webhook_jobs config now inner) inner

-- ===== src/Webhooks/Jobs.antt =====
-- src/state.rs: the deliveries that `pending_webhook_jobs` finds due.
use rust_zap.Prelude.{
  ◌≤◌, ◌≡◌, refl, ◌∙◌, sym, Bool, true, false, ◌&&◌, none, some, is_some_and, List, [], ◌∷◌, arith,
  inl, inr, Bool-cases, max, any, retain, All, All-filter_map, All-flat_map,
}
use text.Mathlib.TextEquality.{eq_iff}
use rust_zap.Dict.{◌==◌, string_eq, values}
use rust_zap.Json.{Value, get_bool}
use rust_zap.Models.{Time, CommonEvent, WebhookDeliveryAttempt}
use rust_zap.Config.{AppConfig}
use rust_zap.Store.{StoreInner}
use rust_zap.Webhooks.{
  WebhookDeliveryJob, text_at, callback_subscribes_to_event, is_attempt_of, is_success, retry_job,
  job_after, job_for, jobs_of_callback, pending_webhook_jobs, latest_from,
}

-- A job is for an event of the callback's own company that the callback takes; no attempt at it
-- has succeeded; and its number is from 1 up to the greatest number of tries.
abbrev pub IsDueJob : AppConfig → StoreInner → WebhookDeliveryJob → Type 0
IsDueJob config s job =
    (job.event.project_id ≡ text_at "project_id" job.callback)
    × (job.event.company_id ≡ text_at "company_id" job.callback)
    × (callback_subscribes_to_event job.callback job.event.event_type ≡ true)
    × (any (λ a. is_attempt_of (text_at "id" job.callback) job.event.event_id a && is_success a)
          s.webhook_delivery_attempts
        ≡ false)
    × (1 ≤ job.attempt)
    × (job.attempt ≤ max 1 config.webhook.max_retries)

any-retain :
    (p q : WebhookDeliveryAttempt → Bool) (r : List WebhookDeliveryAttempt)
    → any p (retain q r) ≡ any (λ a. q a && p a) r
any-retain p q [] = refl
any-retain p q (a ∷ r) = ground (arith, any-retain p q r)

retry_job_lem :
    (config : AppConfig) (now : Time) (callback : Value) (event : CommonEvent)
    (last : WebhookDeliveryAttempt) {job : WebhookDeliveryJob}
    → retry_job config now callback event last ≡ some job
    → (job.callback ≡ callback)
      × (job.event ≡ event)
      × (1 ≤ job.attempt)
      × (job.attempt ≤ max 1 config.webhook.max_retries)
unfolding retry_job
retry_job_lem config now callback event last h = ground arith

job_after_lem :
    (config : AppConfig) (now : Time) (callback : Value) (event : CommonEvent)
    (attempts : List WebhookDeliveryAttempt) {job : WebhookDeliveryJob}
    → job_after config now callback event attempts ≡ some job
    → (job.callback ≡ callback)
      × (job.event ≡ event)
      × (any is_success attempts ≡ false)
      × (1 ≤ job.attempt)
      × (job.attempt ≤ max 1 config.webhook.max_retries)
unfolding job_after
job_after_lem config now callback event [] h = ground arith
job_after_lem config now callback event (a ∷ r) {job} h =
    elim (Bool-cases (any is_success (a ∷ r))) [
      | inl won ↦
          let none_left : job_after config now callback event (a ∷ r) ≡ none =
            rw (won, job_after) refl in
          absurd (cc (none_left, h))
      | inr unmet ↦
          let again : job_after config now callback event (a ∷ r)
              ≡ retry_job config now callback event (latest_from a r) =
            rw (unmet, job_after) refl in
          let (c, e, low, high) =
            retry_job_lem config now callback event (latest_from a r) (sym again ∙ h) in
          (c, e, unmet, low, high)
    ]

job_for_lem :
    (config : AppConfig) (now : Time) (s : StoreInner) (callback : Value) (event : CommonEvent)
    (job : WebhookDeliveryJob)
    → job_for config now s.webhook_delivery_attempts callback event ≡ some job
    → IsDueJob config s job
unfolding job_for
job_for_lem config now s callback event job h =
    let tenant =
      event.project_id == text_at "project_id" callback
      && event.company_id == text_at "company_id" callback in
    let attempts =
      retain (is_attempt_of (text_at "id" callback) event.event_id) s.webhook_delivery_attempts in
    elim (Bool-cases tenant) [
      | inr foreign ↦
          let no_job : job_for config now s.webhook_delivery_attempts callback event ≡ none =
            rw (foreign, job_for) refl in
          absurd (cc (no_job, h))
      | inl own ↦ elim (Bool-cases (callback_subscribes_to_event callback event.event_type)) [
        | inr deaf ↦
            let no_job : job_for config now s.webhook_delivery_attempts callback event ≡ none =
              rw (own, job_for) (rw deaf refl) in
            absurd (cc (no_job, h))
        | inl takes ↦
            let that : job_for config now s.webhook_delivery_attempts callback event
                ≡ job_after config now callback event attempts =
              rw (own, job_for) (rw takes refl) in
            let (c, e, unmet, low, high) =
              job_after_lem config now callback event attempts (sym that ∙ h) in
            rw (c, e)
              (
                ground (arith, eq_iff event.project_id (text_at "project_id" callback)),
                ground (arith, eq_iff event.company_id (text_at "company_id" callback)),
                takes,
                sym (
                      any-retain is_success (is_attempt_of (text_at "id" callback) event.event_id)
                        s.webhook_delivery_attempts)
                    ∙ unmet,
                low,
                high,
              )
      ]
    ]

jobs_of_callback_lem :
    (config : AppConfig) (now : Time) (s : StoreInner) (callback : Value)
    → All (IsDueJob config s) (jobs_of_callback config now s callback)
unfolding jobs_of_callback
jobs_of_callback_lem config now s callback =
    elim (Bool-cases (is_some_and (get_bool "enabled" callback) (λ b. b))) [
      | inr off ↦ rw (off, jobs_of_callback) tt
      | inl on ↦
          rw (on, jobs_of_callback)
            (All-filter_map (IsDueJob config s)
              (job_for config now s.webhook_delivery_attempts callback)
              (job_for_lem config now s callback) s.events)
    ]

-- Every pending delivery is due: its event is of the callback's own company and one that the
-- callback takes, no attempt of the callback at the event has succeeded, and its number is from 1
-- up to the greatest number of tries, or 1 if that is 0.
pub pending_webhook_jobs_lem :
    (config : AppConfig) (now : Time) (s : StoreInner)
    → All (IsDueJob config s) (pending_webhook_jobs config now s)
unfolding pending_webhook_jobs
pending_webhook_jobs_lem config now s =
    All-flat_map (IsDueJob config s) (jobs_of_callback config now s)
      (jobs_of_callback_lem config now s) (values s.callbacks)

-- ===== src/Webhooks/Rounds.antt =====
-- src/state.rs: a round of `deliver_pending_webhooks_once`.
use rust_zap.Prelude.{
  ℕ, ◌+◌, ◌≤◌, ◌≡◌, refl, String, ◌&&◌, List, [], ◌∷◌, inl, inr, Bool-cases, max, All, All-append,
}
use rust_zap.Error.{Result, ok, err}
use rust_zap.Models.{Time, CommonEvent}
use rust_zap.Config.{AppConfig}
use rust_zap.Store.{StoreInner}
use rust_zap.Webhooks.{
  WebhookDeliveryJob, Response, AttemptDraws, record_webhook_attempt, outcome_of, is_success_status,
  settle_job, attempt_job, deliver_webhook_job, deliver_jobs, deliver_pending_webhooks_once,
  pending_webhook_jobs, webhook_signal_enabled, text_at, and_go_on,
}
use rust_zap.Webhooks.Jobs.{IsDueJob, pending_webhook_jobs_lem}

-- No recorded attempt is numbered past the greatest number of tries, or 1 if that is 0.
abbrev pub IsBounded : AppConfig → StoreInner → Type 0
IsBounded config s =
    All (λ a. (1 ≤ a.attempt) × (a.attempt ≤ max 1 config.webhook.max_retries))
      s.webhook_delivery_attempts

outcome_of-attempt :
    (config : AppConfig) (id : String) (job : WebhookDeliveryJob) (now : Time) (response : Response)
    → (outcome_of config id job now response).attempt ≡ job.attempt
unfolding outcome_of
outcome_of-attempt config id job now (Response.answered status text) =
    elim (Bool-cases (is_success_status status)) [
      | inl good ↦ rw (good, outcome_of) refl
      | inr bad ↦ rw (bad, outcome_of) refl
    ]
outcome_of-attempt config id job now (Response.failed text) = refl

module _ (decrypt : String → Result String)
    (exchange : ℕ → String → String → CommonEvent → Result Response) (config : AppConfig) where
  abbrev Numbers : WebhookDeliveryJob → Type 0
  Numbers job = (1 ≤ job.attempt) × (job.attempt ≤ max 1 config.webhook.max_retries)

  settle_job-IsBounded :
      (job : WebhookDeliveryJob) (draws : AttemptDraws) (s : StoreInner)
      (response : Result Response)
      → Numbers job
      → IsBounded config s
      → IsBounded config (settle_job decrypt exchange config job draws s response).1
  unfolding settle_job record_webhook_attempt
  settle_job-IsBounded job draws s (err e) n h = h
  settle_job-IsBounded job draws s (ok response) n h =
      All-append (λ a. (1 ≤ a.attempt) × (a.attempt ≤ max 1 config.webhook.max_retries))
        s.webhook_delivery_attempts _ h
        (
          rw (outcome_of-attempt config (text_at "id" job.callback) job draws.retry_now response) n,
          tt,
        )

  deliver_jobs-IsBounded :
      (draws : ℕ → AttemptDraws) (n : ℕ) (jobs : List WebhookDeliveryJob) (s : StoreInner)
      → All Numbers jobs
      → IsBounded config s
      → IsBounded config (deliver_jobs decrypt exchange config draws n jobs s).1
  unfolding deliver_jobs deliver_webhook_job
  deliver_jobs-IsBounded draws n [] s k h = h
  deliver_jobs-IsBounded draws n (job ∷ jobs) s k h =
      let once =
        settle_job-IsBounded job (draws n) s (attempt_job decrypt exchange config job) k.0 h in
      step (deliver_webhook_job decrypt exchange config job (draws n) s) once
        (λ t b. deliver_jobs-IsBounded draws (n + 1) jobs t k.1 b)
    where
      step :
          (out : Result (Unit {0}) × StoreInner)
          → IsBounded config out.1
          → ((t : StoreInner)
              → IsBounded config t
              → IsBounded config (deliver_jobs decrypt exchange config draws (n + 1) jobs t).1)
          → IsBounded config
              (and_go_on out (λ t. deliver_jobs decrypt exchange config draws (n + 1) jobs t)).1
      step (err e, t) b later = b
      step (ok done, t) b later = later t b

  numbers :
      (s : StoreInner) (jobs : List WebhookDeliveryJob)
      → All (IsDueJob config s) jobs
      → All Numbers jobs
  numbers s [] h = tt
  numbers s (job ∷ jobs) h =
      let (p, c, takes, fresh, low, high) = h.0 in ((low, high), numbers s jobs h.1)

  -- A round of deliveries keeps every attempt that is on record, and those that it adds, numbered
  -- from 1 up to the greatest number of tries, or 1 if that is 0, whatever the callbacks answer and
  -- wherever the round stops.
  pub deliver_pending_webhooks_once-IsBounded :
      (now : Time) (draws : ℕ → AttemptDraws) (s : StoreInner)
      → IsBounded config s
      → IsBounded config (deliver_pending_webhooks_once decrypt exchange config now draws s).1
  unfolding deliver_pending_webhooks_once
  deliver_pending_webhooks_once-IsBounded now draws s h =
      elim (Bool-cases (config.webhook.delivery_enabled && webhook_signal_enabled config)) [
        | inr off ↦ rw (off, deliver_pending_webhooks_once) h
        | inl on ↦
            rw (on, deliver_pending_webhooks_once)
              (deliver_jobs-IsBounded draws 0 (pending_webhook_jobs config now s) s
                (numbers s (pending_webhook_jobs config now s)
                  (pending_webhook_jobs_lem config now s))
                h)
      ]

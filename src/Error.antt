-- ===== src/Error.antt =====
-- src/error.rs: the errors of the API, and `ApiResult`.
use rust_zap.Prelude.{◌⊎◌, inl, inr, ◌≡◌, refl, ℕ, String}

pub data ApiError : Type 0 where
  bad_request unauthorized forbidden not_found conflict idempotency_conflict : String → ApiError
  not_supported rate_limited payload_too_large provider_error internal : String → ApiError

unfoldable pub status_code : ApiError → ℕ
status_code (bad_request _) = 400
status_code (unauthorized _) = 401
status_code (forbidden _) = 403
status_code (not_found _) = 404
status_code (conflict _) = 409
status_code (idempotency_conflict _) = 409
status_code (not_supported _) = 501
status_code (rate_limited _) = 429
status_code (payload_too_large _) = 413
status_code (provider_error _) = 502
status_code (internal _) = 500

unfoldable pub code : ApiError → String
code (bad_request _) = "bad_request"
code (unauthorized _) = "unauthorized"
code (forbidden _) = "forbidden"
code (not_found _) = "not_found"
code (conflict _) = "conflict"
code (idempotency_conflict _) = "idempotency_conflict"
code (not_supported _) = "not_supported"
code (rate_limited _) = "rate_limited"
code (payload_too_large _) = "payload_too_large"
code (provider_error _) = "provider_error"
code (internal _) = "internal_error"

pub data Result {ℓ} (T : Type ℓ) : Type ℓ where
  ok : T → Result T
  err : ApiError → Result T

-- `?`
infixl 5 ◌>>=◌ ◌>>◌
abbrev pub ◌>>=◌ {ℓ κ} : {T : Type ℓ} {U : Type κ} → Result T → (T → Result U) → Result U
err failure >>= next = err failure
ok value >>= next = next value

abbrev pub ◌>>◌ {ℓ} : {U : Type ℓ} → Result (Unit {0}) → Result U → Result U
err failure >> next = err failure
ok done >> next = next

pub Result-cases :
    {T : Type 0} (r : Result T)
    → ((failure : ApiError) × (r ≡ err failure)) ⊎ ((value : T) × (r ≡ ok value))
Result-cases (err failure) = inl (failure, refl)
Result-cases (ok value) = inr (value, refl)

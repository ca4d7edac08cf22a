-- ===== src/Api.antt =====
-- How a handler of backend/api ends: with a value, with an `AppError` of backend/core/exceptions.py,
-- which becomes a response with its code and status, or with another exception, which becomes a
-- response of status 500.
use flowxrag.Prelude.{ℕ}
use flowxrag.Text.{Text}

-- The error codes of `ErrorCode` that the modelled handlers raise.
pub data ErrorCode : Type 0 where
  auth_invalid_token auth_expired_token auth_unauthorized auth_forbidden : ErrorCode
  auth_user_exists auth_invalid_creds : ErrorCode
  doc_upload_failed doc_invalid_format rate_limited : ErrorCode
  session_not_found session_forbidden not_found internal_error : ErrorCode

pub record AppError : Type 0 where
  pub code : ErrorCode
  pub message : Text
  pub status_code : ℕ

pub data Reply {ℓ} (A : Type ℓ) : Type ℓ where
  done : A → Reply A
  refused : AppError → Reply A
  crashed : Text → Reply A

abbrev pub app_error {ℓ} : {A : Type ℓ} → ErrorCode → Text → ℕ → Reply A
app_error code message status_code =
    refused (record { code = code; message = message; status_code = status_code })

-- The status of the response: `success` is the route's own, and the exception handlers of
-- `setup_exception_handlers` give the others.
abbrev pub status_of {ℓ} : {A : Type ℓ} → ℕ → Reply A → ℕ
status_of success (done a) = success
status_of success (refused e) = e.status_code
status_of success (crashed e) = 500

infixl 5 ◌>>=◌
abbrev pub ◌>>=◌ {ℓ κ} : {A : Type ℓ} {B : Type κ} → Reply A → (A → Reply B) → Reply B
done a >>= f = f a
refused e >>= f = refused e
crashed e >>= f = crashed e

-- The predicate, of a handler that returns.
abbrev pub Returns {ℓ κ} : {A : Type ℓ} → (A → Type κ) → Reply A → Type κ
Returns P (done a) = P a
Returns P (refused e) = Unit
Returns P (crashed e) = Unit

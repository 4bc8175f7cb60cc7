-- ===== src/Http/Errors.antt =====
-- internal/transport/http/errors.go: the errors of the API. `IsTransient` and the errors of the
-- framework are parameters; the message and the details of an error are left out.
use junglegaming_test.Base.{ℕ, ◌==◌, Bool, true, false, ◌||◌, if◌then◌else◌}
use junglegaming_test.Errors.{
  DomainError, invalid_currency, invalid_money, currency_mismatch, amount_must_be_positive,
  invalid_wallet_id, invalid_player_id, invalid_provider_id, invalid_external_transaction_id,
  invalid_idempotency_key, invalid_round_id, invalid_game_id, invalid_wager_type,
  invalid_wager_amount, invalid_wager_reference,
}
use junglegaming_test.Store.{
  AppError, of_domain, not_found, already_exists, idempotency_conflict,
  external_transaction_conflict, wallet_not_found, wallet_mismatch, wallet_already_exists,
  invalid_wallet_reference,
}

-- The declared values of `APIError`.
pub data ApiError : Type 0 where
  invalid_payload idempotency_key_required unauthorized forbidden missing : ApiError
  method_not_allowed wallet_exists idempotency_clash external_transaction_clash : ApiError
  conflict payload_too_large validation service_unavailable internal : ApiError

-- `APIError.Status`
unfoldable pub status_of : ApiError → ℕ
status_of invalid_payload = 400
status_of idempotency_key_required = 400
status_of unauthorized = 401
status_of forbidden = 403
status_of missing = 404
status_of method_not_allowed = 405
status_of wallet_exists = 409
status_of idempotency_clash = 409
status_of external_transaction_clash = 409
status_of conflict = 409
status_of payload_too_large = 413
status_of validation = 422
status_of service_unavailable = 503
status_of internal = 500

-- The errors of the domain among `validationErrors`.
unfoldable pub is_domain_validation : DomainError → Bool
is_domain_validation invalid_currency = true
is_domain_validation invalid_money = true
is_domain_validation currency_mismatch = true
is_domain_validation amount_must_be_positive = true
is_domain_validation invalid_wallet_id = true
is_domain_validation invalid_player_id = true
is_domain_validation invalid_provider_id = true
is_domain_validation invalid_external_transaction_id = true
is_domain_validation invalid_idempotency_key = true
is_domain_validation invalid_round_id = true
is_domain_validation invalid_game_id = true
is_domain_validation invalid_wager_type = true
is_domain_validation invalid_wager_amount = true
is_domain_validation invalid_wager_reference = true
is_domain_validation _ = false

-- `validationErrors`
unfoldable pub is_validation : AppError → Bool
unfolding is_domain_validation
is_validation (of_domain e) = is_domain_validation e
is_validation wallet_mismatch = true
is_validation invalid_wallet_reference = true
is_validation _ = false

-- An error that reaches the error handler: one of the API, of the application, or of the framework
-- with its code.
pub data Problem : Type 0 where
  of_api : ApiError → Problem
  of_application : AppError → Problem
  of_framework : ℕ → Problem

-- The `switch` on the code of an error of the framework.
unfoldable pub framework_error : ℕ → ApiError
framework_error code =
    if code == 400 || code == 422
    then invalid_payload
    else if code == 401
    then unauthorized
    else if code == 403
    then forbidden
    else if code == 404
    then missing
    else if code == 405
    then method_not_allowed
    else if code == 413
    then payload_too_large
    else internal

-- The first `switch` of `resolveError` after `IsTransient`, and the loop over `validationErrors`.
unfoldable pub application_error : AppError → ApiError
unfolding is_validation
application_error idempotency_conflict = idempotency_clash
application_error external_transaction_conflict = external_transaction_clash
application_error wallet_already_exists = wallet_exists
application_error already_exists = conflict
application_error not_found = missing
application_error wallet_not_found = missing
application_error e = if is_validation e then validation else internal

-- `resolveError`
unfoldable pub resolve_error : (Problem → Bool) → Problem → ApiError
unfolding framework_error application_error
resolve_error is_transient (of_api e) = e
resolve_error is_transient (of_application e) =
    if is_transient (of_application e) then service_unavailable else application_error e
resolve_error is_transient (of_framework code) =
    if is_transient (of_framework code) then service_unavailable else framework_error code

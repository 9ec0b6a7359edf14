-- ===== src/Logging/Errors.antt =====
-- src/logging/errors: the application's errors, as what `BaseAppError` and its classes fill in. A context is JSON,
-- `none` where it is left out; a name is that of the class.
use atraport_api.Prelude.{ℕ, String, Bool, true, false, Option, none, some, List, ◌<>◌, truthy}
use atraport_api.Prelude.Json.{Value, num, Fields, no_entries, entry}

-- `retry_after_seconds` and `service` are of the two classes that have them, `errors` of the request validation.
pub record AppError : Type 0 where
  pub name : String
  pub code : String
  pub status_code : ℕ
  pub message : String
  pub is_operational : Bool
  pub context : Option Fields
  pub retry_after_seconds : Option ℕ
  pub service : Option String
  pub errors : Option (List Value)

abbrev pub or_default : Option String → String → String
or_default none fallback = fallback
or_default (some message) fallback = message

abbrev pub app_error : String → String → ℕ → String → Bool → Option Fields → AppError
app_error name code status_code message is_operational context = record {
  name = name;
  code = code;
  status_code = status_code;
  message = message;
  is_operational = is_operational;
  context = context;
  retry_after_seconds = none;
  service = none;
  errors = none;
}

unfoldable pub validation_error : Option String → Option Fields → AppError
validation_error message context =
    app_error "ValidationError" "VALIDATION_ERROR" 400 (or_default message "Validation failed") true
      context

unfoldable pub authentication_error : Option String → Option Fields → AppError
authentication_error message context =
    app_error "AuthenticationError" "AUTHENTICATION_ERROR" 401
      (or_default message "Authentication required") true context

unfoldable pub authorization_error : Option String → Option Fields → AppError
authorization_error message context =
    app_error "AuthorizationError" "AUTHORIZATION_ERROR" 403
      (or_default message "Insufficient permissions") true context

abbrev pub not_found_message : String → Option String → String
not_found_message resource none = resource <> " was not found"
not_found_message resource (some id) = resource <> " with id '" <> id <> "' was not found"

unfoldable pub resource_not_found_error : String → Option String → Option Fields → AppError
resource_not_found_error resource id context =
    app_error "ResourceNotFoundError" "RESOURCE_NOT_FOUND" 404
      (not_found_message resource (truthy id)) true context

unfoldable pub conflict_error : Option String → Option Fields → AppError
conflict_error message context =
    app_error "ConflictError" "CONFLICT_ERROR" 409
      (or_default message "Resource already exists or conflicts with current state") true context

unfoldable pub business_logic_error : String → Option Fields → AppError
business_logic_error message context =
    app_error "BusinessLogicError" "BUSINESS_LOGIC_ERROR" 422 message true context

unfoldable pub rate_limit_error : Option String → Option ℕ → AppError
rate_limit_error message retry_after_seconds =
    let e =
      app_error "RateLimitError" "RATE_LIMIT_EXCEEDED" 429 (or_default message "Too many requests")
        true none in
    record e { retry_after_seconds = retry_after_seconds }

unfoldable pub external_service_error : String → Option String → Option Fields → AppError
external_service_error service message context =
    let said = or_default message ("External service '" <> service <> "' failed") in
    let e = app_error "ExternalServiceError" "EXTERNAL_SERVICE_ERROR" 502 said false context in
    record e { service = some service }

unfoldable pub internal_error : Option String → Option Fields → AppError
internal_error message context =
    app_error "InternalError" "INTERNAL_ERROR" 500
      (or_default message "An unexpected error occurred") false context

unfoldable pub service_unavailable_error : Option String → Option Fields → AppError
service_unavailable_error message context =
    app_error "ServiceUnavailableError" "SERVICE_UNAVAILABLE" 503
      (or_default message "Service temporarily unavailable") true context

unfoldable pub portfolio_error : String → Option Fields → AppError
portfolio_error message context =
    app_error "PortfolioError" "PORTFOLIO_ERROR" 422 message true context

-- The amounts as numbers, and as they are written.
unfoldable pub insufficient_balance_error : ℕ → String → ℕ → String → AppError
insufficient_balance_error required required_text available available_text =
    app_error "InsufficientBalanceError" "INSUFFICIENT_BALANCE" 422
      ("Insufficient balance: required " <> required_text <> ", available " <> available_text) true
      (some (entry "required" (num required) (entry "available" (num available) no_entries)))

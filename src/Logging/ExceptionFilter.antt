-- ===== src/Logging/ExceptionFilter.antt =====
-- src/logging/filters/global-exception.filter.ts: what a client sees of an exception, and what is logged and
-- reported. The correlation identifier, the path and the clock are arguments; a log line is its level.
pub mod Answers
use atraport_api.Prelude.{
  ℕ, String, Bool, true, false, not, ◌&&◌, Option, none, some, List, [], ◌∷◌, leb, truthy,
  if◌then◌else◌,
}
use atraport_api.Prelude.Json.{Value}
use atraport_api.Logging.Errors.{AppError}
use mathlib.Core.Option

-- A message is a text, or a list of them.
pub data Message : Type 0 where
  line : String → Message
  lines : List String → Message

-- The response that an HttpException holds: a text, an object with a message, or something else.
pub record ResponseBody : Type 0 where
  pub message : Message
  pub code : Option String
  pub retry_after : Option ℕ
  pub errors : Option (List Value)
  pub error : Option String

pub data HttpResponse : Type 0 where
  text : String → HttpResponse
  body : ResponseBody → HttpResponse
  other : HttpResponse

pub record HttpException : Type 0 where
  pub name : String
  pub message : String
  pub status : ℕ
  pub response : HttpResponse

-- What is thrown: an application error, an exception of the framework, another Error with its name and message,
-- or a value that is no Error.
pub data Exception : Type 0 where
  app : AppError → Exception
  http : HttpException → Exception
  error : String → String → Exception
  value : Exception

pub record ErrorResponse : Type 0 where
  pub status_code : ℕ
  pub error : String
  pub message : Message
  pub correlation_id : String
  pub timestamp : ℕ
  pub path : String
  pub code : Option String
  pub retry_after : Option ℕ
  pub errors : Option (List Value)

-- What the first part of `catch` derives.
pub record Derived : Type 0 where
  pub status_code : ℕ
  pub message : Message
  pub code : Option String
  pub retry_after : Option ℕ
  pub error_name : String
  pub errors : Option (List Value)

abbrev pub derived_of_body : HttpException → HttpResponse → Derived
derived_of_body e (text s) = record {
  status_code = e.status;
  message = line s;
  code = none;
  retry_after = none;
  error_name = e.name;
  errors = none;
}
derived_of_body e (body b) = record {
  status_code = e.status;
  message = b.message;
  code = b.code;
  retry_after = b.retry_after;
  error_name = Option.get_or (truthy b.error) e.name;
  errors = b.errors;
}
derived_of_body e other = record {
  status_code = e.status;
  message = line e.message;
  code = none;
  retry_after = none;
  error_name = e.name;
  errors = none;
}

abbrev pub unexpected : String → Derived
unexpected name = record {
  status_code = 500;
  message = line "An unexpected error occurred";
  code = none;
  retry_after = none;
  error_name = name;
  errors = none;
}

unfoldable pub derive : Exception → Derived
derive (app e) = record {
  status_code = e.status_code;
  message = line e.message;
  code = some e.code;
  retry_after = none;
  error_name = e.name;
  errors = e.errors;
}
derive (http e) = derived_of_body e e.response
derive (error name message) = unexpected name
derive value = unexpected "UnknownError"

unfoldable pub is_operational : Exception → Bool
is_operational (app e) = e.is_operational
is_operational _ = false

unfoldable pub is_error : Exception → Bool
is_error value = false
is_error _ = true

pub data LogLevel : Type 0 where
  log_error log_warning : LogLevel

unfoldable pub logged : ℕ → Option LogLevel
logged status_code =
    if leb 500 status_code
    then some log_error
    else if leb 400 status_code
    then some log_warning
    else none

abbrev pub nonempty : Option (List Value) → Option (List Value)
nonempty none = none
nonempty (some []) = none
nonempty (some (v ∷ vs)) = some (v ∷ vs)

pub record Caught : Type 0 where
  pub log : Option LogLevel
  pub reported : Bool
  pub response : ErrorResponse

unfoldable pub catch_exception : Exception → String → String → ℕ → Caught
catch_exception exception correlation_id path now =
    let d = derive exception in
    record {
      log = logged d.status_code;
      reported = not (is_operational exception) && is_error exception;
      response = record {
        status_code = d.status_code;
        error = d.error_name;
        message = d.message;
        correlation_id = correlation_id;
        timestamp = now;
        path = path;
        code = truthy d.code;
        retry_after = d.retry_after;
        errors = nonempty d.errors;
      };
    }

-- src/rate-limit/rate-limit.exception.ts
unfoldable pub rate_limit_exceeded : ℕ → HttpException
rate_limit_exceeded retry_after_seconds = record {
  name = "RateLimitExceededException";
  message = "Rate limit exceeded. Please retry later.";
  status = 429;
  response = body (record {
    message = line "Rate limit exceeded. Please retry later.";
    code = some "RATE_LIMIT_EXCEEDED";
    retry_after = some retry_after_seconds;
    errors = none;
    error = some "Too Many Requests";
  });
}

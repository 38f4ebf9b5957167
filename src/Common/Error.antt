-- ===== src/Common/Error.antt =====
-- `AppError` of backend/crates/common/src/error.rs, its HTTP status, its code and the message that the
-- client sees. The texts that the constructors carry are native strings.
pub mod Response
mod Examples
use Prim.Native.String.{String}
use pcos.Prelude.{ℕ, ◌++◌, Text, codes}

pub data AppError : Type 0 where
  not_found unauthorized forbidden validation conflict internal database jwt : String → AppError
  rate_limited : AppError

unfoldable pub status_code : AppError → ℕ
status_code (not_found s) = 404
status_code (unauthorized s) = 401
status_code (forbidden s) = 403
status_code (validation s) = 422
status_code (conflict s) = 409
status_code (internal s) = 500
status_code (database s) = 500
status_code (jwt s) = 401
status_code rate_limited = 429

unfoldable pub error_code : AppError → Text
error_code (not_found s) = codes "NOT_FOUND"
error_code (unauthorized s) = codes "UNAUTHORIZED"
error_code (forbidden s) = codes "FORBIDDEN"
error_code (validation s) = codes "VALIDATION_ERROR"
error_code (conflict s) = codes "CONFLICT"
error_code (internal s) = codes "INTERNAL_ERROR"
error_code (database s) = codes "DATABASE_ERROR"
error_code (jwt s) = codes "INVALID_TOKEN"
error_code rate_limited = codes "RATE_LIMITED"

-- `to_string`, by the texts of `#[error(...)]`.
unfoldable pub display : AppError → Text
display (not_found s) = codes "Not found: " ++ codes s
display (unauthorized s) = codes "Unauthorized: " ++ codes s
display (forbidden s) = codes "Forbidden: " ++ codes s
display (validation s) = codes "Validation error: " ++ codes s
display (conflict s) = codes "Conflict: " ++ codes s
display (internal s) = codes "Internal server error: " ++ codes s
display (database s) = codes "Database error: " ++ codes s
display (jwt s) = codes "JWT error: " ++ codes s
display rate_limited = codes "Rate limited"

pub record ErrorResponse : Type 0 where
  pub status : ℕ
  pub code : Text
  pub message : Text

-- The message of `into_response`, which keeps the details of the server's own errors back.
unfoldable pub public_message : AppError → Text
public_message (internal s) = codes "An internal error occurred"
public_message (database s) = codes "An internal error occurred"
public_message e = display e

unfoldable pub into_response : AppError → ErrorResponse
into_response e = record { status = status_code e; code = error_code e; message = public_message e }

-- ===== src/Errors.antt =====
-- crates/backup-service/src/errors.rs: `AppError` and its response. An error value of another
-- crate is the text that it displays.
pub mod Leaks
pub mod StatusCode
use backup_service.Common.{ℕ, String}

pub data AppError : Type 0 where
  not_found : String → AppError
  unauthorized : String → AppError
  forbidden : String → AppError
  validation : String → AppError
  conflict : String → AppError
  database : String → AppError
  redis : String → AppError
  jwt : String → AppError
  internal : String → AppError

-- The status and the body `{"error": …, "status": …}`.
pub record ErrorResponse : Type 0 where
  pub code : ℕ
  pub error : String
  pub status : ℕ

abbrev error_parts : AppError → ℕ × String
error_parts (not_found msg) = (StatusCode.not_found, msg)
error_parts (unauthorized msg) = (StatusCode.unauthorized, msg)
error_parts (forbidden msg) = (StatusCode.forbidden, msg)
error_parts (validation msg) = (StatusCode.bad_request, msg)
error_parts (conflict msg) = (StatusCode.conflict, msg)
error_parts (database e) = (StatusCode.internal_server_error, "internal server error")
error_parts (redis e) = (StatusCode.internal_server_error, "internal server error")
error_parts (jwt e) = (StatusCode.unauthorized, "invalid token")
error_parts (internal e) = (StatusCode.internal_server_error, "internal server error")

unfoldable pub into_response : AppError → ErrorResponse
into_response e =
    let (status, message) = error_parts e in
    record { code = status; error = message; status = status }

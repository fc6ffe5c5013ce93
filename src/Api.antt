-- ===== src/Api.antt =====
-- The HTTP layer (app/api): what a response carries, who may call what, load shedding, and the
-- responses that errors become.
pub mod Routes
pub mod Auth
pub mod Shed
pub mod Errors
pub mod Cursor
pub mod Health
mod Examples
use scalable_content_platfor.Base.{ℕ, Option, some}
use scalable_content_platfor.Text.{Text}

-- A response, by its status, the code in its error envelope, and its Retry-After header. The
-- request id, the message and the details are left out.
pub record Response : Type 0 where
  pub status : ℕ
  pub error_code : Option Text
  pub retry_after : Option ℕ

-- `error_response`
abbrev pub error_response : ℕ → Text → Option ℕ → Response
error_response status code headers = record {
  status = status;
  error_code = some code;
  retry_after = headers;
}

-- ===== src/Pipeline/Errors.antt =====
-- errors/errors.go: application errors.
use Prim.Native.String.{◌++◌ as join_text}
use go_backend_kit.Common.{
  String, Bool, true, false, ◌&&◌, Option, none, some, List, [], ◌∷◌, ◌++◌, ℤ, pos, leb_ℤ, ltb_ℤ,
}

-- The errors of the program: an `AppError` (code, message, status, cause), an error that wraps
-- another one in a text (`%w`), and any other.
mutual
  pub data GoError : Type 0 where
    app : String → String → ℤ → Cause → GoError
    wraps : String → GoError → GoError
    plain : String → GoError

  pub data Cause : Type 0 where
    no_cause : Cause
    caused_by : GoError → Cause

abbrev pub internal_server_error : ℤ
internal_server_error = pos 500

unfoldable pub new_error : String → String → GoError
new_error code message = app code message internal_server_error no_cause

unfoldable pub new_with_status : String → String → ℤ → GoError
new_with_status code message http_status = app code message http_status no_cause

unfoldable pub wrap : GoError → String → String → GoError
wrap err code message = app code message internal_server_error (caused_by err)

unfoldable pub wrap_with_status : GoError → String → String → ℤ → GoError
wrap_with_status err code message http_status = app code message http_status (caused_by err)

-- `WithCause`, a method of `AppError`; other errors have none.
unfoldable pub with_cause : GoError → GoError → GoError
with_cause (app code message http_status c) cause = app code message http_status (caused_by cause)
with_cause e cause = e

unfoldable pub unwrap : GoError → Option GoError
unwrap (app code message http_status no_cause) = none
unwrap (app code message http_status (caused_by e)) = some e
unwrap (wraps text e) = some e
unwrap (plain text) = none

-- `err.(*AppError)`: a wrapped application error is none.
unfoldable pub is_app_error : GoError → Bool
is_app_error (app code message http_status c) = true
is_app_error _ = false

unfoldable pub get_http_status : GoError → ℤ
get_http_status (app code message http_status c) = http_status
get_http_status _ = internal_server_error

unfoldable pub get_error_code : GoError → String
get_error_code (app code message http_status c) = code
get_error_code _ = "UNKNOWN_ERROR"

-- `Error()`
unfoldable mutual
  pub error_text : GoError → String
  error_text (app code message http_status c) =
      join_text code (join_text ": " (join_text message (cause_text c)))
  error_text (wraps text e) = join_text text (join_text ": " (error_text e))
  error_text (plain text) = text

  pub cause_text : Cause → String
  cause_text no_cause = ""
  cause_text (caused_by e) = join_text " (caused by: " (join_text (error_text e) ")")

unfoldable pub get_error_message : GoError → String
unfolding error_text
get_error_message (app code message http_status c) = message
get_error_message (wraps text e) = error_text (wraps text e)
get_error_message (plain text) = text

-- The status codes 5xx of an application error, and every other error.
unfoldable pub is_recoverable : Option GoError → Bool
is_recoverable none = true
is_recoverable (some (app code message http_status c)) =
    leb_ℤ (pos 500) http_status && ltb_ℤ http_status (pos 600)
is_recoverable (some _) = true

pub record ValidationError : Type 0 where
  pub field : String
  pub message : String

unfoldable pub validation_text : List ValidationError → String
validation_text [] = "validation failed"
validation_text (e ∷ es) = join_text "validation failed: " e.message

unfoldable pub add_validation : String → String → List ValidationError → List ValidationError
add_validation field message es = es ++ record { field = field; message = message } ∷ []

unfoldable pub has_errors : List ValidationError → Bool
has_errors [] = false
has_errors (e ∷ es) = true

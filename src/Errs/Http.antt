-- ===== src/Errs/Http.antt =====
-- errs/httperrors.go: the response that an error becomes.
use podcast_backend.Prelude.{ℕ, String, Option, none, some}
use podcast_backend.Errs.{
  Error, nil, native, wrapped, Kind, other, invalid, database, internal, validation,
  unauthenticated, unauthorized, Native,
}
use Prim.Native.String.{◌++◌}

pub record ServiceError : Type 0 where
  pub kind : String
  pub code : String
  pub param : String
  pub message : String

pub record Response : Type 0 where
  pub status : ℕ
  pub www_authenticate : Option String
  pub body : Option ServiceError

unfoldable pub kind_string : Kind → String
kind_string invalid = "invalid operation"
kind_string database = "database error"
kind_string internal = "internal error"
kind_string validation = "input validation error"
kind_string unauthenticated = "unauthenticated request"
kind_string unauthorized = "unauthorized request"
kind_string other = "error"

unfoldable pub http_status_code : Kind → ℕ
http_status_code validation = 400
http_status_code invalid = 400
http_status_code unauthenticated = 401
http_status_code unauthorized = 403
http_status_code database = 500
http_status_code internal = 500
http_status_code other = 500

-- The texts that native errors print; pgx's and Postgres's are parameters.
module _ (native_text : Native → String) where
  -- (*Error).Error prints the cause.
  error_text : Error → String
  error_text nil = ""
  error_text (native n) = native_text n
  error_text (wrapped o k p c r nil) = "unknown error"
  error_text (wrapped o k p c r (native n)) = native_text n
  error_text (wrapped o k p c r (wrapped o' k' p' c' r' e)) = error_text (wrapped o' k' p' c' r' e)

  detailed : Kind → String → String → Error → Response
  unfolding kind_string http_status_code
  detailed k p c e = record {
    status = http_status_code k;
    www_authenticate = none;
    body = some (record { kind = kind_string k; code = c; param = p; message = error_text e });
  }

  masked : Kind → Response
  unfolding kind_string http_status_code
  masked k = record {
    status = http_status_code k;
    www_authenticate = none;
    body = some (record {
      kind = kind_string k;
      code = "";
      param = "";
      message = "An internal error occurred. Please contact support.";
    });
  }

  -- HTTPErrorResponse; the log line is not modelled.
  unfoldable pub http_error_response : Error → Response
  unfolding error_text detailed masked
  http_error_response nil = record { status = 500; www_authenticate = none; body = none }
  http_error_response (native n) = record {
    status = 500;
    www_authenticate = none;
    body = some (record {
      kind = "unanticipated_error";
      code = "";
      param = "";
      message = "Unexpected internal server error.";
    });
  }
  http_error_response (wrapped o unauthenticated p c r e) = record {
    status = 401;
    www_authenticate = some ("Bearer realm=\"" ++ r ++ "\"");
    body = none;
  }
  http_error_response (wrapped o unauthorized p c r e) = record {
    status = 403;
    www_authenticate = none;
    body = none;
  }
  http_error_response (wrapped o validation p c r e) =
      detailed validation p c (wrapped o validation p c r e)
  http_error_response (wrapped o invalid p c r e) = detailed invalid p c (wrapped o invalid p c r e)
  http_error_response (wrapped o database p c r e) = masked database
  http_error_response (wrapped o internal p c r e) = masked internal
  http_error_response (wrapped o other p c r e) = masked other

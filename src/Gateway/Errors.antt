-- ===== src/Gateway/Errors.antt =====
-- gateway/errors.go: the HTTP response to the error of a call.
pub mod Laws
use grpcapi.Base.{
  ℕ, String, Bool, true, false, not, ◌&&◌, Option, none, some, List, [], ◌∷◌, ltb, nat_eq,
  if◌then◌else◌, is_some, or_else,
}
use Prim.Native.Nat.{◌/◌}
use grpcapi.Status.{World, Code, Status, is_ok, internal}
use grpcapi.Http
use grpcapi.Http.{Header}
use grpcapi.Authz.Calls.{status_of}

-- `DefaultCodeToHTTP`
unfoldable pub default_code_to_http : Code → ℕ
default_code_to_http Code.ok = 200
default_code_to_http Code.canceled = 499
default_code_to_http Code.unknown = 500
default_code_to_http Code.invalid_argument = 400
default_code_to_http Code.failed_precondition = 400
default_code_to_http Code.out_of_range = 400
default_code_to_http Code.deadline_exceeded = 504
default_code_to_http Code.not_found = 404
default_code_to_http Code.already_exists = 409
default_code_to_http Code.aborted = 409
default_code_to_http Code.permission_denied = 403
default_code_to_http Code.unauthenticated = 401
default_code_to_http Code.resource_exhausted = 429
default_code_to_http Code.unimplemented = 501
default_code_to_http Code.unavailable = 503
default_code_to_http _ = 500

-- `ErrorOptions`; CodeToHTTP is a function for a map, and CodeString and Sanitize are none for nil.
pub record ErrorOptions : Type 0 where
  pub code_to_http : Code → Option ℕ
  pub code_string : Option (Code → String)
  pub sanitize : Option (Code → Bool)
  pub disable_retry_after : Bool

-- The body of `DefaultErrorEncoder`.
pub record ErrorBody : Type 0 where
  pub code : String
  pub message : String
  pub error_id : String

pub record ErrorResponse : Type 0 where
  pub status : ℕ
  pub body : ErrorBody
  pub headers : Header

unfoldable pub code_to_http : ErrorOptions → Code → ℕ
unfolding default_code_to_http
code_to_http o c = or_else (o.code_to_http c) (default_code_to_http c)

abbrev default_sanitize : Code → Bool
default_sanitize Code.internal = true
default_sanitize Code.unknown = true
default_sanitize _ = false

unfoldable pub sanitize : ErrorOptions → Code → Bool
sanitize o c = or_else o.sanitize default_sanitize c

-- The seconds of a positive delay of nanoseconds as math.Ceil of its float64 Seconds gives them.
module _ (ceil_seconds : ℕ → ℕ) where
  unfoldable pub retry_seconds : ℕ → ℕ
  retry_seconds delay = let secs = ceil_seconds delay in if ltb secs 1 then 1 else secs

  -- `retryAfterSeconds`, over the delays of the status's details in nanoseconds, none for a detail of another
  -- type; a delay below 0 is 0.
  unfoldable pub retry_after_seconds : List (Option ℕ) → Option ℕ
  unfolding retry_seconds
  retry_after_seconds [] = none
  retry_after_seconds (none ∷ details) = retry_after_seconds details
  retry_after_seconds (some delay ∷ details) =
      let rest = retry_after_seconds details in
      if ltb 0 delay then some (retry_seconds delay) else rest

module _ (w : World) where
  -- The status that is told: an error without one is internal.
  abbrev pub told_status : w.Failure → Status
  told_status e = or_else (w.from_error e) (status_of internal "internal server error")

-- codes.Code.String, strconv.FormatInt, the details of an error's status, and the ID made for it.
module _ (w : World) (code_name : Code → String) (decimal : ℕ → String)
    (details : w.Failure → List (Option ℕ)) (ceil_seconds : ℕ → ℕ) where
  unfoldable pub code_string : ErrorOptions → Code → String
  code_string o c = or_else o.code_string code_name c

  retry_headers : ErrorOptions → w.Failure → ℕ → Header
  retry_headers o e http_status =
      if not (nat_eq http_status 429 && not o.disable_retry_after)
      then []
      else elim (retry_after_seconds ceil_seconds
          (if is_some (w.from_error e) then details e else [])) [
            | none ↦ []
            | some secs ↦ Http.set "Retry-After" (decimal secs) []
          ]

  -- `DefaultErrorEncoder(opts).Encode`
  unfoldable pub encode_error : ErrorOptions → String → w.Failure → ErrorResponse
  unfolding code_to_http sanitize code_string retry_headers
  encode_error o error_id e =
      let st = told_status w e in
      let http_status = code_to_http o st.code in
      record {
        status = http_status;
        body = record {
          code = code_string o st.code;
          message = if sanitize o st.code then "internal server error" else st.message;
          error_id = error_id;
        };
        headers = retry_headers o e http_status;
      }

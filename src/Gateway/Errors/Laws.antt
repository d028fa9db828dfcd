-- ===== src/Gateway/Errors/Laws.antt =====
-- gateway/errors.go: bounds of what a client is told.
use grpcapi.Base.{ℕ, String, ◌≡◌, refl, Bool, true, false, ◌&&◌, Option, none, List, ltb, leb}
use grpcapi.Status.{World, Code, is_ok}
use grpcapi.Gateway.Errors.{
  ErrorOptions, told_status, encode_error, code_to_http, sanitize, default_code_to_http,
}

abbrev pub is_error_status : ℕ → Bool
is_error_status n = leb 400 n && ltb n 600

-- The HTTP status of a code that is not OK is one of an error.
default_code_to_http-is_error_status :
    (c : Code) → is_ok c ≡ false → is_error_status (default_code_to_http c) ≡ true
unfolding default_code_to_http
default_code_to_http-is_error_status Code.ok h = cc
default_code_to_http-is_error_status (Code.other n) h = refl
default_code_to_http-is_error_status _ h = refl

module _ (w : World) (code_name : Code → String) (decimal : ℕ → String)
    (details : w.Failure → List (Option ℕ)) (ceil_seconds : ℕ → ℕ) where
  -- With the built-in table an error whose status is not OK is told with an HTTP status from 400 to 599, and the
  -- message of a code that is sanitized is the same whatever the error says.
  pub encode_error_lem :
      (o : ErrorOptions) (error_id : String) (e f : w.Failure)
      → o.code_to_http (told_status w e).code ≡ none
      → is_ok (told_status w e).code ≡ false
      → let r = encode_error w code_name decimal details ceil_seconds o error_id e in
        (is_error_status r.status ≡ true)
        × ((told_status w e).code ≡ (told_status w f).code
            → sanitize o (told_status w e).code ≡ true
            → r.body ≡ (encode_error w code_name decimal details ceil_seconds o error_id f).body)
  unfolding encode_error code_to_http
  encode_error_lem o error_id e f table bad = (
    rw table (default_code_to_http-is_error_status _ bad),
    λ same hidden. rw (← same, hidden) refl,
  )

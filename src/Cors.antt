-- ===== src/Cors.antt =====
-- cors/cors.go: the middleware for cross-origin requests. A handler's answer is the request passed on, with
-- the headers set on the response so far, or a response of its own.
pub mod Headers
pub mod Laws
use grpcapi.Base.{
  ℕ, String, Bool, false, not, ◌&&◌, ◌||◌, Option, List, [], ◌∷◌, map, ◌==◌, ltb, if◌then◌else◌,
  or_else, is_empty, all, any, Result, to_lower, to_upper, equal_fold, trim_space, trim_right,
  contains_text, split, join, ok, err,
}
use grpcapi.Http
use grpcapi.Http.{Header, HttpRequest}

-- `Config`; AllowedHeaders is none for nil, and a MaxAgeSeconds below 0 is 0.
pub record Config : Type 0 where
  pub allowed_origins : List String
  pub allowed_methods : List String
  pub allowed_headers : Option (List String)
  pub exposed_headers : List String
  pub allow_credentials : Bool
  pub max_age_seconds : ℕ

-- `Middleware`, with its normalized configuration.
pub record Middleware : Type 0 where
  pub allowed_origins : List String
  pub allowed_methods : List String
  pub allowed_headers : List String
  pub exposed_headers : List String
  pub allow_credentials : Bool
  pub max_age_seconds : ℕ

pub data Answer : Type 0 where
  -- next.ServeHTTP
  pass : Header → Answer
  -- http.Error with status 403
  reject : String → Answer
  -- status 204
  no_content : Header → Answer

abbrev default_methods : List String
default_methods = "GET" ∷ "HEAD" ∷ "POST" ∷ "PUT" ∷ "PATCH" ∷ "DELETE" ∷ []

abbrev default_headers : List String
default_headers =
    "authorization" ∷ "content-type" ∷ "cookie" ∷ "x-api-key" ∷ "x-request-id" ∷ "idempotency-key"
    ∷ "x-csrf-token" ∷ []

abbrev normal_origin : String → String
normal_origin o = to_lower (trim_right b'/' o)

unfoldable pub normalize : Config → Middleware
normalize c = record {
  allowed_origins = map normal_origin c.allowed_origins;
  allowed_methods =
      map to_upper (if is_empty c.allowed_methods then default_methods else c.allowed_methods);
  allowed_headers = map to_lower (or_else c.allowed_headers default_headers);
  exposed_headers = map trim_space c.exposed_headers;
  allow_credentials = c.allow_credentials;
  max_age_seconds = c.max_age_seconds;
}

abbrev is_any : String → Bool
is_any o = o == "*"

unfoldable pub wildcard : Middleware → Bool
wildcard m = any is_any m.allowed_origins

-- `New`
unfoldable pub new_middleware : Config → Result String Middleware
unfolding normalize
new_middleware c =
    let m = normalize c in
    if any (λ o. o == "*" && m.allow_credentials) m.allowed_origins
    then err
        "cors: AllowedOrigins \"*\" cannot be combined with AllowCredentials; list exact origins instead"
    else ok m

unfoldable pub origin_allowed : Middleware → String → Bool
origin_allowed m origin =
    if is_empty m.allowed_origins
    then false
    else any (λ allowed. allowed == "*" || allowed == normal_origin origin) m.allowed_origins

unfoldable pub is_preflight : HttpRequest → Bool
is_preflight r =
    r.method == "OPTIONS" && not (Http.get "Access-Control-Request-Method" r.header == "")

unfoldable pub contains_fold : List String → String → Bool
contains_fold list want = any (λ v. equal_fold v want) list

-- The loop over the parts of the header.
requested : List String → List String
requested [] = []
requested (h ∷ rest) =
    let name = trim_space h in if name == "" then requested rest else to_lower name ∷ requested rest

unfoldable pub requested_headers : HttpRequest → List String
unfolding requested
requested_headers r =
    let raw = Http.get "Access-Control-Request-Headers" r.header in
    if raw == "" then [] else requested (split b',' raw)

abbrev append_non_empty : String → String → List String
append_non_empty existing v = if existing == "" then v ∷ [] else existing ∷ v ∷ []

-- The loop over the values.
vary : String → List String → String
vary existing [] = existing
vary existing (v ∷ rest) =
    vary
      (if not (contains_text existing v) then join ", " (append_non_empty existing v) else existing)
      rest

unfoldable pub add_vary : List String → Header → Header
unfolding vary
add_vary added h = Http.set "Vary" (vary (Http.get "Vary" h) added) h

unfoldable pub set_common_headers : Middleware → String → Header → Header
unfolding add_vary
set_common_headers m origin h =
    let named =
      if wildcard m && not m.allow_credentials
      then Http.set "Access-Control-Allow-Origin" "*" h
      else add_vary ("Origin" ∷ []) (Http.set "Access-Control-Allow-Origin" origin h) in
    let credited =
      if m.allow_credentials
      then Http.set "Access-Control-Allow-Credentials" "true" named
      else named in
    if not (is_empty m.exposed_headers)
    then Http.set "Access-Control-Expose-Headers" (join ", " m.exposed_headers) credited
    else credited

-- The number in MaxAgeSeconds is written by package fmt.
module _ (decimal : ℕ → String) where
  unfoldable pub preflight_headers : Middleware → String → Header → Header
  unfolding set_common_headers
  preflight_headers m origin h =
      let common = set_common_headers m origin h in
      let methods = Http.set "Access-Control-Allow-Methods" (join ", " m.allowed_methods) common in
      let names = Http.set "Access-Control-Allow-Headers" (join ", " m.allowed_headers) methods in
      let aged =
        if ltb 0 m.max_age_seconds
        then Http.set "Access-Control-Max-Age" (decimal m.max_age_seconds) names
        else names in
      add_vary ("Access-Control-Request-Method" ∷ "Access-Control-Request-Headers" ∷ []) aged

  unfoldable pub handle_preflight : Middleware → HttpRequest → String → Header → Answer
  unfolding contains_fold requested_headers preflight_headers
  handle_preflight m r origin h =
      let method = to_upper (Http.get "Access-Control-Request-Method" r.header) in
      if not (contains_fold m.allowed_methods method)
      then reject "cors method rejected"
      else if not (all (contains_fold m.allowed_headers) (requested_headers r))
      then reject "cors header rejected"
      else no_content (preflight_headers m origin h)

  -- `Handler`, on the headers that the response has already.
  unfoldable pub handle : Middleware → HttpRequest → Header → Answer
  unfolding origin_allowed is_preflight handle_preflight set_common_headers
  handle m r h =
      let origin = Http.get "Origin" r.header in
      if origin == ""
      then pass h
      else if not (origin_allowed m origin)
      then (if is_preflight r then reject "cors origin rejected" else pass h)
      else if is_preflight r
      then handle_preflight m r origin h
      else pass (set_common_headers m origin h)

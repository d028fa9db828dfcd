-- ===== src/Csrf.antt =====
-- csrf/csrf.go: the double-submit check of requests that change state. The code of net/http, net/url and
-- crypto/rand is given.
use grpcapi.Base.{
  String, ◌≡◌, ◌↔◌, ◌⊎◌, inl, inr, Bool, true, false, not, ◌||◌, Option, none, some, List, [], ◌∷◌,
  arith, ◌==◌, eq_iff, eq_refl, if◌then◌else◌, Bool-cases, Option-cases, str_append, is_empty, any,
  contains, Result, equal_fold, trim_right, ok, err, pos,
}
use grpcapi.Http
use grpcapi.Http.{HttpRequest}
use grpcapi.Authn.Session.{SameSite, same_site_unset, lax, SetCookie}

pub record Config : Type 0 where
  pub cookie_name : String
  pub header_name : String
  pub cookie_path : String
  pub insecure_cookie : Bool
  pub same_site : SameSite
  pub allowed_origins : List String
  pub exempt : Option (HttpRequest → Bool)

abbrev or_default : String → String → String
or_default s d = if s == "" then d else s

abbrev or_lax : SameSite → SameSite
or_lax same_site_unset = lax
or_lax s = s

-- `New`
unfoldable pub normalize : Config → Config
normalize c = record c {
  cookie_name = or_default c.cookie_name "csrf_token";
  header_name = or_default c.header_name "X-CSRF-Token";
  cookie_path = or_default c.cookie_path "/";
  same_site = or_lax c.same_site;
}

-- `Issue`, with the answer of `newToken`: the cookie that it sets, and its value.
unfoldable pub issue : {F : Type 0} → Config → Result F String → Result F (SetCookie × String)
issue c (err e) = err e
issue c (ok token) = ok (
  record {
    name = c.cookie_name;
    value = token;
    path = c.cookie_path;
    expires = none;
    max_age = pos 0;
    secure = not c.insecure_cookie;
    http_only = false;
    same_site = c.same_site;
  },
  token,
)

pub data Answer : Type 0 where
  -- next.ServeHTTP
  pass : Answer
  -- http.Error with status 403
  reject : String → Answer

unfoldable pub is_safe : String → Bool
is_safe method = contains ("GET" ∷ "HEAD" ∷ "OPTIONS" ∷ "TRACE" ∷ []) method

-- The origin that a request names, empty for none.
unfoldable pub origin_of : HttpRequest → String
origin_of r =
    let origin = Http.get "Origin" r.header in
    if origin == "" then Http.get "Referer" r.header else origin

unfoldable pub is_exempt : Config → HttpRequest → Bool
is_exempt c r = elim c.exempt [ none ↦ false | some f ↦ f r ]

-- The canonical spelling of a header's name; url.Parse to the scheme and the host, none for an error; r.Cookie of a name, none for an error.
module _ (canonical : String → String) (parse_url : String → Option (String × String))
    (cookie_in : HttpRequest → String → Option String) where
  unfoldable pub origin_allowed : Config → HttpRequest → Bool
  unfolding origin_of
  origin_allowed c r =
      let origin = origin_of r in
      if is_empty c.allowed_origins
      then (if origin == "" then true else elim (parse_url origin) [
        | none ↦ false
        | some (scheme, host) ↦ equal_fold host r.host
      ])
      else if origin == ""
      then false
      else elim (parse_url origin) [
        | none ↦ false
        | some (scheme, host) ↦
            any
              (λ allowed.
                equal_fold (trim_right b'/' allowed) (str_append scheme (str_append "://" host)))
              c.allowed_origins
      ]

  -- `Handler`
  unfoldable pub handle : Config → HttpRequest → Answer
  unfolding is_safe is_exempt origin_allowed
  handle c r =
      if is_safe r.method
      then pass
      else if is_exempt c r
      then pass
      else if not (origin_allowed c r)
      then reject "csrf origin rejected"
      else elim (cookie_in r c.cookie_name) [
        | none ↦ reject "csrf token missing"
        | some value ↦
            let header = Http.get (canonical c.header_name) r.header in
            if value == ""
            then reject "csrf token missing"
            else if header == "" || not (value == header)
            then reject "csrf token mismatch"
            else pass
      ]

  -- A request that changes state and is not exempt comes from an origin that is allowed, and carries one
  -- token, which is not empty, in the cookie and in the header.
  abbrev pub IsVerified : Config → HttpRequest → Type 0
  IsVerified c r =
      (origin_allowed c r ≡ true)
      × (token : String) × (cookie_in r c.cookie_name ≡ some token)
      × (Http.get (canonical c.header_name) r.header ≡ token)
      × ((token == "") ≡ false)

  handle-IsVerified :
      (c : Config) (r : HttpRequest)
      → (is_safe r.method || is_exempt c r) ≡ false
      → handle c r ≡ pass
      → IsVerified c r
  unfolding handle
  handle-IsVerified c r strict h = elim (Bool-cases (origin_allowed c r)) [
    | inr foreign ↦ absurd (ground arith)
    | inl allowed ↦ elim (Option-cases (cookie_in r c.cookie_name)) [
      | inl missing ↦ absurd (ground arith)
      | inr (token, found) ↦
          let header = Http.get (canonical c.header_name) r.header in
          let safe : is_safe r.method ≡ false = ground arith in
          let checked : is_exempt c r ≡ false = ground arith in
          let h2 = rw (handle, safe, checked, allowed, found) at h in
          (allowed, token, found, ground (arith, eq_iff token header), ground arith)
    ]
  ]

  -- The middleware passes a request on exactly if its method is safe, it is exempt, or it comes from an
  -- allowed origin and carries one and the same token, which is not empty, in its cookie and in its header.
  pub handle_iff :
      (c : Config) (r : HttpRequest)
      → (handle c r ≡ pass) ↔ (((is_safe r.method || is_exempt c r) ≡ true) ⊎ IsVerified c r)
  unfolding handle
  handle_iff c r = (
    (λ h. elim (Bool-cases (is_safe r.method || is_exempt c r)) [
      | inl free ↦ inl free
      | inr strict ↦ inr (handle-IsVerified c r strict h)
    ]),
    (λ h. elim h [
      | inl free ↦ ground arith
      | inr (allowed, token, found, same, full) ↦
          rw (handle, allowed, found, full, same, full, eq_refl token) (ground arith)
    ]),
  )

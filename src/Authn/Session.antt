-- ===== src/Authn/Session.antt =====
-- authn/session/session.go: the reference implementation of cookie sessions. Times are in nanoseconds; the
-- store is an interface of the project and the code of crypto/hmac, encoding/base64 and net/http is given.
pub mod Laws
pub mod Cookies
use grpcapi.Base.{
  ℕ, ◌+◌, ◌*◌, String, Bool, true, false, not, ◌||◌, Option, none, some, List, [], ◌∷◌, ◌==◌, ltb,
  nat_eq, if◌then◌else◌, str_append, Result, ℤ, cut, ok, err, pos, negsuc,
}
use Prim.Native.Nat.{◌/◌}
use grpcapi.Status.{World, Status, unauthenticated, unavailable}
use grpcapi.Principal.{Principal}
use grpcapi.Authz.Calls.{status_of, unauthenticated_error}
use grpcapi.Authn.Credentials.{Credentials}

pub record Session : Type 0 where
  pub id : String
  pub principal_id : String
  pub kind : String
  pub claims : List (String × List String)
  pub attrs : List (String × String)
  pub expires_at : ℕ

-- http.SameSite
pub data SameSite : Type 0 where
  same_site_unset lax strict same_site_none : SameSite

-- `Config`, without what it is given: the store, the signature with the signing key, and the clock.
pub record Config : Type 0 where
  pub cookie_name : String
  pub ttl : ℕ
  pub path : String
  pub insecure_cookie : Bool
  pub same_site : SameSite

-- *http.Cookie; no Expires is none.
pub record SetCookie : Type 0 where
  pub name : String
  pub value : String
  pub path : String
  pub expires : Option ℕ
  pub max_age : ℤ
  pub secure : Bool
  pub http_only : Bool
  pub same_site : SameSite

abbrev pub or_default : String → String → String
or_default s d = if s == "" then d else s

abbrev or_lax : SameSite → SameSite
or_lax same_site_unset = lax
or_lax s = s

abbrev nanoseconds : ℕ
nanoseconds = 1000000000

unfoldable pub normalize : Config → Config
normalize c = record {
  cookie_name = or_default c.cookie_name "session";
  ttl = if nat_eq c.ttl 0 then 24 * 3600 * nanoseconds else c.ttl;
  path = or_default c.path "/";
  insecure_cookie = c.insecure_cookie;
  same_site = or_lax c.same_site;
}

-- The loop over the cookies of one header.
find_cookie : String → List (String × String) → Option String
find_cookie name [] = none
find_cookie name ((key, value) ∷ rest) = if key == name then some value else find_cookie name rest

-- `Credentials.Cookie`, over the cookies that net/http reads in a header.
unfoldable pub cookie_of : (String → List (String × String)) → String → List String → String
unfolding find_cookie
cookie_of cookies_in name [] = ""
cookie_of cookies_in name (raw ∷ rest) = elim (find_cookie name (cookies_in raw)) [
  | some value ↦ value
  | none ↦ cookie_of cookies_in name rest
]

-- Over base64 of the HMAC of a text with the signing key.
module _ (mac : String → String) where
  unfoldable pub sign : String → String
  sign id = str_append id (str_append "." (mac id))

  -- none for false
  unfoldable pub verify : String → Option String
  verify value = elim (cut b'.' value) [
    | none ↦ none
    | some (id, sig) ↦
        if id == "" || sig == "" then none else if not (sig == mac id) then none else some id
  ]

-- The errors that are not statuses; an error of the store or of crypto/rand is wrapped.
pub data SessionError (F : Type 0) : Type 0 where
  store_is_nil signing_key_is_empty principal_is_nil : SessionError F
  random_id create_failed delete_failed : F → SessionError F

-- session.Store over what it keeps, with an error that is none for nil; `not_found` is errors.Is of
-- ErrNotFound.
pub record Store (w : World) (State : Type 0) : Type 0 where
  pub get : State → String → Result w.Failure (Option Session)
  pub create : State → Session → State × Option w.Failure
  pub touch : State → String → ℕ → State × Option w.Failure
  pub delete : State → String → State × Option w.Failure
  pub not_found : w.Failure → Bool

pub record Authenticator (w : World) (State : Type 0) : Type 0 where
  pub cfg : Config
  pub store : Store w State
  pub mac : String → String
  pub cookies_in : String → List (String × String)

module _ {w : World} where
  abbrev pub session_of : Config → ℕ → String → Principal w → Session
  session_of cfg now id p = record {
    id = id;
    principal_id = p.id;
    kind = p.kind;
    claims = p.claims;
    attrs = p.attrs;
    expires_at = now + cfg.ttl;
  }

  abbrev pub principal_of : Session → Principal w
  principal_of s = record {
    id = s.principal_id;
    kind = or_default s.kind "user";
    claims = s.claims;
    attrs = s.attrs;
    raw = none;
  }

module _ {w : World} {State : Type 0} where
  -- `New`, with a store that may be nil and a signing key that may be empty
  unfoldable pub new_authenticator :
      Config
      → Option (Store w State)
      → Bool
      → (String → String)
      → (String → List (String × String))
      → Result (SessionError w.Failure) (Authenticator w State)
  unfolding normalize
  new_authenticator cfg none has_key mac cookies_in = err store_is_nil
  new_authenticator cfg (some store) false mac cookies_in = err signing_key_is_empty
  new_authenticator cfg (some store) true mac cookies_in =
      ok (record { cfg = normalize cfg; store = store; mac = mac; cookies_in = cookies_in })

  abbrev pub cookie_for : Authenticator w State → Session → SetCookie
  cookie_for a s = record {
    name = a.cfg.cookie_name;
    value = sign a.mac s.id;
    path = a.cfg.path;
    expires = some s.expires_at;
    max_age = pos (a.cfg.ttl / nanoseconds);
    secure = not a.cfg.insecure_cookie;
    http_only = true;
    same_site = a.cfg.same_site;
  }

  -- `Issue` at a time, with the answer of `newID`: the cookie that it sets.
  unfoldable pub issue :
      Authenticator w State
      → ℕ
      → Result w.Failure String
      → State
      → Option (Principal w)
      → State × Result (SessionError w.Failure) SetCookie
  unfolding sign
  issue a now new_id st none = (st, err principal_is_nil)
  issue a now (err e) st (some p) = (st, err (random_id e))
  issue a now (ok id) st (some p) =
      let s = session_of a.cfg now id p in
      let (later, failure) = a.store.create st s in
      elim failure [ some e ↦ (later, err (create_failed e)) | none ↦ (later, ok (cookie_for a s)) ]

  -- `Authenticate` on the session that the store has, at a time.
  unfoldable pub admit :
      Authenticator w State
      → ℕ
      → State
      → String
      → Result w.Failure (Option Session)
      → State × Result w.Failure (Option (Principal w))
  admit a now st id (err e) = (
    st,
    err (
        if a.store.not_found e
        then unauthenticated_error w "session not found"
        else w.status_error (status_of unavailable "session store unavailable")),
  )
  admit a now st id (ok none) = (st, err (unauthenticated_error w "session expired"))
  admit a now st id (ok (some s)) =
      if not (ltb now s.expires_at)
      then (st, err (unauthenticated_error w "session expired"))
      else ((a.store.touch st id a.cfg.ttl).0, ok (some (principal_of s)))

  unfoldable pub authenticate :
      Authenticator w State
      → ℕ
      → State
      → Credentials
      → State × Result w.Failure (Option (Principal w))
  unfolding cookie_of verify admit
  authenticate a now st c =
      let raw = cookie_of a.cookies_in a.cfg.cookie_name c.cookies in
      if raw == "" then (st, ok none) else elim (verify a.mac raw) [
        | none ↦ (st, err (unauthenticated_error w "invalid session"))
        | some id ↦ admit a now st id (a.store.get st id)
      ]

  -- `Destroy`, on the cookie of the request, none if it has none: the cookie that it sets and its error.
  unfoldable pub destroy :
      Authenticator w State
      → State
      → Option String
      → State × SetCookie × Option (SessionError w.Failure)
  unfolding verify
  destroy a st cookie =
      let cleared : SetCookie = record {
        name = a.cfg.cookie_name;
        value = "";
        path = a.cfg.path;
        expires = none;
        max_age = negsuc 0;
        secure = not a.cfg.insecure_cookie;
        http_only = true;
        same_site = a.cfg.same_site;
      } in
      elim cookie [
        | none ↦ (st, cleared, none)
        | some value ↦ elim (verify a.mac value) [
          | none ↦ (st, cleared, none)
          | some id ↦
              let (later, failure) = a.store.delete st id in
              (later, cleared, elim failure [ none ↦ none | some e ↦ some (delete_failed e) ])
        ]
      ]

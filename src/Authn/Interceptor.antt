-- ===== src/Authn/Interceptor.antt =====
-- authn/interceptor.go: the unary and the stream interceptor and the middleware of routes. What the handler
-- does is a run of it, so that the interceptors of package authz can be the handler.
pub mod Laws
use grpcapi.Base.{String, Bool, false, Option, none, some, List, [], or_else, Result, ok, err}
use grpcapi.Status.{World, Code, Status, unauthenticated}
use grpcapi.Principal.{Principal}
use grpcapi.Http.{Header, Peer, HttpRequest}
use grpcapi.Authz.Calls.{status_of, Context, Run}
use grpcapi.Authn.Credentials.{Credentials, default_extract, default_extract_http}
use grpcapi.Authn.Authenticate.{
  Authenticator, Extractor, Interceptor, Outcome, fail, authenticate, default_extractor,
}

module _ (w : World) where
  -- What OnFailure is called with, and then the run of the handler.
  abbrev pub Served : Type 0 → Type 0
  Served A = List w.Failure × Run w A

  unfoldable pub is_anonymous : Interceptor w → String → Bool
  is_anonymous i full_method = elim i.opts.is_anonymous [ none ↦ false | some f ↦ f full_method ]

  -- `if p != nil { ctx = principal.With(ctx, p) }`
  abbrev pub with_principal : Context w → Option (Principal w) → Context w
  with_principal ctx none = ctx
  with_principal ctx (some p) = record ctx { principal = some p }

  -- What both interceptors do before they call the handler: the context that it is given.
  unfoldable pub enter : Interceptor w → Context w → Option Peer → String → Outcome w (Context w)
  unfolding is_anonymous fail authenticate
  enter i ctx pr full_method =
      elim (or_else i.opts.extractor (default_extractor w) ctx.ambient full_method ctx.metadata
        pr) [
          | err e ↦ (
            fail w i.opts e,
            err (w.status_error (status_of unauthenticated "invalid credentials")),
          )
          | ok creds ↦
              let (reported, answer) =
                authenticate w i ctx.ambient (is_anonymous i full_method) creds in
              elim answer [
                | err e ↦ (reported, err e)
                | ok p ↦ (reported, ok (with_principal ctx p))
              ]
        ]

  -- `Unary` and `Stream`, with the peer that the context carries.
  unfoldable pub intercept :
      {A : Type 0}
      → Interceptor w
      → Context w
      → Option Peer
      → String
      → (Context w → Run w A)
      → Served A
  unfolding enter
  intercept i ctx pr full_method handler =
      let (reported, entered) = enter i ctx pr full_method in
      elim entered [ err e ↦ (reported, ([], err e)) | ok inner ↦ (reported, handler inner) ]

  pub data HttpResponse : Type 0 where
    -- next.ServeHTTP with the request's context
    pass : Context w → HttpResponse
    -- writeHTTPError
    refuse : w.Failure → HttpResponse

  pub record HttpOptions : Type 0 where
    pub anonymous : Bool
    pub extractor : Option (w.Ambient → String → HttpRequest → Result w.Failure Credentials)

  unfoldable pub http_middleware :
      Interceptor w → String → HttpOptions → Context w → HttpRequest → List w.Failure × HttpResponse
  unfolding fail authenticate
  http_middleware i full_method opts ctx r =
      elim (or_else opts.extractor (λ a m q. ok (default_extract_http m q)) ctx.ambient full_method
        r) [
          | err e ↦ (
            fail w i.opts e,
            refuse (w.status_error (status_of unauthenticated "invalid credentials")),
          )
          | ok creds ↦
              let (reported, answer) = authenticate w i ctx.ambient opts.anonymous creds in
              elim answer [
                | err e ↦ (reported, refuse e)
                | ok p ↦ (reported, pass (with_principal ctx p))
              ]
        ]

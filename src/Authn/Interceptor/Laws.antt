-- ===== src/Authn/Interceptor/Laws.antt =====
-- authn/interceptor.go: what the handler behind the interceptor knows of the identity of the caller, also when
-- the handler is an interceptor of package authz.
use grpcapi.Base.{
  String, ◌≡◌, refl, sym, ◌⊎◌, inl, inr, Bool, true, false, Option, none, some, [], arith, or_else,
  any, Result, ok_inj, Result-cases, ok, err,
}
use grpcapi.Status.{World}
use grpcapi.Principal.{Principal}
use grpcapi.Http.{Peer, HttpRequest}
use grpcapi.Authz.Calls.{Context, Run, is_served}
use grpcapi.Authn.Credentials.{Credentials}
use grpcapi.Authn.Authenticate.{Interceptor, enrich, authenticate, default_extractor}
use grpcapi.Authn.Authenticate.Laws.{
  Answers, IsSingle, IsUnidentified, authenticate_sound, authenticate-IsUnidentified,
}
use grpcapi.Policy.OperationSet.{OperationSet}
use grpcapi.Authz.Calls.{InterceptorOptions}
use grpcapi.Authz.Interceptor.{Interceptor as AuthzInterceptor, new_interceptor, unary}
use grpcapi.Authz.Interceptor.Enforced.{Fails}
use grpcapi.Authz.Interceptor.BuiltIn.{LetThrough, unary-LetThrough}
use grpcapi.Authn.Credentials.{default_extract_http}
use grpcapi.Authn.Interceptor.{
  HttpOptions, HttpResponse, pass, http_middleware, is_anonymous, with_principal, enter, intercept,
}

module _ (w : World) where
  -- The principal that `authenticate` finds in the credentials of a request: one that an authenticator of the
  -- chain gave for single credentials, as the enrichers left it, or none, and then the request has no
  -- credentials that count.
  abbrev pub IsIdentified :
      Interceptor w → w.Ambient → Bool → Credentials → Option (Principal w) → Type 0
  IsIdentified i ctx anonymous creds none = IsUnidentified w ctx creds i anonymous
  IsIdentified i ctx anonymous creds (some p) =
      IsSingle w ctx creds i
      × (q : Principal w) × Answers w ctx creds i.chain (ok (some q))
      × (enrich w i.opts.enrichers ctx q ≡ ok p)

  authenticate-IsIdentified :
      (i : Interceptor w) (ctx : w.Ambient) (anonymous : Bool) (creds : Credentials)
      (p : Option (Principal w))
      → (authenticate w i ctx anonymous creds).1 ≡ ok p
      → IsIdentified i ctx anonymous creds p
  authenticate-IsIdentified i ctx anonymous creds none h =
      authenticate-IsUnidentified w ctx creds i anonymous h
  authenticate-IsIdentified i ctx anonymous creds (some p) h =
      authenticate_sound w ctx creds i anonymous p h

  -- The context that `enter` gives to the handler.
  abbrev pub IsEntered : Interceptor w → Context w → Option Peer → String → Context w → Type 0
  IsEntered i ctx pr full_method inner =
      (creds : Credentials) × (p : Option (Principal w)) × (or_else i.opts.extractor
          (default_extractor w) ctx.ambient full_method ctx.metadata pr
        ≡ ok creds)
      × IsIdentified i ctx.ambient (is_anonymous w i full_method) creds p
      × (inner ≡ with_principal w ctx p)

  enter-IsEntered :
      (i : Interceptor w) (ctx : Context w) (pr : Option Peer) (full_method : String)
      (inner : Context w)
      → (enter w i ctx pr full_method).1 ≡ ok inner
      → IsEntered i ctx pr full_method inner
  unfolding enter
  enter-IsEntered i ctx pr full_method inner h =
      elim (Result-cases
        (or_else i.opts.extractor (default_extractor w) ctx.ambient full_method ctx.metadata pr)) [
          | inr (e, same) ↦ absurd (ground arith)
          | inl (creds, same) ↦
              elim (Result-cases
                (authenticate w i ctx.ambient (is_anonymous w i full_method) creds).1) [
                  | inr (e, bad) ↦ absurd (ground arith)
                  | inl (p, found) ↦ (
                    creds,
                    p,
                    same,
                    authenticate-IsIdentified i ctx.ambient _ creds p found,
                    sym (ok_inj _ inner (rw (enter, same, found) at h)),
                  )
                ]
        ]

  pass_inj : (a b : Context w) → ◌≡◌ {A = HttpResponse w} (pass a) (pass b) → a ≡ b
  pass_inj a b h = cc

  -- The context that the middleware gives to a route.
  abbrev pub IsRouted :
      Interceptor w → String → HttpOptions w → Context w → HttpRequest → Context w → Type 0
  IsRouted i full_method opts ctx r inner =
      (creds : Credentials) × (p : Option (Principal w)) × (or_else opts.extractor
          (λ a m q. ok (default_extract_http m q)) ctx.ambient full_method r
        ≡ ok creds)
      × IsIdentified i ctx.ambient opts.anonymous creds p
      × (inner ≡ with_principal w ctx p)

  pub http_middleware-IsRouted :
      (i : Interceptor w) (full_method : String) (opts : HttpOptions w) (ctx : Context w)
      (r : HttpRequest) (inner : Context w)
      → (http_middleware w i full_method opts ctx r).1 ≡ pass inner
      → IsRouted i full_method opts ctx r inner
  unfolding http_middleware
  http_middleware-IsRouted i full_method opts ctx r inner h =
      elim (Result-cases (
        or_else opts.extractor (λ a m q. ok (default_extract_http m q)) ctx.ambient full_method
          r)) [
            | inr (e, same) ↦ absurd (ground arith)
            | inl (creds, same) ↦
                elim (Result-cases (authenticate w i ctx.ambient opts.anonymous creds).1) [
                  | inr (e, bad) ↦ absurd (ground arith)
                  | inl (p, found) ↦
                      let given : with_principal w ctx p ≡ inner =
                        pass_inj _ inner (rw (http_middleware, same, found) at h) in
                      (
                        creds,
                        p,
                        same,
                        authenticate-IsIdentified i ctx.ambient opts.anonymous creds p found,
                        sym given,
                      )
                ]
          ]

  intercept-entered :
      {A : Type 0} (i : Interceptor w) (ctx : Context w) (pr : Option Peer) (full_method : String)
      (handler : Context w → Run w A) (inner : Context w)
      → (enter w i ctx pr full_method).1 ≡ ok inner
      → (intercept w i ctx pr full_method handler).1 ≡ handler inner
  unfolding intercept
  intercept-entered i ctx pr full_method handler inner same = rw (intercept, same) refl

  intercept-refused :
      {A : Type 0} (i : Interceptor w) (ctx : Context w) (pr : Option Peer) (full_method : String)
      (handler : Context w → Run w A) (e : w.Failure)
      → (enter w i ctx pr full_method).1 ≡ err e
      → (intercept w i ctx pr full_method handler).1 ≡ ([], err e)
  unfolding intercept
  intercept-refused i ctx pr full_method handler e same = rw (intercept, same) refl

  -- Authentication in front of authorization: a unary call either does not run the handler and ends with an
  -- error that is not nil, or runs it, and then it is exempt or its policy authorizes the request of the
  -- principal that was found: one that an authenticator gave for credentials of one value and, when
  -- several kinds are rejected, of one kind, as the enrichers left it, or, for credentials that are absent or
  -- ignored as invalid on a public method or whose check failed with a status that is OK, the principal that
  -- the context carried before.
  pub intercept-LetThrough :
      {Reply : Type 0} (i : Interceptor w) (set : OperationSet w) (opts : InterceptorOptions w)
      (z : AuthzInterceptor w) (ctx : Context w) (pr : Option Peer) (req : w.Request)
      (full_method : String) (handler : Context w → w.Request → Result w.Failure (Option Reply))
      → new_interceptor w (some set) none opts ≡ ok z
      → let call =
          (intercept w i ctx pr full_method (λ inner. unary w z inner req full_method handler)).1 in
        ((any is_served call.0 ≡ true)
          × (inner : Context w) × IsEntered i ctx pr full_method inner
          × LetThrough w set z inner req full_method)
        ⊎ ((any is_served call.0 ≡ false) × Fails w call)
  intercept-LetThrough i set opts z ctx pr req full_method handler h =
      elim (Result-cases (enter w i ctx pr full_method).1) [
        | inr (e, same) ↦
            rw
              (intercept-refused i ctx pr full_method
                (λ inner. unary w z inner req full_method handler) e same)
              (inr (refl, (e, refl)))
        | inl (inner, same) ↦
            rw
              (intercept-entered i ctx pr full_method
                (λ inner. unary w z inner req full_method handler) inner same)
              (elim (unary-LetThrough w set opts z inner req full_method handler h) [
                | inl (runs, through) ↦
                    inl (runs, inner, enter-IsEntered i ctx pr full_method inner same, through)
                | inr idle ↦ inr idle
              ])
      ]

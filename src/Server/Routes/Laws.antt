-- ===== src/Server/Routes/Laws.antt =====
-- server/registration.go and server/server.go: when the handler of a route runs.
use grpcapi.Base.{
  ◌≡◌, refl, ◌⊎◌, inl, inr, true, false, not, ◌&&◌, Option, none, some, arith, Bool-cases,
  Option-cases, is_some, ok_inj, ok,
}
use grpcapi.Status.{World, Status}
use grpcapi.Http.{HttpRequest}
use grpcapi.Policy.Spec.{Policy, Operation}
use grpcapi.Authz.Calls.{Context, Decider}
use grpcapi.Authz.Middleware.{
  Response, HttpOptions, http_middleware, pass as passed, refuse as refused,
}
use grpcapi.Authz.Middleware.Laws.{RouteAllowed, http_middleware-pass}
use grpcapi.Authn.Authenticate.{Interceptor}
use grpcapi.Authn.Interceptor
use grpcapi.Authn.Interceptor.Laws.{IsRouted, http_middleware-IsRouted}
use grpcapi.Server.Routes.{
  ExtraRoute, public_policy, is_negative, operation, route_operation, RouteAnswer, run, serve_route,
}

-- The policy of a route: it is public and has none of its own, or it is not and has this one.
abbrev pub IsPoliced : ExtraRoute → Operation → Type 0
IsPoliced r op =
    ((r.is_public ≡ true) × (r.policy ≡ none) × (op.policy ≡ public_policy))
    ⊎ ((p : Policy) × (r.is_public ≡ false) × (r.policy ≡ some p) × (op.policy ≡ p))

operation-ok :
    (r : ExtraRoute) (op : Operation)
    → operation r ≡ ok op
    → (route_operation r ≡ op) × (r.is_public ≡ not (is_some r.policy))
unfolding operation
operation-ok r op h = elim (Bool-cases r.has_handler) [
  | inr missing ↦ absurd (ground arith)
  | inl here ↦ elim (Bool-cases (r.is_public && is_some r.policy)) [
    | inl both ↦ absurd (ground arith)
    | inr apart ↦ elim (Bool-cases (not r.is_public && not (is_some r.policy))) [
      | inl neither ↦ absurd (ground arith)
      | inr one ↦ elim (Bool-cases (is_negative r.max_body_bytes)) [
        | inl negative ↦ absurd (ground arith)
        | inr fits ↦ (ok_inj _ op (rw (operation, here, apart, one, fits) at h), ground arith)
      ]
    ]
  ]
]

operation-IsPoliced : (r : ExtraRoute) (op : Operation) → operation r ≡ ok op → IsPoliced r op
unfolding route_operation
operation-IsPoliced r op h =
    let (same, only) = operation-ok r op h in
    elim (Option-cases r.policy) [
      | inl unset ↦ inl (rw unset at only, unset, rw (← same, route_operation, unset) refl)
      | inr (p, set) ↦ inr (p, rw set at only, set, rw (← same, route_operation, set) refl)
    ]

run_inj : (w : World) (a b : Context w) → ◌≡◌ {A = RouteAnswer w} (run a) (run b) → a ≡ b
run_inj w a b h = cc

Response-cases : (a : Response) → (a ≡ passed) ⊎ ((st : Option Status) × (a ≡ refused st))
Response-cases passed = inl refl
Response-cases (refused st) = inr (st, refl)

HttpResponse-cases :
    (w : World) (a : Interceptor.HttpResponse w)
    → ((ctx : Context w) × (a ≡ Interceptor.pass ctx))
      ⊎ ((e : w.Failure) × (a ≡ Interceptor.refuse e))
HttpResponse-cases w (Interceptor.pass ctx) = inl (ctx, refl)
HttpResponse-cases w (Interceptor.refuse e) = inr (e, refl)

module _ (w : World) (as_request : HttpRequest → w.Request) where
  -- The handler of a route that `operation` has accepted runs only when the decider allows the request for the
  -- route's operation, with the principal that was found in the request's credentials or, if none was found, with the
  -- one that the context carried, and the operation has the policy of the route: the anonymous one only if the
  -- route was made public and has no other, and else the one that it requires.
  pub serve_route-run :
      (r : ExtraRoute) (op : Operation) (i : Interceptor w) (decider : Decider w)
      (opts : HttpOptions w) (ctx inner : Context w) (req : HttpRequest)
      → operation r ≡ ok op
      → (serve_route w as_request i decider opts op ctx req).1 ≡ run inner
      → IsPoliced r op
        × IsRouted w i op.id
            (record { anonymous = op.policy.anonymous; extractor = none })
            ctx
            req
            inner
        × RouteAllowed w as_request (some decider) op inner req
  unfolding serve_route
  serve_route-run r op i decider opts ctx inner req accepted h =
      let http : Interceptor.HttpOptions w = record {
        anonymous = op.policy.anonymous;
        extractor = none;
      } in
      elim (HttpResponse-cases w (Interceptor.http_middleware w i op.id http ctx req).1) [
        | inr (e, bad) ↦ absurd (ground arith)
        | inl (given, found) ↦
            elim (Response-cases (http_middleware w as_request (some decider) op opts given req)) [
              | inr (st, bad) ↦ absurd (ground arith)
              | inl allowed ↦
                  let same : given ≡ inner =
                    run_inj w given inner (rw (serve_route, found, allowed) at h) in
                  (
                    operation-IsPoliced r op accepted,
                    http_middleware-IsRouted w i op.id http ctx req inner (rw same at found),
                    http_middleware-pass w as_request (some decider) op opts inner req
                        (rw same at allowed),
                  )
            ]
      ]

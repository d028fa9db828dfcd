-- ===== src/Authz/Middleware/Laws.antt =====
-- authz/http.go: when the route behind the middleware runs.
use grpcapi.Base.{
  ◌≡◌, refl, inl, inr, true, false, Option, none, some, arith, Bool-cases, Option-cases,
  Result-cases, ok,
}
use grpcapi.Status.{World}
use grpcapi.Http.{HttpRequest}
use grpcapi.Policy.Spec.{Operation}
use grpcapi.Policy.OperationSet.{OperationSet}
use grpcapi.Authz.Decide.{Decision}
use grpcapi.Authz.Calls.{Context, AuthzRequest, Decider}
use grpcapi.Authz.Middleware.{
  pass, HttpOptions, http_middleware_for, http_middleware, http_resolve, http_decide,
}

module _ (w : World) (as_request : HttpRequest → w.Request) where
  -- The request that a route makes of the decider, with the headers of the HTTP request and a resource.
  abbrev pub route_request :
      Operation → Context w → HttpRequest → Option w.Resource → AuthzRequest w
  route_request op ctx r resource = record {
    eval = record {
      operation = op;
      principal = ctx.principal;
      request = some (as_request r);
      metadata = r.header;
      resource = resource;
    };
    stream = false;
  }

  -- A decider allows the request of a route, with some resource.
  abbrev pub RouteAllowed : Option (Decider w) → Operation → Context w → HttpRequest → Type 0
  RouteAllowed decider op ctx req =
      (decide : Decider w) × (resource : Option w.Resource) × (d : Decision) × (decider
        ≡ some decide)
      × (decide ctx.ambient (route_request op ctx req resource) ≡ ok d)
      × (d.allow ≡ true)

  http_decide-pass :
      (decider : Decider w) (ctx : Context w) (op : Operation) (req : AuthzRequest w)
      → http_decide w decider ctx op req ≡ pass
      → (d : Decision) × (decider ctx.ambient req ≡ ok d) × (d.allow ≡ true)
  unfolding http_decide
  http_decide-pass decider ctx op req h = elim (Result-cases (decider ctx.ambient req)) [
    | inl (d, e) ↦ elim (Bool-cases d.allow) [
      | inl allow ↦ (d, e, allow)
      | inr refused ↦ ground arith
    ]
    | inr (f, e) ↦ elim (Option-cases (w.from_error f)) [
      | inl bare ↦ ground arith
      | inr (st, carried) ↦ ground arith
    ]
  ]

  pub http_middleware-pass :
      (decider : Option (Decider w)) (op : Operation) (opts : HttpOptions w) (ctx : Context w)
      (req : HttpRequest)
      → http_middleware w as_request decider op opts ctx req ≡ pass
      → RouteAllowed decider op ctx req
  unfolding http_middleware http_resolve
  http_middleware-pass none op opts ctx req h = cc
  http_middleware-pass (some decider) op opts ctx req h =
      elim (Option-cases opts.resource_resolver) [
        | inl unset ↦
            let (d, e, a) =
              http_decide-pass decider ctx op (route_request op ctx req none)
                (rw (unset, http_middleware) at h) in
            (decider, none, d, refl, e, a)
        | inr (resolver, set) ↦
            elim (Result-cases (resolver ctx.ambient (route_request op ctx req none))) [
              | inl (resource, got) ↦
                  let (d, e, a) =
                    http_decide-pass decider ctx op (route_request op ctx req resource)
                      (rw (set, got, http_middleware) at h) in
                  (decider, resource, d, refl, e, a)
              | inr (f, failed) ↦ ground arith
            ]
      ]

  -- The route behind the middleware that looks its operation up runs only when the resolver knows
  -- the operation and there is a decider that allows the request for that operation.
  pub http_middleware_for-pass :
      (set : Option (OperationSet w)) (decider : Option (Decider w))
      (resolve : Option (HttpRequest → Option Operation)) (opts : HttpOptions w) (ctx : Context w)
      (req : HttpRequest)
      → http_middleware_for w as_request set decider resolve opts ctx req ≡ pass
      → (find : HttpRequest → Option Operation) × (op : Operation) × (resolve ≡ some find)
        × (find req ≡ some op)
        × RouteAllowed decider op ctx req
  unfolding http_middleware_for
  http_middleware_for-pass none decider resolve opts ctx req h = cc
  http_middleware_for-pass (some set) decider none opts ctx req h = cc
  http_middleware_for-pass (some set) decider (some find) opts ctx req h =
      elim (Option-cases (find req)) [
        | inl unknown ↦ ground arith
        | inr (op, known) ↦ (
          find,
          op,
          refl,
          known,
          http_middleware-pass decider op opts ctx req (rw (known, http_middleware_for) at h),
        )
      ]

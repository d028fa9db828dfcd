-- ===== src/Authz/Middleware.antt =====
-- authz/http.go: the middleware of a route that is not a gRPC method. The log lines are left out; the
-- response to an error is the error that `writeHTTPError` is given, none for a nil one.
pub mod Laws
use grpcapi.Base.{String, false, not, ◌&&◌, Option, none, some, if◌then◌else◌, is_some, ok, err}
use grpcapi.Status.{
  World, Code, Status, is_ok, code_or, internal, permission_denied, unauthenticated,
}
use grpcapi.Http.{Header, HttpRequest}
use grpcapi.Policy.Spec.{Operation, EvalContext}
use grpcapi.Policy.OperationSet.{OperationSet}
use grpcapi.Authz.Decide.{Decision}
use grpcapi.Authz.Calls.{Context, AuthzRequest, Decider, ResourceResolver, status_of}

-- What the middleware does with a request.
pub data Response : Type 0 where
  -- next.ServeHTTP
  pass : Response
  -- writeHTTPError
  refuse : Option Status → Response

module _ (w : World) where
  pub record HttpOptions : Type 0 where
    pub resource_resolver : Option (ResourceResolver w)

  abbrev internal_error : String → Response
  internal_error message = refuse (some (status_of internal message))

  http_code : Context w → Operation → Decision → Code
  http_code ctx op d = code_or d.code (
      if not (is_some ctx.principal) && not op.policy.anonymous
      then unauthenticated
      else permission_denied)

  abbrev http_message : Code → String
  http_message Code.unauthenticated = "unauthenticated"
  http_message _ = "permission denied"

  http_deny : Context w → Operation → Decision → Response
  unfolding http_code
  http_deny ctx op d = let c = http_code ctx op d in refuse (some (status_of c (http_message c)))

  -- `st.Err()` is nil for the code OK.
  http_decider_error : w.Failure → Response
  http_decider_error e = elim (w.from_error e) [
    | some st ↦ refuse (if is_ok st.code then none else some st)
    | none ↦ internal_error "authorization decision failed"
  ]

  unfoldable pub http_decide : Decider w → Context w → Operation → AuthzRequest w → Response
  unfolding http_decider_error http_deny
  http_decide decider ctx op req = elim (decider ctx.ambient req) [
    | err e ↦ http_decider_error e
    | ok d ↦ (if d.allow then pass else http_deny ctx op d)
  ]

  unfoldable pub http_resolve :
      Decider w → HttpOptions → Context w → Operation → AuthzRequest w → Response
  unfolding http_decide
  http_resolve decider opts ctx op req = elim opts.resource_resolver [
    | none ↦ http_decide decider ctx op req
    | some resolver ↦ elim (resolver ctx.ambient req) [
      | err e ↦ internal_error "authorization resource resolution failed"
      | ok resource ↦
          http_decide decider ctx op
            (record { eval = record (req.eval) { resource = resource }; stream = req.stream })
    ]
  ]

  -- `headerMap`, which copies
  abbrev pub header_map : Header → Header
  header_map h = h

  -- Predicates are given the request as a value.
  module _ (as_request : HttpRequest → w.Request) where
    -- `HTTPMiddleware`
    unfoldable pub http_middleware :
        Option (Decider w) → Operation → HttpOptions → Context w → HttpRequest → Response
    unfolding http_resolve
    http_middleware none op opts ctx r = internal_error "authorization unavailable"
    http_middleware (some decider) op opts ctx r = http_resolve decider opts ctx op (record {
      eval = record {
        operation = op;
        principal = ctx.principal;
        request = some (as_request r);
        metadata = header_map r.header;
        resource = none;
      };
      stream = false;
    })

    -- `HTTPMiddlewareFor`
    unfoldable pub http_middleware_for :
        Option (OperationSet w)
        → Option (Decider w)
        → Option (HttpRequest → Option Operation)
        → HttpOptions
        → Context w
        → HttpRequest
        → Response
    unfolding http_middleware
    http_middleware_for none decider resolve opts ctx r = internal_error "authorization unavailable"
    http_middleware_for (some set) decider none opts ctx r =
        internal_error "authorization unavailable"
    http_middleware_for (some set) decider (some resolve) opts ctx r = elim (resolve r) [
      | none ↦ internal_error "no authorization policy for route"
      | some op ↦ http_middleware decider op opts ctx r
    ]

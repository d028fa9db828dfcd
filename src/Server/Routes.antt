-- ===== src/Server/Routes.antt =====
-- server/registration.go and server/server.go: the routes that are not gRPC methods, and what stands in
-- front of their handlers. The limit on a request's body is left out.
pub mod Laws
use grpcapi.Base.{
  String, Bool, true, false, not, ◌&&◌, Option, none, some, List, [], ◌∷◌, ◌==◌, if◌then◌else◌,
  is_some, or_else, str_append, Result, ℤ, ltz, to_upper, ok, err, pos,
}
use grpcapi.Status.{World, Status}
use grpcapi.Principal.{Principal}
use grpcapi.Http.{HttpRequest}
use grpcapi.Policy.Spec.{
  Match, any_match, all_match, default_match, Requirement, Policy, zero_policy, Exposure,
  OperationKind, StreamAuthMode, Operation, label,
}
use grpcapi.Authz.Calls.{Context, Decider}
use grpcapi.Authz.Middleware
use grpcapi.Authz.Middleware.{http_middleware}
use grpcapi.Authn.Authenticate.{Interceptor}
use grpcapi.Authn.Interceptor
use grpcapi.Surface.Path.{normalize_path}

-- `ExtraRoute`; the handler is there or nil.
pub record ExtraRoute : Type 0 where
  pub id : String
  pub method : String
  pub path : String
  pub has_handler : Bool
  pub policy : Option Policy
  pub is_public : Bool
  pub exposure : Exposure
  pub label : String
  pub max_body_bytes : ℤ

-- `Handle`
unfoldable pub handle : String → String → Bool → ExtraRoute
handle method path has_handler = record {
  id = "";
  method = to_upper method;
  path = normalize_path path;
  has_handler = has_handler;
  policy = none;
  is_public = false;
  exposure = Exposure.unspecified;
  label = "";
  max_body_bytes = pos 0;
}

-- `Public`
unfoldable pub make_public : ExtraRoute → ExtraRoute
make_public r = record r { is_public = true; policy = none }

-- `Require`
unfoldable pub require : Policy → ExtraRoute → ExtraRoute
require p r = record r { is_public = false; policy = some p }

abbrev one_requirement : String → Match → List String → Policy
one_requirement kind match values = record zero_policy {
  require =
      record { kind = kind; vocabulary = ""; match = match; values = values; params = [] } ∷ [];
}

-- `Authenticated`, `Roles`, `Permissions` and `Scopes`
unfoldable pub authenticated : ExtraRoute → ExtraRoute
unfolding require
authenticated r = require (one_requirement "authenticated" default_match []) r

unfoldable pub roles : List String → ExtraRoute → ExtraRoute
unfolding require
roles values r = require (one_requirement "role" any_match values) r

unfoldable pub permissions : List String → ExtraRoute → ExtraRoute
unfolding require
permissions values r = require (one_requirement "permission" all_match values) r

unfoldable pub scopes : List String → ExtraRoute → ExtraRoute
unfolding require
scopes values r = require (one_requirement "scope" any_match values) r

-- `Internal`
unfoldable pub make_internal : ExtraRoute → ExtraRoute
make_internal r = record r { exposure = Exposure.internal }

abbrev pub public_policy : Policy
public_policy = record zero_policy { anonymous = true }

abbrev is_negative : ℤ → Bool
is_negative z = ltz z (pos 0)

route_exposure : ExtraRoute → Exposure
route_exposure r = elim r.exposure [
  | Exposure.unspecified ↦ if r.is_public then Exposure.public else Exposure.hidden
  | e ↦ e
]

-- The operation of a route that has passed the checks.
unfoldable pub route_operation : ExtraRoute → Operation
unfolding route_exposure label
route_operation r =
    let p = or_else r.policy public_policy in
    record {
      id = if r.id == "" then str_append (to_upper r.method) (str_append " " r.path) else r.id;
      kind = OperationKind.http;
      service = "http";
      api = "";
      policy = p;
      exposure = route_exposure r;
      label = if r.label == "" then label p else r.label;
      operation_id = "";
      streaming = false;
      stream_auth = StreamAuthMode.unset;
      request_fields = [];
      metadata = ("method", to_upper r.method) ∷ ("path", r.path) ∷ [];
    }

unfoldable pub operation : ExtraRoute → Result String Operation
unfolding route_operation
operation r =
    if not r.has_handler
    then err "handler is nil"
    else if r.is_public && is_some r.policy
    then err "Public and Policy are mutually exclusive"
    else if not r.is_public && not (is_some r.policy)
    then err "must be Public() or carry a Policy"
    else if is_negative r.max_body_bytes
    then err "MaxBodyBytes cannot be negative"
    else ok (route_operation r)

-- What happens to a request for a route.
pub data RouteAnswer (w : World) : Type 0 where
  -- the route's handler is called with this context
  run : Context w → RouteAnswer w
  -- the authenticator writes this error
  unidentified : w.Failure → RouteAnswer w
  -- the authorization writes this error, none for a nil one
  unauthorized : Option Status → RouteAnswer w

-- The request is the value that predicates are given.
module _ (w : World) (as_request : HttpRequest → w.Request) where
  unfoldable pub serve_route :
      Interceptor w
      → Decider w
      → Middleware.HttpOptions w
      → Operation
      → Context w
      → HttpRequest
      → List w.Failure × RouteAnswer w
  serve_route i decider opts op ctx r =
      let (reported, answer) =
        Interceptor.http_middleware w i op.id
          (record { anonymous = op.policy.anonymous; extractor = none }) ctx r in
      elim answer [
        | Interceptor.refuse e ↦ (reported, unidentified e)
        | Interceptor.pass inner ↦
            elim (http_middleware w as_request (some decider) op opts inner r) [
              | Middleware.pass ↦ (reported, run inner)
              | Middleware.refuse st ↦ (reported, unauthorized st)
            ]
      ]

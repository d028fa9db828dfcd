-- ===== src/Tests/Serving.antt =====
-- Errors, routes and groups of a server on concrete values.
use grpcapi.Base.{
  ℕ, String, ◌≡◌, refl, ◌↔◌, inl, true, false, Option, none, some, List, [], ◌∷◌, All, ℤ, pos,
}
use grpcapi.Status.{Code}
use grpcapi.Http.{HttpRequest}
use grpcapi.Policy.Spec.{zero_policy}
use grpcapi.Policy.OperationSet.{operations}
use grpcapi.Authz.Interceptor.{requirement_decider}
use grpcapi.Authz.Middleware.Laws.{RouteAllowed}
use grpcapi.Authn.Authenticate.{reject_multiple, reject_invalid, Interceptor}
use grpcapi.Authn.Interceptor.Laws.{IsRouted}
use grpcapi.Chain.{Stage}
use grpcapi.Surface.{Surface}
use grpcapi.Gateway.Errors.{ErrorOptions, encode_error}
use grpcapi.Gateway.Errors.Laws.{is_error_status, encode_error_lem}
use grpcapi.Server.Routes.{ExtraRoute, handle, roles, operation, route_operation}
use grpcapi.Server.Routes.Laws.{IsPoliced, serve_route-run}
use grpcapi.Server.Groups.{Registration, ApiConfig, ApiGroup, build_groups}
use grpcapi.Server.Groups.Laws.{IsApart, build_groups-IsApart}
use grpcapi.Server.Checks.{validate_auth_chain}
use grpcapi.Server.Checks.Laws.{IsGuarded, validate_auth_chain_iff}
use grpcapi.Tests.{TestFailure, text, test_world, test_set, alice_context, cart_service}

abbrev plain_options : ErrorOptions
plain_options = record {
  code_to_http = λ c. none;
  code_string = none;
  sanitize = none;
  disable_retry_after = false;
}

abbrev code_name : Code → String
code_name c = "Code"

abbrev decimal : ℕ → String
decimal n = "n"

abbrev whole_seconds : ℕ → ℕ
whole_seconds delay = 1

abbrev no_details : TestFailure → List (Option ℕ)
no_details e = []

-- Two failures inside the server, which are told alike.
encode_error_lem_example :
    let r =
      encode_error test_world code_name decimal no_details whole_seconds plain_options "id"
        (text "a password") in
    (is_error_status r.status ≡ true)
    × (Code.internal ≡ Code.internal
        → true ≡ true
        → r.body
          ≡ (encode_error test_world code_name decimal no_details whole_seconds plain_options "id"
              (text "another")).body)
unfolding grpcapi.Gateway.Errors.sanitize
encode_error_lem_example =
    encode_error_lem test_world code_name decimal no_details whole_seconds plain_options "id"
      (text "a password") (text "another") refl refl

abbrev report_route : ExtraRoute
report_route = record (handle "get" "reports/" true) {
  policy = some (record zero_policy { anonymous = true });
}

abbrev nobody : Interceptor test_world
nobody = record {
  chain = [];
  opts = record {
    multiple_credential_policy = reject_multiple;
    invalid_credential_policy = reject_invalid;
    invalid_credential_by_kind = λ kind. none;
    is_anonymous = none;
    extractor = none;
    enrichers = [];
    on_failure = false;
  };
}

abbrev report_request : HttpRequest
report_request = record {
  method = "GET";
  path = "/reports";
  host = "shop.example";
  header = [];
  query = [];
  remote_addr = "";
  tls = none;
}

abbrev path_of : HttpRequest → String
path_of r = r.path

serve_route-run_example :
    IsPoliced report_route (route_operation report_route)
    × IsRouted test_world nobody "GET /reports"
        (record { anonymous = true; extractor = none })
        alice_context
        report_request
        alice_context
    × RouteAllowed test_world path_of
        (some (requirement_decider test_world test_set))
        (route_operation report_route)
        alice_context
        report_request
unfolding operation handle grpcapi.Server.Routes.serve_route
    grpcapi.Authn.Interceptor.http_middleware grpcapi.Authn.Credentials.default_extract_http
    grpcapi.Authn.Credentials.bearer_tokens grpcapi.Authn.Credentials.has_client_cert
    grpcapi.Authz.Middleware.http_middleware requirement_decider grpcapi.Authz.Decide.decide_policy
    grpcapi.Authz.Decide.requirements_of grpcapi.Base.to_upper grpcapi.Surface.Path.normalize_path
    grpcapi.Base.has_prefix grpcapi.Base.contains_text grpcapi.Base.trim_right
serve_route-run_example =
    serve_route-run test_world path_of report_route (route_operation report_route) nobody
      (requirement_decider test_world test_set) (record { resource_resolver = none }) alice_context
      alice_context report_request refl refl

abbrev shop_api : ApiConfig
shop_api = record { name = "shop"; prefix = "v1/"; services = [] }

abbrev admin_api : ApiConfig
admin_api = record { name = "admin"; prefix = "/v2"; services = [] }

abbrev cart_registration : Registration
cart_registration = record {
  api = "shop";
  descriptor = some cart_service;
  has_grpc = true;
  has_http = true;
  allow_api_mismatch = false;
}

abbrev shop_groups : List ApiGroup
shop_groups =
    record { name = "admin"; prefix = "/v2"; regs = [] }
    ∷ record { name = "shop"; prefix = "/v1"; regs = cart_registration ∷ [] }
    ∷ []

build_groups-IsApart_example : All (λ a. All (IsApart a) shop_groups) shop_groups
unfolding build_groups grpcapi.Base.trim_space grpcapi.Surface.Path.normalize_path
    grpcapi.Base.has_prefix grpcapi.Base.contains_text grpcapi.Base.trim_right
build_groups-IsApart_example =
    build_groups-IsApart (shop_api ∷ admin_api ∷ []) [] (cart_registration ∷ []) shop_groups refl

abbrev stage : String → ℤ → Stage String String
stage name order = record { name = name; order = order; unary = some name; stream = some name }

abbrev guards : List (Stage String String)
guards = stage "authn" (pos 10) ∷ stage "authz" (pos 20) ∷ []

validate_auth_chain_iff_example :
    (validate_auth_chain false false true guards test_set ≡ none) ↔ IsGuarded guards test_set true
unfolding operations
validate_auth_chain_iff_example = validate_auth_chain_iff true guards test_set (inl refl)

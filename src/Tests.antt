-- ===== src/Tests.antt =====
-- Concrete values, runs of the definitions on them, and one application of each theorem of the
-- results. Nothing else uses these modules.
pub mod Chains
pub mod Decisions
pub mod Edges
pub mod Identity
pub mod Limits
pub mod Serving
pub mod Manifests
pub mod Startup
pub mod Tables
pub mod Tokens
use grpcapi.Base.{String, refl, true, false, Option, none, some, [], ◌∷◌, ok}
use grpcapi.Status.{World, Code, Status, internal}
use grpcapi.Principal.{Principal}
use grpcapi.Policy.Spec.{
  Match, default_match, any_match, all_match, Requirement, Policy, zero_policy, Exposure,
  StreamAuthMode, OperationKind, Operation,
}
use grpcapi.Policy.Registry.{Registry}
use grpcapi.Policy.Kinds.{default_registry}
use grpcapi.Policy.OperationSet.{OperationSet}
use grpcapi.Policy.Descriptors.{
  MethodDescriptor, ServiceDescriptor, FileDescriptor, FileSpec, ServiceSpec, MethodSpec,
  no_file_spec, no_method_spec, Provider, Options,
}
use grpcapi.Authz.Calls.{mode_open, Context, InterceptorOptions}
use grpcapi.Authz.Interceptor.{Interceptor, normalize, requirement_decider}

-- An error: one that carries a status, or one of text.
pub data TestFailure : Type 0 where
  carrying : Status → TestFailure
  text : String → TestFailure

abbrev carried_status : TestFailure → Option Status
carried_status (carrying st) = some st
carried_status (text m) = none

abbrev pub test_world : World
test_world = record {
  Request = String;
  Resource = Unit {0};
  Raw = Unit {0};
  Ambient = Unit {0};
  Failure = TestFailure;
  from_error = carried_status;
  status_error = carrying;
  plain = text;
  from_error-status_error = λ s h. refl;
  from_error-plain = λ m. refl;
}

abbrev pub alice : Principal test_world
alice = record {
  id = "alice";
  kind = "user";
  claims = ("roles", "editor" ∷ "reader" ∷ []) ∷ ("scopes", "databases:read" ∷ []) ∷ [];
  attrs = [];
  raw = none;
}

abbrev pub role : String → Requirement
role value = record {
  kind = "role";
  vocabulary = "";
  match = default_match;
  values = value ∷ [];
  params = [];
}

abbrev pub requiring : Requirement → Policy
requiring r = record zero_policy { require = r ∷ [] }

-- Editors who are not banned and who read or review.
abbrev pub editors : Policy
editors = record zero_policy {
  require = role "editor" ∷ [];
  any_of = (role "reader" ∷ []) ∷ (role "reviewer" ∷ []) ∷ [];
  forbid = role "banned" ∷ [];
}

abbrev pub operation : String → Policy → StreamAuthMode → Operation
operation id p mode = record {
  id = id;
  kind = OperationKind.grpc;
  service = "shop.Cart";
  api = "shop";
  policy = p;
  exposure = Exposure.public;
  label = "";
  operation_id = "";
  streaming = false;
  stream_auth = mode;
  request_fields = [];
  metadata = [];
}

abbrev pub edit_op : Operation
edit_op = operation "/shop.Cart/Edit" editors StreamAuthMode.on_open

abbrev pub watch_op : Operation
watch_op = operation "/shop.Cart/Watch" editors StreamAuthMode.per_message

abbrev pub test_registry : Registry test_world
test_registry = default_registry test_world

abbrev pub test_set : OperationSet test_world
test_set = record {
  ops = ("/shop.Cart/Edit", edit_op) ∷ ("/shop.Cart/Watch", watch_op) ∷ [];
  registry = test_registry;
  vocab = [];
}

abbrev pub test_options : InterceptorOptions test_world
test_options = record {
  missing_principal_code = Code.ok;
  denied_code = Code.ok;
  missing_policy_code = Code.ok;
  stream_mode = mode_open;
  resource_resolver = none;
  on_decision = true;
  framework_exempt = none;
}

abbrev pub test_interceptor : Interceptor test_world
test_interceptor = record {
  set = test_set;
  decider = requirement_decider test_world test_set;
  opts = normalize test_world test_options;
}

abbrev pub alice_context : Context test_world
alice_context = record { ambient = tt; principal = some alice; metadata = [] }

abbrev pub nobody_context : Context test_world
nobody_context = record { ambient = tt; principal = none; metadata = [] }

-- A file of one service with one method, whose annotations are these.
abbrev pub edit_method : MethodDescriptor
edit_method = record {
  name = "Edit";
  streaming_client = false;
  streaming_server = false;
  input_fields = "id" ∷ [];
}

abbrev pub cart_service : ServiceDescriptor
cart_service = record { full_name = "shop.Cart"; name = "Cart"; methods = edit_method ∷ [] }

abbrev pub cart_file : FileDescriptor
cart_file = record { path = "shop/cart.proto"; package_name = "shop"; services = cart_service ∷ [] }

abbrev pub edit_spec : MethodSpec
edit_spec = record no_method_spec {
  policy = some (record zero_policy { anonymous = true });
  exposure = Exposure.public;
  stream_auth = StreamAuthMode.on_open;
}

abbrev pub test_provider : Provider test_world
test_provider = record {
  file = λ fd. ok (some no_file_spec);
  service = λ sd. ok none;
  method = λ md. ok (some edit_spec);
}

abbrev pub build_options : Options test_world
build_options = record {
  provider = test_provider;
  registry = [];
  vocabulary = [];
  presets = [];
  disable_streaming = true;
  rules = [];
  framework_exempt = λ full. false;
  api_resolver = none;
  include_services = [];
  package_prefixes = "shop" ∷ [];
  max_schema_version = 1;
}

-- ===== src/Policy/Descriptors.antt =====
-- policy/provider.go, policy/rule.go and the inputs of policy/build.go. The protobuf descriptors
-- are not code of the repository: a record holds what the code asks of them.
use grpcapi.Base.{ℕ, String, Bool, false, Option, none, List, Result}
use grpcapi.Status.{World}
use grpcapi.Policy.Spec.{Policy, Exposure, StreamAuthMode, Operation}
use grpcapi.Policy.Vocabulary.{Vocabulary}
use grpcapi.Policy.Registry.{Registry}
use grpcapi.Policy.Preset.{Preset}
use grpcapi.Policy.OperationSet.{OperationSet}

-- protoreflect.MethodDescriptor: `Name`, `IsStreamingClient`, `IsStreamingServer` and the names of
-- `Input().Fields()`.
pub record MethodDescriptor : Type 0 where
  pub name : String
  pub streaming_client : Bool
  pub streaming_server : Bool
  pub input_fields : List String

pub record ServiceDescriptor : Type 0 where
  pub full_name : String
  pub name : String
  pub methods : List MethodDescriptor

pub record FileDescriptor : Type 0 where
  pub path : String
  pub package_name : String
  pub services : List ServiceDescriptor

pub record FileSpec : Type 0 where
  pub api : String
  pub schema_version : ℕ
  pub default_policy : Option Policy
  pub default_exposure : Exposure

pub record ServiceSpec : Type 0 where
  pub default_policy : Option Policy
  pub default_exposure : Exposure
  pub label : String

pub record MethodSpec : Type 0 where
  pub policy : Option Policy
  pub exposure : Exposure
  pub label : String
  pub operation_id : String
  pub inherit_default : Bool
  pub stream_auth : StreamAuthMode

abbrev pub no_file_spec : FileSpec
no_file_spec = record {
  api = "";
  schema_version = 0;
  default_policy = none;
  default_exposure = Exposure.unspecified;
}

abbrev pub no_service_spec : ServiceSpec
no_service_spec = record {
  default_policy = none;
  default_exposure = Exposure.unspecified;
  label = "";
}

abbrev pub no_method_spec : MethodSpec
no_method_spec = record {
  policy = none;
  exposure = Exposure.unspecified;
  label = "";
  operation_id = "";
  inherit_default = false;
  stream_auth = StreamAuthMode.unset;
}

-- The interface `Provider`: `(spec, ok, err)` is a result whose value is none where `ok` is false.
pub record Provider (w : World) : Type 0 where
  pub file : FileDescriptor → Result w.Failure (Option FileSpec)
  pub service : ServiceDescriptor → Result w.Failure (Option ServiceSpec)
  pub method : MethodDescriptor → Result w.Failure (Option MethodSpec)

-- The interface `Rule`; an error that is nil is none.
pub record Rule (w : World) : Type 0 where
  pub name : String
  pub check_operation : Operation → Option w.Failure
  pub check_set : OperationSet w → Option w.Failure

-- `Options` after `Build` has put the defaults in for what is nil or zero, but for a nil rule,
-- which it skips and which is left out here.
pub record Options (w : World) : Type 0 where
  pub provider : Provider w
  pub registry : Registry w
  pub vocabulary : Vocabulary
  pub presets : List (Preset w)
  pub disable_streaming : Bool
  pub rules : List (Rule w)
  pub framework_exempt : String → Bool
  pub api_resolver : Option (FileDescriptor → String)
  pub include_services : List String
  pub package_prefixes : List String
  pub max_schema_version : ℕ

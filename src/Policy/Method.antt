-- ===== src/Policy/Method.antt =====
-- policy/build.go: the operation of one method, from its own declaration and the defaults.
pub mod Laws
use grpcapi.Base.{
  String, Bool, true, false, not, ◌&&◌, ◌||◌, Option, none, some, List, [], ◌∷◌, ◌++◌, ◌==◌,
  if◌then◌else◌, or_else, str_append, is_empty, Result, sort_by, ok, err,
}
use grpcapi.Status.{World}
use grpcapi.Policy.Spec.{Policy, zero_policy, Exposure, StreamAuthMode, Operation, grpc}
use grpcapi.Policy.Vocabulary.{Vocabulary}
use grpcapi.Policy.Registry.{Registry}
use grpcapi.Policy.Validate.{
  Violation, PresetError, provider_failed, missing_policy, missing_exposure, expansion_failed,
  streaming_disabled, client_streaming_exposed, invalid_stream_auth, validate_policy,
}
use grpcapi.Policy.Preset.{PresetSet, expand}
use grpcapi.Policy.Descriptors.{
  MethodDescriptor, ServiceDescriptor, MethodSpec, no_method_spec, Options,
}

unfoldable pub and_policy : Policy → Policy → Policy
and_policy base extra = record {
  preset = extra.preset;
  preset_args = extra.preset_args;
  anonymous =
      base.anonymous && (extra.anonymous || (is_empty extra.require && is_empty extra.any_of));
  require = base.require ++ extra.require;
  any_of = base.any_of ++ extra.any_of;
  forbid = base.forbid ++ extra.forbid;
}

unfoldable pub request_fields : MethodDescriptor → List String
request_fields md = sort_by (λ (s : String). s) md.input_fields

abbrev pub full_method : ServiceDescriptor → MethodDescriptor → String
full_method sd md = str_append "/" (str_append sd.full_name (str_append "/" md.name))

abbrev pub exposure_or : Exposure → Exposure → Exposure
exposure_or Exposure.unspecified d = d
exposure_or e d = e

is_unspecified : Exposure → Bool
is_unspecified Exposure.unspecified = true
is_unspecified e = false

is_gateway : Exposure → Bool
is_gateway Exposure.public = true
is_gateway Exposure.deprecated = true
is_gateway e = false

abbrev stream_auth_or_open : StreamAuthMode → StreamAuthMode
stream_auth_or_open StreamAuthMode.unset = StreamAuthMode.on_open
stream_auth_or_open m = m

valid_stream_auth : StreamAuthMode → Bool
valid_stream_auth StreamAuthMode.on_open = true
valid_stream_auth StreamAuthMode.per_message = true
valid_stream_auth m = false

-- The switch that selects the effective policy; none is its default case.
select : Option Policy → Option Policy → Bool → Option Policy
select (some d) (some m) inherit = some (if inherit then and_policy d m else m)
select none (some m) inherit = some m
select (some d) none inherit = some d
select none none inherit = none

abbrev preset_of : Option Policy → String
preset_of none = ""
preset_of (some p) = p.preset

preset_name : Option Policy → Option Policy → String
preset_name d m = if preset_of m == "" then preset_of d else preset_of m

abbrev without_preset : Policy → Policy
without_preset p = record p { preset = ""; preset_args = [] }

-- What the expansion of the default and of the method's policy left: each is none where it is not
-- declared or failed; the error is that of the later failure.
record Expansion (w : World) : Type 0 where
  default_expanded : Option Policy
  method_expanded : Option Policy
  expand_error : Option (PresetError w)

module _ {w : World} where
  expanded : Option (Result (PresetError w) Policy) → Option Policy
  expanded (some (ok p)) = some p
  expanded r = none

  failure : Option (Result (PresetError w) Policy) → Option (PresetError w) → Option (PresetError w)
  failure (some (err e)) earlier = some e
  failure r earlier = earlier

  expand_option : PresetSet w → Option Policy → Option (Result (PresetError w) Policy)
  expand_option ps none = none
  expand_option ps (some p) = some (expand ps p)

  expand_both : PresetSet w → Option Policy → Option Policy → Expansion w
  unfolding expanded failure expand_option
  expand_both ps default_policy method_policy =
      let d = expand_option ps default_policy in
      let m = expand_option ps method_policy in
      record {
        default_expanded = expanded d;
        method_expanded = expanded m;
        expand_error = failure m (failure d none);
      }

  abbrev when : Bool → Violation w → List (Violation w)
  when b v = if b then v ∷ [] else []

  policy_violations :
      Option Policy → Option (PresetError w) → Policy → Registry w → Vocabulary → List (Violation w)
  policy_violations selected (some e) p reg vocab = expansion_failed e ∷ []
  policy_violations none none p reg vocab = missing_policy ∷ validate_policy p reg vocab
  policy_violations (some q) none p reg vocab = validate_policy p reg vocab

  exposure_violations : MethodDescriptor → Exposure → Bool → StreamAuthMode → List (Violation w)
  unfolding is_unspecified is_gateway valid_stream_auth
  exposure_violations md exposure disable_streaming stream_auth =
      let streaming = md.streaming_client || md.streaming_server in
      when (is_unspecified exposure) missing_exposure
      ++ (when (streaming && disable_streaming) streaming_disabled
          ++ (when (streaming && is_gateway exposure && md.streaming_client)
                client_streaming_exposed
              ++ when (not (valid_stream_auth stream_auth)) invalid_stream_auth))

  -- `buildOperation` for a method whose declaration was read.
  build_declared :
      ServiceDescriptor
      → MethodDescriptor
      → String
      → Option Policy
      → Exposure
      → Options w
      → PresetSet w
      → MethodSpec
      → Operation × List (Violation w)
  unfolding expand_both select preset_name policy_violations exposure_violations
  build_declared sd md api default_policy default_exposure opts presets ms =
      let x = expand_both presets default_policy ms.policy in
      let selected = select x.default_expanded x.method_expanded ms.inherit_default in
      let preset = preset_name x.default_expanded x.method_expanded in
      let policy = without_preset (or_else selected zero_policy) in
      let exposure = exposure_or ms.exposure default_exposure in
      let stream_auth = stream_auth_or_open ms.stream_auth in
      (
        record {
          id = full_method sd md;
          kind = grpc;
          service = sd.full_name;
          api = api;
          policy = policy;
          exposure = exposure;
          label = if ms.label == "" then preset else ms.label;
          operation_id =
              if ms.operation_id == ""
              then str_append sd.name (str_append "_" md.name)
              else ms.operation_id;
          streaming = md.streaming_client || md.streaming_server;
          stream_auth = stream_auth;
          request_fields = request_fields md;
          metadata = if preset == "" then [] else ("preset", preset) ∷ [];
        },
        policy_violations selected x.expand_error policy opts.registry opts.vocabulary
            ++ exposure_violations md exposure opts.disable_streaming stream_auth,
      )

  -- none is the zero operation that comes with the provider's error.
  unfoldable pub build_operation :
      ServiceDescriptor
      → MethodDescriptor
      → String
      → Option Policy
      → Exposure
      → Options w
      → PresetSet w
      → Option Operation × List (Violation w)
  unfolding build_declared
  build_operation sd md api default_policy default_exposure opts presets =
      elim (opts.provider.method md) [
        | err e ↦ (none, provider_failed e ∷ [])
        | ok ms ↦
            let (op, found) =
              build_declared sd md api default_policy default_exposure opts presets
                (or_else ms no_method_spec) in
            (some op, found)
      ]

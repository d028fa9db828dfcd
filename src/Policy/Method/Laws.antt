-- ===== src/Policy/Method/Laws.antt =====
-- policy/build.go: what is checked of each operation before it enters the table.
use grpcapi.Base.{
  String, ◌≡◌, refl, ◌≢◌, ◌⊎◌, inl, inr, false, ◌&&◌, ◌||◌, Option, none, some, [], arith, or_else,
  append-eq-nil, Result-cases,
}
use grpcapi.Policy.Descriptors.{
  no_method_spec, MethodDescriptor, ServiceDescriptor, Options, MethodSpec,
}
use grpcapi.Policy.Method.{
  PresetError, build_operation, build_declared, full_method, policy_violations, exposure_violations,
  expand_both, is_gateway,
}
use grpcapi.Status.{World}
use grpcapi.Policy.Spec.{Policy, Exposure, StreamAuthMode, Operation}
use grpcapi.Policy.Validate.{validate_policy}
use grpcapi.Policy.Preset.{PresetSet}

module _ {w : World} (opts : Options w) where
  -- What the table promises of an operation: its policy is valid, its exposure and its mode of
  -- stream authorization are declared, and it streams only where that is enabled.
  pub record IsChecked (op : Operation) : Type 0 where
    pub valid : validate_policy op.policy opts.registry opts.vocabulary ≡ []
    pub exposed : op.exposure ≢ Exposure.unspecified
    pub authorized :
        (op.stream_auth ≡ StreamAuthMode.on_open) ⊎ (op.stream_auth ≡ StreamAuthMode.per_message)
    pub may_stream : (op.streaming && opts.disable_streaming) ≡ false

  policy_violations-nil :
      (selected : Option Policy) (e : Option (PresetError w)) (p : Policy)
      → policy_violations selected e p opts.registry opts.vocabulary ≡ []
      → validate_policy p opts.registry opts.vocabulary ≡ []
  unfolding policy_violations
  policy_violations-nil selected (some e) p h = cc
  policy_violations-nil none none p h = cc
  policy_violations-nil (some q) none p h = h

  exposure_violations-nil :
      (md : MethodDescriptor) (exposure : Exposure) (m : StreamAuthMode)
      → exposure_violations {w = w} md exposure opts.disable_streaming m ≡ []
      → (exposure ≢ Exposure.unspecified)
        × ((m ≡ StreamAuthMode.on_open) ⊎ (m ≡ StreamAuthMode.per_message))
        × (((md.streaming_client || md.streaming_server) && opts.disable_streaming) ≡ false)
        × ((is_gateway exposure && md.streaming_client) ≡ false)
  unfolding exposure_violations
  exposure_violations-nil md exposure m h = (ground arith, ground arith, ground arith, ground arith)

  build_declared-IsChecked :
      (sd : ServiceDescriptor) (md : MethodDescriptor) (api : String) (policy : Option Policy)
      (exposure : Exposure) (presets : PresetSet w) (ms : MethodSpec)
      → (build_declared sd md api policy exposure opts presets ms).1 ≡ []
      → IsChecked (build_declared sd md api policy exposure opts presets ms).0
  unfolding build_declared
  build_declared-IsChecked sd md api policy exposure presets ms h =
      let x = expand_both presets policy ms.policy in
      let (here, later) =
        append-eq-nil (policy_violations _ x.expand_error _ opts.registry opts.vocabulary) _ h in
      let (exposed, authorized, may_stream, gateway) = exposure_violations-nil md _ _ later in
      record {
        valid = policy_violations-nil _ _ _ here;
        exposed = exposed;
        authorized = authorized;
        may_stream = may_stream;
      }

  -- An operation that is built with no violation is checked, and has the name of its method.
  pub build_operation-IsChecked :
      (sd : ServiceDescriptor) (md : MethodDescriptor) (api : String) (policy : Option Policy)
      (exposure : Exposure) (presets : PresetSet w)
      → (build_operation sd md api policy exposure opts presets).1 ≡ []
      → (op : Operation) × ((build_operation sd md api policy exposure opts presets).0 ≡ some op)
        × IsChecked op
        × (op.id ≡ full_method sd md)
  unfolding build_operation
  build_operation-IsChecked sd md api policy exposure presets h =
      elim (Result-cases (opts.provider.method md)) [
        | inl (ms, e) ↦
            let spec = or_else ms no_method_spec in
            let h' = rw (e, build_operation) at h in
            (
              (build_declared sd md api policy exposure opts presets spec).0,
              rw (e, build_operation) refl,
              build_declared-IsChecked sd md api policy exposure presets spec h',
              refl,
            )
        | inr (e, bad) ↦ let h' = rw (bad, build_operation) at h in cc
      ]

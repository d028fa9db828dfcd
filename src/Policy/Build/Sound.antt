-- ===== src/Policy/Build/Sound.antt =====
-- policy/build.go: every operation that is collected has passed its checks.
use grpcapi.Base.{
  String, ◌≡◌, refl, subst, inl, inr, Option, none, some, List, [], ◌∷◌, Bool-cases, All,
  All-append, Result-cases,
}
use grpcapi.Status.{World}
use grpcapi.Policy.Spec.{Policy, Exposure, Operation}
use grpcapi.Policy.Validate.{Violation}
use grpcapi.Policy.Preset.{PresetSet}
use grpcapi.Policy.Descriptors.{
  MethodDescriptor, ServiceDescriptor, FileDescriptor, FileSpec, Options,
}
use grpcapi.Policy.Method.{build_operation, full_method}
use grpcapi.Policy.Method.Laws.{IsChecked, build_operation-IsChecked}
use grpcapi.Policy.Build.{
  Collected, keep, add_method, add_methods, skips_service, add_service, add_services, check_version,
  skips_file, add_file, add_files,
}

module _ {w : World} (opts : Options w) (presets : PresetSet w) where
  abbrev pub Good : Collected w → Type 0
  Good acc = All (IsChecked opts) acc.ops

  keep-Good :
      (acc : Collected w) (name : String) (o : Option Operation) (found : List (Violation w))
      → Good acc
      → (found ≡ [] → (op : Operation) × (o ≡ some op) × IsChecked opts op)
      → Good (keep acc name (o, found))
  unfolding keep
  keep-Good acc name none found g h = g
  keep-Good acc name (some op) [] g h =
      let (op', e, c) = h refl in
      let same : op' ≡ op = cc in
      All-append (IsChecked opts) acc.ops (op ∷ []) g (subst (IsChecked opts) same c, tt)
  keep-Good acc name (some op) (v ∷ found) g h = g

  module _ (sd : ServiceDescriptor) (api : String) (policy : Option Policy)
      (exposure : Exposure) where
    add_method-Good :
        (acc : Collected w) (md : MethodDescriptor)
        → Good acc
        → Good (add_method opts presets sd api policy exposure acc md)
    unfolding add_method
    add_method-Good acc md g = elim (Bool-cases (opts.framework_exempt (full_method sd md))) [
      | inl exempt ↦ rw exempt g
      | inr checked ↦
          let r = build_operation sd md api policy exposure opts presets in
          rw checked (
            keep-Good acc (full_method sd md) r.0 r.1 g (λ h.
              let (op, e, c, i) =
                build_operation-IsChecked opts sd md api policy exposure presets h in
              (op, e, c)))
    ]

    add_methods-Good :
        (acc : Collected w) (methods : List MethodDescriptor)
        → Good acc
        → Good (add_methods opts presets sd api policy exposure acc methods)
    unfolding add_methods
    add_methods-Good acc [] g = g
    add_methods-Good acc (md ∷ methods) g =
        add_methods-Good (add_method opts presets sd api policy exposure acc md) methods
          (add_method-Good acc md g)

  add_service-Good :
      (acc : Collected w) (api : String) (fs : FileSpec) (sd : ServiceDescriptor)
      → Good acc
      → Good (add_service opts presets acc api fs sd)
  unfolding add_service
  add_service-Good acc api fs sd g = elim (Bool-cases (skips_service opts sd)) [
    | inl skipped ↦ rw skipped g
    | inr kept ↦ elim (Result-cases (opts.provider.service sd)) [
      | inl (ss, e) ↦ rw (kept, e) (add_methods-Good sd api _ _ acc sd.methods g)
      | inr (bad, e) ↦ rw (kept, e) g
    ]
  ]

  add_services-Good :
      (acc : Collected w) (api : String) (fs : FileSpec) (services : List ServiceDescriptor)
      → Good acc
      → Good (add_services opts presets acc api fs services)
  unfolding add_services
  add_services-Good acc api fs [] g = g
  add_services-Good acc api fs (sd ∷ services) g =
      add_services-Good (add_service opts presets acc api fs sd) api fs services
        (add_service-Good acc api fs sd g)

  add_file-Good :
      (acc : Collected w) (fd : FileDescriptor) → Good acc → Good (add_file opts presets acc fd)
  unfolding add_file check_version
  add_file-Good acc fd g = elim (Bool-cases (skips_file opts fd)) [
    | inl skipped ↦ rw skipped g
    | inr kept ↦ elim (Result-cases (opts.provider.file fd)) [
      | inl (fs, e) ↦ rw (kept, e) (add_services-Good _ _ _ fd.services g)
      | inr (bad, e) ↦ rw (kept, e) g
    ]
  ]

  pub add_files-Good :
      (acc : Collected w) (files : List FileDescriptor)
      → Good acc
      → Good (add_files opts presets acc files)
  unfolding add_files
  add_files-Good acc [] g = g
  add_files-Good acc (fd ∷ files) g =
      add_files-Good (add_file opts presets acc fd) files (add_file-Good acc fd g)

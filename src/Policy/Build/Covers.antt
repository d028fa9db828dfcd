-- ===== src/Policy/Build/Covers.antt =====
-- policy/build.go: if nothing was wrong, every method that is not left out is in the table.
use grpcapi.Base.{
  String, ◌≡◌, refl, sym, ap, ◌∙◌, subst, inl, inr, true, false, Option, none, some, List, [], ◌∷◌,
  Memᴰ, arith, ◌==◌, eq_iff, any, any-append, append-eq-nil, Result-cases,
}
use grpcapi.Policy.Build.Steps.{
  add_files-Extends, add_services-Extends, Extends-clean, Extends-any, add_methods-Extends,
}
use grpcapi.Policy.Build.{
  skips_file, FileDescriptor, FileSpec, add_files, add_service, add_file, add_services,
  skips_service, named, Collected, keep, add_method, add_methods,
}
use grpcapi.Status.{World}
use grpcapi.Policy.Spec.{Policy, Exposure, Operation}
use grpcapi.Policy.Validate.{Violation}
use grpcapi.Policy.Preset.{PresetSet}
use grpcapi.Policy.Descriptors.{MethodDescriptor, ServiceDescriptor, Options}
use grpcapi.Policy.Method.{build_operation, full_method}
use grpcapi.Policy.Method.Laws.{build_operation-IsChecked}

module _ {w : World} where
  -- An operation with this ID was collected.
  abbrev pub Collects : Collected w → String → Type 0
  Collects acc name = any (λ (op : Operation). op.id == name) acc.ops ≡ true

  keep-Collects :
      (acc : Collected w) (name : String) (o : Option Operation) (found : List (Violation w))
      → (keep acc name (o, found)).violations ≡ []
      → (found ≡ [] → (op : Operation) × (o ≡ some op) × (op.id ≡ name))
      → Collects (keep acc name (o, found)) name
  unfolding keep named
  keep-Collects acc name (some op) [] clean h =
      let (op', e, i) = h refl in
      let same : op' ≡ op = cc in
      let this : (op.id == name) ≡ true =
        (eq_iff _ _).1 (ap (λ (o : Operation). o.id) (sym same) ∙ i) in
      any-append (λ (op : Operation). op.id == name) acc.ops (op ∷ []) ∙ ground (arith, this)
  keep-Collects acc name (some op) (v ∷ found) clean h =
      let (x, bad) = append-eq-nil acc.violations _ clean in cc
  keep-Collects acc name none [] clean h = let (op, e, i) = h refl in cc
  keep-Collects acc name none (v ∷ found) clean h =
      let (x, bad) = append-eq-nil acc.violations _ clean in cc

module _ {w : World} (opts : Options w) (presets : PresetSet w) where
  module _ (sd : ServiceDescriptor) (api : String) (policy : Option Policy)
      (exposure : Exposure) where
    add_method-Collects :
        (acc : Collected w) (md : MethodDescriptor)
        → (add_method opts presets sd api policy exposure acc md).violations ≡ []
        → opts.framework_exempt (full_method sd md) ≡ false
        → Collects (add_method opts presets sd api policy exposure acc md) (full_method sd md)
    unfolding add_method
    add_method-Collects acc md clean checked =
        let r = build_operation sd md api policy exposure opts presets in
        rw checked (
          keep-Collects acc (full_method sd md) r.0 r.1 (rw checked at clean) (λ h.
            let (op, e, c, i) =
              build_operation-IsChecked opts sd md api policy exposure presets h in
            (op, e, i)))

    add_methods-Collects :
        (acc : Collected w) (methods : List MethodDescriptor) (md : MethodDescriptor)
        → (add_methods opts presets sd api policy exposure acc methods).violations ≡ []
        → Memᴰ md methods
        → opts.framework_exempt (full_method sd md) ≡ false
        → Collects (add_methods opts presets sd api policy exposure acc methods) (full_method sd md)
    unfolding add_methods
    add_methods-Collects acc [] md clean m checked = elim m [ ]
    add_methods-Collects acc (x ∷ methods) md clean (Memᴰ.head e) checked =
        let next = add_method opts presets sd api policy exposure acc x in
        let more = add_methods-Extends opts presets sd api policy exposure next methods in
        let clean' = Extends-clean next _ more clean in
        let exempt = rw e at checked in
        rw e (Extends-any _ next _ more (add_method-Collects acc x clean' exempt))
    add_methods-Collects acc (x ∷ methods) md clean (Memᴰ.tail m) checked =
        add_methods-Collects (add_method opts presets sd api policy exposure acc x) methods md clean
          m checked

  -- The method of a service that is not left out.
  record IsIncluded (sd : ServiceDescriptor) (md : MethodDescriptor) : Type 0 where
    kept : skips_service opts sd ≡ false
    declared : Memᴰ md sd.methods
    checked : opts.framework_exempt (full_method sd md) ≡ false

  add_service-Collects :
      (acc : Collected w) (api : String) (fs : FileSpec) (sd : ServiceDescriptor)
      (md : MethodDescriptor)
      → (add_service opts presets acc api fs sd).violations ≡ []
      → IsIncluded sd md
      → Collects (add_service opts presets acc api fs sd) (full_method sd md)
  unfolding add_service
  add_service-Collects acc api fs sd md clean i = elim (Result-cases (opts.provider.service sd)) [
    | inl (ss, e) ↦
        rw (i.kept, e)
          (add_methods-Collects sd api _ _ acc sd.methods md (rw (i.kept, e) at clean) i.declared
            i.checked)
    | inr (bad, e) ↦
        let (x, no_report) = append-eq-nil acc.violations _ (rw (i.kept, e) at clean) in cc
  ]

  add_services-Collects :
      (acc : Collected w) (api : String) (fs : FileSpec) (services : List ServiceDescriptor)
      (sd : ServiceDescriptor) (md : MethodDescriptor)
      → (add_services opts presets acc api fs services).violations ≡ []
      → Memᴰ sd services
      → IsIncluded sd md
      → Collects (add_services opts presets acc api fs services) (full_method sd md)
  unfolding add_services
  add_services-Collects acc api fs [] sd md clean m i = elim m [ ]
  add_services-Collects acc api fs (x ∷ services) sd md clean (Memᴰ.tail m) i =
      add_services-Collects (add_service opts presets acc api fs x) api fs services sd md clean m i
  add_services-Collects acc api fs (x ∷ services) sd md clean (Memᴰ.head e) i =
      let next = add_service opts presets acc api fs x in
      let more = add_services-Extends opts presets next api fs services in
      let clean' = Extends-clean next _ more clean in
      let i' = subst (λ s. IsIncluded s md) e i in
      rw e (Extends-any _ next _ more (add_service-Collects acc api fs x md clean' i'))

  add_file-Collects :
      (acc : Collected w) (fd : FileDescriptor) (sd : ServiceDescriptor) (md : MethodDescriptor)
      → (add_file opts presets acc fd).violations ≡ []
      → skips_file opts fd ≡ false
      → Memᴰ sd fd.services
      → IsIncluded sd md
      → Collects (add_file opts presets acc fd) (full_method sd md)
  unfolding add_file
  add_file-Collects acc fd sd md clean kept m i = elim (Result-cases (opts.provider.file fd)) [
    | inl (fs, e) ↦
        rw (kept, e) (add_services-Collects _ _ _ fd.services sd md (rw (kept, e) at clean) m i)
    | inr (bad, e) ↦
        let (x, no_report) = append-eq-nil acc.violations _ (rw (kept, e) at clean) in cc
  ]

  pub add_files-Collects :
      (acc : Collected w) (files : List FileDescriptor) (fd : FileDescriptor)
      (sd : ServiceDescriptor) (md : MethodDescriptor)
      → (add_files opts presets acc files).violations ≡ []
      → Memᴰ fd files
      → skips_file opts fd ≡ false
      → Memᴰ sd fd.services
      → skips_service opts sd ≡ false
      → Memᴰ md sd.methods
      → opts.framework_exempt (full_method sd md) ≡ false
      → Collects (add_files opts presets acc files) (full_method sd md)
  unfolding add_files
  add_files-Collects acc [] fd sd md clean m kf ms ks mm c = elim m [ ]
  add_files-Collects acc (x ∷ files) fd sd md clean (Memᴰ.tail m) kf ms ks mm c =
      add_files-Collects (add_file opts presets acc x) files fd sd md clean m kf ms ks mm c
  add_files-Collects acc (x ∷ files) fd sd md clean (Memᴰ.head e) kf ms ks mm c =
      let next = add_file opts presets acc x in
      let more = add_files-Extends opts presets next files in
      let clean' = Extends-clean next _ more clean in
      let ms' = subst (λ (f : FileDescriptor). Memᴰ sd f.services) e ms in
      Extends-any _ next _ more (
        add_file-Collects acc x sd md clean' (rw e at kf) ms'
          (record { kept = ks; declared = mm; checked = c }))

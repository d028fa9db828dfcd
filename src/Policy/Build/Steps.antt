-- ===== src/Policy/Build/Steps.antt =====
-- policy/build.go: what is collected is never dropped again, neither operations nor violations.
use grpcapi.Base.{
  ℕ, String, ◌≡◌, refl, sym, ap, ◌∙◌, inl, inr, Bool, true, Option, none, some, List, [], ◌∷◌, ◌++◌,
  append-nil, append_assoc, arith, Bool-cases, any, any-append, append-eq-nil, Result-cases,
}
use grpcapi.Policy.Build.{
  provider_failed, skips_file, add_method, add_file, add_service, Collected, keep, add_methods,
  skips_service, add_services, check_version, add_files, named, report,
}
use grpcapi.Status.{World}
use grpcapi.Policy.Spec.{Policy, Exposure, Operation}
use grpcapi.Policy.Validate.{Violation}
use grpcapi.Policy.Preset.{PresetSet}
use grpcapi.Policy.Descriptors.{
  MethodDescriptor, ServiceDescriptor, FileDescriptor, FileSpec, Options,
}
use grpcapi.Policy.Method.{build_operation, full_method}

module _ {w : World} where
  -- The second value comes from the first by adding operations and violations.
  pub record Extends (a b : Collected w) : Type 0 where
    pub new_ops : List Operation
    pub ops_eq : b.ops ≡ a.ops ++ new_ops
    pub new_violations : List (String × Violation w)
    pub violations_eq : b.violations ≡ a.violations ++ new_violations

  pub Extends-refl : (a : Collected w) → Extends a a
  Extends-refl a = record {
    new_ops = [];
    ops_eq = sym (append-nil a.ops);
    new_violations = [];
    violations_eq = sym (append-nil a.violations);
  }

  pub Extends-trans : (a b c : Collected w) → Extends a b → Extends b c → Extends a c
  Extends-trans a b c s t = record {
    new_ops = s.new_ops ++ t.new_ops;
    ops_eq = t.ops_eq ∙ ap (λ l. l ++ t.new_ops) s.ops_eq ∙ append_assoc a.ops s.new_ops t.new_ops;
    new_violations = s.new_violations ++ t.new_violations;
    violations_eq =
        t.violations_eq
        ∙ ap (λ l. l ++ t.new_violations) s.violations_eq
        ∙ append_assoc a.violations s.new_violations t.new_violations;
  }

  -- A clean end has a clean beginning.
  pub Extends-clean : (a b : Collected w) → Extends a b → b.violations ≡ [] → a.violations ≡ []
  Extends-clean a b s h = (append-eq-nil a.violations s.new_violations (sym s.violations_eq ∙ h)).0

  pub Extends-any :
      (p : Operation → Bool) (a b : Collected w)
      → Extends a b
      → any p a.ops ≡ true
      → any p b.ops ≡ true
  Extends-any p a b s h = ap (any p) s.ops_eq ∙ any-append p a.ops s.new_ops ∙ ground (arith, h)

  keep-Extends :
      (acc : Collected w) (name : String) (o : Option Operation) (found : List (Violation w))
      → Extends acc (keep acc name (o, found))
  unfolding keep
  keep-Extends acc name none found = record {
    new_ops = [];
    ops_eq = sym (append-nil acc.ops);
    new_violations = named name found;
    violations_eq = refl;
  }
  keep-Extends acc name (some op) [] = record {
    new_ops = op ∷ [];
    ops_eq = refl;
    new_violations = [];
    violations_eq = sym (append-nil acc.violations);
  }
  keep-Extends acc name (some op) (v ∷ found) = record {
    new_ops = [];
    ops_eq = sym (append-nil acc.ops);
    new_violations = named name (v ∷ found);
    violations_eq = refl;
  }

  pub report-Extends :
      (acc : Collected w) (name : String) (v : Violation w) → Extends acc (report acc name v)
  report-Extends acc name v = record {
    new_ops = [];
    ops_eq = sym (append-nil acc.ops);
    new_violations = (name, v) ∷ [];
    violations_eq = refl;
  }

module _ {w : World} (opts : Options w) (presets : PresetSet w) where
  pub check_version-Extends :
      (acc : Collected w) (path : String) (version : ℕ)
      → Extends acc (check_version opts presets acc path version)
  unfolding check_version
  check_version-Extends acc path version = record {
    new_ops = [];
    ops_eq = sym (append-nil acc.ops);
    new_violations = _;
    violations_eq = refl;
  }

  module _ (sd : ServiceDescriptor) (api : String) (policy : Option Policy)
      (exposure : Exposure) where
    pub add_method-Extends :
        (acc : Collected w) (md : MethodDescriptor)
        → Extends acc (add_method opts presets sd api policy exposure acc md)
    unfolding add_method
    add_method-Extends acc md = elim (Bool-cases (opts.framework_exempt (full_method sd md))) [
      | inl exempt ↦ rw exempt (Extends-refl acc)
      | inr checked ↦
          let (o, found) = build_operation sd md api policy exposure opts presets in
          rw checked (keep-Extends acc (full_method sd md) o found)
    ]

    pub add_methods-Extends :
        (acc : Collected w) (methods : List MethodDescriptor)
        → Extends acc (add_methods opts presets sd api policy exposure acc methods)
    unfolding add_methods
    add_methods-Extends acc [] = Extends-refl acc
    add_methods-Extends acc (md ∷ methods) =
        let next = add_method opts presets sd api policy exposure acc md in
        Extends-trans acc next _ (add_method-Extends acc md) (add_methods-Extends next methods)

  pub add_service-Extends :
      (acc : Collected w) (api : String) (fs : FileSpec) (sd : ServiceDescriptor)
      → Extends acc (add_service opts presets acc api fs sd)
  unfolding add_service
  add_service-Extends acc api fs sd = elim (Bool-cases (skips_service opts sd)) [
    | inl skipped ↦ rw skipped (Extends-refl acc)
    | inr kept ↦ elim (Result-cases (opts.provider.service sd)) [
      | inl (ss, e) ↦ rw (kept, e) (add_methods-Extends sd api _ _ acc sd.methods)
      | inr (bad, e) ↦ rw (kept, e) (report-Extends acc sd.full_name (provider_failed bad))
    ]
  ]

  pub add_services-Extends :
      (acc : Collected w) (api : String) (fs : FileSpec) (services : List ServiceDescriptor)
      → Extends acc (add_services opts presets acc api fs services)
  unfolding add_services
  add_services-Extends acc api fs [] = Extends-refl acc
  add_services-Extends acc api fs (sd ∷ services) =
      let next = add_service opts presets acc api fs sd in
      Extends-trans acc next _ (add_service-Extends acc api fs sd)
        (add_services-Extends next api fs services)

  pub add_file-Extends :
      (acc : Collected w) (fd : FileDescriptor) → Extends acc (add_file opts presets acc fd)
  unfolding add_file
  add_file-Extends acc fd = elim (Bool-cases (skips_file opts fd)) [
    | inl skipped ↦ rw skipped (Extends-refl acc)
    | inr kept ↦ elim (Result-cases (opts.provider.file fd)) [
      | inl (fs, e) ↦
          rw (kept, e)
            (Extends-trans acc _ _ (check_version-Extends acc fd.path _)
              (add_services-Extends _ _ _ fd.services))
      | inr (bad, e) ↦ rw (kept, e) (report-Extends acc fd.path (provider_failed bad))
    ]
  ]

  pub add_files-Extends :
      (acc : Collected w) (files : List FileDescriptor)
      → Extends acc (add_files opts presets acc files)
  unfolding add_files
  add_files-Extends acc [] = Extends-refl acc
  add_files-Extends acc (fd ∷ files) =
      let next = add_file opts presets acc fd in
      Extends-trans acc next _ (add_file-Extends acc fd) (add_files-Extends next files)

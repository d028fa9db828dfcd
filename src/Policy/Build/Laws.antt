-- ===== src/Policy/Build/Laws.antt =====
-- policy/build.go: what holds of a policy table that `Build` returns.
use grpcapi.Base.{
  String, ◌≡◌, refl, ap, ◌∙◌, inl, inr, true, false, Option, some, List, [], ◌∷◌, Memᴰ, arith, ◌==◌,
  eq_iff, Bool-cases, any, All, append-eq-nil, First, Result, Result-cases, bind-eq-ok, ok, err,
}
use grpcapi.Policy.Build.{
  Violation, SetError, skips_service, skips_file, add_files, check_rules, finish, build_with, build,
  dedupe_files, nothing, or_bad_set,
}
use grpcapi.Status.{World}
use grpcapi.Policy.Spec.{Operation}
use grpcapi.Policy.Preset.{PresetSet, new_preset_set}
use grpcapi.Policy.OperationSet.{OperationSet, values, new_set, get}
use grpcapi.Policy.OperationSet.Laws.{new_set-All, get-new_set, find_id}
use grpcapi.Policy.Descriptors.{MethodDescriptor, ServiceDescriptor, FileDescriptor, Options}
use grpcapi.Policy.Method.{full_method}
use grpcapi.Policy.Method.Laws.{IsChecked}
use grpcapi.Policy.Build.Sound.{add_files-Good}
use grpcapi.Policy.Build.Dedupe.{path_of, dedupe_files-First}
use grpcapi.Policy.Build.Covers.{add_files-Collects}

module _ {w : World} where
  finish-ok :
      (found : List (String × Violation w)) (set set' : OperationSet w)
      → finish found set ≡ ok set'
      → (found ≡ []) × (set ≡ set')
  unfolding finish
  finish-ok [] set set' h = (refl, ground arith)
  finish-ok (v ∷ found) set set' h = cc

  or_bad_set-ok :
      (r : Result (SetError w) (OperationSet w)) (set : OperationSet w)
      → or_bad_set r ≡ ok set
      → r ≡ ok set
  or_bad_set-ok (ok s) set h = cc
  or_bad_set-ok (err e) set h = cc

module _ {w : World} (opts : Options w) where
  -- What a table that was built comes from: the collected operations, with no violation.
  record IsBuilt (files : List (Option FileDescriptor)) (set : OperationSet w) : Type 0 where
    presets : PresetSet w
    clean : (add_files opts presets nothing (dedupe_files files)).violations ≡ []
    rules : check_rules opts.rules set ≡ []
    made :
        new_set opts.registry opts.vocabulary
          (add_files opts presets nothing (dedupe_files files)).ops
        ≡ ok set

  build_with-IsBuilt :
      (presets : PresetSet w) (files : List (Option FileDescriptor)) (set : OperationSet w)
      → build_with opts presets files ≡ ok set
      → IsBuilt files set
  unfolding build_with
  build_with-IsBuilt presets files set h =
      let acc = add_files opts presets nothing (dedupe_files files) in
      let (made, e, later) =
        bind-eq-ok (or_bad_set (new_set opts.registry opts.vocabulary acc.ops)) _ h in
      let (none_found, same) = finish-ok _ made set later in
      let (clean, rules) = append-eq-nil acc.violations _ none_found in
      record {
        presets = presets;
        clean = clean;
        rules = rw (← same) rules;
        made = or_bad_set-ok _ set (e ∙ ap ok same);
      }

  build-IsBuilt :
      (files : List (Option FileDescriptor)) (set : OperationSet w)
      → build opts (ok files) ≡ ok set
      → IsBuilt files set
  unfolding build
  build-IsBuilt files set h = elim (Result-cases (new_preset_set opts.presets)) [
    | inl (presets, e) ↦ build_with-IsBuilt presets files set (rw (e, build) at h)
    | inr (bad, e) ↦ let h' = rw (e, build) at h in cc
  ]

  -- In a table that `Build` returns, every operation is checked: its policy is valid, its exposure
  -- and its stream authorization are declared, and it streams only where that is enabled.
  pub build-IsChecked :
      (files : List (Option FileDescriptor)) (set : OperationSet w)
      → build opts (ok files) ≡ ok set
      → All (IsChecked opts) (values set.ops)
  build-IsChecked files set h =
      let b = build-IsBuilt files set h in
      let good = add_files-Good opts b.presets nothing (dedupe_files files) tt in
      (new_set-All opts.registry opts.vocabulary (IsChecked opts) _ set b.made good).0

  find_id-found :
      (id : String) (ops : List Operation)
      → any (λ (op : Operation). op.id == id) ops ≡ true
      → (op : Operation) × (find_id id ops ≡ some op) × (op.id ≡ id)
  find_id-found id [] h = cc
  find_id-found id (op ∷ ops) h = elim (Bool-cases (op.id == id)) [
    | inl same ↦ (op, rw same refl, (eq_iff op.id id).0 same)
    | inr other ↦ let (found, e, i) = find_id-found id ops (rw other at h) in (found, rw other e, i)
  ]

  -- A table that `Build` returns holds an operation under the name of every method of every service
  -- of every file of the source that is the first with its path, but for those that the options leave out: a file
  -- outside the package prefixes, a service or method of the framework, a service that is not listed.
  pub build-covers :
      (files : List (Option FileDescriptor)) (set : OperationSet w) (fd : FileDescriptor)
      (sd : ServiceDescriptor) (md : MethodDescriptor)
      → build opts (ok files) ≡ ok set
      → First path_of fd files
      → skips_file opts fd ≡ false
      → Memᴰ sd fd.services
      → skips_service opts sd ≡ false
      → Memᴰ md sd.methods
      → opts.framework_exempt (full_method sd md) ≡ false
      → (op : Operation) × (get set (full_method sd md) ≡ some op) × (op.id ≡ full_method sd md)
  build-covers files set fd sd md h mf kf ms ks mm c =
      let b = build-IsBuilt files set h in
      let held =
        add_files-Collects opts b.presets nothing (dedupe_files files) fd sd md b.clean
          (dedupe_files-First files fd mf) kf ms ks mm c in
      let (op, e, i) = find_id-found (full_method sd md) _ held in
      (op, get-new_set opts.registry opts.vocabulary _ set (full_method sd md) b.made ∙ e, i)

-- ===== src/Policy/Build.antt =====
-- policy/build.go: the policy table of a set of proto files. All violations are collected, each
-- with the name that the source prints before it.
mod Steps
mod Sound
mod Covers
mod Dedupe
pub mod Laws
use grpcapi.Base.{
  ℕ, String, Bool, not, ◌&&◌, ◌||◌, Option, none, some, List, [], ◌∷◌, ◌++◌, ◌==◌, ltb, nat_eq,
  if◌then◌else◌, or_else, str_append, is_empty, contains, Result, ◌>>=◌, sort_by, ok, err,
}
use grpcapi.Status.{World}
use grpcapi.Policy.Spec.{Policy, Exposure, Operation}
use grpcapi.Policy.Validate.{
  Violation, provider_failed, schema_version_differs, schema_version_exceeds, rule_failed,
}
use grpcapi.Policy.Preset.{PresetSet, new_preset_set}
use grpcapi.Policy.OperationSet.{OperationSet, SetError, new_set, operations}
use grpcapi.Policy.Descriptors.{
  MethodDescriptor, ServiceDescriptor, FileDescriptor, FileSpec, ServiceSpec, no_file_spec,
  no_service_spec, Rule, Options,
}
use grpcapi.Policy.Names.{package_under_any}
use grpcapi.Policy.Method.{build_operation, full_method, exposure_or}

-- `dedupeFiles` without its sort: the first file of each path, and no nil.
unfoldable pub dedupe : List String → List (Option FileDescriptor) → List FileDescriptor
dedupe seen [] = []
dedupe seen (none ∷ files) = dedupe seen files
dedupe seen (some fd ∷ files) =
    let rest = dedupe seen files in
    let more = dedupe (fd.path ∷ seen) files in if contains seen fd.path then rest else fd ∷ more

unfoldable pub dedupe_files : List (Option FileDescriptor) → List FileDescriptor
unfolding dedupe
dedupe_files files = sort_by (λ (fd : FileDescriptor). fd.path) (dedupe [] files)

-- What `Build` has collected: the operations, the violations and the first schema version.
pub record Collected (w : World) : Type 0 where
  pub ops : List Operation
  pub violations : List (String × Violation w)
  pub seen_version : ℕ

pub data BuildError (w : World) : Type 0 where
  source_failed : w.Failure → BuildError w
  bad_presets : String → BuildError w
  bad_set : SetError w → BuildError w
  violated : List (String × Violation w) → BuildError w

module _ {w : World} where
  abbrev pub report : Collected w → String → Violation w → Collected w
  report acc name v = record acc { violations = acc.violations ++ (name, v) ∷ [] }

  pub named : String → List (Violation w) → List (String × Violation w)
  named name [] = []
  named name (v ∷ found) = (name, v) ∷ named name found

  -- An operation is kept if nothing is wrong with it.
  unfoldable pub keep : Collected w → String → Option Operation × List (Violation w) → Collected w
  unfolding named
  keep acc name (some op, []) = record acc { ops = acc.ops ++ op ∷ [] }
  keep acc name (op, found) = record acc { violations = acc.violations ++ named name found }

module _ {w : World} (opts : Options w) where
  pub skips_service : ServiceDescriptor → Bool
  skips_service sd =
      opts.framework_exempt (str_append "/" (str_append sd.full_name "/"))
      || not (is_empty opts.include_services) && not (contains opts.include_services sd.full_name)

  pub skips_file : FileDescriptor → Bool
  skips_file fd =
      not (is_empty opts.package_prefixes)
      && not (package_under_any fd.package_name opts.package_prefixes)

module _ {w : World} (opts : Options w) (presets : PresetSet w) where
  -- The defaults that a method falls back to.
  module _ (sd : ServiceDescriptor) (api : String) (policy : Option Policy)
      (exposure : Exposure) where
    pub add_method : Collected w → MethodDescriptor → Collected w
    add_method acc md =
        if opts.framework_exempt (full_method sd md)
        then acc
        else keep acc (full_method sd md) (build_operation sd md api policy exposure opts presets)

    pub add_methods : Collected w → List MethodDescriptor → Collected w
    unfolding add_method
    add_methods acc [] = acc
    add_methods acc (md ∷ methods) = add_methods (add_method acc md) methods

  pub add_declared_service :
      Collected w → ServiceDescriptor → String → FileSpec → ServiceSpec → Collected w
  unfolding add_methods
  add_declared_service acc sd api fs ss =
      add_methods sd api (elim ss.default_policy [ none ↦ fs.default_policy | some p ↦ some p ])
        (exposure_or ss.default_exposure fs.default_exposure) acc sd.methods

  pub add_service : Collected w → String → FileSpec → ServiceDescriptor → Collected w
  unfolding add_declared_service skips_service
  add_service acc api fs sd =
      if skips_service opts sd then acc else elim (opts.provider.service sd) [
        | err e ↦ report acc sd.full_name (provider_failed e)
        | ok ss ↦ add_declared_service acc sd api fs (or_else ss no_service_spec)
      ]

  pub add_services : Collected w → String → FileSpec → List ServiceDescriptor → Collected w
  unfolding add_service
  add_services acc api fs [] = acc
  add_services acc api fs (sd ∷ services) = add_services (add_service acc api fs sd) api fs services

  -- The schema version of a file against that of the first one and the supported one.
  pub check_version : Collected w → String → ℕ → Collected w
  check_version acc path version =
      let first = if nat_eq acc.seen_version 0 then version else acc.seen_version in
      let differing =
        if nat_eq first version then [] else (path, schema_version_differs version first) ∷ [] in
      let exceeding =
        if ltb opts.max_schema_version version
        then (path, schema_version_exceeds version opts.max_schema_version) ∷ []
        else [] in
      record acc { violations = acc.violations ++ (differing ++ exceeding); seen_version = first }

  pub add_declared_file : Collected w → FileDescriptor → FileSpec → Collected w
  unfolding check_version add_services
  add_declared_file acc fd fs =
      let version = if nat_eq fs.schema_version 0 then 1 else fs.schema_version in
      let api =
        if fs.api == ""
        then (elim opts.api_resolver [ none ↦ "" | some resolve ↦ resolve fd ])
        else fs.api in
      add_services (check_version acc fd.path version) api fs fd.services

  pub add_file : Collected w → FileDescriptor → Collected w
  unfolding add_declared_file skips_file
  add_file acc fd = if skips_file opts fd then acc else elim (opts.provider.file fd) [
    | err e ↦ report acc fd.path (provider_failed e)
    | ok fs ↦ add_declared_file acc fd (or_else fs no_file_spec)
  ]

  pub add_files : Collected w → List FileDescriptor → Collected w
  unfolding add_file
  add_files acc [] = acc
  add_files acc (fd ∷ files) = add_files (add_file acc fd) files

module _ {w : World} where
  abbrev failed : String → Option w.Failure → List (String × Violation w)
  failed name none = []
  failed name (some e) = (name, rule_failed name e) ∷ []

  check_operations : Rule w → List Operation → List (String × Violation w)
  check_operations rule [] = []
  check_operations rule (op ∷ ops) =
      failed rule.name (rule.check_operation op) ++ check_operations rule ops

  check_rules : List (Rule w) → OperationSet w → List (String × Violation w)
  unfolding check_operations
  check_rules [] set = []
  check_rules (rule ∷ rules) set =
      check_operations rule (operations set)
      ++ (failed rule.name (rule.check_set set) ++ check_rules rules set)

  abbrev pub nothing : Collected w
  nothing = record { ops = []; violations = []; seen_version = 0 }

  finish : List (String × Violation w) → OperationSet w → Result (BuildError w) (OperationSet w)
  finish [] set = ok set
  finish found set = err (violated found)

  abbrev or_bad_set : Result (SetError w) (OperationSet w) → Result (BuildError w) (OperationSet w)
  or_bad_set (ok set) = ok set
  or_bad_set (err e) = err (bad_set e)

  -- `Build` from the presets on, with the files of the source.
  build_with :
      Options w
      → PresetSet w
      → List (Option FileDescriptor)
      → Result (BuildError w) (OperationSet w)
  unfolding add_files check_rules finish
  build_with opts presets files = do
    let acc = add_files opts presets nothing (dedupe_files files)
    set ← or_bad_set (new_set opts.registry opts.vocabulary acc.ops)
    finish (acc.violations ++ check_rules opts.rules set) set

  -- The second argument is the answer of the source.
  unfoldable pub build :
      Options w
      → Result w.Failure (List (Option FileDescriptor))
      → Result (BuildError w) (OperationSet w)
  unfolding build_with
  build opts source = elim (new_preset_set opts.presets) [
    | err e ↦ err (bad_presets e)
    | ok presets ↦ elim source [
      | err e ↦ err (source_failed e)
      | ok files ↦ build_with opts presets files
    ]
  ]

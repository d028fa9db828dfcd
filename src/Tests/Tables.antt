-- ===== src/Tests/Tables.antt =====
-- Validation, tables and principals on concrete values.
use grpcapi.Base.{
  String, ◌≡◌, refl, ◌≢◌, ◌↔◌, inl, true, false, not, none, some, List, [], ◌∷◌, Memᴰ, is_empty,
  all, any, All, contains,
}
use grpcapi.Principal.{claim_values, has_claim, has_all_claims}
use grpcapi.Principal.Laws.{has_claim_iff, has_all_claims_iff}
use grpcapi.Policy.Spec.{zero_policy, Operation, StreamAuthMode}
use grpcapi.Policy.Vocabulary.{
  new_vocabulary, allows, validate_values, allows-new_vocabulary, validate_values_iff,
}
use grpcapi.Policy.Validate.{validate_policy}
use grpcapi.Policy.Validate.Laws.{IsValidPolicy, validate_policy_iff}
use grpcapi.Policy.OperationSet.{OperationSet, values, get, new_set, with_operations}
use grpcapi.Policy.OperationSet.Laws.{find_id, HasFreshIds, first, get-new_set, with_operations_lem}
use grpcapi.Policy.Preset.{PresetSet}
use grpcapi.Policy.Method.{build_operation, full_method}
use grpcapi.Policy.Method.Laws.{IsChecked}
use grpcapi.Policy.Build.{build}
use grpcapi.Policy.Build.Laws.{build-IsChecked, build-covers}
use grpcapi.Tests.{
  test_world, alice, role, editors, edit_op, watch_op, test_registry, test_set, operation,
  edit_method, cart_service, cart_file, build_options,
}

validate_policy_iff_example :
    (validate_policy {w = test_world} editors test_registry [] ≡ [])
    ↔ IsValidPolicy {w = test_world} test_registry [] editors
validate_policy_iff_example = validate_policy_iff {w = test_world} test_registry [] editors

abbrev domains : List (String × List String)
domains = ("role", "editor" ∷ "reader" ∷ []) ∷ []

allows-new_vocabulary_example : allows (new_vocabulary domains) "role" "owner" ≡ false
allows-new_vocabulary_example = allows-new_vocabulary domains "role" "owner"

validate_values_iff_example :
    (validate_values domains (role "owner") "role" ≡ none)
    ↔ (all (allows domains "role") ("owner" ∷ []) ≡ true)
validate_values_iff_example = validate_values_iff domains (role "owner") "role"

has_claim_iff_example :
    (has_claim {w = test_world} none "roles" ("owner" ∷ []) ≡ false)
    × (has_claim (some alice) "roles" [] ≡ not (is_empty (claim_values alice "roles")))
    × ((◌≢◌ {A = List String} ("owner" ∷ []) [])
        → has_claim (some alice) "roles" ("owner" ∷ [])
          ≡ any (contains (claim_values alice "roles")) ("owner" ∷ []))
has_claim_iff_example = has_claim_iff {w = test_world} alice "roles" ("owner" ∷ [])

has_all_claims_iff_example :
    (has_all_claims {w = test_world} none "roles" ("owner" ∷ []) ≡ false)
    × (has_all_claims (some alice) "roles" [] ≡ not (is_empty (claim_values alice "roles")))
    × ((◌≢◌ {A = List String} ("owner" ∷ []) [])
        → has_all_claims (some alice) "roles" ("owner" ∷ [])
          ≡ all (contains (claim_values alice "roles")) ("owner" ∷ []))
has_all_claims_iff_example = has_all_claims_iff {w = test_world} alice "roles" ("owner" ∷ [])

get-new_set_example : get test_set "/shop.Cart/Watch" ≡ some watch_op
unfolding new_set
get-new_set_example =
    get-new_set {w = test_world} test_registry [] (edit_op ∷ watch_op ∷ []) test_set
      "/shop.Cart/Watch" refl

abbrev drop_op : Operation
drop_op = operation "/shop.Cart/Drop" editors StreamAuthMode.on_open

abbrev wider_set : OperationSet test_world
wider_set = record {
  ops =
      ("/shop.Cart/Edit", edit_op)
      ∷ ("/shop.Cart/Watch", watch_op)
      ∷ ("/shop.Cart/Drop", drop_op)
      ∷ [];
  registry = test_registry;
  vocab = [];
}

with_operations_lem_example :
    All
      (λ (op : Operation). validate_policy {w = test_world} op.policy test_registry [] ≡ [])
      (drop_op ∷ [])
    × HasFreshIds test_set.ops (drop_op ∷ [])
    × ((id : String) → get wider_set id ≡ first (get test_set id) (find_id id (drop_op ∷ [])))
unfolding with_operations validate_policy grpcapi.Policy.Validate.validate_requirements
    grpcapi.Policy.Validate.validate_requirement grpcapi.Policy.Validate.valid_match
    grpcapi.Policy.Kinds.default_registry grpcapi.Policy.Registry.new_registry
    grpcapi.Policy.Kinds.default_kinds grpcapi.Policy.Kinds.kind_authenticated
    grpcapi.Policy.Kinds.kind_claim grpcapi.Policy.Kinds.kind_principal
    grpcapi.Policy.Kinds.claim_kind grpcapi.Policy.Kinds.claim_kind_validate validate_values
    grpcapi.Policy.Vocabulary.has
with_operations_lem_example =
    with_operations_lem {w = test_world} test_set (drop_op ∷ []) wider_set refl

abbrev no_presets : PresetSet test_world
no_presets = []

-- What the cart's file is built to.
abbrev built_op : Operation
built_op =
    record (operation "/shop.Cart/Edit" (record zero_policy { anonymous = true })
      StreamAuthMode.on_open) { api = ""; operation_id = "Cart_Edit"; request_fields = "id" ∷ [] }

abbrev built_set : OperationSet test_world
built_set = record { ops = ("/shop.Cart/Edit", built_op) ∷ []; registry = []; vocab = [] }

build-IsChecked_example : All (IsChecked build_options) (values built_set.ops)
unfolding build grpcapi.Policy.Preset.new_preset_set new_set grpcapi.Policy.Build.dedupe_files
    grpcapi.Policy.Names.package_under_any grpcapi.Policy.Build.keep build_operation
    grpcapi.Policy.Preset.expand validate_policy grpcapi.Policy.Validate.validate_requirements
    grpcapi.Policy.Method.request_fields
build-IsChecked_example =
    build-IsChecked {w = test_world} build_options (some cart_file ∷ none ∷ []) built_set refl

build-covers_example :
    (op : Operation) × (get built_set "/shop.Cart/Edit" ≡ some op) × (op.id ≡ "/shop.Cart/Edit")
unfolding build grpcapi.Policy.Preset.new_preset_set new_set grpcapi.Policy.Build.dedupe_files
    grpcapi.Policy.Names.package_under_any grpcapi.Policy.Build.keep build_operation
    grpcapi.Policy.Preset.expand validate_policy grpcapi.Policy.Validate.validate_requirements
    grpcapi.Policy.Method.request_fields
build-covers_example =
    build-covers {w = test_world} build_options (some cart_file ∷ none ∷ []) built_set cart_file
      cart_service edit_method refl (inl refl) refl (Memᴰ.head refl) refl (Memᴰ.head refl) refl

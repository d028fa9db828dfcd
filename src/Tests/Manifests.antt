-- ===== src/Tests/Manifests.antt =====
-- The canonical form of a policy and the manifest of a set on concrete values.
use grpcapi.Base.{String, ◌≡◌, refl, Bool, true, ◌&&◌, List, [], ◌∷◌, ◌==◌, any, contains}
use grpcapi.Policy.Spec.{Policy, Requirement, Match, zero_policy}
use grpcapi.Policy.OperationSet.{values}
use grpcapi.Policy.Format.{canonical_policy, format}
use grpcapi.Policy.Format.Laws.{canonical_policy-grants}
use grpcapi.Policy.Manifest.{ManifestOperation, manifest_operation, manifest}
use grpcapi.Policy.Manifest.Laws.{manifest-described}
use grpcapi.Authz.Decide.Laws.{grants}
use grpcapi.Tests.{test_set}

abbrev role_of : List String → Requirement
role_of values = record {
  kind = "role";
  vocabulary = "";
  match = Match.any_match;
  values = values;
  params = [];
}

abbrev shop_policy : Policy
shop_policy = record zero_policy {
  preset = "staff";
  require = role_of ("owner" ∷ "admin" ∷ "owner" ∷ []) ∷ [];
  any_of = (role_of ("b" ∷ []) ∷ []) ∷ (role_of ("a" ∷ []) ∷ []) ∷ [];
  forbid = role_of ("guest" ∷ []) ∷ [];
}

canonical_policy-shop_policy :
    (canonical_policy shop_policy).require ≡ role_of ("admin" ∷ "owner" ∷ []) ∷ []
unfolding canonical_policy
canonical_policy-shop_policy = refl

format-shop_policy :
    format shop_policy
    ≡ "preset:staff require:role(admin,owner) any_of[role(a) | role(b)] forbid:role(guest)"
unfolding format grpcapi.Base.join
format-shop_policy = refl

abbrev has_admin : Requirement → Bool
has_admin r = contains r.values "admin"

canonical_policy-grants_example :
    grants has_admin (canonical_policy shop_policy) true ≡ grants has_admin shop_policy true
canonical_policy-grants_example =
    canonical_policy-grants has_admin (λ r values same. same "admin") shop_policy true

abbrev is_edit : ManifestOperation → Bool
is_edit op = op.id == "/shop.Cart/Edit"

manifest-described_example :
    any (λ a. a.name == "shop" && any is_edit a.operations) (manifest test_set).apis
    ≡ any (λ op. op.api == "shop" && is_edit (manifest_operation op)) (values test_set.ops)
manifest-described_example = manifest-described is_edit "shop" test_set

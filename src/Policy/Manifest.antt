-- ===== src/Policy/Manifest.antt =====
-- policy/manifest.go: the snapshot of a set of operations, API by API. Its JSON is left to encoding/json.
pub mod Laws
use grpcapi.Base.{
  ℕ, String, not, List, [], ◌∷◌, ◌++◌, map, if◌then◌else◌, or_else, lookup, insert, sort_by,
}
use grpcapi.Status.{World}
use grpcapi.Policy.Spec.{Policy, Operation, effective_label}
use grpcapi.Policy.OperationSet.{OperationSet, operations}
use grpcapi.Policy.Format.{kind_text, exposure_text, stream_mode_text, canonical_policy}

pub record ManifestOperation : Type 0 where
  pub id : String
  pub kind : String
  pub exposure : String
  pub label : String
  pub stream_auth : String
  pub policy : Policy

pub record ManifestApi : Type 0 where
  pub name : String
  pub operations : List ManifestOperation

pub record Manifest : Type 0 where
  pub version : ℕ
  pub apis : List ManifestApi

unfoldable pub stream_auth_text : Operation → String
unfolding stream_mode_text
stream_auth_text op = if not op.streaming then "" else stream_mode_text op.stream_auth

unfoldable pub manifest_operation : Operation → ManifestOperation
unfolding kind_text exposure_text stream_auth_text canonical_policy
manifest_operation op = record {
  id = op.id;
  kind = kind_text op.kind;
  exposure = exposure_text op.exposure;
  label = effective_label op;
  stream_auth = stream_auth_text op;
  policy = canonical_policy op.policy;
}

-- `byAPI[op.API] = append(byAPI[op.API], ...)`
unfoldable pub add_operation :
    List (String × List ManifestOperation) → Operation → List (String × List ManifestOperation)
unfolding manifest_operation
add_operation by_api op =
    insert op.api (or_else (lookup op.api by_api) [] ++ manifest_operation op ∷ []) by_api

unfoldable pub add_operations :
    List (String × List ManifestOperation) → List Operation → List (String × List ManifestOperation)
unfolding add_operation
add_operations by_api [] = by_api
add_operations by_api (op ∷ ops) = add_operations (add_operation by_api op) ops

unfoldable pub manifest_api : String × List ManifestOperation → ManifestApi
manifest_api entry = record {
  name = entry.0;
  operations = sort_by (λ (op : ManifestOperation). op.id) entry.1;
}

-- `Set.Manifest`
unfoldable pub manifest : {w : World} → OperationSet w → Manifest
unfolding add_operations manifest_api
manifest s = record {
  version = 1;
  apis =
      sort_by (λ (api : ManifestApi). api.name)
        (map manifest_api (add_operations [] (operations s)));
}

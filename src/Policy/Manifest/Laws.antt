-- ===== src/Policy/Manifest/Laws.antt =====
-- policy/manifest.go: what a manifest says of each operation.
use grpcapi.Base.{
  String, ◌≡◌, ap, ◌∙◌, inl, inr, Bool, ◌&&◌, ◌||◌, List, [], ◌∷◌, ◌++◌, map, arith, ◌==◌, eq_iff,
  Bool-cases, or_else, any, any-append, any-map, lookup, insert, any-sort_by,
}
use grpcapi.Status.{World}
use grpcapi.Policy.Spec.{Operation}
use grpcapi.Policy.OperationSet.{OperationSet, operations, values}
use grpcapi.Policy.Manifest.{
  ManifestOperation, ManifestApi, manifest_operation, manifest_api, add_operation, add_operations,
  manifest,
}

module _ (q : ManifestOperation → Bool) (api : String) where
  abbrev listed : String × List ManifestOperation → Bool
  listed entry = entry.0 == api && any q entry.1

  abbrev described : Operation → Bool
  described op = op.api == api && q (manifest_operation op)

  any-insert :
      (k : String) (more : Bool) (ops : List ManifestOperation)
      (by_api : List (String × List ManifestOperation))
      → any q ops ≡ (any q (or_else (lookup k by_api) []) || more)
      → any listed (insert k ops by_api) ≡ (any listed by_api || k == api && more)
  any-insert k more ops [] h = ground (arith, h)
  any-insert k more ops ((j, old) ∷ by_api) h = elim (Bool-cases (j == k)) [
    | inl same ↦ ground (arith, h, same, eq_iff j k)
    | inr other ↦ rw other (ground (arith, any-insert k more ops by_api (rw other at h)))
  ]

  any-add_operation :
      (op : Operation) (by_api : List (String × List ManifestOperation))
      → any listed (add_operation by_api op) ≡ (any listed by_api || described op)
  unfolding add_operation
  any-add_operation op by_api =
      any-insert op.api (q (manifest_operation op))
        (or_else (lookup op.api by_api) [] ++ manifest_operation op ∷ []) by_api
        (rw (any-append q) (ground arith))

  any-add_operations :
      (ops : List Operation) (by_api : List (String × List ManifestOperation))
      → any listed (add_operations by_api ops) ≡ (any listed by_api || any described ops)
  unfolding add_operations
  any-add_operations [] by_api = ground arith
  any-add_operations (op ∷ ops) by_api =
      ground (arith, any-add_operations ops (add_operation by_api op), any-add_operation op by_api)

  abbrev shown : ManifestApi → Bool
  shown a = a.name == api && any q a.operations

  any-manifest_api :
      (entry : String × List ManifestOperation) → shown (manifest_api entry) ≡ listed entry
  unfolding manifest_api
  any-manifest_api (name, ops) =
      ap (λ b. name == api && b) (any-sort_by (λ (op : ManifestOperation). op.id) q ops)

  -- Whatever is asked of the operations that the manifest of a set lists below an API is true of one of them exactly
  -- when it is true of the description of an operation of that API in the set.
  pub manifest-described :
      {w : World} (s : OperationSet w) → any shown (manifest s).apis ≡ any described (values s.ops)
  unfolding manifest operations
  manifest-described s =
      any-sort_by (λ (a : ManifestApi). a.name) shown
        (map manifest_api (add_operations [] (operations s)))
      ∙ any-map listed shown manifest_api any-manifest_api (add_operations [] (operations s))
      ∙ any-add_operations (operations s) []
      ∙ any-sort_by (λ (op : Operation). op.id) described (values s.ops)

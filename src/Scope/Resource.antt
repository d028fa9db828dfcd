-- ===== src/Scope/Resource.antt =====
-- policy/scope/resource.go: the predicate kind "resource", which asks whether a principal may
-- address the instance that a request names. The extraction of the instance's ID from a protobuf
-- message or a HTTP request is a parameter; its error keeps its status where the source wraps it.
pub mod Laws
use grpcapi.Base.{
  String, Bool, true, false, not, ◌&&◌, ◌||◌, Option, none, some, List, [], ◌∷◌, ◌==◌,
  if◌then◌else◌, is_some, is_empty, Result, ◌>>=◌, ok, err,
}
use grpcapi.Status.{World}
use grpcapi.Principal.{claim}
use grpcapi.Policy.Spec.{any_match, Requirement, EvalContext}
use grpcapi.Policy.Vocabulary.{Vocabulary, has, allows}
use grpcapi.Policy.Registry.{RequirementKind}
use grpcapi.Scope.Token.{Split, cut_last, has_code, is_op, is_wildcard, split_token}

pub record ResourceOptions (w : World) : Type 0 where
  pub claim : String
  -- a nil function is none; its argument is nil for a stream that is opened
  pub id : Option (Option w.Request → Result w.Failure String)
  pub vocabulary_domain : String
  pub require_vocabulary : Bool
  pub disallow_wildcard : Bool

-- `<resource>` or `<resource>:<op>`
unfoldable pub parse_resource_value : String → Result String (String × String)
parse_resource_value value = elim (cut_last b':' value) [
  | none ↦ ok (value, "")
  | some (res, op) ↦
      (if res == "" || not (is_op op)
        then err "resource value must be <resource> or <resource>:<op>"
        else ok (res, op))
]

-- The check of the direction: an instance with the suffix of a direction, cut at its last dot.
direction : Option (String × String) → String → String → String → Bool
direction none seg target op = seg == target
direction (some (inst, suffix)) seg target op =
    if is_op suffix then inst == target && suffix == op else seg == target

-- The body of the loop for a token that is no wildcard: whether it returns true.
unfoldable pub token_grants : Split → String → String → String → Bool
unfolding direction
token_grants (res, seg, has_seg) resource target op =
    if not (res == resource)
    then false
    else if not has_seg
    then true
    else if seg == "*"
    then true
    else if is_op seg
    then false
    else if not (op == "")
    then direction (cut_last b'.' seg) seg target op
    else seg == target

unfoldable pub grants_instance_for : List String → String → String → String → Bool → Bool
unfolding token_grants
grants_instance_for [] resource target op allow_wildcard = false
grants_instance_for (token ∷ set) resource target op allow_wildcard =
    let rest = grants_instance_for set resource target op allow_wildcard in
    if is_wildcard token
    then (if allow_wildcard then true else rest)
    else if token_grants (split_token token) resource target op
    then true
    else rest

unfoldable pub grants_instance : List String → String → String → Bool → Bool
unfolding grants_instance_for
grants_instance set resource target allow_wildcard =
    grants_instance_for set resource target "" allow_wildcard

module _ (w : World) where
  abbrev or_default : String → String → String
  or_default s d = if s == "" then d else s

  validate_resource : ResourceOptions w → Vocabulary → String → String → Option w.Failure
  validate_resource opts vocab domain resource =
      if resource == "" || is_wildcard resource
      then some (w.plain "resource value is not a concrete resource name")
      else if has_code b':' resource || has_code b' ' resource
      then some (w.plain "resource name must not contain ':' or spaces")
      else if opts.require_vocabulary && not (has vocab domain)
      then some (w.plain "resource requires a vocabulary domain that is not registered")
      else if has vocab domain && not (allows vocab domain resource)
      then some (w.plain "resource is not in vocabulary domain")
      else none

  unfoldable pub resource_validate : ResourceOptions w → Requirement → Vocabulary → Option w.Failure
  unfolding validate_resource
  resource_validate opts req vocab = elim req.values [
    | [] ↦ some (w.plain "resource requires exactly one value")
    | value ∷ more ↦
        (if not (is_empty more)
          then some (w.plain "resource requires exactly one value")
          else elim (parse_resource_value value) [
            | err e ↦ some (w.plain e)
            | ok parts ↦
                validate_resource opts vocab
                  (if req.vocabulary == ""
                    then or_default opts.vocabulary_domain "resource"
                    else req.vocabulary)
                  parts.0
          ])
  ]

  addresses :
      ResourceOptions w
      → (Option w.Request → Result w.Failure String)
      → EvalContext w
      → String × String
      → Result w.Failure Bool
  addresses opts id ec (resource, op) = do
    target ← id ec.request
    if target == ""
        then err (w.plain "resource: request carries no target id")
        else ok (
            grants_instance_for (claim ec.principal (or_default opts.claim "scopes")) resource
              target op (not opts.disallow_wildcard))

  -- With no value the source panics at `req.Values[0]`, here an error; the validation excludes it.
  unfoldable pub resource_evaluate :
      ResourceOptions w
      → (Option w.Request → Result w.Failure String)
      → w.Ambient
      → EvalContext w
      → Requirement
      → Result w.Failure Bool
  unfolding addresses
  resource_evaluate opts id ctx ec req =
      if not (is_some ec.principal) then ok false else elim req.values [
        | [] ↦ err (w.plain "index out of range")
        | value ∷ more ↦ elim (parse_resource_value value) [
          | err e ↦ err (w.plain e)
          | ok parts ↦ addresses opts id ec parts
        ]
      ]

  unfoldable pub resource_kind : ResourceOptions w → Result String (RequirementKind w)
  unfolding resource_validate resource_evaluate
  resource_kind opts = elim opts.id [
    | none ↦ err "scope: ResourceOptions.ID is required"
    | some id ↦ ok (record {
      name = "resource";
      default_match = any_match;
      requires_vocabulary = opts.require_vocabulary;
      validate = some (resource_validate opts);
      evaluate = some (resource_evaluate opts id);
    })
  ]

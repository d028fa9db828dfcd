-- ===== src/Scope/Kind.antt =====
-- policy/scope/scope.go: the predicate kind "scope", which asks for operations on resources.
use grpcapi.Base.{
  String, Bool, true, false, not, ◌&&◌, Option, none, some, List, [], ◌∷◌, ◌==◌, if◌then◌else◌,
  is_some, is_empty, Result, ◌>>=◌, ok, err,
}
use grpcapi.Status.{World}
use grpcapi.Principal.{claim}
use grpcapi.Policy.Spec.{any_match, Requirement, EvalContext}
use grpcapi.Policy.Vocabulary.{Vocabulary, has, allows}
use grpcapi.Policy.Registry.{RequirementKind}
use grpcapi.Policy.Kinds.{is_all}
use grpcapi.Scope.Token.{is_wildcard, parse, has_wildcard, satisfies}

pub record Options : Type 0 where
  pub claim : String
  pub vocabulary_domain : String
  pub require_vocabulary : Bool
  pub disallow_wildcard : Bool

abbrev or_default : String → String → String
or_default s d = if s == "" then d else s

-- Whether one wanted scope is held.
unfoldable pub holds_scope : Bool → List String → String → Result String Bool
holds_scope disallow set want =
    if is_wildcard want
    then ok (not disallow && has_wildcard set)
    else do split ← parse want; ok (satisfies set split.0 split.1 (not disallow))

-- The loop of `Evaluate` over the wanted scopes.
unfoldable pub evaluate_scopes : Bool → Bool → List String → List String → Result String Bool
unfolding holds_scope
evaluate_scopes disallow every set [] = ok every
evaluate_scopes disallow every set (want ∷ wants) =
    let rest = evaluate_scopes disallow every set wants in
    do
      held ← holds_scope disallow set want
      if every && not held then ok false else if not every && held then ok true else rest

-- The loop of `Validate`: the error of the first value that is refused.
unfoldable pub validate_scopes : Bool → Vocabulary → String → List String → Option String
validate_scopes disallow vocab domain [] = none
validate_scopes disallow vocab domain (value ∷ values) =
    let rest = validate_scopes disallow vocab domain values in
    if is_wildcard value
    then (if disallow then some "scope wildcard is disabled" else rest)
    else elim (parse value) [
      | err e ↦ some e
      | ok split ↦
          (if has vocab domain && not (allows vocab domain split.0)
            then some "scope resource is not in vocabulary domain"
            else rest)
    ]

module _ (w : World) where
  abbrev failure : Option String → Option w.Failure
  failure none = none
  failure (some e) = some (w.plain e)

  abbrev answer : Result String Bool → Result w.Failure Bool
  answer (ok b) = ok b
  answer (err e) = err (w.plain e)

  unfoldable pub scope_validate : Options → Requirement → Vocabulary → Option w.Failure
  unfolding validate_scopes
  scope_validate opts req vocab =
      let domain =
        if req.vocabulary == ""
        then or_default opts.vocabulary_domain "scope"
        else req.vocabulary in
      if is_all req.match && is_empty req.values
      then some (w.plain "scope MATCH_ALL requires values")
      else if opts.require_vocabulary && not (has vocab domain)
      then some (w.plain "scope requires a vocabulary domain that is not registered")
      else failure (validate_scopes opts.disallow_wildcard vocab domain req.values)

  unfoldable pub scope_evaluate :
      Options → w.Ambient → EvalContext w → Requirement → Result w.Failure Bool
  unfolding evaluate_scopes
  scope_evaluate opts ctx ec req =
      if not (is_some ec.principal)
      then ok false
      else answer (
          evaluate_scopes opts.disallow_wildcard (is_all req.match)
            (claim ec.principal (or_default opts.claim "scopes")) req.values)

  unfoldable pub kind : Options → RequirementKind w
  unfolding scope_validate scope_evaluate
  kind opts = record {
    name = "scope";
    default_match = any_match;
    requires_vocabulary = opts.require_vocabulary;
    validate = some (scope_validate opts);
    evaluate = some (scope_evaluate opts);
  }

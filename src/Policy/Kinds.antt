-- ===== src/Policy/Kinds.antt =====
-- policy/registry.go: the built-in predicate kinds and the default registry. The errors of
-- `Validate` and `Evaluate` are kept without the names that the source prints into them.
use grpcapi.Base.{
  String, Bool, true, false, not, ◌&&◌, ◌||◌, Option, none, some, List, [], ◌∷◌, ◌==◌, ltb,
  if◌then◌else◌, is_some, or_else, str_append, length, is_empty, lookup, Result, ok, err,
}
use grpcapi.Status.{World}
use grpcapi.Principal.{has_claim, has_all_claims, has_kind}
use grpcapi.Policy.Spec.{Match, default_match, any_match, all_match, Requirement, EvalContext}
use grpcapi.Policy.Vocabulary.{Vocabulary, validate_values}
use grpcapi.Policy.Registry.{RequirementKind, Registry, effective_match, new_registry}

abbrev pub params_name : Requirement → String
params_name req = or_else (lookup "name" req.params) ""

-- The first parameter other than "name".
unfoldable pub other_param : List (String × String) → Option String
other_param [] = none
other_param ((k, v) ∷ params) = if not (k == "name") then some k else other_param params

abbrev pub or_domain : String → String → String
or_domain vocabulary domain = if vocabulary == "" then domain else vocabulary

abbrev pub is_all : Match → Bool
is_all all_match = true
is_all m = false

module _ (w : World) where
  abbrev pub value_error : Option String → Option w.Failure
  value_error none = none
  value_error (some value) = some (w.plain "value is not in the vocabulary domain")

  unfoldable pub kind_authenticated : RequirementKind w
  kind_authenticated = record {
    name = "authenticated";
    default_match = any_match;
    requires_vocabulary = false;
    validate = some (λ req vocab.
        if not (is_empty req.values) || not (is_empty req.params)
        then some (w.plain "authenticated does not accept values or params")
        else none);
    evaluate = some (λ ctx ec req. ok (is_some ec.principal));
  }

  unfoldable pub claim_validate : Requirement → Vocabulary → Option w.Failure
  claim_validate req vocab =
      if params_name req == ""
      then some (w.plain "claim requires params.name")
      else if is_some (other_param req.params)
      then some (w.plain "claim does not accept param")
      else value_error (
          validate_values vocab req
            (or_domain req.vocabulary (str_append "claim:" (params_name req))))

  unfoldable pub claim_test : EvalContext w → String → List String → Match → Bool
  claim_test ec name values all_match = has_all_claims ec.principal name values
  claim_test ec name values m = has_claim ec.principal name values

  unfoldable pub claim_evaluate : w.Ambient → EvalContext w → Requirement → Result w.Failure Bool
  claim_evaluate ctx ec req =
      if params_name req == ""
      then err (w.plain "claim requires params.name")
      else ok (claim_test ec (params_name req) req.values (effective_match req any_match))

  unfoldable pub kind_claim : RequirementKind w
  kind_claim = record {
    name = "claim";
    default_match = any_match;
    requires_vocabulary = false;
    validate = some claim_validate;
    evaluate = some claim_evaluate;
  }

  unfoldable pub principal_validate : Requirement → Vocabulary → Option w.Failure
  principal_validate req vocab =
      if is_empty req.values
      then some (w.plain "principal_kind requires values")
      else if not (is_empty req.params)
      then some (w.plain "principal_kind does not accept params")
      else if is_all req.match && ltb 1 (length req.values)
      then some (w.plain "principal_kind is single-valued; MATCH_ALL is impossible")
      else value_error (validate_values vocab req (or_domain req.vocabulary "principal_kind"))

  unfoldable pub kind_principal : RequirementKind w
  kind_principal = record {
    name = "principal_kind";
    default_match = any_match;
    requires_vocabulary = false;
    validate = some principal_validate;
    evaluate = some (λ ctx ec req. ok (has_kind ec.principal req.values));
  }

  unfoldable pub claim_kind_validate : String → Requirement → Vocabulary → Option w.Failure
  claim_kind_validate name req vocab =
      if is_empty req.values
      then some (w.plain "requires at least one value")
      else if not (is_empty req.params)
      then some (w.plain "does not accept params")
      else value_error (validate_values vocab req (or_domain req.vocabulary name))

  abbrev pub or_any : Match → Match
  or_any default_match = any_match
  or_any m = m

  unfoldable pub claim_kind : String → String → Match → RequirementKind w
  claim_kind name claim def = record {
    name = name;
    default_match = or_any def;
    requires_vocabulary = false;
    validate = some (claim_kind_validate name);
    evaluate =
        some (λ ctx ec req. ok (claim_test ec claim req.values (effective_match req (or_any def))));
  }

  unfoldable pub default_kinds : List (RequirementKind w)
  default_kinds =
      kind_authenticated
      ∷ kind_claim
      ∷ kind_principal
      ∷ claim_kind "role" "roles" any_match
      ∷ claim_kind "permission" "permissions" all_match
      ∷ claim_kind "scope" "scopes" any_match
      ∷ []

  -- The source panics where `NewRegistry` fails, which `default_registry_total` excludes.
  unfoldable pub default_registry : Registry w
  default_registry = elim (new_registry default_kinds) [ ok r ↦ r | err e ↦ [] ]

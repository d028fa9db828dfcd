-- ===== src/Policy/Registry.antt =====
-- policy/registry.go: the registry of the predicate kinds that a policy may name.
use grpcapi.Base.{
  String, Bool, Option, List, [], ◌∷◌, ◌==◌, if◌then◌else◌, is_some, lookup, insert, Result, ◌>>=◌,
  ok, err,
}
use grpcapi.Status.{World}
use grpcapi.Policy.Spec.{Match, default_match, any_match, Requirement, EvalContext}
use grpcapi.Policy.Vocabulary.{Vocabulary}

unfoldable pub effective_match : Requirement → Match → Match
effective_match req def = elim req.match [
  | default_match ↦ elim def [ default_match ↦ any_match | m ↦ m ]
  | m ↦ m
]

pub record RequirementKind (w : World) : Type 0 where
  pub name : String
  pub default_match : Match
  pub requires_vocabulary : Bool
  -- none is a nil function, for which the generic check of the values stands in
  pub validate : Option (Requirement → Vocabulary → Option w.Failure)
  -- none is a nil function: the kind is only declared
  pub evaluate : Option (w.Ambient → EvalContext w → Requirement → Result w.Failure Bool)

abbrev pub Registry : World → Type 0
Registry w = List (String × RequirementKind w)

module _ {w : World} where
  -- `Register`; the error of `fmt.Errorf` is its message.
  unfoldable pub register : Registry w → RequirementKind w → Result String (Registry w)
  register r k =
      if k.name == ""
      then err "requirement kind name is empty"
      else if is_some (lookup k.name r)
      then err "requirement kind registered twice"
      else ok (insert k.name k r)

  register_all : Registry w → List (RequirementKind w) → Result String (Registry w)
  register_all r [] = ok r
  register_all r (k ∷ kinds) = do next ← register r k; register_all next kinds

  unfoldable pub new_registry : List (RequirementKind w) → Result String (Registry w)
  unfolding register_all register
  new_registry kinds = register_all [] kinds

-- ===== src/Policy/Validate.antt =====
-- policy/build.go: the validation of one effective policy against a registry and a vocabulary. A
-- violation keeps the cause; the source prints it with the operation's name before it.
pub mod Laws
use grpcapi.Base.{
  ℕ, ◌+◌, String, Bool, true, false, not, ◌&&◌, ◌||◌, Option, none, some, List, [], ◌∷◌, ◌++◌, ◌==◌,
  if◌then◌else◌, str_append, is_empty, lookup,
}
use grpcapi.Status.{World}
use grpcapi.Policy.Spec.{Match, Requirement, Policy}
use grpcapi.Policy.Vocabulary.{Vocabulary, has, validate_values}
use grpcapi.Policy.Registry.{RequirementKind, Registry, effective_match}
use grpcapi.Policy.Kinds.{params_name}

unfoldable pub valid_match : Match → Bool
valid_match (Match.other n) = false
valid_match m = true

-- What `expand` and `mergePolicy` report.
pub data PresetError (w : World) : Type 0 where
  depth_exceeded : List String → String → PresetError w
  cycle : List String → String → PresetError w
  unknown_preset : String → PresetError w
  build_failed : String → w.Failure → PresetError w
  anonymous_base anonymous_inline : String → PresetError w

pub data Violation (w : World) : Type 0 where
  unexpanded_preset : String → Violation w
  anonymous_with_requirements empty_policy : Violation w
  empty_group : ℕ → Violation w
  invalid_match : Violation w
  unknown_kind : String → Violation w
  missing_vocabulary : String → String → Violation w
  rejected_requirement : w.Failure → Violation w
  value_not_in_vocabulary : String → String → Violation w
  provider_failed : w.Failure → Violation w
  missing_policy missing_exposure : Violation w
  expansion_failed : PresetError w → Violation w
  streaming_disabled client_streaming_exposed invalid_stream_auth : Violation w
  schema_version_differs schema_version_exceeds : ℕ → ℕ → Violation w
  rule_failed : String → w.Failure → Violation w

unfoldable pub vocabulary_domain : {w : World} → Requirement → RequirementKind w → String
vocabulary_domain req kind =
    if not (req.vocabulary == "")
    then req.vocabulary
    else if kind.name == "claim"
    then (if not (params_name req == "") then str_append "claim:" (params_name req) else kind.name)
    else kind.name

module _ {w : World} where
  abbrev rejected : Option w.Failure → List (Violation w)
  rejected none = []
  rejected (some e) = rejected_requirement e ∷ []

  abbrev outside : String → Option String → List (Violation w)
  outside domain none = []
  outside domain (some value) = value_not_in_vocabulary value domain ∷ []

  -- The kind's own check of the values, or the generic one by the vocabulary.
  check_values :
      Option (Requirement → Vocabulary → Option w.Failure)
      → Vocabulary
      → Requirement
      → String
      → List (Violation w)
  check_values (some validate) vocab req domain = rejected (validate req vocab)
  check_values none vocab req domain = outside domain (validate_values vocab req domain)

  -- The checks of `validateRequirement` from the one on the vocabulary on, for a registered kind
  -- and the requirement with its effective match.
  validate_kind : Requirement → RequirementKind w → Vocabulary → List (Violation w)
  unfolding check_values
  validate_kind req kind vocab =
      let domain = vocabulary_domain req kind in
      if kind.requires_vocabulary && not (has vocab domain)
      then missing_vocabulary req.kind domain ∷ []
      else check_values kind.validate vocab req domain

  unfoldable pub validate_requirement : Requirement → Registry w → Vocabulary → List (Violation w)
  unfolding validate_kind
  validate_requirement req reg vocab =
      if not (valid_match req.match) then invalid_match ∷ [] else elim (lookup req.kind reg) [
        | none ↦ unknown_kind req.kind ∷ []
        | some kind ↦
            validate_kind (record req { match = effective_match req kind.default_match }) kind vocab
      ]

  unfoldable pub validate_requirements :
      List Requirement → Registry w → Vocabulary → List (Violation w)
  validate_requirements [] reg vocab = []
  validate_requirements (r ∷ reqs) reg vocab =
      validate_requirement r reg vocab ++ validate_requirements reqs reg vocab

  -- The loop over `any_of`, from group `i` on.
  validate_groups : ℕ → List (List Requirement) → Registry w → Vocabulary → List (Violation w)
  validate_groups i [] reg vocab = []
  validate_groups i (group ∷ groups) reg vocab =
      (if is_empty group then empty_group i ∷ [] else validate_requirements group reg vocab)
      ++ validate_groups (i + 1) groups reg vocab

  -- The checks on the shape of the whole policy.
  validate_shape : Policy → List (Violation w)
  validate_shape p =
      (if not (p.preset == "") then unexpanded_preset p.preset ∷ [] else [])
      ++ (if p.anonymous
          then (if not (is_empty p.require) || not (is_empty p.any_of)
              then anonymous_with_requirements ∷ []
              else [])
          else if is_empty p.require && is_empty p.any_of
          then empty_policy ∷ []
          else [])

  unfoldable pub validate_policy : Policy → Registry w → Vocabulary → List (Violation w)
  unfolding validate_shape validate_groups
  validate_policy p reg vocab =
      validate_shape p
      ++ (validate_requirements p.require reg vocab
          ++ (validate_groups 0 p.any_of reg vocab ++ validate_requirements p.forbid reg vocab))

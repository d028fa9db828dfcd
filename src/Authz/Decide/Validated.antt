-- ===== src/Authz/Decide/Validated.antt =====
-- policy/build.go against authz/decider.go: what the validation at startup rules out at run time.
use grpcapi.Base.{
  ◌≡◌, ap, false, not, none, List, [], ◌∷◌, arith, is_empty, any, All, All-append, any-eq-false,
  All-map,
}
use grpcapi.Status.{World}
use grpcapi.Policy.Spec.{Requirement, Policy}
use grpcapi.Policy.Vocabulary.{Vocabulary}
use grpcapi.Policy.Registry.{Registry}
use grpcapi.Policy.Validate.{validate_policy, valid_match}
use grpcapi.Policy.Validate.Laws.{IsValidRequirement, IsValidPolicy, validate_policy_iff}
use grpcapi.Authz.Decide.{flatten_groups, requirements_of, config_error}

flatten_groups-All :
    (P : Requirement → Type 0) (groups : List (List Requirement))
    → All (All P) groups
    → All P (flatten_groups groups)
unfolding flatten_groups
flatten_groups-All P [] h = tt
flatten_groups-All P (g ∷ groups) (here, later) =
    All-append P g (flatten_groups groups) here (flatten_groups-All P groups later)

module _ {w : World} (reg : Registry w) (vocab : Vocabulary) where
  -- Every requirement of a valid policy, in whatever part of it, is valid.
  pub requirements_of-valid :
      (p : Policy)
      → IsValidPolicy reg vocab p
      → All (IsValidRequirement reg vocab) (requirements_of p)
  unfolding requirements_of
  requirements_of-valid p v = All-append _ p.require _ v.require_valid (
      All-append _ p.forbid _ v.forbid_valid
        (flatten_groups-All _ p.any_of (All-map (λ g h. h.1) p.any_of v.any_of_valid)))

  -- A policy that passes the validation is never refused as misconfigured.
  pub config_error-valid : (p : Policy) → validate_policy p reg vocab ≡ [] → config_error p ≡ none
  unfolding config_error
  config_error-valid p h =
      let v = (validate_policy_iff reg vocab p).0 h in
      let filled : any (λ (g : List Requirement). is_empty g) p.any_of ≡ false =
        any-eq-false _ p.any_of (All-map (λ g h. h.0) p.any_of v.any_of_valid) in
      let known : any (λ (r : Requirement). not (valid_match r.match)) (requirements_of p) ≡ false =
        any-eq-false _ (requirements_of p)
          (All-map (λ r h. ap not h.known_match) (requirements_of p) (requirements_of-valid p v)) in
      ground (arith, v.is_expanded, v.explicit, filled, known)

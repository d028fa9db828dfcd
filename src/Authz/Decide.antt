-- ===== src/Authz/Decide.antt =====
-- authz/decider.go: the decision on one request by the policy tree of its operation. The errors
-- that leave this file are statuses.
pub mod Laws
pub mod Safety
pub mod Evaluated
pub mod Validated
pub mod Inherit
use grpcapi.Base.{
  String, Bool, true, false, not, ◌&&◌, ◌||◌, Option, none, some, List, [], ◌∷◌, ◌++◌, ◌==◌,
  if◌then◌else◌, is_some, is_empty, any, lookup, Result, ◌>>=◌, ok, err,
}
use grpcapi.Status.{World, Code, Status, is_ok, internal, permission_denied, unauthenticated}
use grpcapi.Policy.Spec.{Requirement, Policy, Operation, EvalContext}
use grpcapi.Policy.Registry.{Registry}
use grpcapi.Policy.Validate.{valid_match}
use grpcapi.Policy.OperationSet.{OperationSet, operations}

pub record Decision : Type 0 where
  pub allow : Bool
  -- `ok` leaves the code to the interceptor
  pub code : Code
  pub reason : String
  pub failed : Option Requirement
  pub obligations : List (String × String)

abbrev pub allowed : Decision
allowed = record { allow = true; code = Code.ok; reason = ""; failed = none; obligations = [] }

abbrev pub deny : Code → String → Option Requirement → Decision
deny code reason failed = record {
  allow = false;
  code = code;
  reason = reason;
  failed = failed;
  obligations = [];
}

unfoldable pub flatten_groups : List (List Requirement) → List Requirement
flatten_groups [] = []
flatten_groups (group ∷ groups) = group ++ flatten_groups groups

unfoldable pub requirements_of : Policy → List Requirement
unfolding flatten_groups
requirements_of p = p.require ++ (p.forbid ++ flatten_groups p.any_of)

module _ (w : World) where
  -- An error of `Evaluate` that carries a status keeps it, where `st.Err()` is nil for code OK.
  evaluate_error : w.Failure → Result Status Bool
  evaluate_error e = elim (w.from_error e) [
    | some st ↦ (if is_ok st.code then ok false else err st)
    | none ↦ err (record { code = internal; message = "authz: evaluate" })
  ]

  matched : Result w.Failure Bool → Result Status Bool
  unfolding evaluate_error
  matched (ok b) = ok b
  matched (err e) = evaluate_error e

module _ {w : World} where
  unfoldable pub match_requirement :
      w.Ambient → EvalContext w → Registry w → Requirement → Result Status Bool
  unfolding matched
  match_requirement ctx ec reg r = elim (lookup r.kind reg) [
    | none ↦ err (record { code = internal; message = "authz: unknown requirement kind" })
    | some kind ↦ elim kind.evaluate [
      | none ↦ err (record { code = internal; message = "authz: kind has no Evaluate" })
      | some evaluate ↦ matched w (evaluate ctx ec r)
    ]
  ]

-- The configuration errors that `decidePolicy` refuses at run time, by their reasons.
unfoldable pub config_error : Policy → Option String
config_error p =
    if not (p.preset == "") || not p.anonymous && is_empty p.require && is_empty p.any_of
    then some "empty or unexpanded policy"
    else if p.anonymous && (not (is_empty p.require) || not (is_empty p.any_of))
    then some "anonymous policy with requirements"
    else if any (λ (g : List Requirement). is_empty g) p.any_of
    then some "empty any_of group"
    else if any (λ (r : Requirement). not (valid_match r.match)) (requirements_of p)
    then some "invalid requirement match"
    else none

-- The evaluation of a policy, over the answer to each requirement.
module _ (matches : Requirement → Result Status Bool) where
  -- `matchAny`: the first requirement that matches.
  unfoldable pub match_any : List Requirement → Result Status (Option Requirement)
  match_any [] = ok none
  match_any (r ∷ reqs) =
      let rest = match_any reqs in do b ← matches r; if b then ok (some r) else rest

  -- The first requirement that does not match: the loop over `Require`.
  unfoldable pub first_failed : List Requirement → Result Status (Option Requirement)
  first_failed [] = ok none
  first_failed (r ∷ reqs) =
      let rest = first_failed reqs in do b ← matches r; if b then rest else ok (some r)

  -- The loop over one group of `AnyOf`, which stops at the first requirement that fails.
  unfoldable pub match_group : List Requirement → Result Status Bool
  match_group [] = ok true
  match_group (r ∷ reqs) =
      let rest = match_group reqs in do b ← matches r; if b then rest else ok false

  unfoldable pub match_groups : List (List Requirement) → Result Status Bool
  unfolding match_group
  match_groups [] = ok false
  match_groups (group ∷ groups) =
      let rest = match_groups groups in do b ← match_group group; if b then ok true else rest

  unfoldable pub decide_any_of : List (List Requirement) → Result Status Decision
  unfolding match_groups
  decide_any_of [] = ok allowed
  decide_any_of (group ∷ groups) = do
    b ← match_groups (group ∷ groups)
    ok (if b then allowed else deny permission_denied "no any_of alternative satisfied" none)

  unfoldable pub decide_require : Policy → Result Status Decision
  unfolding first_failed decide_any_of
  decide_require p = do
    failed ← first_failed p.require
    elim failed [
      | some r ↦ ok (deny permission_denied "requirement not satisfied" (some r))
      | none ↦ decide_any_of p.any_of
    ]

  -- Deny overrides: what is forbidden comes first.
  unfoldable pub decide_forbid : Policy → Result Status Decision → Result Status Decision
  unfolding match_any
  decide_forbid p rest = do
    failed ← match_any p.forbid
    elim failed [ some r ↦ ok (deny permission_denied "forbidden" (some r)) | none ↦ rest ]

  unfoldable pub decide_well_formed : Policy → Bool → Result Status Decision
  unfolding decide_forbid decide_require
  decide_well_formed p has_principal =
      if p.anonymous
      then decide_forbid p (ok allowed)
      else if not has_principal
      then ok (deny unauthenticated "missing principal" none)
      else decide_forbid p (decide_require p)

  unfoldable pub decide_by : Policy → Bool → Result Status Decision
  unfolding config_error decide_well_formed
  decide_by p has_principal = elim (config_error p) [
    | some reason ↦ ok (deny internal reason none)
    | none ↦ decide_well_formed p has_principal
  ]

module _ {w : World} where
  unfoldable pub decide_policy : w.Ambient → EvalContext w → Registry w → Result Status Decision
  unfolding decide_by
  decide_policy ctx ec reg =
      decide_by (match_requirement ctx ec reg) ec.operation.policy (is_some ec.principal)

  -- What is wrong with a requirement of an operation for the built-in decider.
  unevaluable : Registry w → List Requirement → Bool
  unevaluable reg [] = false
  unevaluable reg (r ∷ reqs) = elim (lookup r.kind reg) [
    | none ↦ true
    | some kind ↦ not (is_some kind.evaluate) || unevaluable reg reqs
  ]

  -- `NewRequirementDecider`: the registry of the decider.
  unfoldable pub new_requirement_decider : OperationSet w → Result String (Registry w)
  unfolding unevaluable
  new_requirement_decider set =
      if any (λ (op : Operation). unevaluable set.registry (requirements_of op.policy))
        (operations set)
      then err "authz: unknown kind, or kind with no Evaluate"
      else ok set.registry

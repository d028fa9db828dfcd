-- ===== src/Policy/Spec.antt =====
-- policy/spec.go: requirements, policies, operations and the context in which they are evaluated.
-- Go's enumerations are open integers: a value that is not named there is `other`.
-- The `Clone` methods copy what a value of this model shares with nobody.
use grpcapi.Base.{
  ℕ, String, Bool, false, not, ◌&&◌, Option, List, [], ◌∷◌, ◌==◌, if◌then◌else◌, is_empty,
}
use grpcapi.Status.{World}
use grpcapi.Principal.{Principal}

pub data Match : Type 0 where
  default_match any_match all_match : Match
  other : ℕ → Match

pub record Requirement : Type 0 where
  pub kind : String
  pub vocabulary : String
  pub match : Match
  pub values : List String
  pub params : List (String × String)

-- The inner lists of `any_of` are AND groups.
pub record Policy : Type 0 where
  pub preset : String
  pub preset_args : List (String × String)
  pub anonymous : Bool
  pub require : List Requirement
  pub any_of : List (List Requirement)
  pub forbid : List Requirement

-- Go's zero value `Policy{}`.
abbrev pub zero_policy : Policy
zero_policy = record {
  preset = "";
  preset_args = [];
  anonymous = false;
  require = [];
  any_of = [];
  forbid = [];
}

pub is_zero : Policy → Bool
is_zero p =
    not p.anonymous
    && is_empty p.require
    && is_empty p.any_of
    && is_empty p.forbid
    && p.preset == ""

pub data Exposure : Type 0 where
  unspecified internal public deprecated hidden : Exposure
  other : ℕ → Exposure

-- `unset` is 0, which the source has no name for.
pub data StreamAuthMode : Type 0 where
  unset on_open per_message : StreamAuthMode
  other : ℕ → StreamAuthMode

pub data OperationKind : Type 0 where
  grpc http : OperationKind

pub record Operation : Type 0 where
  pub id : String
  pub kind : OperationKind
  pub service : String
  pub api : String
  pub policy : Policy
  pub exposure : Exposure
  pub label : String
  pub operation_id : String
  pub streaming : Bool
  pub stream_auth : StreamAuthMode
  pub request_fields : List String
  pub metadata : List (String × String)

-- `Label` for a single required predicate, and for a single alternative of one predicate.
require_label : String → String
require_label kind =
    if kind == "authenticated"
    then "authenticated"
    else if kind == "role"
    then "role"
    else if kind == "permission"
    then "permission"
    else if kind == "scope"
    then "scope"
    else ""

group_label : String → String
group_label kind =
    if kind == "role"
    then "role"
    else if kind == "scope"
    then "scope"
    else if kind == "permission"
    then "permission"
    else ""

abbrev or_custom : String → String
or_custom l = if l == "" then "custom" else l

requirements_label : List Requirement → List (List Requirement) → List Requirement → String
requirements_label (r ∷ []) [] [] = or_custom (require_label r.kind)
requirements_label [] ((r ∷ []) ∷ []) [] = or_custom (group_label r.kind)
requirements_label require any_of forbid = "custom"

unfoldable pub label : Policy → String
unfolding requirements_label require_label group_label
label p =
    if not (p.preset == "")
    then p.preset
    else if p.anonymous
    then "public"
    else requirements_label p.require p.any_of p.forbid

pub effective_label : Operation → String
effective_label op = if not (op.label == "") then op.label else label op.policy

pub record EvalContext (w : World) : Type 0 where
  pub operation : Operation
  pub principal : Option (Principal w)
  pub request : Option w.Request
  pub metadata : List (String × List String)
  pub resource : Option w.Resource

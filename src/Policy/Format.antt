-- ===== src/Policy/Format.antt =====
-- policy/spec.go and policy/manifest.go: the canonical form of a policy, and its text. Go sorts the keys
-- of a map; the entries of an association list have different keys. sort.Slice may swap elements with the same
-- key, which are alike but for the order and repetition of their entries; here it is stable.
pub mod Laws
use grpcapi.Base.{
  String, true, false, List, [], ◌∷◌, map, ◌==◌, if◌then◌else◌, str_append, is_empty, contains,
  join, sort_by,
}
use grpcapi.Policy.Spec.{
  Match, Requirement, Policy, Exposure, StreamAuthMode, OperationKind, Operation,
}

-- The `String` methods
unfoldable pub match_text : Match → String
match_text Match.any_match = "any"
match_text Match.all_match = "all"
match_text _ = "default"

unfoldable pub exposure_text : Exposure → String
exposure_text Exposure.internal = "internal"
exposure_text Exposure.public = "public"
exposure_text Exposure.deprecated = "deprecated"
exposure_text Exposure.hidden = "hidden"
exposure_text _ = "unspecified"

unfoldable pub stream_mode_text : StreamAuthMode → String
stream_mode_text StreamAuthMode.per_message = "per_message"
stream_mode_text _ = "open"

unfoldable pub kind_text : OperationKind → String
kind_text OperationKind.http = "http"
kind_text OperationKind.grpc = "grpc"

-- The loop of `canonicalValues` over the values, and the values that it has seen.
unfoldable pub distinct_values : List String → List String → List String
distinct_values seen [] = []
distinct_values seen (v ∷ values) = elim (contains seen v) [
  | true ↦ distinct_values seen values
  | false ↦ v ∷ distinct_values (v ∷ seen) values
]

-- `canonicalValues`
unfoldable pub canonical_values : List String → List String
unfolding distinct_values
canonical_values values = sort_by (λ v. v) (distinct_values [] values)

append_values : String → List String → String
append_values key [] = key
append_values key (v ∷ values) = append_values (str_append key (str_append "\0" v)) values

append_params : String → List (String × String) → String
append_params key [] = key
append_params key ((k, v) ∷ params) =
    append_params (str_append key (str_append "\0" (str_append k (str_append "=" v)))) params

abbrev param_key : String × String → String
param_key param = param.0

-- `requirementKey`
unfoldable pub requirement_key : Requirement → String
unfolding append_values append_params match_text
requirement_key r =
    append_params
      (append_values
        (str_append r.kind
          (str_append "\0" (str_append r.vocabulary (str_append "\0" (match_text r.match)))))
        r.values)
      (sort_by param_key r.params)

append_keys : String → List Requirement → String
unfolding requirement_key
append_keys key [] = key
append_keys key (r ∷ reqs) =
    append_keys (str_append key (str_append (requirement_key r) "\u{1}")) reqs

-- `requirementListKey`
unfoldable pub requirement_list_key : List Requirement → String
unfolding append_keys
requirement_list_key reqs = append_keys "" reqs

unfoldable pub canonical_requirement : Requirement → Requirement
unfolding canonical_values
canonical_requirement r = record r { values = canonical_values r.values }

-- `canonicalRequirements`
unfoldable pub canonical_requirements : List Requirement → List Requirement
unfolding canonical_requirement requirement_key
canonical_requirements reqs = sort_by requirement_key (map canonical_requirement reqs)

-- `canonicalGroups`
unfoldable pub canonical_groups : List (List Requirement) → List (List Requirement)
unfolding canonical_requirements requirement_list_key
canonical_groups groups = sort_by requirement_list_key (map canonical_requirements groups)

-- `canonicalPolicy`
unfoldable pub canonical_policy : Policy → Policy
unfolding canonical_requirements canonical_groups
canonical_policy p = record p {
  preset = "";
  preset_args = [];
  require = canonical_requirements p.require;
  any_of = canonical_groups p.any_of;
  forbid = canonical_requirements p.forbid;
}

requirement_text : Requirement → String
requirement_text r =
    if is_empty r.values
    then r.kind
    else str_append r.kind (str_append "(" (str_append (join "," (sort_by (λ v. v) r.values)) ")"))

abbrev and_space : String → String
and_space b = if b == "" then "" else str_append b " "

abbrev named : String → String → String
named b name = if name == "" then b else str_append (and_space b) (str_append name ":")

-- `appendReqList`, after the text so far
unfoldable pub append_req_list : String → String → List Requirement → String
unfolding requirement_text
append_req_list b name reqs =
    if is_empty reqs then b else str_append (named b name) (join " & " (map requirement_text reqs))

append_groups : String → List (List Requirement) → String
unfolding append_req_list
append_groups b groups =
    if is_empty groups
    then b
    else str_append (and_space b)
        (str_append "any_of[" (str_append (join " | " (map (append_req_list "" "") groups)) "]"))

granted_text : Policy → String
unfolding append_req_list append_groups canonical_requirements canonical_groups
granted_text p =
    if p.anonymous
    then "public"
    else append_groups
        (append_req_list (if p.preset == "" then "" else str_append "preset:" p.preset) "require"
          (canonical_requirements p.require))
        (canonical_groups p.any_of)

-- `Format`
unfoldable pub format : Policy → String
unfolding granted_text append_req_list canonical_requirements
format p =
    let text = append_req_list (granted_text p) "forbid" (canonical_requirements p.forbid) in
    if text == "" then "empty" else text

-- `Operation.String`
unfoldable pub operation_text : Operation → String
unfolding kind_text exposure_text format
operation_text o = str_append o.id (
    str_append "[" (
      str_append (kind_text o.kind) (
        str_append "," (
          str_append (exposure_text o.exposure)
            (str_append "," (str_append (format o.policy) "]"))))))

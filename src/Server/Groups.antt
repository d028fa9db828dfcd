-- ===== src/Server/Groups.antt =====
-- server/server.go: the groups of services that are served below one prefix each. Middleware, the options of
-- grpc-gateway and documents, which a group carries along, are left out.
pub mod Laws
use grpcapi.Base.{
  String, Bool, false, not, ◌&&◌, ◌||◌, Option, none, some, List, [], ◌∷◌, ◌++◌, map, ◌==◌,
  if◌then◌else◌, is_some, or_else, str_append, any, contains, lookup, insert, Result, ◌>>=◌,
  trim_space, has_prefix, sort_by, ok, err,
}
use grpcapi.Policy.Spec.{Operation}
use grpcapi.Policy.Descriptors.{ServiceDescriptor}
use grpcapi.Surface.{Entry}
use grpcapi.Surface.Path.{normalize_path}

-- `Registration`; a nil descriptor or function is none or false.
pub record Registration : Type 0 where
  pub api : String
  pub descriptor : Option ServiceDescriptor
  pub has_grpc : Bool
  pub has_http : Bool
  pub allow_api_mismatch : Bool

pub record ApiConfig : Type 0 where
  pub name : String
  pub prefix : String
  pub services : List Registration

pub record ApiGroup : Type 0 where
  pub name : String
  pub prefix : String
  pub regs : List Registration

-- The loop over the services of an API.
with_api : String → List Registration → List Registration
with_api name [] = []
with_api name (r ∷ rs) = (if r.api == "" then record r { api = name } else r) ∷ with_api name rs

api_registrations : List ApiConfig → List Registration
unfolding with_api
api_registrations [] = []
api_registrations (a ∷ apis) = with_api a.name a.services ++ api_registrations apis

-- `allRegistrations`, of the services and the APIs of a configuration
unfoldable pub all_registrations : List Registration → List ApiConfig → List Registration
unfolding api_registrations
all_registrations services apis = services ++ api_registrations apis

-- The prefix of an API; the root and an empty one are the default.
unfoldable pub group_prefix : String → String
group_prefix raw =
    let prefix = trim_space raw in
    if prefix == ""
    then ""
    else (let path = normalize_path prefix in if path == "/" then "" else path)

-- The loop over the APIs.
add_apis : List (String × ApiGroup) → List ApiConfig → Result String (List (String × ApiGroup))
unfolding group_prefix
add_apis groups [] = ok groups
add_apis groups (a ∷ apis) =
    let more =
      add_apis
        (insert a.name (record { name = a.name; prefix = group_prefix a.prefix; regs = [] }) groups)
        apis in
    if a.name == ""
    then err "server: APIConfig with empty name"
    else if is_some (lookup a.name groups)
    then err "server: duplicate APIConfig"
    else more

-- The loop over the operations of the interface: the API of each service.
unfoldable pub api_by_service : List (String × String) → List Entry → List (String × String)
api_by_service apis [] = apis
api_by_service apis (e ∷ ops) = api_by_service (insert e.operation.service e.operation.api apis) ops

-- What the loop over the registrations has collected.
pub record Grouping : Type 0 where
  pub groups : List (String × ApiGroup)
  pub needs_default : Bool
  pub seen : List String

abbrev new_group : String → ApiGroup
new_group api = record { name = api; prefix = ""; regs = [] }

abbrev join_group : String → Registration → List (String × ApiGroup) → List (String × ApiGroup)
join_group api r groups =
    let g = or_else (lookup api groups) (new_group api) in
    insert api (record g { regs = g.regs ++ r ∷ [] }) groups

-- The API that a registration goes to, by the one that its service declares.
abbrev api_of : Registration → String → String
api_of r derived = if r.api == "" then derived else r.api

add_registration :
    List (String × String) → Grouping → Registration → ServiceDescriptor → Result String Grouping
add_registration apis acc r sd =
    let derived = or_else (lookup sd.full_name apis) "" in
    let api = api_of r derived in
    let needs = acc.needs_default || api == "" in
    let key = str_append api (str_append "|" sd.full_name) in
    if not (api == "") && not (derived == "") && not (api == derived) && not r.allow_api_mismatch
    then err "server: service registered to another API than proto declares"
    else if contains acc.seen key
    then ok (record acc { needs_default = needs })
    else ok (record {
      groups = join_group api r acc.groups;
      needs_default = needs;
      seen = key ∷ acc.seen;
    })

add_registrations : List (String × String) → Grouping → List Registration → Result String Grouping
unfolding add_registration
add_registrations apis acc [] = ok acc
add_registrations apis acc (r ∷ rs) = elim r.descriptor [
  | none ↦ add_registrations apis acc rs
  | some sd ↦ elim (add_registration apis acc r sd) [
    | err e ↦ err e
    | ok later ↦ add_registrations apis later rs
  ]
]

-- The groups in the order of their names.
abbrev sorted_groups : Grouping → List ApiGroup
sorted_groups acc =
    let all_groups =
      if acc.needs_default && not (is_some (lookup "" acc.groups))
      then insert "" (new_group "") acc.groups
      else acc.groups in
    map (λ (entry : String × ApiGroup). entry.1)
      (sort_by (λ (entry : String × ApiGroup). entry.0) all_groups)

-- The loop that refuses a prefix of two groups.
unfoldable pub check_prefixes : List String → List ApiGroup → Option String
check_prefixes seen [] = none
check_prefixes seen (g ∷ gs) =
    let rest = check_prefixes (g.prefix ∷ seen) gs in
    if contains seen g.prefix then some "server: API groups share a prefix" else rest

-- A group lies below the prefix of another.
unfoldable pub shadowed : ApiGroup → ApiGroup → Bool
shadowed a b =
    not (a.name == b.name)
    && not (a.prefix == "" || b.prefix == "")
    && has_prefix a.prefix (str_append b.prefix "/")

-- `buildGroups`, on the operations of the interface and all registrations
unfoldable pub build_groups :
    List ApiConfig → List Entry → List Registration → Result String (List ApiGroup)
unfolding add_apis api_by_service add_registrations check_prefixes shadowed
build_groups configs ops regs = do
  groups ← add_apis [] configs
  acc ←
      add_registrations (api_by_service [] ops)
        (record { groups = groups; needs_default = false; seen = [] }) regs
  let gs = sorted_groups acc in
      elim (check_prefixes [] gs) [
        | some e ↦ err e
        | none ↦
            (if any (λ a. any (shadowed a) gs) gs
              then err "server: API group prefix is shadowed"
              else ok gs)
      ]

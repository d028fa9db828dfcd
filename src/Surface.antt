-- ===== src/Surface.antt =====
-- surface/surface.go: the HTTP interface of the services of a server. Streams and google.api.http rules are
-- read from the protobuf descriptors, which are not code of the repository.
pub mod Path
pub mod Build
pub mod Covers
use grpcapi.Base.{
  ℕ, ◌+◌, String, Bool, true, false, not, ◌&&◌, ◌||◌, Option, none, some, List, [], ◌∷◌, ◌++◌, ◌==◌,
  if◌then◌else◌, is_some, str_append, is_empty, contains, lookup, insert, Result, ◌>>=◌, to_upper,
  sort_by, ok, err,
}
use grpcapi.Status.{World}
use grpcapi.Policy.Spec.{Exposure, Operation}
use grpcapi.Policy.OperationSet.{OperationSet, get}
use grpcapi.Policy.Descriptors.{MethodDescriptor, ServiceDescriptor, FileDescriptor}
use grpcapi.Policy.Method.{full_method}
use grpcapi.Surface.Path.{normalize_path}

pub record HttpBinding : Type 0 where
  pub verb : String
  pub path : String
  pub body : String
  pub response_body : String
  pub binding_index : ℕ

-- annotations.HttpRule_Get and its kin, none of the others
pub data Pattern : Type 0 where
  get_path put_path post_path delete_path patch_path : String → Pattern
  custom : String → String → Pattern

-- *annotations.HttpRule, without its additional bindings.
pub record HttpRule : Type 0 where
  pub pattern : Option Pattern
  pub body : String
  pub response_body : String

-- The rule of a method's options, with its additional bindings; a nil one is none.
pub record MethodRule : Type 0 where
  pub main : HttpRule
  pub additional : List (Option HttpRule)

-- The operation of a method on the interface. Input and Output are those of the descriptor.
pub record Entry : Type 0 where
  pub operation : Operation
  pub service : ServiceDescriptor
  pub descriptor : MethodDescriptor
  pub http : List HttpBinding
  pub streaming : Bool

pub record Surface (w : World) : Type 0 where
  pub ops : List Entry
  pub set : OperationSet w

-- The verb and the path of a pattern.
verb_path : Pattern → String × String
verb_path (get_path p) = ("GET", p)
verb_path (post_path p) = ("POST", p)
verb_path (put_path p) = ("PUT", p)
verb_path (delete_path p) = ("DELETE", p)
verb_path (patch_path p) = ("PATCH", p)
verb_path (custom kind p) = (to_upper kind, p)

binding_of : Option HttpRule → ℕ → Result String HttpBinding
unfolding verb_path
binding_of none index = err "nil http rule"
binding_of (some rule) index = elim rule.pattern [
  | none ↦ err "http rule has no pattern"
  | some pattern ↦
      let (verb, path) = verb_path pattern in
      if path == ""
      then err "http rule has empty path"
      else ok (record {
        verb = verb;
        path = normalize_path path;
        body = rule.body;
        response_body = rule.response_body;
        binding_index = index;
      })
]

-- The loop over the additional bindings.
more_bindings : List (Option HttpRule) → ℕ → Result String (List HttpBinding)
unfolding binding_of
more_bindings [] index = ok []
more_bindings (rule ∷ rules) index = do
  b ← binding_of rule index
  bs ← more_bindings rules (index + 1)
  ok (b ∷ bs)

-- `bindingsOf`, of a method's rule, none for no options or no rule
unfoldable pub bindings_of : Option MethodRule → Result String (List HttpBinding)
unfolding more_bindings
bindings_of none = ok []
bindings_of (some rule) = more_bindings (some rule.main ∷ rule.additional) 0

unfoldable pub validate_exposure : MethodDescriptor → Exposure → List HttpBinding → Option String
validate_exposure md exposure bindings =
    let stream =
      if not (is_empty bindings) && md.streaming_client
      then some "is client/bidi streaming and cannot be exposed over grpc-gateway"
      else none in
    let required = if is_empty bindings then some "has no google.api.http binding" else stream in
    elim exposure [
      | Exposure.public ↦ required
      | Exposure.deprecated ↦ required
      | Exposure.internal ↦
          if not (is_empty bindings)
          then some "is INTERNAL but declares google.api.http"
          else stream
      | Exposure.hidden ↦ stream
      | _ ↦ some "has unspecified exposure"
    ]

unfoldable pub route_key : HttpBinding → String
route_key b = str_append b.verb (str_append " " b.path)

-- The loop over the bindings of a method: the routes that are taken, each with its method.
unfoldable pub add_routes :
    String → List HttpBinding → List (String × String) → Result String (List (String × String))
add_routes method [] routes = ok routes
add_routes method (b ∷ bs) routes =
    let more = add_routes method bs (insert (route_key b) method routes) in
    if is_some (lookup (route_key b) routes) then err "surface: duplicate HTTP route" else more

-- What `BuildFromServices` has collected.
pub record Collected : Type 0 where
  pub ops : List Entry
  pub routes : List (String × String)

module _ {w : World} (rule_of : ServiceDescriptor → MethodDescriptor → Option MethodRule)
    (set : OperationSet w) where
  unfoldable pub add_method :
      ServiceDescriptor → MethodDescriptor → Collected → Result String Collected
  unfolding bindings_of validate_exposure add_routes
  add_method sd md acc =
      let method = full_method sd md in
      elim (get set method) [
        | none ↦ err "surface: method has no policy"
        | some op ↦ elim (bindings_of (rule_of sd md)) [
          | err e ↦ err e
          | ok bindings ↦ elim (validate_exposure md op.exposure bindings) [
            | some e ↦ err e
            | none ↦ elim (add_routes method bindings acc.routes) [
              | err e ↦ err e
              | ok routes ↦ ok (record {
                ops =
                    acc.ops
                    ++ record {
                      operation = op;
                      service = sd;
                      descriptor = md;
                      http = bindings;
                      streaming = md.streaming_client || md.streaming_server;
                    }
                      ∷ [];
                routes = routes;
              })
            ]
          ]
        ]
      ]

  unfoldable pub add_methods :
      ServiceDescriptor → List MethodDescriptor → Collected → Result String Collected
  unfolding add_method
  add_methods sd [] acc = ok acc
  add_methods sd (md ∷ mds) acc = elim (add_method sd md acc) [
    | err e ↦ err e
    | ok later ↦ add_methods sd mds later
  ]

  unfoldable pub add_services :
      List String → List (Option ServiceDescriptor) → Collected → Result String Collected
  unfolding add_methods
  add_services seen [] acc = ok acc
  add_services seen (none ∷ sds) acc = add_services seen sds acc
  add_services seen (some sd ∷ sds) acc = elim (contains seen sd.full_name) [
    | true ↦ add_services seen sds acc
    | false ↦ elim (add_methods sd sd.methods acc) [
      | err e ↦ err e
      | ok later ↦ add_services (sd.full_name ∷ seen) sds later
    ]
  ]

  -- `BuildFromServices`, on a set that is not nil
  unfoldable pub build_from_services : List (Option ServiceDescriptor) → Result String (Surface w)
  unfolding add_services
  build_from_services services =
      elim (add_services [] services (record { ops = []; routes = [] })) [
        | err e ↦ err e
        | ok acc ↦ ok (record { ops = sort_by (λ (e : Entry). e.operation.id) acc.ops; set = set })
      ]

-- The services of a file whose names have not been seen, and the names seen after them.
fresh : List String → List ServiceDescriptor → List (Option ServiceDescriptor) × List String
fresh seen [] = ([], seen)
fresh seen (sd ∷ sds) = elim (contains seen sd.full_name) [
  | true ↦ fresh seen sds
  | false ↦ let (more, later) = fresh (sd.full_name ∷ seen) sds in (some sd ∷ more, later)
]

-- The loop of `Build` over the files.
file_services : List String → List (Option FileDescriptor) → List (Option ServiceDescriptor)
unfolding fresh
file_services seen [] = []
file_services seen (none ∷ files) = file_services seen files
file_services seen (some fd ∷ files) =
    let (more, later) = fresh seen fd.services in more ++ file_services later files

module _ {w : World} where
  -- `Build`, on a set that may be nil
  unfoldable pub build :
      (ServiceDescriptor → MethodDescriptor → Option MethodRule)
      → Option (OperationSet w)
      → List (Option FileDescriptor)
      → Result String (Surface w)
  unfolding file_services build_from_services
  build rule_of none files = err "surface: policy.Set is nil"
  build rule_of (some set) files = build_from_services rule_of set (file_services [] files)

-- `OperationsByAPI`
unfoldable pub operations_by_api : String → List Entry → List Entry
operations_by_api api [] = []
operations_by_api api (e ∷ ops) =
    let rest = operations_by_api api ops in if e.operation.api == api then e ∷ rest else rest

-- ===== src/Server/Checks.antt =====
-- server/server.go: the checks that `New` makes before it puts a server together. A message names what it is
-- about, and an error that is nil is none.
pub mod Stages
pub mod Laws
use grpcapi.Base.{
  ℕ, ◌+◌, String, Bool, true, false, not, ◌&&◌, ◌||◌, Option, none, some, List, [], ◌∷◌, ◌++◌, map,
  ◌==◌, ltb, if◌then◌else◌, is_some, or_else, str_append, is_empty, any, contains, lookup, insert,
  Result, ◌>>=◌, trim_space, trim_right, has_prefix, sort_by, ok, err,
}
use grpcapi.Status.{World}
use grpcapi.Policy.Spec.{Operation}
use grpcapi.Policy.OperationSet.{OperationSet, operations}
use grpcapi.Policy.Descriptors.{ServiceDescriptor}
use grpcapi.Chain.{Stage}
use grpcapi.Surface.{HttpBinding, Entry}
use grpcapi.Surface.Path.{normalize_path}
use grpcapi.Server.Groups.{Registration, ApiConfig, group_prefix}

-- `uniqueServiceDescriptors`
unfoldable pub unique_service_descriptors :
    List String → List Registration → Result String (List ServiceDescriptor)
unique_service_descriptors seen [] = ok []
unique_service_descriptors seen (r ∷ rs) = elim r.descriptor [
  | none ↦ err "server: registration with nil descriptor"
  | some sd ↦ elim (contains seen sd.full_name) [
    | true ↦ unique_service_descriptors seen rs
    | false ↦ unique_service_descriptors (sd.full_name ∷ seen) rs >>= λ sds. ok (sd ∷ sds)
  ]
]

-- A service has a route of its own.
abbrev has_routes : List Entry → String → Bool
has_routes ops service = any (λ e. not (is_empty e.http) && e.operation.service == service) ops

-- `validateRegistrations`, with DisableHTTP
unfoldable pub validate_registrations : Bool → List Entry → List Registration → Option String
validate_registrations disable_http ops [] = none
validate_registrations disable_http ops (r ∷ rs) =
    let rest = validate_registrations disable_http ops rs in
    elim r.descriptor [
      | none ↦ some "server: registration with nil descriptor"
      | some sd ↦
          if not r.has_grpc
          then some "server: service has nil RegisterGRPC"
          else if not disable_http && not r.has_http && has_routes ops sd.full_name
          then some "server: service declares HTTP routes but has nil RegisterHTTP"
          else rest
    ]

abbrev ids : List Operation → List String
ids ops = map (λ (op : Operation). op.id) ops

abbrev entry_ids : List Entry → List String
entry_ids ops = map (λ (e : Entry). e.operation.id) ops

-- The IDs that are not registered.
unfoldable pub missing_ids : List String → List Operation → List String
missing_ids registered [] = []
missing_ids registered (op ∷ ops) =
    let rest = missing_ids registered ops in
    if contains registered op.id then rest else op.id ∷ rest

-- `validateRegisteredPolicies`, with AllowUnregisteredPolicies: the missing IDs of its error, none for nil
unfoldable pub validate_registered_policies :
    {w : World} → Bool → OperationSet w → List Entry → List Operation → Option (List String)
unfolding missing_ids
validate_registered_policies allow_unregistered set ops extra =
    let missing = missing_ids (entry_ids ops ++ ids extra) (operations set) in
    if allow_unregistered
    then none
    else if is_empty missing
    then none
    else some (sort_by (λ id. id) missing)

-- `joinPaths`, before the normal form
joined : List String → String
joined [] = ""
joined (p ∷ parts) =
    if p == ""
    then joined parts
    else str_append (trim_right b'/' (if not (has_prefix p "/") then str_append "/" p else p))
        (joined parts)

unfoldable pub join_paths : List String → String
unfolding joined
join_paths parts = normalize_path (joined parts)

-- The prefixes of the APIs, those of the default left out or empty.
api_prefixes : List (String × String) → List ApiConfig → List (String × String)
api_prefixes prefixes [] = prefixes
api_prefixes prefixes (a ∷ apis) =
    api_prefixes
      (if trim_space a.prefix == ""
        then prefixes
        else insert a.name (group_prefix a.prefix) prefixes)
      apis

abbrev binding_key : String → HttpBinding → String
binding_key prefix b = str_append b.verb (str_append " " (join_paths (prefix ∷ b.path ∷ [])))

abbrev binding_keys : String → List HttpBinding → List String
binding_keys prefix bs = map (binding_key prefix) bs

-- The routes of the operations below their prefixes.
route_keys : List (String × String) → List Entry → List String
unfolding join_paths
route_keys prefixes [] = []
route_keys prefixes (e ∷ ops) =
    binding_keys (or_else (lookup e.operation.api prefixes) "") e.http ++ route_keys prefixes ops

unfoldable pub extra_key : Operation → String
extra_key op =
    let method = or_else (lookup "method" op.metadata) "" in
    if not (method == "")
    then str_append method (str_append " " (or_else (lookup "path" op.metadata) ""))
    else op.id

-- The loop over the extra routes.
unfoldable pub check_extra : List String → List Operation → Option String
unfolding extra_key
check_extra seen [] = none
check_extra seen (op ∷ extra) =
    let rest = check_extra (extra_key op ∷ seen) extra in
    if contains seen (extra_key op) then some "server: extra route conflicts with a route" else rest

-- `validateExtraConflicts`
unfoldable pub validate_extra_conflicts :
    List ApiConfig → List Entry → List Operation → Option String
unfolding check_extra api_prefixes route_keys
validate_extra_conflicts apis ops extra = check_extra (route_keys (api_prefixes [] apis) ops) extra

-- `validateCSRF`, with whether CSRF is configured, AllowNoCSRF and the answers of RequiresCSRF
unfoldable pub validate_csrf : Bool → Bool → List Bool → Option String
validate_csrf configured allow_no_csrf requires =
    if configured || allow_no_csrf
    then none
    else if any (λ b. b) requires
    then some "server: authenticator requires CSRF but Config.CSRF is nil"
    else none

abbrev pub is_protected : Operation → Bool
is_protected op = not op.policy.anonymous

abbrev pub is_protected_stream : Operation → Bool
is_protected_stream op = not op.policy.anonymous && op.streaming

-- Both places are there, and the first comes first.
abbrev pub before : Option ℕ → Option ℕ → Bool
before (some a) (some b) = ltb a b
before a b = false

module _ {U S : Type 0} where
  -- `Chain.Has`
  unfoldable pub has : List (Stage U S) → String → Bool
  has stages name = any (λ st. st.name == name && is_some st.unary) stages

  -- `Chain.HasStream`
  unfoldable pub has_stream : List (Stage U S) → String → Bool
  has_stream stages name = any (λ st. st.name == name && is_some st.stream) stages

  -- The place of the last stage of a name with a unary interceptor, from a place on.
  unfoldable pub place : String → ℕ → List (Stage U S) → Option ℕ
  place name n [] = none
  place name n (st ∷ stages) = elim (place name (n + 1) stages) [
    | some later ↦ some later
    | none ↦ if st.name == name && is_some st.unary then some n else none
  ]

  -- `validateAuthChain`, with AllowNoAuthenticator, AllowNoAuthz and whether there are authenticators
  unfoldable pub validate_auth_chain :
      {w : World} → Bool → Bool → Bool → List (Stage U S) → OperationSet w → Option String
  unfolding has has_stream place
  validate_auth_chain no_authenticator no_authz has_authenticators stages set =
      let ops = operations set in
      let streams = any is_protected_stream ops in
      if not (any is_protected ops)
      then none
      else if not no_authenticator && not has_authenticators
      then some "server: protected policies exist but no Authenticators configured"
      else if not no_authz && not (has stages "authz")
      then some "server: protected policies exist but interceptor chain has no authz stage"
      else if streams && not no_authz && not (has_stream stages "authz")
      then some
          "server: protected streaming methods exist but authz stage has no stream interceptor"
      else if not no_authz && before (place "authz" 0 stages) (place "authn" 0 stages)
      then some
          "server: interceptor chain has authz stage before authn stage; authn must precede authz"
      else if streams
          && not no_authenticator
          && has stages "authn"
          && not (has_stream stages "authn")
      then some
          "server: protected streaming methods exist but authn stage has no stream interceptor"
      else none

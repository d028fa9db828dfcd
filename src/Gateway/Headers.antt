-- ===== src/Gateway/Headers.antt =====
-- gateway/headers.go: which headers become metadata and which metadata become headers. The matchers of
-- grpc-gateway and the canonical spelling of net/textproto are given.
use grpcapi.Base.{
  String, Option, none, some, List, [], ◌∷◌, map, if◌then◌else◌, or_else, str_append, contains,
  to_lower, trim_space,
}

-- A matcher's `(key, ok)`, none where ok is false
abbrev pub Matcher : Type 0
Matcher = String → Option String

-- `HeaderPolicy`; a nil field is none.
pub record HeaderPolicy : Type 0 where
  pub deny : Option (List String)
  pub allow : Option (List String)
  pub direct : Option (List String)
  pub fallback_in : Option Matcher
  pub fallback_out : Option Matcher

abbrev pub default_denied_headers : List String
default_denied_headers =
    "authorization" ∷ "grpcgateway-authorization" ∷ "grpc-metadata-authorization"
    ∷ "x-grpcapi-client-ip" ∷ "grpcgateway-x-grpcapi-client-ip"
    ∷ "grpc-metadata-x-grpcapi-client-ip" ∷ []

abbrev pub default_allowed_headers : List String
default_allowed_headers = "cookie" ∷ "x-api-key" ∷ "x-request-id" ∷ "idempotency-key" ∷ []

abbrev default_direct_headers : List String
default_direct_headers = "set-cookie" ∷ []

-- The names of a set, as `lowerSet` makes them.
unfoldable pub lower_set : List String → List String
lower_set names = map (λ v. to_lower (trim_space v)) names

-- The default matchers are runtime.DefaultHeaderMatcher and the prefix runtime.MetadataHeaderPrefix.
module _ (default_in : Matcher) (prefix : String) (canonical : String → String) where
  unfoldable pub incoming_policy : HeaderPolicy → Matcher
  unfolding lower_set
  incoming_policy p key =
      let lower = to_lower key in
      if contains (lower_set (or_else p.deny default_denied_headers)) lower
      then none
      else if contains (lower_set (or_else p.allow default_allowed_headers)) lower
      then some lower
      else or_else p.fallback_in default_in key

  unfoldable pub outgoing_policy : HeaderPolicy → Matcher
  unfolding lower_set
  outgoing_policy p key =
      if contains (lower_set (or_else p.direct default_direct_headers)) (to_lower key)
      then some (canonical key)
      else or_else p.fallback_out (λ k. some (str_append prefix k)) key

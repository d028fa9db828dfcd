-- ===== src/Authn/Credentials.antt =====
-- authn/authn.go: the credentials that a request presents and the extractors that collect them.
pub mod Laws
use grpcapi.Base.{
  ℕ, ◌+◌, String, Bool, false, not, ◌&&◌, Option, none, some, List, [], ◌∷◌, ◌++◌, ◌==◌,
  if◌then◌else◌, or_else, is_empty, head_or, Result, ◌>>=◌, equal_fold, trim_space, cut, ok,
}
use grpcapi.Http.{
  Header, values, TlsState, AuthInfo, tls_info, tls_info_pointer, other_info, Peer, HttpRequest,
}

pub data CredentialKind : Type 0 where
  bearer api_key cookie client_cert ticket : CredentialKind

pub record Credentials : Type 0 where
  pub full_method : String
  pub metadata : Header
  pub peer : Option Peer
  pub bearers : List String
  pub api_keys : List String
  pub cookies : List String
  pub tickets : List String
  pub tls : Option TlsState
  pub http : Option HttpRequest

unfoldable pub has_client_cert : Credentials → Bool
has_client_cert c = elim c.tls [
  | none ↦ false
  | some state ↦ not (is_empty state.peer_certificates)
]

unfoldable pub empty : Credentials → Bool
empty c =
    is_empty c.bearers
    && is_empty c.api_keys
    && is_empty c.cookies
    && is_empty c.tickets
    && not (has_client_cert c)

unfoldable pub first_bearer : Credentials → String
first_bearer c = head_or "" c.bearers

unfoldable pub first_api_key : Credentials → String
first_api_key c = head_or "" c.api_keys

unfoldable pub first_ticket : Credentials → String
first_ticket c = head_or "" c.tickets

-- `if len(vs) > 0 { out = append(out, kind) }`
abbrev push_if : Bool → CredentialKind → List CredentialKind → List CredentialKind
push_if b kind out = if b then out ++ kind ∷ [] else out

unfoldable pub presented_kinds : Credentials → List CredentialKind
presented_kinds c = push_if (has_client_cert c) client_cert (
    push_if (not (is_empty c.tickets)) ticket (
      push_if (not (is_empty c.cookies)) cookie (
        push_if (not (is_empty c.api_keys)) api_key
          (push_if (not (is_empty c.bearers)) bearer []))))

abbrev count_if : Bool → ℕ → ℕ
count_if b n = if b then n + 1 else n

unfoldable pub auth_kinds : Credentials → ℕ
auth_kinds c = count_if (has_client_cert c) (
    count_if (not (is_empty c.tickets)) (
      count_if (not (is_empty c.cookies))
        (count_if (not (is_empty c.api_keys)) (count_if (not (is_empty c.bearers)) 0))))

-- `bearerToken`: none for false.
unfoldable pub bearer_token : String → Option String
bearer_token raw =
    let header = trim_space raw in
    if header == "" then none else elim (cut b' ' header) [
      | none ↦ none
      | some (scheme, rest) ↦
          let token = trim_space rest in
          if not (equal_fold scheme "Bearer")
          then none
          else if token == ""
          then none
          else some token
    ]

-- The loop over the values of the authorization header.
unfoldable pub bearer_tokens : List String → List String
bearer_tokens [] = []
bearer_tokens (v ∷ vs) = elim (bearer_token v) [
  | none ↦ bearer_tokens vs
  | some token ↦ token ∷ bearer_tokens vs
]

unfoldable pub peer_tls : Option Peer → Option TlsState
peer_tls none = none
peer_tls (some p) = elim p.auth_info [
  | none ↦ none
  | some (tls_info state) ↦ some state
  | some (tls_info_pointer info) ↦ info
  | some other_info ↦ none
]

-- `defaultExtractor.Extract`, which never fails
unfoldable pub default_extract : String → Header → Option Peer → Credentials
default_extract full_method md p = record {
  full_method = full_method;
  metadata = md;
  peer = p;
  bearers = bearer_tokens (values "authorization" md);
  api_keys = values "x-api-key" md;
  cookies = values "cookie" md;
  tickets = values "x-ticket" md;
  tls = peer_tls p;
  http = none;
}

-- `defaultHTTPExtractor.ExtractHTTP`, which never fails
unfoldable pub default_extract_http : String → HttpRequest → Credentials
default_extract_http full_method r = record {
  full_method = full_method;
  metadata = [];
  peer = none;
  bearers = bearer_tokens (values "Authorization" r.header);
  api_keys = values "X-Api-Key" r.header;
  cookies = values "Cookie" r.header;
  tickets = [];
  tls = r.tls;
  http = some r;
}

-- The loop over the values of the query's parameter.
query_tickets : List String → List String
query_tickets [] = []
query_tickets (v ∷ vs) = if not (v == "") then v ∷ query_tickets vs else query_tickets vs

module _ {F : Type 0} where
  -- `WithQueryTicket(param, next).ExtractHTTP`, `next` nil for none
  unfoldable pub query_ticket :
      String
      → Option (String → HttpRequest → Result F Credentials)
      → String
      → HttpRequest
      → Result F Credentials
  unfolding query_tickets
  query_ticket param next full_method r = do
    c ← or_else next (λ m q. ok (default_extract_http m q)) full_method r
    ok (record c {
      tickets =
          c.tickets ++ query_tickets (values (if param == "" then "ticket" else param) r.query);
    })

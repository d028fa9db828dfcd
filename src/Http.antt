-- ===== src/Http.antt =====
-- What the handlers read of a net/http request and of the metadata of a call, and the code names of
-- google.golang.org/grpc: lists of values under a key, in the spelling the map stores it in.
use grpcapi.Base.{String, Option, List, [], ◌∷◌, ◌++◌, or_else, head_or, lookup, insert}

abbrev pub Header : Type 0
Header = List (String × List String)

-- `h.Values(k)`, and `md.Get(k)` with a lower case key
abbrev pub values : String → Header → List String
values k h = or_else (lookup k h) []

-- `h.Get(k)`
abbrev pub get : String → Header → String
get k h = head_or "" (values k h)

-- `h.Set(k, v)`
abbrev pub set : String → String → Header → Header
set k v h = insert k (v ∷ []) h

-- `h.Add(k, v)`
abbrev pub add : String → String → Header → Header
add k v h = insert k (values k h ++ v ∷ []) h

-- tls.ConnectionState: the certificates of the client.
pub record TlsState : Type 0 where
  pub peer_certificates : List String

-- credentials.AuthInfo
pub data AuthInfo : Type 0 where
  tls_info : TlsState → AuthInfo
  tls_info_pointer : Option TlsState → AuthInfo
  other_info : AuthInfo

pub record Peer : Type 0 where
  pub addr : String
  pub auth_info : Option AuthInfo

-- *http.Request
pub record HttpRequest : Type 0 where
  pub method : String
  pub path : String
  pub host : String
  pub header : Header
  -- r.URL.Query()
  pub query : Header
  pub remote_addr : String
  pub tls : Option TlsState

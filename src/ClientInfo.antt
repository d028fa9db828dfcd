-- ===== src/ClientInfo.antt =====
-- interceptor/trusted_proxy.go and interceptor/clientinfo.go: the address of the client behind proxies. The
-- code of net/netip and net is given.
pub mod Laws
use grpcapi.Base.{
  String, Bool, true, false, not, ◌&&◌, ◌||◌, Option, none, some, List, [], ◌∷◌, reverse, ◌==◌,
  if◌then◌else◌, is_some, or_else, any, head_or, Result, ◌>>=◌, trim_space, cut, split, ok, err,
}
use grpcapi.Http.{Header, values}

-- net/netip, with none for an error, and the host of net.SplitHostPort.
pub record NetIp : Type 1 where
  pub Addr : Type 0
  pub Prefix : Type 0
  pub parse_addr : String → Option Addr
  pub parse_prefix : String → Option Prefix
  -- PrefixFrom of all bits of an address
  pub single : Addr → Prefix
  pub masked : Prefix → Prefix
  pub has_addr : Prefix → Addr → Bool
  pub host_of : String → Option String

pub record ClientInfo : Type 0 where
  pub ip : String
  pub user_agent : String

-- `firstMetadataValue`
unfoldable pub first_metadata_value : Header → String → String
first_metadata_value md key = head_or "" (values key md)

abbrev last_or : String → List String → String
last_or d [] = d
last_or d (v ∷ vs) = last_or v vs

-- `lastMetadataValue`
unfoldable pub last_metadata_value : Header → String → String
last_metadata_value md key = last_or "" (values key md)

-- `FirstForwardedHop`
unfoldable pub first_forwarded_hop : String → String
first_forwarded_hop raw =
    let xff = trim_space raw in
    if xff == ""
    then ""
    else elim (cut b',' xff) [ none ↦ trim_space xff | some (before, after) ↦ trim_space before ]

-- The first hop that is not empty.
first_hop : List String → String
first_hop [] = ""
first_hop (h ∷ rest) = let hop = trim_space h in if not (hop == "") then hop else first_hop rest

module _ (n : NetIp) where
  pub record TrustedProxies : Type 0 where
    pub prefixes : List n.Prefix
    pub invalid : Bool

  parse_proxy : String → Option n.Prefix
  parse_proxy c = elim (n.parse_prefix c) [
    | some p ↦ some (n.masked p)
    | none ↦ elim (n.parse_addr c) [ some addr ↦ some (n.masked (n.single addr)) | none ↦ none ]
  ]

  parse_proxies : List String → Result String (List n.Prefix)
  unfolding parse_proxy
  parse_proxies [] = ok []
  parse_proxies (raw ∷ rest) =
      let c = trim_space raw in
      if c == "" then parse_proxies rest else elim (parse_proxy c) [
        | none ↦ err "invalid trusted proxy"
        | some p ↦ (parse_proxies rest >>= λ ps. ok (p ∷ ps))
      ]

  -- `ParseTrustedProxies`
  unfoldable pub parse_trusted_proxies : List String → Result String TrustedProxies
  unfolding parse_proxies
  parse_trusted_proxies cidrs =
      parse_proxies cidrs >>= λ ps. ok (record { prefixes = ps; invalid = false })

  -- `Trusted`, of a set that is nil for none
  unfoldable pub trusted : Option TrustedProxies → String → Bool
  trusted none ip = false
  trusted (some t) ip = if t.invalid then false else elim (n.parse_addr ip) [
    | none ↦ false
    | some addr ↦ any (λ p. n.has_addr p addr) t.prefixes
  ]

  -- The loop over the hops from the right: the first that is not trusted.
  unfoldable pub untrusted_hop : Option TrustedProxies → List String → Option String
  unfolding trusted
  untrusted_hop t [] = none
  untrusted_hop t (h ∷ rest) =
      let hop = trim_space h in
      let more = untrusted_hop t rest in
      if hop == "" then more else if not (trusted t hop) then some hop else more

  unfoldable pub client_from_xff : Option TrustedProxies → String → String
  unfolding untrusted_hop first_hop
  client_from_xff t xff =
      let hops = split b',' xff in or_else (untrusted_hop t (reverse hops)) (first_hop hops)

  unfoldable pub resolve_client_ip : Option TrustedProxies → String → String → String → String
  unfolding client_from_xff
  resolve_client_ip t peer xff real =
      let ip = client_from_xff t xff in
      let real_ip = trim_space real in
      if trusted t peer && not (ip == "")
      then ip
      else if trusted t peer && not (real_ip == "")
      then real_ip
      else trim_space peer

  -- `PeerIPFromAddr`
  unfoldable pub peer_ip_from_addr : String → String
  peer_ip_from_addr raw =
      let addr = trim_space raw in if addr == "" then "" else or_else (n.host_of addr) addr

  -- `PeerIP`, of the peer's address in the context, none without one
  unfoldable pub peer_ip : Option String → String
  unfolding peer_ip_from_addr
  peer_ip none = ""
  peer_ip (some addr) = peer_ip_from_addr addr

  unfoldable pub valid_ip : String → Bool
  valid_ip s = is_some (n.parse_addr s)

  -- `NewClientInfo`
  unfoldable pub new_client_info : List String → TrustedProxies
  unfolding parse_trusted_proxies
  new_client_info cidrs = elim (parse_trusted_proxies cidrs) [
    | ok t ↦ t
    | err e ↦ record { prefixes = []; invalid = true }
  ]

  abbrev or_key : Header → String → String → String
  or_key md key other =
      let v = first_metadata_value md key in if v == "" then first_metadata_value md other else v

  unfoldable pub client_ip : TrustedProxies → Option String → Header → String
  unfolding peer_ip valid_ip resolve_client_ip first_forwarded_hop first_metadata_value
      last_metadata_value
  client_ip t addr md =
      let xff = or_key md "x-forwarded-for" "grpcgateway-x-forwarded-for" in
      let real_ip = first_metadata_value md "x-real-ip" in
      let peer = peer_ip addr in
      let injected = last_metadata_value md "x-grpcapi-client-ip" in
      if not (injected == "") && (peer == "" || not (valid_ip peer))
      then injected
      else if not (peer == "")
      then resolve_client_ip (some t) peer xff real_ip
      else (let ip = first_forwarded_hop xff in if ip == "" then real_ip else ip)

  -- `extractClientInfo`
  unfoldable pub extract_client_info : TrustedProxies → Option String → Header → ClientInfo
  unfolding client_ip first_metadata_value
  extract_client_info t addr md = record {
    ip = client_ip t addr md;
    user_agent = or_key md "grpcgateway-user-agent" "user-agent";
  }

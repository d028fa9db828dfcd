-- ===== src/ClientInfo/Laws.antt =====
-- interceptor/trusted_proxy.go and interceptor/clientinfo.go: which of the addresses that a request names is
-- believed.
use grpcapi.Base.{
  String, ◌≡◌, refl, ap, ◌∙◌, ◌≢◌, ◌⊎◌, inl, inr, true, false, Option, none, some, List, [], ◌∷◌,
  ◌++◌, reverse, arith, ◌==◌, eq_iff, Bool-cases, All, All-append, trim_space, split, split-append,
}
use Prim.Native.String
use mathlib.Core.List.{reverse-append}
use grpcapi.Http.{Header}
use grpcapi.ClientInfo.{
  NetIp, TrustedProxies, trusted, untrusted_hop, client_from_xff, resolve_client_ip,
  last_metadata_value, peer_ip, valid_ip, client_ip, extract_client_info,
}

module _ (n : NetIp) where
  untrusted_hop-append :
      (t : Option (TrustedProxies n)) (xs ys : List String)
      → untrusted_hop n t (xs ++ ys)
        ≡ elim (untrusted_hop n t xs) [ none ↦ untrusted_hop n t ys | some h ↦ some h ]
  unfolding untrusted_hop
  untrusted_hop-append t [] ys = refl
  untrusted_hop-append t (x ∷ xs) ys = ground (arith, untrusted_hop-append t xs ys)

  -- What is between a client and the server: an empty hop or a trusted proxy.
  abbrev pub IsProxy : Option (TrustedProxies n) → String → Type 0
  IsProxy t hop = (trim_space hop ≡ "") ⊎ (trusted n t (trim_space hop) ≡ true)

  untrusted_hop-IsProxy :
      (t : Option (TrustedProxies n)) (hops : List String)
      → All (IsProxy t) hops
      → untrusted_hop n t hops ≡ none
  unfolding untrusted_hop
  untrusted_hop-IsProxy t [] h = refl
  untrusted_hop-IsProxy t (x ∷ hops) (inl gap, h) =
      let blank = (eq_iff (trim_space x) "").1 gap in rw blank (untrusted_hop-IsProxy t hops h)
  untrusted_hop-IsProxy t (x ∷ hops) (inr proxy, h) =
      ground (arith, proxy, untrusted_hop-IsProxy t hops h)

  All-reverse : (P : String → Type 0) (xs : List String) → All P xs → All P (reverse xs)
  All-reverse P [] h = tt
  All-reverse P (x ∷ xs) (p, h) =
      rw (reverse-append (x ∷ []) xs)
        (All-append P (reverse xs) (x ∷ []) (All-reverse P xs h) (p, tt))

  -- The text of the forwarded hops shows a client: a hop that is neither empty nor trusted, and every hop after
  -- it is empty or a trusted proxy.
  pub record Shows (t : Option (TrustedProxies n)) (xff h : String) : Type 0 where
    pub before : List String
    pub raw : String
    pub after : List String
    pub hops : split b',' xff ≡ before ++ raw ∷ after
    pub client : trim_space raw ≡ h
    pub full : h ≢ ""
    pub foreign : trusted n t h ≡ false
    pub proxies : All (IsProxy t) after

  one_hop :
      (t : Option (TrustedProxies n)) (raw h : String)
      → trim_space raw ≡ h
      → h ≢ ""
      → trusted n t h ≡ false
      → untrusted_hop n t (raw ∷ []) ≡ some h
  unfolding untrusted_hop
  one_hop t raw h client full foreign = rw client (elim (Bool-cases (h == "")) [
    | inl blank ↦ absurd (full ((eq_iff h "").0 blank))
    | inr there ↦ rw (there, foreign) refl
  ])

  untrusted_hop-Shows :
      (t : Option (TrustedProxies n)) (seen h : String)
      → Shows t seen h
      → untrusted_hop n t (reverse (split b',' seen)) ≡ some h
  untrusted_hop-Shows t seen h s =
      let last_first : reverse (s.before ++ s.raw ∷ s.after)
          ≡ (reverse s.after ++ s.raw ∷ []) ++ reverse s.before =
        reverse-append s.before (s.raw ∷ s.after)
        ∙ ap (λ xs. xs ++ reverse s.before) (reverse-append (s.raw ∷ []) s.after) in
      rw
        (
          s.hops,
          last_first,
          untrusted_hop-append t (reverse s.after ++ s.raw ∷ []) (reverse s.before),
          untrusted_hop-append t (reverse s.after) (s.raw ∷ []),
          untrusted_hop-IsProxy t (reverse s.after) (All-reverse (IsProxy t) s.after s.proxies),
          one_hop t s.raw h s.client s.full s.foreign,
        )
        refl

  Shows-append :
      (t : Option (TrustedProxies n)) (forged seen h : String)
      → Shows t seen h
      → untrusted_hop n t (reverse (split b',' (String.◌++◌ forged (String.◌∷◌ "," seen)))) ≡ some h
  Shows-append t forged seen h s =
      rw
        (
          split-append b',' forged "," seen refl,
          reverse-append (split b',' forged) (split b',' seen),
          untrusted_hop-append t (reverse (split b',' seen)) (reverse (split b',' forged)),
          untrusted_hop-Shows t seen h s,
        )
        refl

  pub resolve_client_ip_lem :
      (t : Option (TrustedProxies n)) (peer forged seen real : String)
      → (trusted n t peer ≡ false → resolve_client_ip n t peer seen real ≡ trim_space peer)
        × ((h : String)
            → trusted n t peer ≡ true
            → Shows t seen h
            → resolve_client_ip n t peer (String.◌++◌ forged (String.◌∷◌ "," seen)) real ≡ h)
  unfolding resolve_client_ip client_from_xff
  resolve_client_ip_lem t peer forged seen real = (
    (λ direct. rw direct refl),
    (λ h proxy shows.
        let full : (h == "") ≡ false = elim (Bool-cases (h == "")) [
          | inl blank ↦ absurd (shows.full ((eq_iff h "").0 blank))
          | inr there ↦ there
        ] in
        rw (Shows-append t forged seen h shows, full, proxy) refl),
  )

  -- A client whose connection is not a trusted proxy's, with an address that can be read, is given the
  -- address of its connection whatever metadata it sends.
  pub extract_client_info-direct :
      (t : TrustedProxies n) (addr : Option String) (md : Header)
      → valid_ip n (peer_ip n addr) ≡ true
      → (peer_ip n addr == "") ≡ false
      → trusted n (some t) (peer_ip n addr) ≡ false
      → (extract_client_info n t addr md).ip ≡ trim_space (peer_ip n addr)
  unfolding extract_client_info client_ip
  extract_client_info-direct t addr md valid full direct =
      elim (Bool-cases (last_metadata_value md "x-grpcapi-client-ip" == "")) [
        | inl absent ↦
            rw (client_ip, valid, full, absent) ((resolve_client_ip_lem (some t) _ "" _ _).0 direct)
        | inr present ↦
            rw (client_ip, valid, full, present)
              ((resolve_client_ip_lem (some t) _ "" _ _).0 direct)
      ]

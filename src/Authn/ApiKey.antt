-- ===== src/Authn/ApiKey.antt =====
-- authn/apikey/apikey.go: the reference implementation of API keys. Times are in nanoseconds and the zero
-- time is none; the store and the hash of a key are the project's or crypto/sha256.
use grpcapi.Base.{
  ℕ, ◌<◌, String, ◌≡◌, refl, ◌⊎◌, inl, inr, Bool, true, false, not, ◌&&◌, Option, none, some, List,
  [], ◌∷◌, arith, ◌==◌, eq_iff, ltb, if◌then◌else◌, Bool-cases, is_empty, lookup, insert, Result,
  to_lower, has_prefix, has_prefix_sound, ok, err,
}
use Prim.Native.String
use grpcapi.Status.{World, unavailable}
use grpcapi.Principal.{Principal}
use grpcapi.Http.{Header}
use grpcapi.Authz.Calls.{status_of, unauthenticated_error}
use grpcapi.Authn.Credentials.{Credentials, first_api_key}

pub record Key : Type 0 where
  pub id : String
  pub principal_id : String
  pub scopes : List String
  pub expires_at : Option ℕ
  pub revoked : Bool
  pub claims : List (String × List String)

unfoldable pub active : Option Key → ℕ → Bool
active none now = false
active (some k) now =
    if k.revoked then false else elim k.expires_at [ none ↦ true | some t ↦ ltb now t ]

-- The first of the candidate headers that is there.
header_key : List String → Header → String
header_key [] md = ""
header_key (h ∷ rest) md = elim (lookup (to_lower h) md) [
  | some (v ∷ vs) ↦ v
  | some [] ↦ header_key rest md
  | none ↦ header_key rest md
]

module _ (w : World) where
  -- `Authenticator`, with its normalized configuration; `not_found` is errors.Is of ErrNotFound.
  pub record Authenticator : Type 0 where
    pub find : w.Ambient → String → Result w.Failure (Option Key)
    pub not_found : w.Failure → Bool
    pub headers : List String
    pub prefix : String
    pub hash : String → String
    pub now : ℕ

  -- `New` refuses a nil store; a configuration without headers looks at x-api-key.
  unfoldable pub new_authenticator :
      Option (w.Ambient → String → Result w.Failure (Option Key))
      → (w.Failure → Bool)
      → List String
      → String
      → (String → String)
      → ℕ
      → Result w.Failure Authenticator
  new_authenticator none not_found headers prefix hash now = err (w.plain "apikey: Store is nil")
  new_authenticator (some find) not_found headers prefix hash now = ok (record {
    find = find;
    not_found = not_found;
    headers = if is_empty headers then "x-api-key" ∷ [] else headers;
    prefix = prefix;
    hash = hash;
    now = now;
  })

  unfoldable pub raw_key : Authenticator → Credentials → String
  unfolding header_key
  raw_key a c =
      let raw = first_api_key c in if raw == "" then header_key a.headers c.metadata else raw

  abbrev pub principal_of : Key → Principal w
  principal_of k = record {
    id = k.principal_id;
    kind = "api_key";
    claims = if is_empty k.scopes then k.claims else insert "scopes" k.scopes k.claims;
    attrs = ("api_key_id", k.id) ∷ [];
    raw = none;
  }

  -- The end of `Authenticate`, on the answer of the store.
  unfoldable pub admit :
      Authenticator → Result w.Failure (Option Key) → Result w.Failure (Option (Principal w))
  admit a (err e) = err (
      if a.not_found e
      then unauthenticated_error w "invalid api key"
      else w.status_error (status_of unavailable "api key store unavailable"))
  admit a (ok none) = err (unauthenticated_error w "api key expired or revoked")
  admit a (ok (some k)) =
      if not (active (some k) a.now)
      then err (unauthenticated_error w "api key expired or revoked")
      else ok (some (principal_of k))

  unfoldable pub authenticate :
      Authenticator → w.Ambient → Credentials → Result w.Failure (Option (Principal w))
  unfolding raw_key admit
  authenticate a ctx c =
      let raw = raw_key a c in
      if raw == ""
      then ok none
      else if not (a.prefix == "") && not (has_prefix raw a.prefix)
      then ok none
      else admit a (a.find ctx (a.hash raw))

  admit_sound :
      (a : Authenticator) (r : Result w.Failure (Option Key)) (p : Principal w)
      → admit a r ≡ ok (some p)
      → (k : Key) × (r ≡ ok (some k)) × (active (some k) a.now ≡ true) × (p ≡ principal_of k)
  unfolding admit
  admit_sound a (err e) p h = absurd (ground arith)
  admit_sound a (ok none) p h = absurd (ground arith)
  admit_sound a (ok (some k)) p h = elim (Bool-cases (active (some k) a.now)) [
    | inl live ↦ (k, refl, live, ground arith)
    | inr dead ↦ absurd (ground arith)
  ]

  -- A key that is neither revoked nor, at this time, expired.
  abbrev pub IsLive : Key → ℕ → Type 0
  IsLive k now = (k.revoked ≡ false) × ((t : ℕ) → k.expires_at ≡ some t → now < t)

  active_sound : (k : Key) (now : ℕ) → active (some k) now ≡ true → IsLive k now
  unfolding active
  active_sound k now h = (ground (arith, h), λ t e. ground (arith, h, e))

  -- An API key gives a principal only when the store has a key under its hash that is not revoked and whose
  -- expiry, if it has one, lies ahead. With a prefix configured, the API key is that prefix and what follows
  -- it.
  pub authenticate-active :
      (a : Authenticator) (ctx : w.Ambient) (c : Credentials) (p : Principal w)
      → authenticate a ctx c ≡ ok (some p)
      → (k : Key) × (a.find ctx (a.hash (raw_key a c)) ≡ ok (some k))
        × IsLive k a.now
        × ((a.prefix ≡ "") ⊎ ((rest : String) × (raw_key a c ≡ String.◌++◌ a.prefix rest)))
        × (p ≡ principal_of k)
  unfolding authenticate
  authenticate-active a ctx c p h = elim (Bool-cases (raw_key a c == "")) [
    | inl missing ↦ absurd (ground arith)
    | inr present ↦
        elim (Bool-cases (not (a.prefix == "") && not (has_prefix (raw_key a c) a.prefix))) [
          | inl other ↦ absurd (ground arith)
          | inr fits ↦
              let (k, found, live, same) =
                admit_sound a (a.find ctx (a.hash (raw_key a c))) p
                  (rw (authenticate, present, fits) at h) in
              (
                k,
                found,
                active_sound k a.now live,
                elim (Bool-cases (a.prefix == "")) [
                  | inl unset ↦ inl ((eq_iff a.prefix "").0 unset)
                  | inr set ↦ inr (has_prefix_sound (raw_key a c) a.prefix (ground arith))
                ],
                same,
              )
        ]
  ]

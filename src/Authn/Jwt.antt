-- ===== src/Authn/Jwt.antt =====
-- authn/jwt/jwt.go: the principal of a verified token. The JWT library, which parses the token and checks its
-- signature, is a parameter.
pub mod Laws
use grpcapi.Base.{
  String, Bool, true, false, not, ◌&&◌, Option, none, some, List, [], ◌∷◌, ◌++◌, ◌==◌,
  if◌then◌else◌, is_empty, contains, lookup, insert, Result, ℤ, ok, err,
}
use grpcapi.Status.{World, Code, Status, is_ok}
use grpcapi.Principal.{Principal}
use grpcapi.Authz.Calls.{unauthenticated_error}
use grpcapi.Authn.Credentials.{Credentials, first_bearer}

-- A value of a claim: a string, a []string, a []any whose items are none where they are no strings, and any other.
pub data ClaimValue : Type 0 where
  text : String → ClaimValue
  texts : List String → ClaimValue
  items : List (Option String) → ClaimValue
  another : ClaimValue

-- `Claims`
abbrev pub Claims : Type 0
Claims = List (String × ClaimValue)

-- `String`
unfoldable pub claim_string : Claims → String → String
claim_string c key = elim (lookup key c) [
  | some (text v) ↦ v
  | some (texts vs) ↦ ""
  | some (items vs) ↦ ""
  | some another ↦ ""
  | none ↦ ""
]

only_texts : List (Option String) → List String
only_texts [] = []
only_texts (some s ∷ vs) = s ∷ only_texts vs
only_texts (none ∷ vs) = only_texts vs

unfoldable pub value_strings : ClaimValue → List String
unfolding only_texts
value_strings (texts vs) = vs
value_strings (items vs) = only_texts vs
value_strings (text v) = if v == "" then [] else v ∷ []
value_strings another = []

-- `Strings`
unfoldable pub claim_strings : Claims → String → List String
unfolding value_strings
claim_strings c key = elim (lookup key c) [ none ↦ [] | some v ↦ value_strings v ]

first_string : Claims → List String → String
unfolding claim_string
first_string c [] = ""
first_string c (key ∷ keys) =
    let rest = first_string c keys in
    if not (claim_string c key == "") then claim_string c key else rest

-- `Subject`
unfoldable pub subject : Claims → String
unfolding first_string
subject c = first_string c ("sub" ∷ "uid" ∷ "user_id" ∷ "id" ∷ [])

abbrev multi : List String
multi = "roles" ∷ "scopes" ∷ "permissions" ∷ "admin_roles" ∷ "tenant" ∷ "aud" ∷ []

-- The claims and the attributes that the loop over the token's claims has made.
pub record Mapping : Type 0 where
  pub claims : List (String × List String)
  pub attrs : List (String × String)

add_values : Mapping → String → List String → Mapping
add_values acc key vs =
    if is_empty vs then acc else record acc { claims = insert key vs acc.claims }

add_claim : Claims → Mapping → String → ClaimValue → Mapping
unfolding add_values claim_strings
add_claim c acc key (texts vs) = add_values acc key (claim_strings c key)
add_claim c acc key (items vs) = add_values acc key (claim_strings c key)
add_claim c acc key (text v) =
    if contains multi key
    then record acc { claims = insert key (v ∷ []) acc.claims }
    else if not (key == "sub")
    then record acc { attrs = insert key v acc.attrs }
    else acc
add_claim c acc key another = acc

add_claims : Claims → Mapping → Claims → Mapping
unfolding add_claim
add_claims c acc [] = acc
add_claims c acc ((key, value) ∷ rest) = add_claims c (add_claim c acc key value) rest

unfoldable pub mapping_of : Claims → Mapping
unfolding add_claims
mapping_of c = add_claims c (record { claims = []; attrs = [] }) c

-- The options that the parser is called with.
pub data ParserOption : Type 0 where
  valid_methods : List String → ParserOption
  leeway : ℤ → ParserOption
  issuer audience : String → ParserOption
  expiration_required : ParserOption

-- `Parser`, but for its key function
pub record Parser : Type 0 where
  pub issuer : String
  pub audience : String
  pub clock_skew : ℤ
  pub valid_methods : List String
  pub allow_missing_expiration : Bool

abbrev when_set : String → ParserOption → List ParserOption
when_set s o = if s == "" then [] else o ∷ []

unfoldable pub parser_options : Parser → List ParserOption
parser_options p =
    valid_methods p.valid_methods
    ∷ leeway p.clock_skew
    ∷ (when_set p.issuer (issuer p.issuer)
        ++ (when_set p.audience (audience p.audience)
            ++ (if p.allow_missing_expiration then [] else expiration_required ∷ [])))

abbrev code_is_unauthenticated : Code → Bool
code_is_unauthenticated Code.unauthenticated = true
code_is_unauthenticated _ = false

-- The claims of a token are kept as the raw identity.
module _ (w : World) (raw : Claims → w.Raw) where
  -- `Authenticator`; a nil mapping is none, and a nil principal of a mapping too.
  pub record Authenticator : Type 0 where
    pub verify : w.Ambient → String → Result w.Failure Claims
    pub claims : Option (Claims → Result w.Failure (Option (Principal w)))
    pub kind : String

  -- The end of `Verify`, on the answer of ParseWithClaims, none for claims of another type.
  unfoldable pub verified : Result w.Failure (Option Claims) → Result w.Failure Claims
  verified (ok (some c)) = ok c
  verified (ok none) = err (unauthenticated_error w "invalid token claims")
  verified (err e) = elim (w.from_error e) [
    | none ↦ err (unauthenticated_error w "invalid token")
    | some st ↦
        if not (code_is_unauthenticated st.code) && not (is_ok st.code)
        then err (w.status_error st)
        else err (unauthenticated_error w "invalid token")
  ]

  unfoldable pub verify :
      (List ParserOption → String → Result w.Failure (Option Claims))
      → Parser
      → String
      → Result w.Failure Claims
  unfolding parser_options verified
  verify parse p token = verified (parse (parser_options p) token)

  -- The error of a verifier; st.Err() of a status OK is nil.
  unverified : w.Failure → Result w.Failure (Option (Principal w))
  unverified e = elim (w.from_error e) [
    | some st ↦ if is_ok st.code then ok none else err (w.status_error st)
    | none ↦ err (unauthenticated_error w "invalid token")
  ]

  mapped : Result w.Failure (Option (Principal w)) → Result w.Failure (Option (Principal w))
  mapped (err e) = err (unauthenticated_error w "invalid token claims")
  mapped (ok none) = err (unauthenticated_error w "invalid token claims")
  mapped (ok (some p)) = ok (some p)

  abbrev pub principal_of : String → Claims → Principal w
  principal_of kind c =
      let m = mapping_of c in
      record { id = subject c; kind = kind; claims = m.claims; attrs = m.attrs; raw = some (raw c) }

  unfoldable pub admit : Authenticator → Claims → Result w.Failure (Option (Principal w))
  unfolding mapped
  admit a c = elim a.claims [
    | some f ↦ mapped (f c)
    | none ↦
        if subject c == ""
        then err (unauthenticated_error w "token subject is missing")
        else ok (some (principal_of a.kind c))
  ]

  -- `Authenticate`
  unfoldable pub authenticate :
      Authenticator → w.Ambient → Credentials → Result w.Failure (Option (Principal w))
  unfolding admit unverified
  authenticate a ctx cr =
      let token = first_bearer cr in
      if token == ""
      then ok none
      else elim (a.verify ctx token) [ err e ↦ unverified e | ok c ↦ admit a c ]

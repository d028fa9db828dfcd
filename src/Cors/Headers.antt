-- ===== src/Cors/Headers.antt =====
-- cors/cors.go: the headers with which a response is shared.
use grpcapi.Base.{
  ℕ, String, ◌≡◌, refl, ap, ◌∙◌, inl, inr, Bool, true, false, not, ◌&&◌, List, [], ◌∷◌, arith, ◌==◌,
  ltb, if◌then◌else◌, Bool-cases, is_empty, any, lookup-insert, join, ok,
}
use grpcapi.Http
use grpcapi.Http.{Header, HttpRequest}
use grpcapi.Cors.{
  Config, Middleware, is_any, wildcard, normalize, new_middleware, add_vary, set_common_headers,
  preflight_headers,
}

-- A middleware does not allow credentials to any origin.
abbrev pub IsExclusive : Middleware → Type 0
IsExclusive m = wildcard m && m.allow_credentials ≡ false

wildcard-credentials :
    (b : Bool) (origins : List String)
    → any (λ o. o == "*" && b) origins ≡ false
    → any is_any origins && b ≡ false
wildcard-credentials b [] h = refl
wildcard-credentials b (o ∷ origins) h = ground (arith, wildcard-credentials b origins)

pub new_middleware-IsExclusive :
    (c : Config) (m : Middleware) → new_middleware c ≡ ok m → IsExclusive m
unfolding new_middleware wildcard
new_middleware-IsExclusive c m h =
    elim (Bool-cases
      (any (λ o. o == "*" && (normalize c).allow_credentials) (normalize c).allowed_origins)) [
        | inl clash ↦ absurd (ground arith)
        | inr fine ↦
            let same : normalize c ≡ m = ground arith in
            rw (← same) (
              wildcard-credentials (normalize c).allow_credentials (normalize c).allowed_origins
                fine)
      ]

abbrev pub share : String
share = "Access-Control-Allow-Origin"

-- A header set leaves the others as they are.
get-set :
    (j k v : String) (h : Header) → (k == j) ≡ false → Http.get j (Http.set k v h) ≡ Http.get j h
get-set j k v h distinct = rw (lookup-insert k j (v ∷ []) h, distinct) refl

share-add_vary :
    (added : List String) (h : Header) → Http.get share (add_vary added h) ≡ Http.get share h
unfolding add_vary
share-add_vary added h = get-set share "Vary" _ h refl

share-set : (v : String) (h : Header) → Http.get share (Http.set share v h) ≡ v
share-set v h = rw (lookup-insert share share (v ∷ []) h) refl

share-if :
    (b : Bool) (k v : String) (h : Header)
    → (k == share) ≡ false
    → Http.get share (if b then Http.set k v h else h) ≡ Http.get share h
share-if true k v h distinct = get-set share k v h distinct
share-if false k v h distinct = refl

share-named :
    (b : Bool) (origin : String) (h : Header)
    → Http.get share
        (if b then Http.set share "*" h else add_vary ("Origin" ∷ []) (Http.set share origin h))
      ≡ (if b then "*" else origin)
share-named true origin h = share-set "*" h
share-named false origin h =
    share-add_vary ("Origin" ∷ []) (Http.set share origin h) ∙ share-set origin h

pub share-set_common_headers :
    (m : Middleware) (origin : String) (h : Header)
    → IsExclusive m
    → Http.get share (set_common_headers m origin h) ≡ (if wildcard m then "*" else origin)
unfolding set_common_headers
share-set_common_headers m origin h exclusive =
    let named =
      if wildcard m && not m.allow_credentials
      then Http.set share "*" h
      else add_vary ("Origin" ∷ []) (Http.set share origin h) in
    let credited =
      if m.allow_credentials
      then Http.set "Access-Control-Allow-Credentials" "true" named
      else named in
    share-if (not (is_empty m.exposed_headers)) "Access-Control-Expose-Headers"
      (join ", " m.exposed_headers) credited refl
    ∙ share-if m.allow_credentials "Access-Control-Allow-Credentials" "true" named refl
    ∙ share-named (wildcard m && not m.allow_credentials) origin h
    ∙ ground arith

pub share-preflight_headers :
    (decimal : ℕ → String) (m : Middleware) (origin : String) (h : Header)
    → IsExclusive m
    → Http.get share (preflight_headers decimal m origin h) ≡ (if wildcard m then "*" else origin)
unfolding preflight_headers
share-preflight_headers decimal m origin h exclusive =
    let common = set_common_headers m origin h in
    let methods = Http.set "Access-Control-Allow-Methods" (join ", " m.allowed_methods) common in
    let names = Http.set "Access-Control-Allow-Headers" (join ", " m.allowed_headers) methods in
    let aged =
      if ltb 0 m.max_age_seconds
      then Http.set "Access-Control-Max-Age" (decimal m.max_age_seconds) names
      else names in
    share-add_vary ("Access-Control-Request-Method" ∷ "Access-Control-Request-Headers" ∷ []) aged
    ∙ share-if (ltb 0 m.max_age_seconds) "Access-Control-Max-Age" (decimal m.max_age_seconds) names
        refl
    ∙ get-set share "Access-Control-Allow-Headers" (join ", " m.allowed_headers) methods refl
    ∙ get-set share "Access-Control-Allow-Methods" (join ", " m.allowed_methods) common refl
    ∙ share-set_common_headers m origin h exclusive

abbrev pub credit : String
credit = "Access-Control-Allow-Credentials"

credit-if :
    (b : Bool) (k v : String) (h : Header)
    → (k == credit) ≡ false
    → Http.get credit (if b then Http.set k v h else h) ≡ Http.get credit h
credit-if true k v h distinct = get-set credit k v h distinct
credit-if false k v h distinct = refl

credit-named :
    (b : Bool) (origin : String) (h : Header)
    → Http.get credit
        (if b then Http.set share "*" h else add_vary ("Origin" ∷ []) (Http.set share origin h))
      ≡ Http.get credit h
unfolding add_vary
credit-named true origin h = get-set credit share "*" h refl
credit-named false origin h =
    get-set credit "Vary" _ (Http.set share origin h) refl ∙ get-set credit share origin h refl

credit-set :
    (b : Bool) (h : Header)
    → Http.get credit (if b then Http.set credit "true" h else h)
      ≡ (if b then "true" else Http.get credit h)
credit-set true h = rw (lookup-insert credit credit ("true" ∷ []) h) refl
credit-set false h = refl

pub credit-set_common_headers :
    (m : Middleware) (origin : String) (h : Header)
    → Http.get credit (set_common_headers m origin h)
      ≡ (if m.allow_credentials then "true" else Http.get credit h)
unfolding set_common_headers
credit-set_common_headers m origin h =
    let named =
      if wildcard m && not m.allow_credentials
      then Http.set share "*" h
      else add_vary ("Origin" ∷ []) (Http.set share origin h) in
    let credited = if m.allow_credentials then Http.set credit "true" named else named in
    credit-if (not (is_empty m.exposed_headers)) "Access-Control-Expose-Headers"
      (join ", " m.exposed_headers) credited refl
    ∙ credit-set m.allow_credentials named
    ∙ ap (λ v. if m.allow_credentials then "true" else v)
        (credit-named (wildcard m && not m.allow_credentials) origin h)

pub credit-preflight_headers :
    (decimal : ℕ → String) (m : Middleware) (origin : String) (h : Header)
    → Http.get credit (preflight_headers decimal m origin h)
      ≡ (if m.allow_credentials then "true" else Http.get credit h)
unfolding preflight_headers add_vary
credit-preflight_headers decimal m origin h =
    let common = set_common_headers m origin h in
    let methods = Http.set "Access-Control-Allow-Methods" (join ", " m.allowed_methods) common in
    let names = Http.set "Access-Control-Allow-Headers" (join ", " m.allowed_headers) methods in
    let aged =
      if ltb 0 m.max_age_seconds
      then Http.set "Access-Control-Max-Age" (decimal m.max_age_seconds) names
      else names in
    get-set credit "Vary" _ aged refl
    ∙ credit-if (ltb 0 m.max_age_seconds) "Access-Control-Max-Age" (decimal m.max_age_seconds) names
        refl
    ∙ get-set credit "Access-Control-Allow-Headers" (join ", " m.allowed_headers) methods refl
    ∙ get-set credit "Access-Control-Allow-Methods" (join ", " m.allowed_methods) common refl
    ∙ credit-set_common_headers m origin h

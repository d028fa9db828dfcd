-- ===== src/Authn/Jwt/Laws.antt =====
-- authn/jwt/jwt.go: what the principal of a token takes from it.
use grpcapi.Base.{
  String, ◌≡◌, refl, subst, ◌⊎◌, inl, inr, false, not, none, some, List, [], ◌∷◌, arith, ◌==◌,
  Bool-cases, Option-cases, is_empty, All, Any, All-map, contains, insert, Result-cases, ok,
}
use grpcapi.Authn.Jwt.{
  principal_of, first_bearer, subject, Principal, Credentials, unverified, admit, Authenticator,
  authenticate, World, mapping_of, ClaimValue, text, texts, items, another, Claims, claim_strings,
  multi, Mapping, add_values, add_claim, add_claims,
}

All-insert :
    {V : Type 0} (P : String × V → Type 0) (k : String) (v : V) (m : List (String × V))
    → P (k, v)
    → All P m
    → All P (insert k v m)
All-insert P k v [] p h = (p, tt)
All-insert P k v ((j, w) ∷ m) p (q, h) = elim (Bool-cases (j == k)) [
  | inl same ↦ rw same (p, h)
  | inr other ↦ rw other (q, All-insert P k v m p h)
]

abbrev pub In : {A : Type 0} → List A → A → Type 0
In xs a = Any (λ x. x ≡ a) xs

All-In : {A : Type 0} (xs : List A) → All (In xs) xs
All-In [] = tt
All-In (x ∷ xs) = (inl refl, All-map (λ a there. inr there) xs (All-In xs))

-- The values of a claim of a principal are the strings of the token's claim, or the text that it is.
abbrev pub IsTaken : Claims → String × List String → Type 0
IsTaken c (key, vs) =
    (vs ≡ claim_strings c key) ⊎ ((v : String) × (vs ≡ v ∷ []) × In c (key, text v))

add_values-IsTaken :
    (c : Claims) (acc : Mapping) (key : String)
    → All (IsTaken c) acc.claims
    → All (IsTaken c) (add_values acc key (claim_strings c key)).claims
unfolding add_values
add_values-IsTaken c acc key h = elim (Bool-cases (is_empty (claim_strings c key))) [
  | inl nothing ↦ rw nothing h
  | inr found ↦ rw found (All-insert (IsTaken c) key (claim_strings c key) acc.claims (inl refl) h)
]

add_claim-IsTaken :
    (c : Claims) (acc : Mapping) (key : String) (value : ClaimValue)
    → In c (key, value)
    → All (IsTaken c) acc.claims
    → All (IsTaken c) (add_claim c acc key value).claims
unfolding add_claim
add_claim-IsTaken c acc key (texts vs) there h = add_values-IsTaken c acc key h
add_claim-IsTaken c acc key (items vs) there h = add_values-IsTaken c acc key h
add_claim-IsTaken c acc key another there h = h
add_claim-IsTaken c acc key (text v) there h = elim (Bool-cases (contains multi key)) [
  | inl known ↦ rw known (All-insert (IsTaken c) key (v ∷ []) acc.claims (inr (v, refl, there)) h)
  | inr other ↦
      rw other (elim (Bool-cases (not (key == "sub"))) [
        | inl kept ↦ rw kept h
        | inr dropped ↦ rw dropped h
      ])
]

add_claims-IsTaken :
    (c : Claims) (acc : Mapping) (rest : Claims)
    → All (In c) rest
    → All (IsTaken c) acc.claims
    → All (IsTaken c) (add_claims c acc rest).claims
unfolding add_claims
add_claims-IsTaken c acc [] there h = h
add_claims-IsTaken c acc ((key, value) ∷ rest) (here, there) h =
    add_claims-IsTaken c (add_claim c acc key value) rest there
      (add_claim-IsTaken c acc key value here h)

mapping_of-IsTaken : (c : Claims) → All (IsTaken c) (mapping_of c).claims
unfolding mapping_of
mapping_of-IsTaken c = add_claims-IsTaken c (record { claims = []; attrs = [] }) c (All-In c) tt

module _ (w : World) (raw : Claims → w.Raw) where
  -- What a principal has from a verified token.
  pub record IsVouched (a : Authenticator w raw) (ctx : w.Ambient) (token : String)
      (p : Principal w) : Type 0 where
    pub c : Claims
    pub verified : a.verify ctx token ≡ ok c
    pub id : (p.id ≡ subject c) × ((subject c == "") ≡ false)
    pub kind : p.kind ≡ a.kind
    pub claims : All (IsTaken c) p.claims

  unverified-ok : (e : w.Failure) (p : Principal w) → unverified w raw e ≡ ok (some p) → ⊥
  unfolding unverified
  unverified-ok e p h = elim (Option-cases (w.from_error e)) [
    | inl missing ↦ ground (arith, h, missing)
    | inr (st, found) ↦ ground (arith, h, found)
  ]

  admit-IsVouched :
      (a : Authenticator w raw) (ctx : w.Ambient) (token : String) (c : Claims) (p : Principal w)
      → a.claims ≡ none
      → a.verify ctx token ≡ ok c
      → admit w raw a c ≡ ok (some p)
      → IsVouched a ctx token p
  unfolding admit
  admit-IsVouched a ctx token c p unset found h = elim (Bool-cases (subject c == "")) [
    | inl missing ↦ absurd (ground arith)
    | inr present ↦
        let same : principal_of w raw a.kind c ≡ p = ground arith in
        subst (IsVouched a ctx token) same (record {
          c = c;
          verified = found;
          id = (refl, present);
          kind = refl;
          claims = mapping_of-IsTaken c;
        })
  ]

  -- Without a mapping of the project's own, a principal comes only from a token that the verifier has accepted: its ID
  -- is the token's subject, which is not empty, its kind is the configured one whatever the token claims, and the
  -- values of each of its claims are those of the token's claim of that name.
  pub authenticate-IsVouched :
      (a : Authenticator w raw) (ctx : w.Ambient) (cr : Credentials) (p : Principal w)
      → a.claims ≡ none
      → authenticate w raw a ctx cr ≡ ok (some p)
      → ((first_bearer cr == "") ≡ false) × IsVouched a ctx (first_bearer cr) p
  unfolding authenticate
  authenticate-IsVouched a ctx cr p unset h = elim (Bool-cases (first_bearer cr == "")) [
    | inl missing ↦ absurd (ground arith)
    | inr present ↦ elim (Result-cases (a.verify ctx (first_bearer cr))) [
      | inl (c, found) ↦ (
        present,
        admit-IsVouched a ctx (first_bearer cr) c p unset found
            (rw (authenticate, present, found) at h),
      )
      | inr (e, failed) ↦ absurd (unverified-ok e p (rw (authenticate, present, failed) at h))
    ]
  ]

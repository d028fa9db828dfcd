-- ===== src/Server/Checks/Stages.antt =====
-- server/server.go: the stages that a chain has, and their order.
use grpcapi.Base.{
  ℕ, ◌+◌, ◌≤◌, String, ◌≡◌, refl, ◌↔◌, inl, inr, Bool, true, not, ◌&&◌, ◌||◌, some, List, [], ◌∷◌,
  arith, ◌==◌, eq_iff, Bool-cases, Option-cases, is_some, Any, any-Any, Any-any,
}
use grpcapi.Chain.{Stage}
use grpcapi.Server.Checks.{has, has_stream, place, before}

module _ {U S : Type 0} where
  abbrev pub IsUnary : String → Stage U S → Type 0
  IsUnary name st = (st.name ≡ name) × (is_some st.unary ≡ true)

  -- A chain has a stage of this name with a unary interceptor, and with a stream interceptor.
  abbrev pub HasUnary : List (Stage U S) → String → Type 0
  HasUnary stages name = Any (IsUnary name) stages

  abbrev pub HasStream : List (Stage U S) → String → Type 0
  HasStream stages name = Any (λ st. (st.name ≡ name) × (is_some st.stream ≡ true)) stages

  -- No unary authentication comes after the last unary authorization.
  abbrev pub InOrder : List (Stage U S) → Type 0
  InOrder [] = Unit
  InOrder (st ∷ rest) =
      (IsUnary "authz" st → HasUnary rest "authn" → HasUnary rest "authz") × InOrder rest

  pub has-HasUnary :
      (stages : List (Stage U S)) (name : String) → (has stages name ≡ true) ↔ HasUnary stages name
  unfolding has
  has-HasUnary stages name = (
    any-Any _ (λ st h. ((eq_iff st.name name).0 (ground (arith, h)), ground (arith, h))) stages,
    Any-any _ (λ st h. ground (arith, (eq_iff st.name name).1 h.0, h.1)) stages,
  )

  pub has_stream-HasStream :
      (stages : List (Stage U S)) (name : String)
      → (has_stream stages name ≡ true) ↔ HasStream stages name
  unfolding has_stream
  has_stream-HasStream stages name = (
    any-Any _ (λ st h. ((eq_iff st.name name).0 (ground (arith, h)), ground (arith, h))) stages,
    Any-any _ (λ st h. ground (arith, (eq_iff st.name name).1 h.0, h.1)) stages,
  )

  abbrev is_unary : String → Stage U S → Bool
  is_unary name st = st.name == name && is_some st.unary

  abbrev pub in_order : List (Stage U S) → Bool
  in_order [] = true
  in_order (st ∷ rest) =
      (not (is_unary "authz" st) || not (has rest "authn") || has rest "authz") && in_order rest

  is_some-place :
      (name : String) (n : ℕ) (stages : List (Stage U S))
      → is_some (place name n stages) ≡ has stages name
  unfolding place has
  is_some-place name n [] = refl
  is_some-place name n (st ∷ stages) = ground (arith, is_some-place name (n + 1) stages)

  place-bound :
      (name : String) (n : ℕ) (stages : List (Stage U S)) (m : ℕ)
      → place name n stages ≡ some m
      → n ≤ m
  unfolding place
  place-bound name n [] m h = ground arith
  place-bound name n (st ∷ stages) m h = elim (Option-cases (place name (n + 1) stages)) [
    | inl missing ↦ ground arith
    | inr (k, found) ↦ ground (arith, place-bound name (n + 1) stages k found)
  ]

  pub before-in_order :
      (n : ℕ) (stages : List (Stage U S))
      → before (place "authz" n stages) (place "authn" n stages) ≡ not (in_order stages)
  unfolding place has
  before-in_order n [] = refl
  before-in_order n (st ∷ stages) =
      let later = before-in_order (n + 1) stages in
      let some_z = is_some-place "authz" (n + 1) stages in
      let some_n = is_some-place "authn" (n + 1) stages in
      elim (Option-cases (place "authz" (n + 1) stages)) [
        | inl no_z ↦ elim (Option-cases (place "authn" (n + 1) stages)) [
          | inl no_n ↦ ground arith
          | inr (b, at_n) ↦ let bound = place-bound "authn" (n + 1) stages b at_n in ground arith
        ]
        | inr (a, at_z) ↦
            let bound_z = place-bound "authz" (n + 1) stages a at_z in
            elim (Option-cases (place "authn" (n + 1) stages)) [
              | inl no_n ↦ ground arith
              | inr (b, at_n) ↦ ground arith
            ]
      ]

  pub in_order-InOrder : (stages : List (Stage U S)) → (in_order stages ≡ true) ↔ InOrder stages
  in_order-InOrder [] = ((λ h. tt), (λ h. refl))
  in_order-InOrder (st ∷ stages) = (
    (λ h. (
      (λ z authn.
          let first = (eq_iff st.name "authz").1 z.0 in
          let follows = (has-HasUnary stages "authn").1 authn in
          (has-HasUnary stages "authz").0 (ground (arith, h, first, z.1, follows))),
      (in_order-InOrder stages).0 (ground (arith, h)),
    )),
    (λ h.
        let rest = (in_order-InOrder stages).1 h.1 in
        elim (Bool-cases (is_unary "authz" st)) [
          | inr other ↦ ground (arith, rest, other)
          | inl z ↦ elim (Bool-cases (has stages "authn")) [
            | inr none_follows ↦ ground (arith, rest, none_follows)
            | inl follows ↦
                let again = (has-HasUnary stages "authz").1 (
                  h.0 ((eq_iff st.name "authz").0 (ground (arith, z)), ground (arith, z))
                    ((has-HasUnary stages "authn").0 follows)) in
                ground (arith, rest, again)
          ]
        ]),
  )

-- ===== src/Server/Checks/Laws.antt =====
-- server/server.go: what a server has whose checks pass.
use grpcapi.Base.{
  ◌≡◌, refl, ◌↔◌, inl, inr, Bool, true, false, not, ◌||◌, none, List, arith, Bool-cases, any, Any,
  any-Any, Any-any,
}
use grpcapi.Status.{World}
use grpcapi.Policy.OperationSet.{OperationSet, operations}
use grpcapi.Policy.Spec.{Operation}
use grpcapi.Chain.{Stage}
use grpcapi.Server.Checks.{
  has, has_stream, place, before, is_protected, is_protected_stream, validate_auth_chain,
}
use grpcapi.Server.Checks.Stages.{
  HasUnary, HasStream, InOrder, has-HasUnary, has_stream-HasStream, before-in_order,
  in_order-InOrder,
}

-- An operation that is not anonymous, and one that streams.
abbrev pub IsProtected : Operation → Type 0
IsProtected op = op.policy.anonymous ≡ false

abbrev pub IsProtectedStream : Operation → Type 0
IsProtectedStream op = (op.policy.anonymous ≡ false) × (op.streaming ≡ true)

any-IsProtectedStream :
    (ops : List Operation) → (any is_protected_stream ops ≡ true) ↔ Any IsProtectedStream ops
any-IsProtectedStream ops = (
  any-Any _ (λ op h. (ground (arith, h), ground (arith, h))) ops,
  Any-any _ (λ op h. ground (arith, h.0, h.1)) ops,
)

module _ {U S : Type 0} {w : World} where
  -- The stages that stand in front of the protected operations of a set.
  pub record IsGuarded (stages : List (Stage U S)) (set : OperationSet w)
      (has_authenticators : Bool) : Type 0 where
    pub authenticators : has_authenticators ≡ true
    pub authz : HasUnary stages "authz"
    pub in_order : InOrder stages
    pub streams :
        Any IsProtectedStream (operations set)
        → HasStream stages "authz" × (HasUnary stages "authn" → HasStream stages "authn")

  -- The guards of the code on the same chain.
  abbrev Passes : Bool → List (Stage U S) → OperationSet w → Type 0
  Passes has_authenticators stages set =
      (has_authenticators ≡ true)
      × (has stages "authz" ≡ true)
      × (before (place "authz" 0 stages) (place "authn" 0 stages) ≡ false)
      × (any is_protected_stream (operations set) ≡ true
          → (has_stream stages "authz" ≡ true)
            × ((not (has stages "authn") || has_stream stages "authn") ≡ true))

  validate_auth_chain-Passes :
      (has_authenticators : Bool) (stages : List (Stage U S)) (set : OperationSet w)
      → any is_protected (operations set) ≡ true
      → (validate_auth_chain false false has_authenticators stages set ≡ none)
        ↔ Passes has_authenticators stages set
  unfolding validate_auth_chain
  validate_auth_chain-Passes has_authenticators stages set p = (
    (λ h. (
      ground (arith, p, h),
      ground (arith, p, h),
      ground (arith, p, h),
      λ s. (ground (arith, p, h, s), ground (arith, p, h, s)),
    )),
    (λ g. elim (Bool-cases (any is_protected_stream (operations set))) [
      | inl s ↦ let (a, b) = g.3 s in rw (p, s, g.0, g.1, g.2, a) (ground arith)
      | inr s ↦ rw (p, s, g.0, g.1, g.2) refl
    ]),
  )

  Passes-IsGuarded :
      (has_authenticators : Bool) (stages : List (Stage U S)) (set : OperationSet w)
      → Passes has_authenticators stages set ↔ IsGuarded stages set has_authenticators
  Passes-IsGuarded has_authenticators stages set = (
    (λ (found, authz, order, streams). record {
      authenticators = found;
      authz = (has-HasUnary stages "authz").0 authz;
      in_order = (in_order-InOrder stages).0 (ground (arith, order, before-in_order 0 stages));
      streams = λ s.
          let (a, b) = streams ((any-IsProtectedStream (operations set)).1 s) in
          (
            (has_stream-HasStream stages "authz").0 a,
            λ n.
                let unary = (has-HasUnary stages "authn").1 n in
                (has_stream-HasStream stages "authn").0 (ground (arith, b, unary)),
          );
    }),
    (λ g. (
      g.authenticators,
      (has-HasUnary stages "authz").1 g.authz,
      (let order = (in_order-InOrder stages).1 g.in_order in
          ground (arith, order, before-in_order 0 stages)),
      λ s.
          let (a, b) = g.streams ((any-IsProtectedStream (operations set)).0 s) in
          (
            (has_stream-HasStream stages "authz").1 a,
            elim (Bool-cases (has stages "authn")) [
              | inr missing ↦ ground (arith, missing)
              | inl there ↦
                  let stream =
                    (has_stream-HasStream stages "authn").1
                      (b ((has-HasUnary stages "authn").0 there)) in
                  ground (arith, stream)
            ],
          ),
    )),
  )

  -- Without an opt-out a server with an operation that is not anonymous passes the check exactly if there are
  -- authenticators, the chain has a unary stage of authorization and no unary stage of authentication after the last of
  -- these, and, with a streaming operation that is not anonymous, it has a stream stage of authorization and, when it
  -- has a unary stage of authentication, a stream stage of authentication.
  pub validate_auth_chain_iff :
      (has_authenticators : Bool) (stages : List (Stage U S)) (set : OperationSet w)
      → Any IsProtected (operations set)
      → (validate_auth_chain false false has_authenticators stages set ≡ none)
        ↔ IsGuarded stages set has_authenticators
  validate_auth_chain_iff has_authenticators stages set p =
      let some_protected = Any-any is_protected (λ op h. ground (arith, h)) (operations set) p in
      let (there, back) = validate_auth_chain-Passes has_authenticators stages set some_protected in
      let (to, from) = Passes-IsGuarded has_authenticators stages set in
      ((λ h. to (there h)), (λ g. back (from g)))

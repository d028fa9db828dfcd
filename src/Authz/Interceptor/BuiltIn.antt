-- ===== src/Authz/Interceptor/BuiltIn.antt =====
-- authz/interceptor.go with the decider of authz/decider.go: what holds of a call whose handler runs,
-- down to the evaluation of the requirements.
use grpcapi.Base.{
  String, ◌≡◌, refl, ap, subst, ◌⊎◌, inl, inr, true, false, Option, none, some, arith, Bool-cases,
  is_some, any, Result, ok_inj, Result-cases, ok,
}
use grpcapi.Status.{World}
use grpcapi.Policy.Spec.{Operation, EvalContext}
use grpcapi.Policy.OperationSet.{OperationSet, get}
use grpcapi.Policy.Registry.{Registry}
use grpcapi.Authz.Decide.{Decision, decide_policy, match_requirement, new_requirement_decider}
use grpcapi.Authz.Decide.Safety.{IsAuthorized, decide_by-IsAuthorized}
use grpcapi.Authz.Calls.{InterceptorOptions, Decider, Context, AuthzRequest, is_served}
use grpcapi.Authz.Interceptor.{Interceptor, new_interceptor, requirement_decider, unary}
use grpcapi.Authz.Interceptor.Laws.{WasServed, IsNormal, normalize-IsNormal}
use grpcapi.Authz.Interceptor.Enforced.{IsExempt, unary-Allowed, unary-Fails, Fails}

module _ (w : World) where
  -- Whatever `NewInterceptor` returns has its codes set.
  new_interceptor-IsNormal :
      (set : Option (OperationSet w)) (decider : Option (Decider w)) (opts : InterceptorOptions w)
      (i : Interceptor w)
      → new_interceptor w set decider opts ≡ ok i
      → IsNormal w i.opts
  unfolding new_interceptor
  new_interceptor-IsNormal none decider opts i h = cc
  new_interceptor-IsNormal (some set) (some decider) opts i h =
      subst (λ (j : Interceptor w). IsNormal w j.opts) (ok_inj _ i h) (normalize-IsNormal w opts)
  new_interceptor-IsNormal (some set) none opts i h =
      elim (Result-cases (new_requirement_decider set)) [
        | inl (reg, e) ↦
            subst (λ (j : Interceptor w). IsNormal w j.opts)
              (ok_inj _ i (rw (e, new_interceptor) at h)) (normalize-IsNormal w opts)
        | inr (m, e) ↦ ground arith
      ]

  decide_policy-IsAuthorized :
      (ambient : w.Ambient) (ec : EvalContext w) (reg : Registry w) (d : Decision)
      → decide_policy {w = w} ambient ec reg ≡ ok d
      → d.allow ≡ true
      → IsAuthorized (match_requirement ambient ec reg) ec.operation.policy (is_some ec.principal)
  unfolding decide_policy
  decide_policy-IsAuthorized ambient ec reg d h a =
      decide_by-IsAuthorized (match_requirement ambient ec reg) ec.operation.policy
        (is_some ec.principal) d h a

  requirement_decider-IsAuthorized :
      (set : OperationSet w) (ambient : w.Ambient) (req : AuthzRequest w) (d : Decision)
      → requirement_decider w set ambient req ≡ ok d
      → d.allow ≡ true
      → IsAuthorized
          (match_requirement ambient req.eval set.registry)
          req.eval.operation.policy
          (is_some req.eval.principal)
  unfolding requirement_decider
  requirement_decider-IsAuthorized set ambient req d h a =
      elim (Result-cases (decide_policy {w = w} ambient req.eval set.registry)) [
        | inl (d', e) ↦
            decide_policy-IsAuthorized ambient req.eval set.registry d
              (rw e (ap ok (ok_inj d' d (rw (e, requirement_decider) at h)))) a
        | inr (st, e) ↦ ground arith
      ]

  new_interceptor-decider :
      (set : OperationSet w) (opts : InterceptorOptions w) (i : Interceptor w)
      → new_interceptor w (some set) none opts ≡ ok i
      → (i.set ≡ set) × (i.decider ≡ requirement_decider w set)
  unfolding new_interceptor
  new_interceptor-decider set opts i h = elim (Result-cases (new_requirement_decider set)) [
    | inl (reg, e) ↦
        subst (λ (j : Interceptor w). (j.set ≡ set) × (j.decider ≡ requirement_decider w set))
          (ok_inj _ i (rw (e, new_interceptor) at h)) (refl, refl)
    | inr (m, e) ↦ ground arith
  ]

  -- What let the handler of a unary method run, behind an interceptor with the built-in decider
  -- for this set: the method is exempt, or its policy in the set authorizes the request.
  abbrev pub LetThrough : OperationSet w → Interceptor w → Context w → w.Request → String → Type 0
  LetThrough set i ctx req full_method =
      IsExempt w i full_method
      ⊎ ((op : Operation) × (resource : Option w.Resource) × (get set full_method ≡ some op)
          × IsAuthorized
              (match_requirement ctx.ambient
                (record {
                  operation = op;
                  principal = ctx.principal;
                  request = some req;
                  metadata = ctx.metadata;
                  resource = resource;
                })
                set.registry)
              op.policy (is_some ctx.principal))

  -- Behind the interceptor that is built for a set with the built-in decider, a unary call runs the
  -- handler only when the method is exempt as the framework's and not in the set, or when the set
  -- has its operation and the policy of that authorizes the request: the policy is not
  -- misconfigured, every forbidden predicate was evaluated to false, and it is anonymous or there is
  -- a principal for which all that it requires was evaluated to true, and all of one alternative if
  -- there are any. A call that does not run the handler ends with an error that is not nil.
  pub unary-LetThrough :
      {Reply : Type 0} (set : OperationSet w) (opts : InterceptorOptions w) (i : Interceptor w)
      (ctx : Context w) (req : w.Request) (full_method : String)
      (handler : Context w → w.Request → Result w.Failure (Option Reply))
      → new_interceptor w (some set) none opts ≡ ok i
      → (WasServed w (unary w i ctx req full_method handler).0
          × LetThrough set i ctx req full_method)
        ⊎ ((any is_served (unary w i ctx req full_method handler).0 ≡ false)
            × Fails w (unary w i ctx req full_method handler))
  unary-LetThrough set opts i ctx req full_method handler h =
      let (same_set, same_decider) = new_interceptor-decider set opts i h in
      elim (Bool-cases (any is_served (unary w i ctx req full_method handler).0)) [
        | inr idle ↦ inr (
          idle,
          unary-Fails w i ctx req full_method handler
              (new_interceptor-IsNormal (some set) none opts i h) idle,
        )
        | inl runs ↦ inl (
          runs,
          elim (unary-Allowed w i ctx req full_method handler runs) [
            | inl exempt ↦ inl exempt
            | inr (op, found, (resource, d, decided, allow)) ↦ inr (
              op,
              resource,
              rw same_set at found,
              requirement_decider-IsAuthorized set ctx.ambient _ d (rw same_decider at decided)
                  allow,
            )
          ],
        )
      ]

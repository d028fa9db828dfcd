-- ===== src/Authz/Decide/Inherit.antt =====
-- policy/build.go against authz/decider.go: what a method grants that inherits the default policy.
use grpcapi.Base.{
  ◌≡◌, Bool, true, not, ◌&&◌, ◌||◌, arith, is_empty, all, any, all-append, any-append, All-append,
  is_empty-append, any-is_empty, all-is_empty,
}
use grpcapi.Status.{World}
use grpcapi.Policy.Spec.{Requirement, Policy}
use grpcapi.Policy.Vocabulary.{Vocabulary}
use grpcapi.Policy.Registry.{Registry}
use grpcapi.Policy.Validate.Laws.{IsValidPolicy}
use grpcapi.Policy.Method.{and_policy}
use grpcapi.Authz.Decide.Laws.{grants}

-- A policy is anonymous exactly when it requires nothing, as the validation demands.
abbrev pub IsExplicit : Policy → Type 0
IsExplicit p = p.anonymous ≡ (is_empty p.require && is_empty p.any_of)

module _ (m : Requirement → Bool) (base extra : Policy) (has_principal : Bool) where
  -- Of two explicit policies, the merged one forbids what either forbids; it is anonymous if both
  -- are; else it requires a principal, what both require, and one alternative of either, if
  -- there are any.
  pub grants-and_policy :
      IsExplicit base
      → IsExplicit extra
      → grants m (and_policy base extra) has_principal ≡ (
          not (any m base.forbid)
          && (not (any m extra.forbid)
              && (base.anonymous && extra.anonymous
                  || has_principal
                    && (all m base.require
                        && (all m extra.require
                            && (is_empty base.any_of && is_empty extra.any_of
                                || (any (all m) base.any_of || any (all m) extra.any_of)))))))
  unfolding and_policy
  grants-and_policy b e = ground (
    arith,
    any-append m base.forbid extra.forbid,
    all-append m base.require extra.require,
    any-append (all m) base.any_of extra.any_of,
    is_empty-append base.any_of extra.any_of,
    is_empty-append base.require extra.require,
  )

  -- Where only one of two explicit policies has alternatives, inheritance is conjunction: the merged
  -- policy grants exactly what both grant.
  pub grants-and_policy_both :
      IsExplicit base
      → IsExplicit extra
      → (is_empty base.any_of || is_empty extra.any_of) ≡ true
      → grants m (and_policy base extra) has_principal
        ≡ (grants m base has_principal && grants m extra has_principal)
  grants-and_policy_both b e one = rw (grants-and_policy b e) (
      ground (
        arith,
        any-is_empty (all m) base.any_of,
        any-is_empty (all m) extra.any_of,
        all-is_empty m base.require,
        all-is_empty m extra.require,
      ))

module _ {w : World} (reg : Registry w) (vocab : Vocabulary) where
  -- Merging two valid policies gives a valid one.
  pub and_policy-IsValidPolicy :
      (base extra : Policy)
      → IsValidPolicy reg vocab base
      → IsValidPolicy reg vocab extra
      → IsValidPolicy reg vocab (and_policy base extra)
  unfolding and_policy
  and_policy-IsValidPolicy base extra b e = record {
    is_expanded = e.is_expanded;
    explicit = ground (
      arith,
      b.explicit,
      e.explicit,
      is_empty-append base.require extra.require,
      is_empty-append base.any_of extra.any_of,
    );
    require_valid = All-append _ base.require extra.require b.require_valid e.require_valid;
    any_of_valid = All-append _ base.any_of extra.any_of b.any_of_valid e.any_of_valid;
    forbid_valid = All-append _ base.forbid extra.forbid b.forbid_valid e.forbid_valid;
  }

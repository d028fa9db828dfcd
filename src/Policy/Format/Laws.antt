-- ===== src/Policy/Format/Laws.antt =====
-- policy/manifest.go: what the canonical form of a policy keeps.
use grpcapi.Base.{
  String, ◌≡◌, refl, sym, ◌∙◌, inl, inr, Bool, ◌||◌, List, [], ◌∷◌, map, arith, ◌==◌, eq_iff,
  Bool-cases, is_empty, all, any, is_empty-map, any-map, all-map, contains, sort_by, any-sort_by,
  all-sort_by, is_empty-sort_by,
}
use grpcapi.Policy.Format.{
  requirement_key, requirement_list_key, distinct_values, canonical_values, canonical_requirement,
  canonical_requirements, canonical_groups, canonical_policy,
}
use grpcapi.Policy.Spec.{Requirement, Policy}
use grpcapi.Authz.Decide.Laws.{grants}

contains-any : (xs : List String) (v : String) → contains xs v ≡ any (λ x. x == v) xs
contains-any [] v = refl
contains-any (x ∷ xs) v = ground (arith, contains-any xs v)

contains-distinct_values :
    (seen values : List String) (v : String)
    → (contains seen v || contains (distinct_values seen values) v)
      ≡ (contains seen v || contains values v)
unfolding distinct_values
contains-distinct_values seen [] v = refl
contains-distinct_values seen (x ∷ values) v = elim (Bool-cases (contains seen x)) [
  | inl old ↦
      rw (distinct_values, old)
        (ground (arith, old, eq_iff x v, contains-distinct_values seen values v))
  | inr new ↦
      rw (distinct_values, new) (ground (arith, contains-distinct_values (x ∷ seen) values v))
]

-- The canonical values are the values.
pub contains-canonical_values :
    (values : List String) (v : String) → contains (canonical_values values) v ≡ contains values v
unfolding canonical_values
contains-canonical_values values v =
    contains-any (sort_by (λ x. x) (distinct_values [] values)) v
    ∙ any-sort_by (λ x. x) (λ x. x == v) (distinct_values [] values)
    ∙ sym (contains-any (distinct_values [] values) v)
    ∙ contains-distinct_values [] values v

-- A test of requirements that looks at the values as a set.
abbrev pub IsSetwise : (Requirement → Bool) → Type 0
IsSetwise m =
    (r : Requirement) (values : List String)
    → ((v : String) → contains values v ≡ contains r.values v)
    → m (record r { values = values }) ≡ m r

module _ (m : Requirement → Bool) (setwise : IsSetwise m) where
  canonical_requirement_lem : (r : Requirement) → m (canonical_requirement r) ≡ m r
  unfolding canonical_requirement
  canonical_requirement_lem r =
      setwise r (canonical_values r.values) (contains-canonical_values r.values)

  any-canonical_requirements :
      (reqs : List Requirement) → any m (canonical_requirements reqs) ≡ any m reqs
  unfolding canonical_requirements
  any-canonical_requirements reqs =
      any-sort_by requirement_key m (map canonical_requirement reqs)
      ∙ any-map m m canonical_requirement canonical_requirement_lem reqs

  all-canonical_requirements :
      (reqs : List Requirement) → all m (canonical_requirements reqs) ≡ all m reqs
  unfolding canonical_requirements
  all-canonical_requirements reqs =
      all-sort_by requirement_key m (map canonical_requirement reqs)
      ∙ all-map m m canonical_requirement canonical_requirement_lem reqs

  any-canonical_groups :
      (groups : List (List Requirement))
      → any (all m) (canonical_groups groups) ≡ any (all m) groups
  unfolding canonical_groups
  any-canonical_groups groups =
      any-sort_by requirement_list_key (all m) (map canonical_requirements groups)
      ∙ any-map (all m) (all m) canonical_requirements all-canonical_requirements groups

  is_empty-canonical_groups :
      (groups : List (List Requirement)) → is_empty (canonical_groups groups) ≡ is_empty groups
  unfolding canonical_groups
  is_empty-canonical_groups groups =
      is_empty-sort_by requirement_list_key (map canonical_requirements groups)
      ∙ is_empty-map canonical_requirements groups

  -- The canonical form of a policy grants what the policy grants, for any evaluation of the requirements that
  -- looks at their values as a set.
  pub canonical_policy-grants :
      (p : Policy) (has_principal : Bool)
      → grants m (canonical_policy p) has_principal ≡ grants m p has_principal
  unfolding canonical_policy
  canonical_policy-grants p has_principal =
      rw
        (
          any-canonical_requirements p.forbid,
          all-canonical_requirements p.require,
          any-canonical_groups p.any_of,
          is_empty-canonical_groups p.any_of,
        )
        refl

-- ===== src/Authz/Decide/Laws.antt =====
-- authz/decider.go: what an allowed decision means, and when the decision is to allow.
use grpcapi.Base.{
  ◌≡◌, refl, inl, inr, Bool, not, ◌&&◌, ◌||◌, Option, none, some, List, [], ◌∷◌, arith,
  if◌then◌else◌, Bool-cases, Option-cases, is_some, is_empty, all, any, All, Result, ok,
}
use grpcapi.Authz.Decide.{
  unauthenticated, permission_denied, allowed, deny, Decision, config_error, decide_by,
  decide_well_formed, decide_any_of, decide_require, decide_forbid, match_any, first_failed,
  match_group, match_groups,
}
use grpcapi.Status.{Status}
use grpcapi.Policy.Spec.{Requirement, Policy}

-- What a policy of this shape is meant to grant, over a Boolean answer to each requirement: no
-- forbidden predicate holds, and the policy is anonymous, or there is a principal for which every
-- required predicate holds and all of one alternative, if there are alternatives.
abbrev pub grants : (Requirement → Bool) → Policy → Bool → Bool
grants m p has_principal =
    not (any m p.forbid)
    && (p.anonymous
        || has_principal && (all m p.require && (is_empty p.any_of || any (all m) p.any_of)))

module _ (matches : Requirement → Result Status Bool) (m : Requirement → Bool) where
  -- Each requirement of a list is evaluated without an error.
  abbrev pub Answers : List Requirement → Type 0
  Answers reqs = All (λ r. matches r ≡ ok (m r)) reqs

  abbrev pub AnswersAll : Policy → Type 0
  AnswersAll p = Answers p.require × Answers p.forbid × All Answers p.any_of

  match_any-Answers :
      (reqs : List Requirement)
      → Answers reqs
      → (found : Option Requirement) × (match_any matches reqs ≡ ok found)
        × (is_some found ≡ any m reqs)
  unfolding match_any
  match_any-Answers [] h = (none, refl, refl)
  match_any-Answers (r ∷ reqs) (e, h) = elim (Bool-cases (m r)) [
    | inl yes_r ↦ (some r, rw (e, yes_r) refl, rw yes_r refl)
    | inr no_r ↦
        let (found, same, is) = match_any-Answers reqs h in (found, rw (e, no_r) same, rw no_r is)
  ]

  first_failed-Answers :
      (reqs : List Requirement)
      → Answers reqs
      → (found : Option Requirement) × (first_failed matches reqs ≡ ok found)
        × (is_some found ≡ not (all m reqs))
  unfolding first_failed
  first_failed-Answers [] h = (none, refl, refl)
  first_failed-Answers (r ∷ reqs) (e, h) = elim (Bool-cases (m r)) [
    | inl yes_r ↦
        let (found, same, is) = first_failed-Answers reqs h in
        (found, rw (e, yes_r) same, rw yes_r is)
    | inr no_r ↦ (some r, rw (e, no_r) refl, rw no_r refl)
  ]

  match_group-Answers :
      (reqs : List Requirement) → Answers reqs → match_group matches reqs ≡ ok (all m reqs)
  unfolding match_group
  match_group-Answers [] h = refl
  match_group-Answers (r ∷ reqs) (e, h) = rw e (ground (arith, match_group-Answers reqs h))

  match_groups-Answers :
      (groups : List (List Requirement))
      → All Answers groups
      → match_groups matches groups ≡ ok (any (all m) groups)
  unfolding match_groups
  match_groups-Answers [] h = refl
  match_groups-Answers (g ∷ groups) (e, h) =
      rw (match_group-Answers g e) (ground (arith, match_groups-Answers groups h))

  decide_any_of-Answers :
      (groups : List (List Requirement))
      → All Answers groups
      → (d : Decision) × (decide_any_of matches groups ≡ ok d)
        × (d.allow ≡ (is_empty groups || any (all m) groups))
  unfolding decide_any_of
  decide_any_of-Answers [] h = (allowed, refl, refl)
  decide_any_of-Answers (g ∷ groups) h = (
    if any (all m) (g ∷ groups)
        then allowed
        else deny permission_denied "no any_of alternative satisfied" none,
    rw (match_groups-Answers (g ∷ groups) h) refl,
    ground arith,
  )

  decide_require-Answers :
      (p : Policy)
      → AnswersAll p
      → (d : Decision) × (decide_require matches p ≡ ok d)
        × (d.allow ≡ (all m p.require && (is_empty p.any_of || any (all m) p.any_of)))
  unfolding decide_require
  decide_require-Answers p (req, forb, alt) =
      let (found, same, is) = first_failed-Answers p.require req in
      let (d, same_d, allow_d) = decide_any_of-Answers p.any_of alt in
      elim (Option-cases found) [
        | inl passed ↦ (d, rw (same, passed) same_d, ground arith)
        | inr (r, failing) ↦ (
          deny permission_denied "requirement not satisfied" (some r),
          rw (same, failing) refl,
          ground arith,
        )
      ]

  decide_forbid-Answers :
      (p : Policy) (rest : Result Status Decision) (d : Decision)
      → AnswersAll p
      → rest ≡ ok d
      → (e : Decision) × (decide_forbid matches p rest ≡ ok e)
        × (e.allow ≡ (not (any m p.forbid) && d.allow))
  unfolding decide_forbid
  decide_forbid-Answers p rest d (req, forb, alt) h =
      let (found, same, is) = match_any-Answers p.forbid forb in
      elim (Option-cases found) [
        | inl clear ↦ (d, rw (same, clear) h, ground arith)
        | inr (r, hit) ↦
            (deny permission_denied "forbidden" (some r), rw (same, hit) refl, ground arith)
      ]

  decide_well_formed-Answers :
      (p : Policy) (has_principal : Bool)
      → AnswersAll p
      → (d : Decision) × (decide_well_formed matches p has_principal ≡ ok d)
        × (d.allow ≡ grants m p has_principal)
  unfolding decide_well_formed
  decide_well_formed-Answers p has_principal h = elim (Bool-cases p.anonymous) [
    | inl open_p ↦
        let (d, same, is) = decide_forbid-Answers p (ok allowed) allowed h refl in
        (d, simp open_p same, ground arith)
    | inr closed ↦ elim (Bool-cases has_principal) [
      | inl known ↦
          let (e, same_e, is_e) = decide_require-Answers p h in
          let (d, same, is) = decide_forbid-Answers p (decide_require matches p) e h same_e in
          (d, simp (closed, known) same, ground arith)
      | inr unknown ↦
          (deny unauthenticated "missing principal" none, simp (closed, unknown) refl, ground arith)
    ]
  ]

  -- Where every requirement of a policy is evaluated without an error and the policy is not
  -- misconfigured, the decision is returned, and it is to allow exactly when the policy grants the
  -- request.
  pub decide_by-grants :
      (p : Policy) (has_principal : Bool)
      → AnswersAll p
      → config_error p ≡ none
      → (d : Decision) × (decide_by matches p has_principal ≡ ok d)
        × (d.allow ≡ grants m p has_principal)
  unfolding decide_by
  decide_by-grants p has_principal h c =
      let (d, same, is) = decide_well_formed-Answers p has_principal h in
      (d, rw (c, decide_by) same, is)

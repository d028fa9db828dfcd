-- ===== src/Authz/Decide/Safety.antt =====
-- authz/decider.go: what was evaluated before a request is let through, with no assumption on the
-- evaluation, and the codes of a refusal.
use grpcapi.Base.{
  ◌≡◌, refl, ap, ◌⊎◌, inl, inr, Bool, true, false, none, List, [], ◌∷◌, arith, Bool-cases,
  Option-cases, All, Any, Result, bind-eq-ok, ok,
}
use grpcapi.Status.{Status, internal}
use grpcapi.Policy.Spec.{Requirement, Policy}
use grpcapi.Authz.Decide.{
  Decision, allowed, deny, config_error, match_any, first_failed, match_group, match_groups,
  decide_any_of, decide_require, decide_forbid, decide_well_formed, decide_by,
}

module _ (matches : Requirement → Result Status Bool) where
  -- Each requirement of a list was evaluated, without an error, to this answer.
  abbrev pub Evaluated : Bool → List Requirement → Type 0
  Evaluated b reqs = All (λ r. matches r ≡ ok b) reqs

  match_any-none :
      (reqs : List Requirement) → match_any matches reqs ≡ ok none → Evaluated false reqs
  unfolding match_any
  match_any-none [] h = tt
  match_any-none (r ∷ reqs) h =
      let (b, e, later) = bind-eq-ok (matches r) _ h in
      elim (Bool-cases b) [
        | inl hit ↦ ground arith
        | inr miss ↦ (rw e (ap ok miss), match_any-none reqs (rw miss at later))
      ]

  first_failed-none :
      (reqs : List Requirement) → first_failed matches reqs ≡ ok none → Evaluated true reqs
  unfolding first_failed
  first_failed-none [] h = tt
  first_failed-none (r ∷ reqs) h =
      let (b, e, later) = bind-eq-ok (matches r) _ h in
      elim (Bool-cases b) [
        | inl hit ↦ (rw e (ap ok hit), first_failed-none reqs (rw hit at later))
        | inr miss ↦ ground arith
      ]

  match_group-true :
      (reqs : List Requirement) → match_group matches reqs ≡ ok true → Evaluated true reqs
  unfolding match_group
  match_group-true [] h = tt
  match_group-true (r ∷ reqs) h =
      let (b, e, later) = bind-eq-ok (matches r) _ h in
      elim (Bool-cases b) [
        | inl hit ↦ (rw e (ap ok hit), match_group-true reqs (rw hit at later))
        | inr miss ↦ ground arith
      ]

  match_groups-true :
      (groups : List (List Requirement))
      → match_groups matches groups ≡ ok true
      → Any (Evaluated true) groups
  unfolding match_groups
  match_groups-true [] h = cc
  match_groups-true (g ∷ groups) h =
      let (b, e, later) = bind-eq-ok (match_group matches g) _ h in
      elim (Bool-cases b) [
        | inl hit ↦ inl (match_group-true g (rw e (ap ok hit)))
        | inr miss ↦ inr (match_groups-true groups (rw miss at later))
      ]

  -- The alternatives are met: there are none, or all of one holds.
  abbrev pub MeetsAlternatives : List (List Requirement) → Type 0
  MeetsAlternatives groups = (groups ≡ []) ⊎ Any (Evaluated true) groups

  decide_any_of-allow :
      (groups : List (List Requirement)) (d : Decision)
      → decide_any_of matches groups ≡ ok d
      → d.allow ≡ true
      → MeetsAlternatives groups
  unfolding decide_any_of
  decide_any_of-allow [] d h a = inl refl
  decide_any_of-allow (g ∷ groups) d h a =
      let (b, e, later) = bind-eq-ok (match_groups matches (g ∷ groups)) _ h in
      elim (Bool-cases b) [
        | inl hit ↦ inr (match_groups-true (g ∷ groups) (rw e (ap ok hit)))
        | inr miss ↦ ground arith
      ]

  decide_require-allow :
      (p : Policy) (d : Decision)
      → decide_require matches p ≡ ok d
      → d.allow ≡ true
      → Evaluated true p.require × MeetsAlternatives p.any_of
  unfolding decide_require
  decide_require-allow p d h a =
      let (found, e, later) = bind-eq-ok (first_failed matches p.require) _ h in
      elim (Option-cases found) [
        | inl clear ↦ (
          first_failed-none p.require (rw e (ap ok clear)),
          decide_any_of-allow p.any_of d (rw clear at later) a,
        )
        | inr (r, failing) ↦ ground arith
      ]

  decide_forbid-allow :
      (p : Policy) (rest : Result Status Decision) (d : Decision)
      → decide_forbid matches p rest ≡ ok d
      → d.allow ≡ true
      → Evaluated false p.forbid × (rest ≡ ok d)
  unfolding decide_forbid
  decide_forbid-allow p rest d h a =
      let (found, e, later) = bind-eq-ok (match_any matches p.forbid) _ h in
      elim (Option-cases found) [
        | inl clear ↦ (match_any-none p.forbid (rw e (ap ok clear)), rw clear at later)
        | inr (r, hit) ↦ ground arith
      ]

  -- What holds of every request that is let through.
  pub record IsAuthorized (p : Policy) (has_principal : Bool) : Type 0 where
    pub configured : config_error p ≡ none
    pub not_forbidden : Evaluated false p.forbid
    pub entitled :
        (p.anonymous ≡ true)
        ⊎ ((has_principal ≡ true) × (Evaluated true p.require) × MeetsAlternatives p.any_of)

  decide_well_formed-allow :
      (p : Policy) (has_principal : Bool) (d : Decision)
      → decide_well_formed matches p has_principal ≡ ok d
      → d.allow ≡ true
      → Evaluated false p.forbid
        × ((p.anonymous ≡ true)
            ⊎ ((has_principal ≡ true) × (Evaluated true p.require) × MeetsAlternatives p.any_of))
  unfolding decide_well_formed
  decide_well_formed-allow p has_principal d h a = elim (Bool-cases p.anonymous) [
    | inl open_p ↦ ((decide_forbid-allow p (ok allowed) d (simp open_p at h) a).0, inl open_p)
    | inr closed ↦ elim (Bool-cases has_principal) [
      | inl known ↦
          let (clear, same) =
            decide_forbid-allow p (decide_require matches p) d (simp (closed, known) at h) a in
          let (req, alt) = decide_require-allow p d same a in (clear, inr (known, req, alt))
      | inr unknown ↦ ground arith
    ]
  ]

  -- A request is let through only by a policy that is not misconfigured, when every forbidden
  -- predicate was evaluated to false, and the policy is anonymous or there is a principal for
  -- which every required predicate was evaluated to true and, if there are alternatives, all of
  -- one of them. What an answer is here is
  -- what matchRequirement returns.
  pub decide_by-IsAuthorized :
      (p : Policy) (has_principal : Bool) (d : Decision)
      → decide_by matches p has_principal ≡ ok d
      → d.allow ≡ true
      → IsAuthorized p has_principal
  unfolding decide_by
  decide_by-IsAuthorized p has_principal d h a = elim (Option-cases (config_error p)) [
    | inl fine ↦
        let (clear, entitled) =
          decide_well_formed-allow p has_principal d (rw (fine, decide_by) at h) a in
        record { configured = fine; not_forbidden = clear; entitled = entitled }
    | inr (reason, bad) ↦ let e : deny internal reason none ≡ d = ground arith in cc
  ]

-- ===== src/Policy/Validate/Laws.antt =====
-- policy/build.go: which policies pass the validation.
use grpcapi.Base.{
  ℕ, ◌+◌, String, ◌≡◌, refl, ◌↔◌, inl, inr, true, false, not, ◌&&◌, Option, none, some, List, [],
  ◌∷◌, arith, ◌==◌, Bool-cases, Option-cases, is_empty, all, All, append-eq-nil, lookup,
}
use grpcapi.Status.{World}
use grpcapi.Policy.Spec.{Requirement, Policy}
use grpcapi.Policy.Vocabulary.{Vocabulary, has, allows, validate_values_iff}
use grpcapi.Policy.Registry.{RequirementKind, Registry, effective_match}
use grpcapi.Policy.Validate.{
  valid_match, vocabulary_domain, check_values, validate_kind, validate_requirement,
  validate_requirements, validate_groups, validate_shape, validate_policy,
}

module _ {w : World} (reg : Registry w) (vocab : Vocabulary) where
  -- The requirement with the match that its kind gives it by default.
  abbrev pub completed : Requirement → RequirementKind w → Requirement
  completed req kind = record req { match = effective_match req kind.default_match }

  -- The check of the values: that of the kind, or by the vocabulary where the kind has none.
  abbrev pub AcceptsValues :
      Option (Requirement → Vocabulary → Option w.Failure) → Requirement → String → Type 0
  AcceptsValues (some validate) req domain = validate req vocab ≡ none
  AcceptsValues none req domain = all (allows vocab domain) req.values ≡ true

  -- A requirement that passes: its match is a known one, its kind is registered, a vocabulary that
  -- the kind needs is there, and its values are accepted.
  pub record IsValidRequirement (req : Requirement) : Type 0 where
    pub known_match : valid_match req.match ≡ true
    pub found : RequirementKind w
    pub registered : lookup req.kind reg ≡ some found
    pub has_vocabulary :
        (found.requires_vocabulary
          && not (has vocab (vocabulary_domain (completed req found) found)))
        ≡ false
    pub accepted :
        AcceptsValues found.validate
          (completed req found)
          (vocabulary_domain (completed req found) found)

  abbrev pub IsValidGroup : List Requirement → Type 0
  IsValidGroup group = (is_empty group ≡ false) × All IsValidRequirement group

  -- A policy that passes: it is expanded; it is anonymous exactly when it requires nothing; no
  -- alternative is empty; each requirement passes.
  pub record IsValidPolicy (p : Policy) : Type 0 where
    pub is_expanded : (p.preset == "") ≡ true
    pub explicit : p.anonymous ≡ (is_empty p.require && is_empty p.any_of)
    pub require_valid : All IsValidRequirement p.require
    pub any_of_valid : All IsValidGroup p.any_of
    pub forbid_valid : All IsValidRequirement p.forbid

  check_values-eq-nil_iff :
      (validate : Option (Requirement → Vocabulary → Option w.Failure)) (req : Requirement)
      (domain : String)
      → (check_values {w = w} validate vocab req domain ≡ []) ↔ AcceptsValues validate req domain
  unfolding check_values
  check_values-eq-nil_iff (some validate) req domain = ground arith
  check_values-eq-nil_iff none req domain = ground (arith, validate_values_iff vocab req domain)

  validate_kind-eq-nil_iff :
      (req : Requirement) (kind : RequirementKind w) (domain : String)
      → domain ≡ vocabulary_domain req kind
      → (validate_kind req kind vocab ≡ []) ↔ (
          ((kind.requires_vocabulary && not (has vocab domain)) ≡ false)
          × AcceptsValues kind.validate req domain)
  unfolding validate_kind
  validate_kind-eq-nil_iff req kind domain e =
      rw (← e) (elim (Bool-cases (kind.requires_vocabulary && not (has vocab domain))) [
        | inl lacks ↦ rw lacks (ground arith)
        | inr fine ↦
            let (to, from) = check_values-eq-nil_iff kind.validate req domain in
            rw fine (λ h. (refl, to h), λ h. from h.1)
      ])

  validate_requirement-nil :
      (req : Requirement) → validate_requirement req reg vocab ≡ [] → IsValidRequirement req
  unfolding validate_requirement
  validate_requirement-nil req h = elim (Bool-cases (valid_match req.match)) [
    | inr bad ↦ ground arith
    | inl good ↦ elim (Option-cases (lookup req.kind reg)) [
      | inl missing ↦ ground arith
      | inr (kind, e) ↦
          let (v, a) =
            (validate_kind-eq-nil_iff (completed req kind) kind _ refl).0 (simp (good, e) at h) in
          record {
            known_match = good;
            found = kind;
            registered = e;
            has_vocabulary = v;
            accepted = a;
          }
    ]
  ]

  validate_requirements-nil :
      (reqs : List Requirement)
      → validate_requirements reqs reg vocab ≡ []
      → All IsValidRequirement reqs
  unfolding validate_requirements
  validate_requirements-nil [] h = tt
  validate_requirements-nil (r ∷ reqs) h =
      let (here, later) = append-eq-nil (validate_requirement r reg vocab) _ h in
      (validate_requirement-nil r here, validate_requirements-nil reqs later)

  validate_groups-nil :
      (i : ℕ) (groups : List (List Requirement))
      → validate_groups i groups reg vocab ≡ []
      → All IsValidGroup groups
  unfolding validate_groups
  validate_groups-nil i [] h = tt
  validate_groups-nil i ([] ∷ groups) h = cc
  validate_groups-nil i ((r ∷ reqs) ∷ groups) h =
      let (here, later) = append-eq-nil (validate_requirements (r ∷ reqs) reg vocab) _ h in
      ((refl, validate_requirements-nil (r ∷ reqs) here), validate_groups-nil (i + 1) groups later)

  -- A policy with no violation is valid.
  pub validate_policy-IsValidPolicy :
      (p : Policy) → validate_policy p reg vocab ≡ [] → IsValidPolicy p
  unfolding validate_policy
  validate_policy-IsValidPolicy p h =
      let (shape, rest) = append-eq-nil (validate_shape p) _ h in
      let (req, rest') = append-eq-nil (validate_requirements p.require reg vocab) _ rest in
      let (alt, forb) = append-eq-nil (validate_groups 0 p.any_of reg vocab) _ rest' in
      record {
        is_expanded = ground arith;
        explicit = ground arith;
        require_valid = validate_requirements-nil p.require req;
        any_of_valid = validate_groups-nil 0 p.any_of alt;
        forbid_valid = validate_requirements-nil p.forbid forb;
      }

  IsValidRequirement-nil :
      (req : Requirement) → IsValidRequirement req → validate_requirement req reg vocab ≡ []
  unfolding validate_requirement
  IsValidRequirement-nil req v =
      let (to, from) = validate_kind-eq-nil_iff (completed req v.found) v.found _ refl in
      simp (v.known_match, v.registered) (from (v.has_vocabulary, v.accepted))

  validate_requirements_valid :
      (reqs : List Requirement)
      → All IsValidRequirement reqs
      → validate_requirements reqs reg vocab ≡ []
  unfolding validate_requirements
  validate_requirements_valid [] h = refl
  validate_requirements_valid (r ∷ reqs) (v, h) =
      rw (IsValidRequirement-nil r v) (validate_requirements_valid reqs h)

  validate_groups_valid :
      (i : ℕ) (groups : List (List Requirement))
      → All IsValidGroup groups
      → validate_groups i groups reg vocab ≡ []
  unfolding validate_groups
  validate_groups_valid i [] h = refl
  validate_groups_valid i (g ∷ groups) ((filled, v), h) =
      rw (filled, validate_requirements_valid g v) (validate_groups_valid (i + 1) groups h)

  validate_shape_valid : (p : Policy) → IsValidPolicy p → validate_shape {w = w} p ≡ []
  unfolding validate_shape
  validate_shape_valid p v = ground (arith, v.is_expanded, v.explicit)

  -- The validation finds nothing exactly in the valid policies.
  pub validate_policy_iff : (p : Policy) → (validate_policy p reg vocab ≡ []) ↔ IsValidPolicy p
  unfolding validate_policy
  validate_policy_iff p = (
    validate_policy-IsValidPolicy p,
    λ v.
        rw
          (
            validate_shape_valid p v,
            validate_requirements_valid p.require v.require_valid,
            validate_groups_valid 0 p.any_of v.any_of_valid,
            validate_requirements_valid p.forbid v.forbid_valid,
          )
          refl,
  )

-- ===== src/Authz/Decide/Evaluated.antt =====
-- authz/decider.go: what the kinds of the requirements have answered before a request is let through.
use grpcapi.Base.{
  ◌≡◌, ap, ◌∙◌, ◌⊎◌, inl, inr, Bool, true, false, none, some, [], arith, Option-cases, is_some, All,
  Any, All-map, Any-map, lookup, Result, Result-cases, ok, err,
}
use grpcapi.Status.{World, Status, is_ok}
use grpcapi.Policy.Spec.{Requirement, Policy, EvalContext}
use grpcapi.Policy.Registry.{Registry, RequirementKind}
use grpcapi.Authz.Decide.{Decision, config_error, match_requirement, decide_policy}
use grpcapi.Authz.Decide.Safety.{decide_by-IsAuthorized}

module _ {w : World} (ctx : w.Ambient) (ec : EvalContext w) (reg : Registry w) where
  -- The registered kind of a requirement was asked and gave this answer.
  abbrev pub Answered : Requirement → Result w.Failure Bool → Type 0
  Answered r answer =
      (kind : RequirementKind w) × (evaluate : w.Ambient
        → EvalContext w
        → Requirement
        → Result w.Failure Bool)
      × (lookup r.kind reg ≡ some kind)
      × (kind.evaluate ≡ some evaluate)
      × (evaluate ctx ec r ≡ answer)

  -- The answer true, without an error.
  abbrev pub Granted : Requirement → Type 0
  Granted r = Answered r (ok true)

  -- The answer false, or an error whose status is OK.
  abbrev pub Refuted : Requirement → Type 0
  Refuted r =
      Answered r (ok false)
      ⊎ ((e : w.Failure) × (st : Status) × Answered r (err e)
          × (w.from_error e ≡ some st)
          × (is_ok st.code ≡ true))

  -- What match_requirement makes of a kind's answer.
  match_requirement-Answered :
      (r : Requirement) (b : Bool)
      → match_requirement ctx ec reg r ≡ ok b
      → Answered r (ok b)
        ⊎ ((e : w.Failure) × (st : Status) × Answered r (err e)
            × (w.from_error e ≡ some st)
            × (is_ok st.code ≡ true)
            × (b ≡ false))
  unfolding match_requirement
  match_requirement-Answered r b h = elim (Option-cases (lookup r.kind reg)) [
    | inl unknown ↦ absurd (ground arith)
    | inr (kind, known) ↦ elim (Option-cases kind.evaluate) [
      | inl unset ↦ absurd (ground arith)
      | inr (evaluate, set) ↦ elim (Result-cases (evaluate ctx ec r)) [
        | inl (c, answer) ↦
            let same : c ≡ b = ground arith in inl (kind, evaluate, known, set, answer ∙ ap ok same)
        | inr (e, failed) ↦ elim (Option-cases (w.from_error e)) [
          | inl bare ↦ absurd (ground arith)
          | inr (st, carried) ↦
              inr (e, st, (kind, evaluate, known, set, failed), carried, ground arith, ground arith)
        ]
      ]
    ]
  ]

  match_requirement-Granted :
      (r : Requirement) → match_requirement ctx ec reg r ≡ ok true → Granted r
  match_requirement-Granted r h = elim (match_requirement-Answered r true h) [
    | inl granted ↦ granted
    | inr (e, st, failed, carried, fine, bad) ↦ absurd (cc)
  ]

  match_requirement-Refuted :
      (r : Requirement) → match_requirement ctx ec reg r ≡ ok false → Refuted r
  match_requirement-Refuted r h = elim (match_requirement-Answered r false h) [
    | inl refuted ↦ inl refuted
    | inr (e, st, failed, carried, fine, same) ↦ inr (e, st, failed, carried, fine)
  ]

  -- What the kinds have answered for a policy that lets a request through.
  pub record IsEntitled (p : Policy) (has_principal : Bool) : Type 0 where
    pub configured : config_error p ≡ none
    pub not_forbidden : All Refuted p.forbid
    pub entitled :
        (p.anonymous ≡ true)
        ⊎ ((has_principal ≡ true)
            × All Granted p.require
            × ((p.any_of ≡ []) ⊎ Any (All Granted) p.any_of))

  -- The decider allows a request only by a policy that is not misconfigured, when the registered kind of every
  -- forbidden predicate has answered false or has failed with an error whose status is OK, and the policy is
  -- anonymous or there is a principal for which the registered kind of every required predicate has answered
  -- true without an error and, if there are alternatives, so have those of all predicates of one of them.
  pub decide_policy-IsEntitled :
      (d : Decision)
      → decide_policy ctx ec reg ≡ ok d
      → d.allow ≡ true
      → IsEntitled ec.operation.policy (is_some ec.principal)
  unfolding decide_policy
  decide_policy-IsEntitled d h a =
      let p = ec.operation.policy in
      let safe =
        decide_by-IsAuthorized (match_requirement ctx ec reg) p (is_some ec.principal) d h a in
      record {
        configured = safe.configured;
        not_forbidden = All-map match_requirement-Refuted p.forbid safe.not_forbidden;
        entitled = elim safe.entitled [
          | inl open_p ↦ inl open_p
          | inr (known, required, alternatives) ↦ inr (
            known,
            All-map match_requirement-Granted p.require required,
            elim alternatives [
              | inl nothing ↦ inl nothing
              | inr one ↦ inr (Any-map (λ g. All-map match_requirement-Granted g) p.any_of one)
            ],
          )
        ];
      }

-- ===== src/Surface/Covers.antt =====
-- surface/surface.go: every method of the services is on the interface that is built.
use grpcapi.Base.{
  ◌≤◌, String, ◌≡◌, refl, ◌∙◌, inl, inr, true, false, ◌||◌, Option, none, some, List, [], ◌∷◌, ◌++◌,
  arith, Bool-cases, Option-cases, All, Any, Any-append, contains, ne_false, First, ok_inj,
  Result-cases, Any-sort_by, ok,
}
use grpcapi.Surface.Build.{entry_id, IsSoundEntry, total, build_from_services-IsSoundEntry}
use grpcapi.Status.{World}
use grpcapi.Policy.OperationSet.{OperationSet, get}
use grpcapi.Policy.Descriptors.{MethodDescriptor, ServiceDescriptor}
use grpcapi.Policy.Method.{full_method}
use grpcapi.Surface.{
  Entry, Surface, Collected, MethodRule, bindings_of, validate_exposure, add_routes, add_method,
  add_methods, add_services, build_from_services,
}

abbrev pub name_of : ServiceDescriptor → String
name_of sd = sd.full_name

-- An entry for the method of a service.
abbrev pub IsFor : ServiceDescriptor → MethodDescriptor → Entry → Type 0
IsFor sd md e = (e.service ≡ sd) × (e.descriptor ≡ md)

module _ {w : World} (rule_of : ServiceDescriptor → MethodDescriptor → Option MethodRule)
    (set : OperationSet w) where
  add_method-IsFor :
      (sd : ServiceDescriptor) (md : MethodDescriptor) (acc later : Collected)
      → add_method rule_of set sd md acc ≡ ok later
      → (e : Entry) × IsFor sd md e × (later.ops ≡ acc.ops ++ e ∷ [])
  unfolding add_method
  add_method-IsFor sd md acc later h = elim (Option-cases (get set (full_method sd md))) [
    | inl missing ↦ absurd (ground arith)
    | inr (op, found) ↦ elim (Result-cases (bindings_of (rule_of sd md))) [
      | inr (e, bad) ↦ absurd (ground arith)
      | inl (bs, bound) ↦ elim (Option-cases (validate_exposure md op.exposure bs)) [
        | inr (e, bad) ↦ absurd (ground arith)
        | inl fits ↦ elim (Result-cases (add_routes (full_method sd md) bs acc.routes)) [
          | inr (e, bad) ↦ absurd (ground arith)
          | inl (routes, added) ↦
              let h2 = rw (add_method, found, bound, fits, added) at h in
              (
                record {
                  operation = op;
                  service = sd;
                  descriptor = md;
                  http = bs;
                  streaming = md.streaming_client || md.streaming_server;
                },
                (refl, refl),
                rw (← ok_inj _ later h2) refl,
              )
        ]
      ]
    ]
  ]

  add_method-keeps :
      (P : Entry → Type 0) (sd : ServiceDescriptor) (md : MethodDescriptor) (acc later : Collected)
      → add_method rule_of set sd md acc ≡ ok later
      → Any P acc.ops
      → Any P later.ops
  add_method-keeps P sd md acc later h there =
      let (e, is_for, same) = add_method-IsFor sd md acc later h in
      rw same (Any-append P acc.ops (e ∷ []) (inl there))

  add_methods-keeps :
      (P : Entry → Type 0) (sd : ServiceDescriptor) (mds : List MethodDescriptor)
      (acc later : Collected)
      → add_methods rule_of set sd mds acc ≡ ok later
      → Any P acc.ops
      → Any P later.ops
  unfolding add_methods
  add_methods-keeps P sd [] acc later h there = rw (← ok_inj _ later h) there
  add_methods-keeps P sd (md ∷ mds) acc later h there =
      elim (Result-cases (add_method rule_of set sd md acc)) [
        | inr (e, bad) ↦ absurd (ground arith)
        | inl (next, added) ↦
            add_methods-keeps P sd mds next later (rw (add_methods, added) at h)
              (add_method-keeps P sd md acc next added there)
      ]

  add_methods-IsFor :
      (sd : ServiceDescriptor) (mds : List MethodDescriptor) (md : MethodDescriptor)
      (acc later : Collected)
      → add_methods rule_of set sd mds acc ≡ ok later
      → Any (λ x. x ≡ md) mds
      → Any (IsFor sd md) later.ops
  unfolding add_methods
  add_methods-IsFor sd [] md acc later h there = absurd there
  add_methods-IsFor sd (x ∷ mds) md acc later h there =
      elim (Result-cases (add_method rule_of set sd x acc)) [
        | inr (e, bad) ↦ absurd (ground arith)
        | inl (next, added) ↦
            let h2 = rw (add_methods, added) at h in
            elim there [
              | inr more ↦ add_methods-IsFor sd mds md next later h2 more
              | inl same ↦
                  let (e, is_for, grown) = add_method-IsFor sd x acc next added in
                  let this : IsFor sd md e = (is_for.0, is_for.1 ∙ same) in
                  add_methods-keeps (IsFor sd md) sd mds next later h2
                    (rw grown (Any-append (IsFor sd md) acc.ops (e ∷ []) (inr (inl this))))
            ]
      ]

  add_services-keeps :
      (P : Entry → Type 0) (seen : List String) (sds : List (Option ServiceDescriptor))
      (acc later : Collected)
      → add_services rule_of set seen sds acc ≡ ok later
      → Any P acc.ops
      → Any P later.ops
  unfolding add_services
  add_services-keeps P seen [] acc later h there = rw (← ok_inj _ later h) there
  add_services-keeps P seen (none ∷ sds) acc later h there =
      add_services-keeps P seen sds acc later h there
  add_services-keeps P seen (some sd ∷ sds) acc later h there =
      elim (Bool-cases (contains seen sd.full_name)) [
        | inl dup ↦ add_services-keeps P seen sds acc later (rw (add_services, dup) at h) there
        | inr new ↦ elim (Result-cases (add_methods rule_of set sd sd.methods acc)) [
          | inr (e, bad) ↦ absurd (ground arith)
          | inl (next, added) ↦
              add_services-keeps P (sd.full_name ∷ seen) sds next later
                (rw (add_services, new, added) at h)
                (add_methods-keeps P sd sd.methods acc next added there)
        ]
      ]

  add_services-IsFor :
      (seen : List String) (sds : List (Option ServiceDescriptor)) (sd : ServiceDescriptor)
      (md : MethodDescriptor) (acc later : Collected)
      → add_services rule_of set seen sds acc ≡ ok later
      → contains seen sd.full_name ≡ false
      → First name_of sd sds
      → Any (λ x. x ≡ md) sd.methods
      → Any (IsFor sd md) later.ops
  unfolding add_services
  add_services-IsFor seen [] sd md acc later h fresh first m = absurd first
  add_services-IsFor seen (none ∷ sds) sd md acc later h fresh first m =
      add_services-IsFor seen sds sd md acc later h fresh first m
  add_services-IsFor seen (some x ∷ sds) sd md acc later h fresh first m =
      elim (Bool-cases (contains seen x.full_name)) [
        | inl dup ↦ elim first [
          | inl same ↦
              let bad : contains seen sd.full_name ≡ true = rw (← same) dup in
              absurd (ground (arith, bad, fresh))
          | inr (other, later_one) ↦
              add_services-IsFor seen sds sd md acc later (rw (add_services, dup) at h) fresh
                later_one m
        ]
        | inr new ↦ elim (Result-cases (add_methods rule_of set x x.methods acc)) [
          | inr (e, bad) ↦ absurd (ground arith)
          | inl (next, added) ↦
              let h2 = rw (add_services, new, added) at h in
              elim first [
                | inl same ↦
                    add_services-keeps (IsFor sd md) (x.full_name ∷ seen) sds next later h2
                      (add_methods-IsFor sd sd.methods md acc next (rw same at added) m)
                | inr (other, later_one) ↦
                    add_services-IsFor (x.full_name ∷ seen) sds sd md next later h2
                      (ground (arith, fresh, ne_false x.full_name sd.full_name other)) later_one m
              ]
        ]
      ]

  -- The interface of a list of services.
  pub record IsInterface (services : List (Option ServiceDescriptor)) (s : Surface w) : Type 0 where
    pub entries : All (IsSoundEntry set) s.ops
    pub complete :
        (sd : ServiceDescriptor) (md : MethodDescriptor)
        → First name_of sd services
        → Any (λ x. x ≡ md) sd.methods
        → Any (IsFor sd md) s.ops
    pub routes : (key : String) → total key s.ops ≤ 1

  -- The interface that is built from services has an entry for every method of every service that is the first with
  -- its name. Every entry has the operation of the policy set for its method, with routes in normal form that fit its
  -- exposure: a public or deprecated one has a route and no client stream, an internal one has none, a hidden one
  -- has none if it has a client stream, and no other exposure occurs. No verb and path are taken twice, by one
  -- method or by two.
  pub build_from_services-IsInterface :
      (services : List (Option ServiceDescriptor)) (s : Surface w)
      → build_from_services rule_of set services ≡ ok s
      → IsInterface services s
  unfolding build_from_services
  build_from_services-IsInterface services s h =
      let (entries, routes) = build_from_services-IsSoundEntry set rule_of services s h in
      let start : Collected = record { ops = []; routes = [] } in
      record {
        entries = entries;
        complete = λ sd md first m.
            elim (Result-cases (add_services rule_of set [] services start)) [
              | inr (e, bad) ↦ absurd (ground arith)
              | inl (acc, added) ↦
                  let h2 = rw (build_from_services, added) at h in
                  rw (← ok_inj _ s h2) (
                    Any-sort_by entry_id (IsFor sd md) acc.ops
                      (add_services-IsFor [] services sd md start acc added refl first m))
            ];
        routes = routes;
      }

-- ===== src/Surface/Build.antt =====
-- surface/surface.go: what holds of the interface that is built.
use grpcapi.Base.{
  ℕ, ◌+◌, ◌≤◌, String, ◌≡◌, refl, ap, ◌∙◌, inl, inr, true, false, not, ◌||◌, Option, none, some,
  List, [], ◌∷◌, ◌++◌, arith, ◌==◌, eq_iff, if◌then◌else◌, Bool-cases, Option-cases, is_some,
  is_empty, All, All-append, contains, lookup, insert, lookup-insert, ok_inj, Result-cases,
  bind-eq-ok, insert_by, sort_by, All-sort_by, ok, err,
}
use grpcapi.Status.{World}
use grpcapi.Policy.Spec.{Exposure}
use grpcapi.Policy.OperationSet.{OperationSet, get}
use grpcapi.Policy.Descriptors.{MethodDescriptor, ServiceDescriptor}
use grpcapi.Policy.Method.{full_method}
use grpcapi.Surface.Path.Normal.{IsNormal, normalize_path-IsNormal}
use grpcapi.Surface.{
  HttpBinding, HttpRule, MethodRule, Entry, Surface, Collected, verb_path, binding_of,
  more_bindings, bindings_of, validate_exposure, route_key, add_routes, add_method, add_methods,
  add_services, build_from_services,
}

-- The HTTP routes that a method of an exposure may have.
abbrev pub IsExposed : MethodDescriptor → Exposure → List HttpBinding → Type 0
IsExposed md Exposure.public bs = (is_empty bs ≡ false) × (md.streaming_client ≡ false)
IsExposed md Exposure.deprecated bs = (is_empty bs ≡ false) × (md.streaming_client ≡ false)
IsExposed md Exposure.internal bs = is_empty bs ≡ true
IsExposed md Exposure.hidden bs = (is_empty bs || not md.streaming_client) ≡ true
IsExposed md _ bs = ⊥

validate_exposure_sound :
    (md : MethodDescriptor) (exposure : Exposure) (bs : List HttpBinding)
    → validate_exposure md exposure bs ≡ none
    → IsExposed md exposure bs
unfolding validate_exposure
validate_exposure_sound md Exposure.public bs h = (ground arith, ground arith)
validate_exposure_sound md Exposure.deprecated bs h = (ground arith, ground arith)
validate_exposure_sound md Exposure.internal bs h = ground arith
validate_exposure_sound md Exposure.hidden bs h = ground arith
validate_exposure_sound md Exposure.unspecified bs h = absurd (ground arith)
validate_exposure_sound md (Exposure.other n) bs h = absurd (ground arith)

abbrev IsNormalBinding : HttpBinding → Type 0
IsNormalBinding b = IsNormal b.path

binding_of-IsNormal :
    (rule : Option HttpRule) (index : ℕ) (b : HttpBinding)
    → binding_of rule index ≡ ok b
    → IsNormal b.path
unfolding binding_of
binding_of-IsNormal none index b h = absurd (cc)
binding_of-IsNormal (some rule) index b h = elim (Option-cases rule.pattern) [
  | inl missing ↦ absurd (ground arith)
  | inr (pattern, same) ↦ elim (Bool-cases ((verb_path pattern).1 == "")) [
    | inl bare ↦ absurd (ground arith)
    | inr full ↦
        let h2 = rw (binding_of, same, full) at h in
        let path = ap (λ r. elim r [ ok c ↦ c.path | err e ↦ b.path ]) h2 in
        rw (← path) (normalize_path-IsNormal (verb_path pattern).1)
  ]
]

more_bindings-IsNormal :
    (rules : List (Option HttpRule)) (index : ℕ) (bs : List HttpBinding)
    → more_bindings rules index ≡ ok bs
    → All IsNormalBinding bs
unfolding more_bindings
more_bindings-IsNormal [] index bs h = rw (← ok_inj _ bs h) tt
more_bindings-IsNormal (rule ∷ rules) index bs h =
    let (b, first, h2) = bind-eq-ok (binding_of rule index) _ h in
    let (rest, later, h3) = bind-eq-ok (more_bindings rules (index + 1)) _ h2 in
    rw (← ok_inj _ bs h3)
      (binding_of-IsNormal rule index b first, more_bindings-IsNormal rules (index + 1) rest later)

bindings_of-IsNormal :
    (rule : Option MethodRule) (bs : List HttpBinding)
    → bindings_of rule ≡ ok bs
    → All IsNormalBinding bs
unfolding bindings_of
bindings_of-IsNormal none bs h = rw (← ok_inj _ bs h) tt
bindings_of-IsNormal (some rule) bs h =
    more_bindings-IsNormal (some rule.main ∷ rule.additional) 0 bs h

-- How often a route is taken.
abbrev pub count : String → List HttpBinding → ℕ
count key [] = 0
count key (b ∷ bs) = (if route_key b == key then 1 else 0) + count key bs

abbrev pub total : String → List Entry → ℕ
total key [] = 0
total key (e ∷ ops) = count key e.http + total key ops

abbrev taken : String → List (String × String) → ℕ
taken key routes = if is_some (lookup key routes) then 1 else 0

add_routes_lem :
    (method : String) (bs : List HttpBinding) (routes later : List (String × String)) (key : String)
    → add_routes method bs routes ≡ ok later
    → taken key later ≡ taken key routes + count key bs
unfolding add_routes
add_routes_lem method [] routes later key h = rw (← ok_inj _ later h) (omega arith)
add_routes_lem method (b ∷ bs) routes later key h =
    elim (Bool-cases (is_some (lookup (route_key b) routes))) [
      | inl dup ↦ absurd (ground arith)
      | inr new ↦
          let tail =
            add_routes_lem method bs (insert (route_key b) method routes) later key
              (rw (add_routes, new) at h) in
          ground (arith, lookup-insert (route_key b) key method routes, eq_iff (route_key b) key)
    ]

abbrev pub entry_id : Entry → String
entry_id e = e.operation.id

total-insert_by :
    (key : String) (x : Entry) (xs : List Entry)
    → total key (insert_by entry_id x xs) ≡ count key x.http + total key xs
total-insert_by key x [] = refl
total-insert_by key x (y ∷ ys) = ground (arith, total-insert_by key x ys)

total-sort_by : (key : String) (xs : List Entry) → total key (sort_by entry_id xs) ≡ total key xs
total-sort_by key [] = refl
total-sort_by key (x ∷ xs) =
    total-insert_by key x (sort_by entry_id xs)
    ∙ ap (λ n. count key x.http + n) (total-sort_by key xs)

taken-bound : (key : String) (routes : List (String × String)) → taken key routes ≤ 1
taken-bound key routes = ground arith

module _ {w : World} (set : OperationSet w) where
  -- An operation of the interface is the one that the set has for its method, its routes are in normal form
  -- and are those that its exposure and its streams let it have.
  pub record IsSoundEntry (e : Entry) : Type 0 where
    pub policy : get set (full_method e.service e.descriptor) ≡ some e.operation
    pub exposed : IsExposed e.descriptor e.operation.exposure e.http
    pub normal : All IsNormalBinding e.http

  record IsSound (acc : Collected) : Type 0 where
    pub entries : All IsSoundEntry acc.ops
    pub routes : (key : String) → taken key acc.routes ≡ total key acc.ops

  total-append :
      (key : String) (xs ys : List Entry) → total key (xs ++ ys) ≡ total key xs + total key ys
  total-append key [] ys = omega arith
  total-append key (x ∷ xs) ys = omega (arith, total-append key xs ys)

  module _ (rule_of : ServiceDescriptor → MethodDescriptor → Option MethodRule) where
    add_method-IsSound :
        (sd : ServiceDescriptor) (md : MethodDescriptor) (acc later : Collected)
        → IsSound acc
        → add_method rule_of set sd md acc ≡ ok later
        → IsSound later
    unfolding add_method
    add_method-IsSound sd md acc later s h = elim (Option-cases (get set (full_method sd md))) [
      | inl missing ↦ absurd (ground arith)
      | inr (op, found) ↦ elim (Result-cases (bindings_of (rule_of sd md))) [
        | inr (e, bad) ↦ absurd (ground arith)
        | inl (bs, bound) ↦ elim (Option-cases (validate_exposure md op.exposure bs)) [
          | inr (e, bad) ↦ absurd (ground arith)
          | inl fits ↦ elim (Result-cases (add_routes (full_method sd md) bs acc.routes)) [
            | inr (e, bad) ↦ absurd (ground arith)
            | inl (routes, added) ↦
                let e : Entry = record {
                  operation = op;
                  service = sd;
                  descriptor = md;
                  http = bs;
                  streaming = md.streaming_client || md.streaming_server;
                } in
                let h2 = rw (add_method, found, bound, fits, added) at h in
                rw (← ok_inj _ later h2) (record {
                  entries = All-append IsSoundEntry acc.ops (e ∷ []) s.entries (
                    record {
                      policy = found;
                      exposed = validate_exposure_sound md op.exposure bs fits;
                      normal = bindings_of-IsNormal (rule_of sd md) bs bound;
                    },
                    tt,
                  );
                  routes = λ key. omega (
                    arith,
                    s.routes key,
                    add_routes_lem (full_method sd md) bs acc.routes routes key added,
                    total-append key acc.ops (e ∷ []),
                  );
                })
          ]
        ]
      ]
    ]

    add_methods-IsSound :
        (sd : ServiceDescriptor) (mds : List MethodDescriptor) (acc later : Collected)
        → IsSound acc
        → add_methods rule_of set sd mds acc ≡ ok later
        → IsSound later
    unfolding add_methods
    add_methods-IsSound sd [] acc later s h = rw (← ok_inj _ later h) s
    add_methods-IsSound sd (md ∷ mds) acc later s h =
        elim (Result-cases (add_method rule_of set sd md acc)) [
          | inr (e, bad) ↦ absurd (ground arith)
          | inl (next, added) ↦
              add_methods-IsSound sd mds next later (add_method-IsSound sd md acc next s added)
                (rw (add_methods, added) at h)
        ]

    add_services-IsSound :
        (seen : List String) (sds : List (Option ServiceDescriptor)) (acc later : Collected)
        → IsSound acc
        → add_services rule_of set seen sds acc ≡ ok later
        → IsSound later
    unfolding add_services
    add_services-IsSound seen [] acc later s h = rw (← ok_inj _ later h) s
    add_services-IsSound seen (none ∷ sds) acc later s h =
        add_services-IsSound seen sds acc later s h
    add_services-IsSound seen (some sd ∷ sds) acc later s h =
        elim (Bool-cases (contains seen sd.full_name)) [
          | inl dup ↦ add_services-IsSound seen sds acc later s (rw (add_services, dup) at h)
          | inr new ↦ elim (Result-cases (add_methods rule_of set sd sd.methods acc)) [
            | inr (e, bad) ↦ absurd (ground arith)
            | inl (next, added) ↦
                add_services-IsSound (sd.full_name ∷ seen) sds next later
                  (add_methods-IsSound sd sd.methods acc next s added)
                  (rw (add_services, new, added) at h)
          ]
        ]

    -- Every entry of the interface that is built from services has the operation of the policy set for its method,
    -- with routes in normal form that fit its exposure: a public or deprecated one has a route and no client stream,
    -- an internal one has none, a hidden one has none if it has a client stream, and no other exposure
    -- occurs. No verb and path are taken twice, by one method or by two.
    pub build_from_services-IsSoundEntry :
        (services : List (Option ServiceDescriptor)) (s : Surface w)
        → build_from_services rule_of set services ≡ ok s
        → All IsSoundEntry s.ops × ((key : String) → total key s.ops ≤ 1)
    unfolding build_from_services
    build_from_services-IsSoundEntry services s h =
        let start : Collected = record { ops = []; routes = [] } in
        elim (Result-cases (add_services rule_of set [] services start)) [
          | inr (e, bad) ↦ absurd (ground arith)
          | inl (acc, added) ↦
              let sound =
                add_services-IsSound [] services start acc
                  (record { entries = tt; routes = λ key. refl }) added in
              let h2 = rw (build_from_services, added) at h in
              rw (← ok_inj _ s h2) (
                All-sort_by entry_id IsSoundEntry acc.ops sound.entries,
                λ key.
                    rw (total-sort_by key acc.ops, ← sound.routes key) (taken-bound key acc.routes),
              )
        ]

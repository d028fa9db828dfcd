-- ===== src/Authz/Interceptor/Laws.antt =====
-- authz/interceptor.go: what was decided before the handler of a method runs, over any decider, and
-- that a refusal is an error.
use grpcapi.Base.{
  ◌≡◌, refl, inl, inr, Bool, true, false, Option, List, [], arith, Bool-cases, Option-cases, any,
  any-append, Result-cases, ok, err,
}
use grpcapi.Authz.Interceptor.{
  request_of, Interceptor, normalize, resolve, decide, decider_error, authorize, stream,
}
use grpcapi.Status.{World, Code, is_ok, code_or, internal, permission_denied, unauthenticated}
use grpcapi.Authz.Decide.{Decision}
use grpcapi.Authz.Calls.{Event, is_served, Context, AuthzRequest, InterceptorOptions, Run, after}
use grpcapi.Policy.Spec.{Operation}

module _ (w : World) where
  -- The event that calls the handler is among these.
  abbrev pub WasServed : List Event → Type 0
  WasServed events = any is_served events ≡ true

  -- The options are those that `NewInterceptor` has put its defaults into.
  pub record IsNormal (o : InterceptorOptions w) : Type 0 where
    pub missing_principal : is_ok o.missing_principal_code ≡ false
    pub denied : is_ok o.denied_code ≡ false
    pub missing_policy : is_ok o.missing_policy_code ≡ false

  pub code_or-is_ok : (c d : Code) → is_ok d ≡ false → is_ok (code_or c d) ≡ false
  code_or-is_ok Code.ok d h = h
  code_or-is_ok (Code.other n) d h = refl
  code_or-is_ok _ d h = refl

  pub normalize-IsNormal : (o : InterceptorOptions w) → IsNormal (normalize w o)
  unfolding normalize
  normalize-IsNormal o = record {
    missing_principal = code_or-is_ok o.missing_principal_code unauthenticated refl;
    denied = code_or-is_ok o.denied_code permission_denied refl;
    missing_policy = code_or-is_ok o.missing_policy_code internal refl;
  }

  -- The decider allowed this request for the operation, with the resource that was resolved.
  abbrev pub Allowed : Interceptor w → Context w → Operation → Option w.Request → Bool → Type 0
  Allowed i ctx op req stream =
      (resource : Option w.Resource) × (d : Decision) × (i.decider ctx.ambient (record {
        eval = record {
          operation = op;
          principal = ctx.principal;
          request = req;
          metadata = ctx.metadata;
          resource = resource;
        };
        stream = stream;
      })
        ≡ ok d)
      × (d.allow ≡ true)

  decide-allow :
      (i : Interceptor w) (ctx : Context w) (req : AuthzRequest w) (d : Decision)
      → (decide w i ctx req).1 ≡ ok d
      → d.allow ≡ true
      → i.decider ctx.ambient req ≡ ok d
  unfolding decide decider_error
  decide-allow i ctx req d h a = elim (Result-cases (i.decider ctx.ambient req)) [
    | inl (d', e) ↦ rw e (rw (e, decide) at h)
    | inr (f, e) ↦ elim (Option-cases (w.from_error f)) [
      | inl bare ↦ ground arith
      | inr (st, carried) ↦ elim (Bool-cases (is_ok st.code)) [
        | inl fine ↦ ground arith
        | inr bad ↦ ground arith
      ]
    ]
  ]

  decide-not_served :
      (i : Interceptor w) (ctx : Context w) (req : AuthzRequest w)
      → any is_served (decide w i ctx req).0 ≡ false
  unfolding decide decider_error
  decide-not_served i ctx req = elim (Result-cases (i.decider ctx.ambient req)) [
    | inl (d', e) ↦ ground arith
    | inr (f, e) ↦ elim (Option-cases (w.from_error f)) [
      | inl bare ↦ ground arith
      | inr (st, carried) ↦ ground arith
    ]
  ]

  pub after-served :
      {A B : Type 0} (r : Run w A) (k : A → Run w B)
      → any is_served r.0 ≡ false
      → WasServed (after w r k).0
      → (a : A) × (r.1 ≡ ok a) × WasServed (k a).0
  after-served (events, err e) k h s = ground arith
  after-served (events, ok a) k h s = (a, refl, ground (arith, any-append is_served events (k a).0))

  pub after-eq-ok :
      {A B : Type 0} (r : Run w A) (k : A → Run w B) {b : B}
      → (after w r k).1 ≡ ok b
      → (a : A) × (r.1 ≡ ok a) × ((k a).1 ≡ ok b)
  after-eq-ok (events, err e) k h = cc
  after-eq-ok (events, ok a) k h = (a, refl, h)

  pub after-not_served :
      {A B : Type 0} (r : Run w A) (k : A → Run w B)
      → any is_served r.0 ≡ false
      → ((a : A) → any is_served (k a).0 ≡ false)
      → any is_served (after w r k).0 ≡ false
  after-not_served (events, err e) k h s = h
  after-not_served (events, ok a) k h s = ground (arith, any-append is_served events (k a).0, s a)

  pub authorize-not_served :
      (i : Interceptor w) (ctx : Context w) (op : Operation) (req : Option w.Request)
      (stream : Bool)
      → any is_served (authorize w i ctx op req stream).0 ≡ false
  unfolding authorize
  authorize-not_served i ctx op req stream =
      after-not_served ([], resolve w i ctx (request_of w ctx op req stream)) (decide w i ctx) refl
        (decide-not_served i ctx)

  resolve-ok :
      (i : Interceptor w) (ctx : Context w) (req later : AuthzRequest w)
      → resolve w i ctx req ≡ ok later
      → (resource : Option w.Resource) × (later
          ≡ record { eval = record (req.eval) { resource = resource }; stream = req.stream })
  unfolding resolve
  resolve-ok i ctx req later h = elim (Option-cases i.opts.resource_resolver) [
    | inl none_set ↦
        let same : ok req ≡ ok later = rw (none_set, resolve) at h in (req.eval.resource, cc)
    | inr (resolver, set) ↦ elim (Result-cases (resolver ctx.ambient req)) [
      | inl (resource, e) ↦ (resource, ground arith)
      | inr (f, e) ↦ ground arith
    ]
  ]

  pub authorize-Allowed :
      (i : Interceptor w) (ctx : Context w) (op : Operation) (req : Option w.Request)
      (stream : Bool) (d : Decision)
      → (authorize w i ctx op req stream).1 ≡ ok d
      → d.allow ≡ true
      → Allowed i ctx op req stream
  unfolding authorize
  authorize-Allowed i ctx op req stream d h a =
      let start = request_of w ctx op req stream in
      let (later, e, now) = after-eq-ok ([], resolve w i ctx start) (decide w i ctx) h in
      let (resource, same) = resolve-ok i ctx start later e in
      (resource, d, rw same at (decide-allow i ctx later d now a), a)

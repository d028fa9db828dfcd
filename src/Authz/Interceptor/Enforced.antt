-- ===== src/Authz/Interceptor/Enforced.antt =====
-- authz/interceptor.go: when the handler of a method runs, over any decider, and what a call returns
-- when it does not.
use grpcapi.Base.{
  String, ◌≡◌, refl, ◌⊎◌, inl, inr, Bool, true, false, not, ◌&&◌, ◌||◌, Option, none, some, [], ◌∷◌,
  arith, Bool-cases, Option-cases, is_some, or_else, any, any-append, Result, ok, err,
}
use grpcapi.Authz.Calls.{
  status_of, mode_open, mode_per_message, mode_other, served, is_served, Context, Run,
  status_result, after,
}
use grpcapi.Status.{World, Status, is_ok}
use grpcapi.Policy.Spec.{Operation}
use grpcapi.Policy.Names.{default_framework_exempt}
use grpcapi.Policy.OperationSet.{get}
use grpcapi.Authz.Decide.{Decision}
use grpcapi.Authz.Interceptor.{
  Interceptor, authorize, deny_status, deny_code, enforce, missing_policy, unary, stream,
  stream_mode, recv_msg,
}
use grpcapi.Authz.Interceptor.Laws.{
  WasServed, IsNormal, Allowed, after-served, after-eq-ok, authorize-not_served, authorize-Allowed,
  code_or-is_ok,
}

module _ (w : World) where
  -- The method has no policy and is exempt as one of the framework's.
  abbrev pub IsExempt : Interceptor w → String → Type 0
  IsExempt i full_method =
      (get i.set full_method ≡ none)
      × (or_else i.opts.framework_exempt default_framework_exempt full_method ≡ true)

  -- The call ends with an error that is not nil.
  abbrev pub Fails : {A : Type 0} → Run w A → Type 0
  Fails r = (e : w.Failure) × (r.1 ≡ err e)

  status_result-Fails :
      {A : Type 0} (st : Status) (a : A)
      → is_ok st.code ≡ false
      → status_result w st a ≡ err (w.status_error st)
  status_result-Fails st a h = rw h refl

  deny_code-is_ok :
      (i : Interceptor w) (ctx : Context w) (op : Operation) (d : Decision)
      → IsNormal w i.opts
      → is_ok (deny_code w i ctx op d) ≡ false
  unfolding deny_code
  deny_code-is_ok i ctx op d n =
      elim (Bool-cases (not (is_some ctx.principal) && not op.policy.anonymous)) [
        | inl missing ↦ rw missing (code_or-is_ok w d.code _ n.missing_principal)
        | inr known ↦ rw known (code_or-is_ok w d.code _ n.denied)
      ]

  enforce-allow :
      {A : Type 0} (i : Interceptor w) (ctx : Context w) (op : Operation) (nothing : A)
      (next : Run w A) (d : Decision)
      → WasServed w (enforce w i ctx op nothing next d).0
      → d.allow ≡ true
  unfolding enforce
  enforce-allow i ctx op nothing next d s = ground arith

  enforce-served :
      {A : Type 0} (i : Interceptor w) (ctx : Context w) (op : Operation) (nothing : A)
      (next : Run w A) (d : Decision)
      → WasServed w next.0
      → d.allow ≡ true
      → any is_served (enforce w i ctx op nothing next d).0 ≡ true
  unfolding enforce
  enforce-served i ctx op nothing next d s h = rw h s

  enforce-Fails :
      {A : Type 0} (i : Interceptor w) (ctx : Context w) (op : Operation) (nothing : A)
      (next : Run w A) (d : Decision)
      → IsNormal w i.opts
      → d.allow ≡ false
      → Fails (enforce w i ctx op nothing next d)
  unfolding enforce deny_status
  enforce-Fails i ctx op nothing next d n h = (
    w.status_error (deny_status w i ctx op d),
    rw h (status_result-Fails (deny_status w i ctx op d) nothing (deny_code-is_ok i ctx op d n)),
  )

  -- A run that goes on after another fails, or goes on from a value.
  after-cases :
      {A B : Type 0} (r : Run w A) (k : A → Run w B)
      → Fails (after w r k)
        ⊎ ((a : A) × ((after w r k).1 ≡ (k a).1)
            × (any is_served (after w r k).0 ≡ (any is_served r.0 || any is_served (k a).0)))
  after-cases (events, err e) k = inl (e, refl)
  after-cases (events, ok a) k = inr (a, refl, any-append is_served events (k a).0)

  missing_policy-served :
      {A : Type 0} (i : Interceptor w) (full_method : String) (nothing : A) (next : Run w A)
      → WasServed w (missing_policy w i full_method nothing next).0
      → or_else i.opts.framework_exempt default_framework_exempt full_method ≡ true
  unfolding missing_policy
  missing_policy-served i full_method nothing next s = ground arith

  missing_policy-Fails :
      {A : Type 0} (i : Interceptor w) (full_method : String) (nothing : A) (next : Run w A)
      → IsNormal w i.opts
      → WasServed w next.0
      → any is_served (missing_policy w i full_method nothing next).0 ≡ false
      → Fails (missing_policy w i full_method nothing next)
  unfolding missing_policy
  missing_policy-Fails i full_method nothing next n s h =
      elim (Bool-cases (or_else i.opts.framework_exempt default_framework_exempt full_method)) [
        | inl exempt ↦ ground arith
        | inr known ↦ (
          w.status_error
              (status_of i.opts.missing_policy_code "no authorization policy for method"),
          rw known (
              status_result-Fails
                (status_of i.opts.missing_policy_code "no authorization policy for method") nothing
                n.missing_policy),
        )
      ]

  -- The handler behind an authorization runs only when the decider allowed the request.
  guarded-Allowed :
      {A : Type 0} (i : Interceptor w) (ctx : Context w) (op : Operation) (req : Option w.Request)
      (is_stream : Bool) (nothing : A) (next : Run w A)
      → WasServed w
          (after w (authorize w i ctx op req is_stream) (enforce w i ctx op nothing next)).0
      → Allowed w i ctx op req is_stream
  guarded-Allowed i ctx op req is_stream nothing next s =
      let (d, e, after_d) =
        after-served w (authorize w i ctx op req is_stream) (enforce w i ctx op nothing next)
          (authorize-not_served w i ctx op req is_stream) s in
      authorize-Allowed w i ctx op req is_stream d e (enforce-allow i ctx op nothing next d after_d)

  guarded-Fails :
      {A : Type 0} (i : Interceptor w) (ctx : Context w) (op : Operation) (req : Option w.Request)
      (is_stream : Bool) (nothing : A) (next : Run w A)
      → IsNormal w i.opts
      → WasServed w next.0
      → any is_served
          (after w (authorize w i ctx op req is_stream) (enforce w i ctx op nothing next)).0
        ≡ false
      → Fails (after w (authorize w i ctx op req is_stream) (enforce w i ctx op nothing next))
  guarded-Fails i ctx op req is_stream nothing next n s h =
      elim (after-cases (authorize w i ctx op req is_stream) (enforce w i ctx op nothing next)) [
        | inl fails ↦ fails
        | inr (d, same, events) ↦
            let idle = authorize-not_served w i ctx op req is_stream in
            elim (Bool-cases d.allow) [
              | inl allow ↦
                  let runs = enforce-served i ctx op nothing next d s allow in ground arith
              | inr refuse ↦ rw same (enforce-Fails i ctx op nothing next d n refuse)
            ]
      ]

  -- The handler of a unary method runs only when the method has no policy and is exempt as the
  -- framework's, or when the decider allowed this request for the operation of that method.
  pub unary-Allowed :
      {Reply : Type 0} (i : Interceptor w) (ctx : Context w) (req : w.Request)
      (full_method : String) (handler : Context w → w.Request → Result w.Failure (Option Reply))
      → WasServed w (unary w i ctx req full_method handler).0
      → IsExempt i full_method
        ⊎ ((op : Operation) × (get i.set full_method ≡ some op)
            × Allowed w i ctx op (some req) false)
  unfolding unary missing_policy
  unary-Allowed i ctx req full_method handler s = elim (Option-cases (get i.set full_method)) [
    | inl missing ↦
        inl (missing, missing_policy-served i full_method none _ (rw (missing, unary) at s))
    | inr (op, found) ↦
        inr (op, found, guarded-Allowed i ctx op (some req) false none _ (rw (found, unary) at s))
  ]

  -- A unary call that does not run the handler ends with an error: it never returns a nil reply
  -- with a nil error, whatever codes the options and the decider give.
  pub unary-Fails :
      {Reply : Type 0} (i : Interceptor w) (ctx : Context w) (req : w.Request)
      (full_method : String) (handler : Context w → w.Request → Result w.Failure (Option Reply))
      → IsNormal w i.opts
      → any is_served (unary w i ctx req full_method handler).0 ≡ false
      → Fails (unary w i ctx req full_method handler)
  unfolding unary
  unary-Fails i ctx req full_method handler n s = elim (Option-cases (get i.set full_method)) [
    | inl missing ↦
        rw (missing, unary)
          (missing_policy-Fails i full_method none _ n refl (rw (missing, unary) at s))
    | inr (op, found) ↦
        rw (found, unary)
          (guarded-Fails i ctx op (some req) false none _ n refl (rw (found, unary) at s))
  ]

  -- The handler of a stream runs only when the method has no policy and is exempt as the
  -- framework's, or is given the stream that authorizes each message for the operation of that
  -- method, or when the decider allowed the opening of the stream for that operation.
  pub stream-Allowed :
      (i : Interceptor w) (ctx : Context w) (full_method : String)
      (handler : Option Operation → Result w.Failure (Unit {0}))
      → WasServed w (stream w i ctx full_method handler).0
      → IsExempt i full_method
        ⊎ ((op : Operation) × (get i.set full_method ≡ some op)
            × ((stream w i ctx full_method handler ≡ (served (some op) ∷ [], handler (some op)))
                ⊎ Allowed w i ctx op none true))
  unfolding stream
  stream-Allowed i ctx full_method handler s = elim (Option-cases (get i.set full_method)) [
    | inl missing ↦
        inl (missing, missing_policy-served i full_method tt _ (rw (missing, stream) at s))
    | inr (op, found) ↦ inr (
      op,
      found,
      elim (Option-cases (stream_mode op i.opts.stream_mode)) [
        | inl invalid ↦ ground arith
        | inr (mode_per_message, e) ↦ inl (rw (found, e, stream) refl)
        | inr (mode_open, e) ↦
            inr (guarded-Allowed i ctx op none true tt _ (rw (found, e, stream) at s))
        | inr (mode_other, e) ↦
            inr (guarded-Allowed i ctx op none true tt _ (rw (found, e, stream) at s))
      ],
    )
  ]

  -- A message reaches the handler of a stream that authorizes each message only when it was
  -- received and the decider allowed it.
  pub recv_msg-Allowed :
      (i : Interceptor w) (ctx : Context w) (op : Operation) (received : Result w.Failure w.Request)
      (m : w.Request)
      → IsNormal w i.opts
      → (recv_msg w i ctx op received).1 ≡ ok m
      → (received ≡ ok m) × Allowed w i ctx op (some m) true
  unfolding recv_msg
  recv_msg-Allowed i ctx op (err e) m n h = cc
  recv_msg-Allowed i ctx op (ok m') m n h =
      let next : Run w w.Request = ([], ok m') in
      let (d, e, later) =
        after-eq-ok w (authorize w i ctx op (some m') true) (enforce w i ctx op m' next) h in
      elim (Bool-cases d.allow) [
        | inl allow ↦
            let same : ok m' ≡ ok m = rw (allow, enforce) at later in
            let eq : m' ≡ m = cc in
            (same, rw eq at (authorize-Allowed w i ctx op (some m') true d e allow))
        | inr refuse ↦ let (f, bad) = enforce-Fails i ctx op m' next d n refuse in cc
      ]

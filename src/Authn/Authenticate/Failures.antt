-- ===== src/Authn/Authenticate/Failures.antt =====
-- authn/interceptor.go: what a refused request is told and what OnFailure is told of it.
use grpcapi.Base.{
  ◌≡◌, refl, inl, inr, Bool, false, Option, none, some, List, [], ◌∷◌, arith, if◌then◌else◌,
  Bool-cases, Option-cases, Result, err_inj, Result-cases, ok, err,
}
use grpcapi.Authn.Authenticate.{
  Interceptor, Options, enrich, fail, finish, normalize_auth_error, authenticate, ignore_invalid,
}
use grpcapi.Status.{World, Status, is_ok, unauthenticated}
use grpcapi.Principal.{Principal}
use grpcapi.Authz.Calls.{status_of}
use grpcapi.Authn.Credentials.{Credentials}
use grpcapi.Authn.Authenticate.Laws.{authenticate-cases}

module _ (w : World) where
  -- An error that is not nil, with a status that says so.
  abbrev pub IsFailure : w.Failure → Type 0
  IsFailure e = (st : Status) × (w.from_error e ≡ some st) × (is_ok st.code ≡ false)

  status_error-IsFailure : (st : Status) → is_ok st.code ≡ false → IsFailure (w.status_error st)
  status_error-IsFailure st h =
      (st, w.from_error-status_error st (λ same. let bad = rw same at h in cc), h)

  normalize_auth_error-IsFailure :
      {A : Type 0} (e : w.Failure) (a : A) (f : w.Failure)
      → normalize_auth_error w e a ≡ err f
      → IsFailure f
  unfolding normalize_auth_error
  normalize_auth_error-IsFailure e a f h = elim (Option-cases (w.from_error e)) [
    | inl bare ↦
        rw (← err_inj _ f (rw (bare, normalize_auth_error) at h))
          (status_error-IsFailure (status_of unauthenticated "invalid credentials") refl)
    | inr (st, same) ↦ elim (Bool-cases (is_ok st.code)) [
      | inl fine ↦ absurd (ground arith)
      | inr bad ↦
          rw (← err_inj _ f (rw (same, normalize_auth_error, bad) at h))
            (status_error-IsFailure st bad)
    ]
  ]

  -- The one error that OnFailure is told when it is set.
  abbrev IsReported : Options w → List w.Failure → Type 0
  IsReported o reported = (e : w.Failure) × (reported ≡ fail w o e)

  finish-err :
      (o : Options w) (ctx : w.Ambient) (anonymous : Bool) (creds : Credentials)
      (r : Result w.Failure (Option (Principal w))) (f : w.Failure)
      → (finish w o ctx anonymous creds r).1 ≡ err f
      → IsFailure f × IsReported o (finish w o ctx anonymous creds r).0
  unfolding finish
  finish-err o ctx anonymous creds (err e) f h =
      elim (Bool-cases (ignore_invalid w o creds anonymous e)) [
        | inl g ↦ absurd (ground arith)
        | inr g ↦ (normalize_auth_error-IsFailure e none f (rw g at h), (e, rw g refl))
      ]
  finish-err o ctx anonymous creds (ok none) f h = (
    rw (← err_inj _ f h)
        (status_error-IsFailure (status_of unauthenticated "unrecognized credentials") refl),
    (_, refl),
  )
  finish-err o ctx anonymous creds (ok (some q)) f h =
      elim (Result-cases (enrich w o.enrichers ctx q)) [
        | inl (p, same) ↦ absurd (ground arith)
        | inr (e, same) ↦ (
          normalize_auth_error-IsFailure e none f (rw (same, finish) at h),
          (e, rw (same, finish) refl),
        )
      ]

  -- A request that `authenticate` refuses is told an error whose status is not OK, so that no error is lost
  -- on its way to the client, and OnFailure is called exactly once, if it is set.
  pub authenticate-IsFailure :
      (i : Interceptor w) (ctx : w.Ambient) (anonymous : Bool) (creds : Credentials) (f : w.Failure)
      → (authenticate w i ctx anonymous creds).1 ≡ err f
      → IsFailure f
        × ((e : w.Failure) × ((authenticate w i ctx anonymous creds).0
              ≡ (if i.opts.on_failure then e ∷ [] else [])))
  unfolding fail
  authenticate-IsFailure i ctx anonymous creds f h =
      elim (authenticate-cases w ctx creds i anonymous) [
        | inl (e, same) ↦ absurd (cc)
        | inr (inl (m, same)) ↦ (
          rw (← err_inj _ f (rw same at h))
              (status_error-IsFailure (status_of unauthenticated m) refl),
          (w.status_error (status_of unauthenticated m), rw same refl),
        )
        | inr (inr (single, same)) ↦
            rw same (finish-err i.opts ctx anonymous creds _ f (rw same at h))
      ]

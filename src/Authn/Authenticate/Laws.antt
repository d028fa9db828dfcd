-- ===== src/Authn/Authenticate/Laws.antt =====
-- authn/interceptor.go: where the principal of a request comes from, and when a request goes on without one.
use grpcapi.Base.{
  String, ◌≡◌, refl, ◌⊎◌, inl, inr, Bool, true, false, ◌&&◌, Option, none, some, List, [], ◌∷◌,
  arith, ltb, Bool-cases, Option-cases, all, Result, Result-cases, ok, err,
}
use grpcapi.Authn.Credentials.Laws.{auth_kinds_lem}
use grpcapi.Authn.Authenticate.{
  rejects_multiple, reject_multiple, ignores_invalid, Authenticator, Options, Interceptor,
  run_chain, enrich, kind_policy, code_of, ignore_invalid, normalize_auth_error, refused,
  has_duplicates, finish, authenticate,
}
use grpcapi.Status.{World, Status, is_ok, unauthenticated}
use grpcapi.Principal.{Principal}
use grpcapi.Authn.Credentials.{Credentials, empty, presented_kinds, auth_kinds}

module _ (w : World) (ctx : w.Ambient) (creds : Credentials) where
  -- The answer of a chain: that of its first authenticator that does not pass the credentials on.
  pub data Answers
      : List (Option (Authenticator w)) → Result w.Failure (Option (Principal w)) → Type 0 where
    unanswered : Answers [] (ok none)
    skipped :
        (rest : List (Option (Authenticator w))) (r : Result w.Failure (Option (Principal w)))
        → Answers rest r
        → Answers (none ∷ rest) r
    passed :
        (a : Authenticator w) (rest : List (Option (Authenticator w)))
        (r : Result w.Failure (Option (Principal w)))
        → a ctx creds ≡ ok none
        → Answers rest r
        → Answers (some a ∷ rest) r
    failed :
        (a : Authenticator w) (rest : List (Option (Authenticator w))) (e : w.Failure)
        → a ctx creds ≡ err e
        → Answers (some a ∷ rest) (err e)
    accepted :
        (a : Authenticator w) (rest : List (Option (Authenticator w))) (p : Principal w)
        → a ctx creds ≡ ok (some p)
        → Answers (some a ∷ rest) (ok (some p))

  pub run_chain-Answers :
      (chain : List (Option (Authenticator w))) → Answers chain (run_chain w chain ctx creds)
  unfolding run_chain
  run_chain-Answers [] = unanswered
  run_chain-Answers (none ∷ rest) = skipped rest _ (run_chain-Answers rest)
  run_chain-Answers (some a ∷ rest) = elim (Result-cases (a ctx creds)) [
    | inr (e, same) ↦ rw same (failed a rest e same)
    | inl (some p, same) ↦ rw same (accepted a rest p same)
    | inl (none, same) ↦ rw same (passed a rest _ same (run_chain-Answers rest))
  ]

  Answers-run_chain :
      {chain : List (Option (Authenticator w))} {r : Result w.Failure (Option (Principal w))}
      → Answers chain r
      → run_chain w chain ctx creds ≡ r
  unfolding run_chain
  Answers-run_chain unanswered = refl
  Answers-run_chain (skipped rest r x) = Answers-run_chain x
  Answers-run_chain (passed a rest r same x) = rw same (Answers-run_chain x)
  Answers-run_chain (failed a rest e same) = rw same refl
  Answers-run_chain (accepted a rest p same) = rw same refl

  -- An invalid credential counts as none.
  pub record IsIgnored (o : Options w) (anonymous : Bool) (e : w.Failure) : Type 0 where
    pub is_public : anonymous ≡ true
    pub code : code_of w e ≡ unauthenticated
    pub kinds : all (λ kind. ignores_invalid (kind_policy w o kind)) (presented_kinds creds) ≡ true

  ignore_invalid_sound :
      (o : Options w) (anonymous : Bool) (e : w.Failure)
      → ignore_invalid w o creds anonymous e ≡ true
      → IsIgnored o anonymous e
  unfolding ignore_invalid
  ignore_invalid_sound o anonymous e h = ground arith

  abbrev pub IsSingle : Interceptor w → Type 0
  IsSingle i =
      (empty creds ≡ false)
      × (has_duplicates creds ≡ false)
      × (i.opts.multiple_credential_policy ≡ reject_multiple → auth_kinds creds ≡ 1)

  finish_sound :
      (o : Options w) (anonymous : Bool) (r : Result w.Failure (Option (Principal w)))
      (p : Principal w)
      → (finish w o ctx anonymous creds r).1 ≡ ok (some p)
      → (q : Principal w) × (r ≡ ok (some q)) × (enrich w o.enrichers ctx q ≡ ok p)
  unfolding finish normalize_auth_error
  finish_sound o anonymous (err e) p h = absurd (ground arith)
  finish_sound o anonymous (ok none) p h = absurd (ground arith)
  finish_sound o anonymous (ok (some q)) p h = elim (Result-cases (enrich w o.enrichers ctx q)) [
    | inl (r, same) ↦ (q, refl, ground arith)
    | inr (e, same) ↦ absurd (ground arith)
  ]

  -- The credentials that `authenticate` gives to the chain.
  IsSingle-not_many :
      (i : Interceptor w)
      → empty creds ≡ false
      → rejects_multiple i.opts.multiple_credential_policy && ltb 1 (auth_kinds creds) ≡ false
      → i.opts.multiple_credential_policy ≡ reject_multiple
      → auth_kinds creds ≡ 1
  IsSingle-not_many i h k same = ground (arith, auth_kinds_lem creds)

  pub authenticate-cases :
      (i : Interceptor w) (anonymous : Bool)
      → ((empty creds ≡ true) × (authenticate w i ctx anonymous creds ≡ ([], ok none)))
        ⊎ (((message : String) × (authenticate w i ctx anonymous creds ≡ refused w i.opts message))
            ⊎ (IsSingle i
                × (authenticate w i ctx anonymous creds
                    ≡ finish w i.opts ctx anonymous creds (run_chain w i.chain ctx creds))))
  unfolding authenticate
  authenticate-cases i anonymous = elim (Bool-cases (empty creds)) [
    | inl e ↦ inl (e, rw e refl)
    | inr e ↦ inr (elim (Bool-cases (has_duplicates creds)) [
      | inl d ↦ inl ("multiple credentials of the same type are not allowed", rw (e, d) refl)
      | inr d ↦
          elim (Bool-cases
            (rejects_multiple i.opts.multiple_credential_policy && ltb 1 (auth_kinds creds))) [
              | inl m ↦ inl ("multiple credential types are not allowed", rw (e, d, m) refl)
              | inr m ↦ inr ((e, d, IsSingle-not_many i e m), rw (e, d, m) refl)
            ]
    ])
  ]

  pub authenticate_sound :
      (i : Interceptor w) (anonymous : Bool) (p : Principal w)
      → (authenticate w i ctx anonymous creds).1 ≡ ok (some p)
      → IsSingle i
        × (q : Principal w) × Answers i.chain (ok (some q))
        × (enrich w i.opts.enrichers ctx q ≡ ok p)
  authenticate_sound i anonymous p h = elim (authenticate-cases i anonymous) [
    | inl (e, same) ↦ absurd (cc)
    | inr (inl (m, same)) ↦ absurd (cc)
    | inr (inr (single, same)) ↦
        let (q, answer, enriched) = finish_sound i.opts anonymous _ p (rw same at h) in
        (single, q, rw (← answer) (run_chain-Answers i.chain), enriched)
  ]

  -- The check of these credentials failed with this error: the chain answered with it, or an enricher did for
  -- the principal that the chain answered with.
  abbrev pub IsFailedCheck : Interceptor w → w.Failure → Type 0
  IsFailedCheck i e =
      Answers i.chain (err e)
      ⊎ ((q : Principal w) × Answers i.chain (ok (some q))
          × (enrich w i.opts.enrichers ctx q ≡ err e))

  -- What lets a request with credentials go on without a principal: they are invalid and ignored, or their
  -- check failed with an error whose status is OK.
  pub data IsUnidentified (i : Interceptor w) (anonymous : Bool) : Type 0 where
    unpresented : empty creds ≡ true → IsUnidentified i anonymous
    ignored :
        (e : w.Failure)
        → Answers i.chain (err e)
        → IsIgnored i.opts anonymous e
        → IsUnidentified i anonymous
    misreported :
        (e : w.Failure) (st : Status)
        → IsFailedCheck i e
        → w.from_error e ≡ some st
        → is_ok st.code ≡ true
        → IsUnidentified i anonymous

  normalize_auth_error-none :
      {A : Type 0} (e : w.Failure) (a b : A)
      → normalize_auth_error w e a ≡ ok b
      → (st : Status) × (w.from_error e ≡ some st) × (is_ok st.code ≡ true)
  unfolding normalize_auth_error
  normalize_auth_error-none e a b h = elim (Option-cases (w.from_error e)) [
    | inl bare ↦ absurd (ground arith)
    | inr (st, same) ↦ (st, same, ground arith)
  ]

  finish-none :
      (i : Interceptor w) (anonymous : Bool) (r : Result w.Failure (Option (Principal w)))
      → Answers i.chain r
      → (finish w i.opts ctx anonymous creds r).1 ≡ ok none
      → IsUnidentified i anonymous
  unfolding finish
  finish-none i anonymous (err e) x h =
      elim (Bool-cases (ignore_invalid w i.opts creds anonymous e)) [
        | inl g ↦ ignored e x (ignore_invalid_sound i.opts anonymous e g)
        | inr g ↦
            let (st, same, fine) = normalize_auth_error-none e none none (rw g at h) in
            misreported e st (inl x) same fine
      ]
  finish-none i anonymous (ok none) x h = absurd (cc)
  finish-none i anonymous (ok (some q)) x h =
      elim (Result-cases (enrich w i.opts.enrichers ctx q)) [
        | inl (p, same) ↦ absurd (ground arith)
        | inr (e, same) ↦
            let (st, reads, fine) =
              normalize_auth_error-none e none none (rw (same, finish) at h) in
            misreported e st (inr (q, x, same)) reads fine
      ]

  pub authenticate-IsUnidentified :
      (i : Interceptor w) (anonymous : Bool)
      → (authenticate w i ctx anonymous creds).1 ≡ ok none
      → IsUnidentified i anonymous
  authenticate-IsUnidentified i anonymous h = elim (authenticate-cases i anonymous) [
    | inl (e, same) ↦ unpresented e
    | inr (inl (m, same)) ↦ absurd (cc)
    | inr (inr (single, same)) ↦
        finish-none i anonymous _ (run_chain-Answers i.chain) (rw same at h)
  ]

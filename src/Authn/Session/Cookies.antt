-- ===== src/Authn/Session/Cookies.antt =====
-- authn/session/session.go: the sessions that a cookie stands for.
use grpcapi.Base.{
  ℕ, ◌+◌, ◌<◌, String, ◌≡◌, refl, sym, ap, inl, inr, false, Option, none, some, arith, ◌==◌, eq_iff,
  ltb, ltb-eq-true, Bool-cases, Option-cases, Result, ok_inj, cut, ok, err,
}
use grpcapi.Status.{World}
use grpcapi.Principal.{Principal}
use grpcapi.Authn.Credentials.{Credentials}
use grpcapi.Authn.Session.{
  Session, SetCookie, Authenticator, or_default, cookie_of, cookie_for, sign, verify, session_of,
  principal_of, issue, admit, authenticate,
}
use grpcapi.Authn.Session.Laws.{IsSignable, verify_sound, verify-sign}

sign-full : (mac : String → String) (id : String) → IsSignable mac id → (sign mac id == "") ≡ false
unfolding verify cut
sign-full mac id s = elim (Bool-cases (sign mac id == "")) [
  | inr full ↦ full
  | inl bare ↦
      let bad : none ≡ some id = rw ((eq_iff (sign mac id) "").0 bare) at (verify-sign mac id s) in
      cc
]

module _ {w : World} {State : Type 0} where
  -- The principal is that of a session which the store has under the ID that the cookie signs, before the
  -- session's expiry.
  abbrev pub StandsFor : Authenticator w State → ℕ → State → Credentials → Principal w → Type 0
  StandsFor a now st c p =
      (s : Session) × (id : String) × (cookie_of a.cookies_in a.cfg.cookie_name c.cookies
        ≡ sign a.mac id)
      × (a.store.get st id ≡ ok (some s))
      × (now < s.expires_at)
      × (p ≡ principal_of s)

  admit_sound :
      (a : Authenticator w State) (now : ℕ) (st : State) (id : String)
      (r : Result w.Failure (Option Session)) (p : Principal w)
      → (admit a now st id r).1 ≡ ok (some p)
      → (s : Session) × (r ≡ ok (some s)) × (now < s.expires_at) × (p ≡ principal_of s)
  unfolding admit
  admit_sound a now st id (err e) p h = absurd (cc)
  admit_sound a now st id (ok none) p h = absurd (cc)
  admit_sound a now st id (ok (some s)) p h = elim (Bool-cases (ltb now s.expires_at)) [
    | inl live ↦ (s, refl, ground arith, (let h2 = rw (admit, live) at h in ground arith))
    | inr dead ↦ absurd (ground arith)
  ]

  -- A session cookie gives a principal only when it carries the HMAC of its session ID and the store has that
  -- session, which is not expired; the principal is the one of the session.
  pub authenticate-StandsFor :
      (a : Authenticator w State) (now : ℕ) (st : State) (c : Credentials) (p : Principal w)
      → (authenticate a now st c).1 ≡ ok (some p)
      → StandsFor a now st c p
  unfolding authenticate
  authenticate-StandsFor a now st c p h =
      let raw = cookie_of a.cookies_in a.cfg.cookie_name c.cookies in
      elim (Bool-cases (raw == "")) [
        | inl missing ↦ absurd (ground arith)
        | inr present ↦ elim (Option-cases (verify a.mac raw)) [
          | inl forged ↦ absurd (ground arith)
          | inr (id, signed) ↦
              let (s, found, live, same) =
                admit_sound a now st id (a.store.get st id) p
                  (rw (authenticate, present, signed) at h) in
              (s, id, (verify_sound a.mac raw id signed).0, found, live, same)
        ]
      ]

  -- What `Issue` has done when it sets a cookie.
  issue-ok :
      (a : Authenticator w State) (now : ℕ) (st later : State) (id : String) (p : Principal w)
      (cookie : SetCookie)
      → issue a now (ok id) st (some p) ≡ (later, ok cookie)
      → let s = session_of a.cfg now id p in
        ((a.store.create st s).1 ≡ none)
        × ((a.store.create st s).0 ≡ later)
        × (cookie ≡ cookie_for a s)
  unfolding issue
  issue-ok a now st later id p cookie h =
      let s = session_of a.cfg now id p in
      elim (Option-cases (a.store.create st s).1) [
        | inr (e, failed) ↦ absurd (ground arith)
        | inl created ↦
            let told = rw (issue, created) at h in
            (created, ap (λ r. r.0) told, sym (ok_inj _ cookie (ap (λ r. r.1) told)))
      ]

  -- A round trip: the cookie that `Issue` sets for a principal, presented before it expires, is
  -- authenticated as that principal, its kind "user" if it had none and its raw value dropped. The session's
  -- ID and its signature are those of a signable ID and the store finds the session that it has created.
  pub authenticate-issue :
      (a : Authenticator w State) (now t : ℕ) (st later : State) (id : String) (p : Principal w)
      (cookie : SetCookie) (c : Credentials)
      → ((y : State) (x : Session)
          → (a.store.create y x).1 ≡ none
          → a.store.get (a.store.create y x).0 x.id ≡ ok (some x))
      → IsSignable a.mac id
      → issue a now (ok id) st (some p) ≡ (later, ok cookie)
      → cookie_of a.cookies_in cookie.name c.cookies ≡ cookie.value
      → t < now + a.cfg.ttl
      → (authenticate a t later c).1
        ≡ ok (some (record p { kind = or_default p.kind "user"; raw = none }))
  unfolding authenticate admit
  authenticate-issue a now t st later id p cookie c finds signable h presented live =
      let s = session_of a.cfg now id p in
      let (created, same_st, same_cookie) = issue-ok a now st later id p cookie h in
      let raw : cookie_of a.cookies_in a.cfg.cookie_name c.cookies ≡ sign a.mac id =
        rw same_cookie at presented in
      let found : a.store.get later id ≡ ok (some s) = rw same_st at (finds st s created) in
      rw
        (
          raw,
          sign-full a.mac id signable,
          verify-sign a.mac id signable,
          found,
          ltb-eq-true t (now + a.cfg.ttl) live,
        )
        refl

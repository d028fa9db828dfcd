-- ===== src/Cors/Laws.antt =====
-- cors/cors.go: which origins a response is shared with.
use grpcapi.Base.{
  ℕ, String, ◌≡◌, refl, ◌≢◌, ◌↔◌, ◌⊎◌, inl, inr, Bool, true, false, ◌&&◌, arith, ◌==◌, eq_iff,
  if◌then◌else◌, Bool-cases, is_empty, all, Any, any-Any, Any-any, Any-is_empty, to_lower, to_upper,
  trim_right, ok,
}
use grpcapi.Cors.{
  set_common_headers, Config, Middleware, Answer, pass, reject, no_content, wildcard,
  new_middleware, origin_allowed, is_preflight, contains_fold, requested_headers, preflight_headers,
  handle_preflight, handle,
}
use grpcapi.Http
use grpcapi.Http.{Header, HttpRequest}
use grpcapi.Cors.Headers.{
  IsExclusive, new_middleware-IsExclusive, share, credit, share-set_common_headers,
  share-preflight_headers, credit-set_common_headers, credit-preflight_headers,
}

abbrev pub origin_of : HttpRequest → String
origin_of r = Http.get "Origin" r.header

-- An origin that the list names, or any if it has the wildcard; letter case and a slash at the end do not count.
abbrev pub IsListed : Middleware → String → Type 0
IsListed m origin = Any (λ o. (o ≡ "*") ⊎ (o ≡ to_lower (trim_right b'/' origin))) m.allowed_origins

origin_allowed_sound :
    (m : Middleware) (origin : String) → (origin_allowed m origin ≡ true) ↔ IsListed m origin
unfolding origin_allowed
origin_allowed_sound m origin = elim (Bool-cases (is_empty m.allowed_origins)) [
  | inl nothing ↦
      ((λ h. absurd (ground arith)), (λ h. absurd (Any-is_empty _ m.allowed_origins nothing h)))
  | inr some_origins ↦ (
    (λ h.
        any-Any _
          (λ o e. elim (Bool-cases (o == "*")) [
            | inl star ↦ inl ((eq_iff o "*").0 star)
            | inr other ↦ inr ((eq_iff o _).0 (ground (arith, e, other)))
          ])
          m.allowed_origins (rw some_origins at h)),
    (λ h. rw some_origins (
        Any-any _
          (λ o e. elim e [
            | inl star ↦ let hit = (eq_iff o "*").1 star in ground (arith, hit)
            | inr same ↦
                let hit = (eq_iff o (to_lower (trim_right b'/' origin))).1 same in
                ground (arith, hit)
          ])
          m.allowed_origins h)),
  )
]

-- The response is shared with the origin of the request, which is there and on the list: with any origin when
-- the list has the wildcard, and else with this one only. The header for credentials is set if they are
-- allowed, which never goes with the wildcard, and else is as before.
abbrev pub IsShared : Middleware → HttpRequest → Header → Header → Type 0
IsShared m r before after =
    (origin_of r ≢ "")
    × IsListed m (origin_of r)
    × (Http.get "Access-Control-Allow-Origin" after ≡ (if wildcard m then "*" else origin_of r))
    × (Http.get "Access-Control-Allow-Credentials" after ≡ (
        if m.allow_credentials then "true" else Http.get "Access-Control-Allow-Credentials" before))
    × (wildcard m ≡ true → m.allow_credentials ≡ false)

-- The method and every header that a preflight request names are allowed.
abbrev pub names_allowed : Middleware → HttpRequest → Bool
names_allowed m r =
    contains_fold m.allowed_methods (to_upper (Http.get "Access-Control-Request-Method" r.header))
    && all (contains_fold m.allowed_headers) (requested_headers r)

-- What an answer tells of the request.
abbrev pub Explains : Middleware → HttpRequest → Header → Answer → Type 0
Explains m r h (pass after) =
    ((after ≡ h) × ((origin_of r ≡ "") ⊎ ((is_preflight r ≡ false) × ¬ IsListed m (origin_of r))))
    ⊎ ((is_preflight r ≡ false) × IsShared m r h after)
Explains m r h (reject message) =
    (origin_of r ≢ "")
    × (is_preflight r ≡ true)
    × ((¬ IsListed m (origin_of r)) ⊎ (names_allowed m r ≡ false))
Explains m r h (no_content after) =
    (is_preflight r ≡ true) × IsShared m r h after × (names_allowed m r ≡ true)

-- The common end of the two answers that share a response.
shared :
    (m : Middleware) (r : HttpRequest) (h after : Header)
    → IsExclusive m
    → origin_of r ≢ ""
    → origin_allowed m (origin_of r) ≡ true
    → Http.get share after ≡ (if wildcard m then "*" else origin_of r)
    → Http.get credit after ≡ (if m.allow_credentials then "true" else Http.get credit h)
    → IsShared m r h after
shared m r h after exclusive named allowed e f =
    (named, (origin_allowed_sound m (origin_of r)).0 allowed, e, f, λ any_one. ground arith)

handle_preflight-Explains :
    (decimal : ℕ → String) (m : Middleware) (r : HttpRequest) (h : Header)
    → IsExclusive m
    → is_preflight r ≡ true
    → origin_of r ≢ ""
    → origin_allowed m (origin_of r) ≡ true
    → Explains m r h (handle_preflight decimal m r (origin_of r) h)
unfolding handle_preflight
handle_preflight-Explains decimal m r h exclusive pre there allowed =
    elim (Bool-cases (
      contains_fold m.allowed_methods
        (to_upper (Http.get "Access-Control-Request-Method" r.header)))) [
          | inr bad ↦ rw (handle_preflight, bad) (there, pre, inr (ground (arith, bad)))
          | inl known ↦
              elim (Bool-cases (all (contains_fold m.allowed_headers) (requested_headers r))) [
                | inr bad ↦
                    rw (handle_preflight, known, bad) (there, pre, inr (ground (arith, bad)))
                | inl named ↦
                    rw (handle_preflight, known, named)
                      (
                        pre,
                        shared m r h (preflight_headers decimal m (origin_of r) h) exclusive there
                            allowed (share-preflight_headers decimal m (origin_of r) h exclusive)
                            (credit-preflight_headers decimal m (origin_of r) h),
                        ground (arith, known, named),
                      )
              ]
        ]

-- What a middleware that `New` has made answers. It lets a request go on with the response as it is if the
-- request has no origin, or one that is not on the list and is no preflight. It shares the response only with an
-- origin on the list: with the wildcard if the list has it, which never goes with credentials, and else with that
-- origin alone. It answers itself only a preflight request: with approval when the origin is on the list and the
-- method and every header that it names are allowed, and else with a refusal.
pub handle-Explains :
    (decimal : ℕ → String) (c : Config) (m : Middleware) (r : HttpRequest) (h : Header)
    → new_middleware c ≡ ok m
    → Explains m r h (handle decimal m r h)
unfolding handle
handle-Explains decimal c m r h made =
    let exclusive = new_middleware-IsExclusive c m made in
    elim (Bool-cases (origin_of r == "")) [
      | inl none_named ↦
          rw (handle, none_named) (inl (refl, inl ((eq_iff (origin_of r) "").0 none_named)))
      | inr named ↦
          let there : origin_of r ≢ "" =
            λ e. let bad = (eq_iff (origin_of r) "").1 e in ground (arith, bad, named) in
          elim (Bool-cases (origin_allowed m (origin_of r))) [
            | inr foreign ↦
                let unlisted : ¬ IsListed m (origin_of r) = λ l.
                  let bad = (origin_allowed_sound m (origin_of r)).1 l in
                  ground (arith, bad, foreign) in
                elim (Bool-cases (is_preflight r)) [
                  | inl pre ↦ rw (handle, named, foreign, pre) (there, pre, inl unlisted)
                  | inr direct ↦
                      rw (handle, named, foreign, direct) (inl (refl, inr (direct, unlisted)))
                ]
            | inl allowed ↦ elim (Bool-cases (is_preflight r)) [
              | inl pre ↦
                  rw (handle, named, allowed, pre)
                    (handle_preflight-Explains decimal m r h exclusive pre there allowed)
              | inr direct ↦
                  rw (handle, named, allowed, direct)
                    (inr (
                      direct,
                      shared m r h (set_common_headers m (origin_of r) h) exclusive there allowed
                          (share-set_common_headers m (origin_of r) h exclusive)
                          (credit-set_common_headers m (origin_of r) h),
                    ))
            ]
          ]
    ]

-- ===== src/RateLimit/Counts.antt =====
-- ratelimit/ratelimit.go: the requests that count against a key.
use grpcapi.Base.{
  ℕ, ◌+◌, ◌-◌, ◌≤◌, String, ◌≡◌, refl, inl, inr, false, ◌&&◌, Option, none, some, List, [], ◌∷◌,
  arith, ◌==◌, eq_iff, ltb, leb, if◌then◌else◌, Bool-cases, Option-cases, lookup, lookup-insert,
  lookup-remove,
}
use grpcapi.RateLimit.{Window, Limiter, expired, live_windows, sweep, allow_swept}

-- The requests that were let through in the window of a key that is open at a time.
abbrev pub used_of : ℕ → ℕ → Option Window → ℕ
used_of window t none = 0
used_of window t (some v) = if expired window t v then 0 else v.count

unfoldable pub used : Limiter → String → ℕ → ℕ
used l key t = used_of l.window t (lookup key l.windows)

abbrev pub keep_live : ℕ → ℕ → Option Window → Option Window
keep_live window now none = none
keep_live window now (some v) = if expired window now v then none else some v

pub lookup-live_windows :
    (window now : ℕ) (j : String) (m : List (String × Window))
    → lookup j (live_windows window now m) ≡ keep_live window now (lookup j m)
unfolding live_windows
lookup-live_windows window now j [] = refl
lookup-live_windows window now j ((k, v) ∷ m) =
    let gone = lookup-remove k j (live_windows window now m) in
    let rest = lookup-live_windows window now j m in ground (arith, gone, rest)

keep_live-used :
    (window now t : ℕ) (o : Option Window)
    → now ≤ t
    → used_of window t (keep_live window now o) ≡ used_of window t o
keep_live-used window now t none h = refl
keep_live-used window now t (some v) h = ground arith

-- Sweeping forgets no request that counts from now on.
pub sweep-used :
    (l : Limiter) (now t : ℕ) (j : String) → now ≤ t → used (sweep l now) j t ≡ used l j t
unfolding used sweep
sweep-used l now t j h = elim (Bool-cases (ltb (now - l.last_sweep) l.window)) [
  | inl recent ↦ rw (recent, sweep) refl
  | inr due ↦
      rw (due, sweep, lookup-live_windows l.window now j l.windows)
        (keep_live-used l.window now t (lookup j l.windows) h)
]

-- After the sweep, a request is let through exactly while fewer than the limit count against its key.
pub allow_swept-used :
    (l : Limiter) (key j : String) (now : ℕ)
    → 1 ≤ l.limit
    → 1 ≤ l.window
    → ((allow_swept l key now).1.0 ≡ ltb (used l key now) l.limit)
      × (used (allow_swept l key now).0 j now
          ≡ used l j now + (if key == j && ltb (used l key now) l.limit then 1 else 0))
unfolding used allow_swept
allow_swept-used l key j now h hw =
    let put_key = λ (v : Window). lookup-insert key j v l.windows in
    elim (Option-cases (lookup key l.windows)) [
      | inl fresh ↦
          (ground arith, ground (arith, put_key (record { start = now; count = 1 }), eq_iff key j))
      | inr (v, found) ↦ elim (Bool-cases (expired l.window now v)) [
        | inl old ↦ (
          ground arith,
          ground (arith, put_key (record { start = now; count = 1 }), eq_iff key j),
        )
        | inr live ↦ elim (Bool-cases (leb l.limit v.count)) [
          | inl full ↦ (ground arith, ground (arith, eq_iff key j))
          | inr free ↦ (
            ground arith,
            ground (arith, put_key (record { start = v.start; count = v.count + 1 }), eq_iff key j),
          )
        ]
      ]
    ]

-- A request after the sweep changes nothing that counts against another key, at any time.
pub allow_swept-other :
    (l : Limiter) (key j : String) (now t : ℕ)
    → (key == j) ≡ false
    → used (allow_swept l key now).0 j t ≡ used l j t
unfolding used allow_swept
allow_swept-other l key j now t other =
    let put_key = λ (v : Window). lookup-insert key j v l.windows in
    elim (Option-cases (lookup key l.windows)) [
      | inl fresh ↦ rw (fresh, allow_swept, put_key (record { start = now; count = 1 }), other) refl
      | inr (v, found) ↦ elim (Bool-cases (expired l.window now v)) [
        | inl old ↦
            rw (found, old, allow_swept, put_key (record { start = now; count = 1 }), other) refl
        | inr live ↦ elim (Bool-cases (leb l.limit v.count)) [
          | inl full ↦ rw (found, live, full, allow_swept) refl
          | inr free ↦
              rw
                (
                  found,
                  live,
                  free,
                  allow_swept,
                  put_key (record { start = v.start; count = v.count + 1 }),
                  other,
                )
                refl
        ]
      ]
    ]

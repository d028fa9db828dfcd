-- ===== src/RateLimit/Laws.antt =====
-- ratelimit/ratelimit.go: what the limiter keeps and counts: no window counts more requests than the
-- limit.
use grpcapi.Base.{
  ℕ, ◌+◌, ◌-◌, ◌≤◌, String, ◌≡◌, sym, ◌∙◌, subst, inl, inr, ◌&&◌, Option, none, some, [], arith,
  ◌==◌, ltb, leb, nat_eq, if◌then◌else◌, Bool-cases, Option-cases, lookup, insert, lookup-insert,
  ok_inj, ok,
}
use grpcapi.RateLimit.{allow, new_limiter, Window, Limiter, expired, sweep, allow_swept}
use grpcapi.RateLimit.Counts.{used, keep_live, lookup-live_windows, sweep-used, allow_swept-used}

-- What a limiter keeps at a time: its limit and window are positive, and every window that it holds
-- was opened before and counts at least one request and at most the limit.
pub record IsLimiter (l : Limiter) (now : ℕ) : Type 0 where
  pub has_limit : 1 ≤ l.limit
  pub has_window : 1 ≤ l.window
  pub entries :
      (j : String) (v : Window)
      → lookup j l.windows ≡ some v
      → (v.start ≤ now) × (1 ≤ v.count) × (v.count ≤ l.limit)

sweep-options :
    (l : Limiter) (now : ℕ) → ((sweep l now).limit ≡ l.limit) × ((sweep l now).window ≡ l.window)
unfolding sweep
sweep-options l now = (ground arith, ground arith)

keep_live-some :
    (window now : ℕ) (v : Window) (o : Option Window) → keep_live window now o ≡ some v → o ≡ some v
keep_live-some window now v none h = h
keep_live-some window now v (some u) h = ground arith

sweep-entry :
    (l : Limiter) (now : ℕ) (j : String) (v : Window)
    → lookup j (sweep l now).windows ≡ some v
    → lookup j l.windows ≡ some v
unfolding sweep
sweep-entry l now j v h = elim (Bool-cases (ltb (now - l.last_sweep) l.window)) [
  | inl recent ↦ rw (recent, sweep) at h
  | inr due ↦
      keep_live-some l.window now v (lookup j l.windows)
        (rw (due, sweep, lookup-live_windows l.window now j l.windows) at h)
]

pub sweep-IsLimiter :
    (l : Limiter) (now t : ℕ) → IsLimiter l now → now ≤ t → IsLimiter (sweep l t) t
sweep-IsLimiter l now t i h =
    let (limit, window) = sweep-options l t in
    record {
      has_limit = rw limit i.has_limit;
      has_window = rw window i.has_window;
      entries = λ j v e.
          let (a, b, c) = i.entries j v (sweep-entry l t j v e) in (omega arith, b, rw limit c);
    }

put-entries :
    (l : Limiter) (key : String) (v : Window) (now : ℕ)
    → IsLimiter l now
    → v.start ≤ now
    → 1 ≤ v.count
    → v.count ≤ l.limit
    → IsLimiter (record l { windows = insert key v l.windows }) now
put-entries l key v now i a b c = record {
  has_limit = i.has_limit;
  has_window = i.has_window;
  entries = λ j u e.
      let e' : (if key == j then some v else lookup j l.windows) ≡ some u =
        sym (lookup-insert key j v l.windows) ∙ e in
      elim (Bool-cases (key == j)) [
        | inl same ↦
            let found : some v ≡ some u = rw same at e' in
            let eq : v ≡ u = cc in (rw eq at a, rw eq at b, rw eq at c)
        | inr other ↦ i.entries j u (rw other at e')
      ];
}

allow_swept-IsLimiter :
    (l : Limiter) (key : String) (now : ℕ)
    → IsLimiter l now
    → IsLimiter (allow_swept l key now).0 now
unfolding allow_swept
allow_swept-IsLimiter l key now i =
    let opened =
      put-entries l key (record { start = now; count = 1 }) now i (omega arith) (omega arith)
        i.has_limit in
    elim (Option-cases (lookup key l.windows)) [
      | inl fresh ↦ rw (fresh, allow_swept) opened
      | inr (v, found) ↦
          let (a, b, c) = i.entries key v found in
          elim (Bool-cases (expired l.window now v)) [
            | inl old ↦ rw (found, old, allow_swept) opened
            | inr live ↦ elim (Bool-cases (leb l.limit v.count)) [
              | inl full ↦ rw (found, live, full, allow_swept) i
              | inr free ↦
                  rw (found, live, free, allow_swept)
                    (put-entries l key (record { start = v.start; count = v.count + 1 }) now i a
                      (omega arith) (ground arith))
            ]
          ]
    ]

-- A new limiter is well formed, for any limit and window that it is made with.
pub new_limiter-IsLimiter :
    (limit window now : ℕ) (l : Limiter) → new_limiter limit window now ≡ ok l → IsLimiter l now
unfolding new_limiter
new_limiter-IsLimiter limit window now l h = elim (Bool-cases (nat_eq limit 0)) [
  | inl none_left ↦ ground arith
  | inr positive ↦
      let made : Limiter = record {
        limit = limit;
        window = if nat_eq window 0 then 60000000000 else window;
        windows = [];
        last_sweep = now;
      } in
      let eq : made ≡ l = ok_inj made l (rw (positive, new_limiter) at h) in
      subst (λ (x : Limiter). IsLimiter x now) eq
        (record { has_limit = ground arith; has_window = ground arith; entries = λ j v e. cc })
]

-- Every call keeps the limiter well formed, as long as time does not go back: no window ever counts
-- more requests than the limit.
pub allow-IsLimiter :
    (l : Limiter) (key : String) (now t : ℕ)
    → IsLimiter l now
    → now ≤ t
    → IsLimiter (allow l key t).0 t
unfolding allow
allow-IsLimiter l key now t i h =
    allow_swept-IsLimiter (sweep l t) key t (sweep-IsLimiter l now t i h)

-- A request is let through exactly while fewer than the limit count against its key in the window
-- that is open, and then counts against that key and no other: neither the sweep nor another key's
-- window changes what counts.
pub allow-used :
    (l : Limiter) (key j : String) (now : ℕ)
    → IsLimiter l now
    → ((allow l key now).1.0 ≡ ltb (used l key now) l.limit)
      × (used (allow l key now).0 j now
          ≡ used l j now + (if key == j && ltb (used l key now) l.limit then 1 else 0))
unfolding allow
allow-used l key j now i =
    let (limit, window) = sweep-options l now in
    let swept = sweep-IsLimiter l now now i (omega arith) in
    let main = allow_swept-used (sweep l now) key j now swept.has_limit swept.has_window in
    rw (limit, sweep-used l now now key (omega arith), sweep-used l now now j (omega arith)) at main

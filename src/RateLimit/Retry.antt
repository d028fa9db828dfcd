-- ===== src/RateLimit/Retry.antt =====
-- ratelimit/ratelimit.go: the delay that a refused request is told.
use grpcapi.Base.{
  ℕ, ◌+◌, ◌-◌, ◌≤◌, String, ◌≡◌, refl, ◌∙◌, ◌≢◌, inl, inr, true, false, Option, none, some, List,
  [], ◌∷◌, arith, ◌==◌, ltb, leb, if◌then◌else◌, Bool-cases, Option-cases, or_else, ne_false,
  lookup,
}
use grpcapi.RateLimit.{Limiter, expired, second, allow, allow_swept, sweep, check}
use grpcapi.RateLimit.Counts.{used, sweep-used, allow_swept-other}
use grpcapi.RateLimit.Laws.{IsLimiter, sweep-IsLimiter, allow-IsLimiter, allow-used}

ltb_free : (u n : ℕ) → u ≡ 0 → 1 ≤ n → ltb u n ≡ true
ltb_free u n h k = ground arith

IsLimiter-later : (l : Limiter) (now t : ℕ) → IsLimiter l now → now ≤ t → IsLimiter l t
IsLimiter-later l now t i h = record {
  has_limit = i.has_limit;
  has_window = i.has_window;
  entries = λ j v e. let (a, b, c) = i.entries j v e in (omega arith, b, c);
}

allow_swept-refused :
    (l : Limiter) (key : String) (now t : ℕ)
    → IsLimiter l now
    → (allow_swept l key now).1.0 ≡ false
    → now + (allow_swept l key now).1.1 ≤ t
    → used (allow_swept l key now).0 key t ≡ 0
unfolding allow_swept used
allow_swept-refused l key now t i h late = elim (Option-cases (lookup key l.windows)) [
  | inl fresh ↦ ground arith
  | inr (v, found) ↦
      let (a, b, c) = i.entries key v found in
      elim (Bool-cases (expired l.window now v)) [
        | inl old ↦ ground arith
        | inr live ↦ elim (Bool-cases (leb l.limit v.count)) [
          | inl full ↦
              let late2 : now + (l.window - (now - v.start)) ≤ t =
                rw (found, live, full, allow_swept) at late in
              let over : expired l.window t v ≡ true = ground arith in
              rw (found, live, full, allow_swept, found, over) refl
          | inr free ↦ ground arith
        ]
      ]
]

-- What counts against a key does not change by a request for another.
allow-other :
    (l : Limiter) (key j : String) (now t : ℕ)
    → key ≢ j
    → now ≤ t
    → used (allow l key now).0 j t ≡ used l j t
unfolding allow
allow-other l key j now t other h =
    allow_swept-other (sweep l now) key j now t (ne_false key j other) ∙ sweep-used l now t j h

-- The key that a call is counted under.
abbrev pub key_of : Option String → String → String
key_of custom default =
    let wanted = or_else custom default in if wanted == "" then default else wanted

-- A call of `check` at a time.
pub record Call : Type 0 where
  pub custom : Option String
  pub default : String
  pub time : ℕ

abbrev pub after_calls : Limiter → List Call → Limiter
after_calls l [] = l
after_calls l (c ∷ calls) = after_calls (check l c.custom c.default c.time).0 calls

-- The calls come one after the other between two times, and each is counted under another key.
abbrev pub Between : String → ℕ → ℕ → List Call → Type 0
Between key now t [] = now ≤ t
Between key now t (c ∷ calls) =
    (key_of c.custom c.default ≢ key) × (now ≤ c.time) × Between key c.time t calls

Between-le : (key : String) (now t : ℕ) (calls : List Call) → Between key now t calls → now ≤ t
Between-le key now t [] h = h
Between-le key now t (c ∷ calls) (other, h, rest) =
    let later = Between-le key c.time t calls rest in omega (arith, h, later)

after_calls-used :
    (l : Limiter) (key : String) (now t : ℕ) (calls : List Call)
    → IsLimiter l now
    → Between key now t calls
    → IsLimiter (after_calls l calls) t × (used (after_calls l calls) key t ≡ used l key t)
unfolding check
after_calls-used l key now t [] i h = (IsLimiter-later l now t i h, refl)
after_calls-used l key now t (c ∷ calls) i (other, h, rest) =
    let k = key_of c.custom c.default in
    let next = (allow l k c.time).0 in
    let (kept, same) =
      after_calls-used next key c.time t calls (allow-IsLimiter l k now c.time i h) rest in
    (kept, same ∙ allow-other l k key c.time t other (Between-le key c.time t calls rest))

allow-refused :
    (l : Limiter) (key : String) (now t : ℕ)
    → IsLimiter l now
    → (allow l key now).1.0 ≡ false
    → now + (allow l key now).1.1 ≤ t
    → used (allow l key now).0 key t ≡ 0
unfolding allow
allow-refused l key now t i h late =
    allow_swept-refused (sweep l now) key now t (sweep-IsLimiter l now now i (omega arith)) h late

-- The delay that a refused call is told is at least a second, and the first call for the same key after it is let
-- through when it comes no earlier than that delay after the refused one, whatever calls for other keys
-- come in between, as long as time does not go back.
pub check-retry :
    (l : Limiter) (custom : Option String) (default : String) (now delay t : ℕ) (calls : List Call)
    → IsLimiter l now
    → (check l custom default now).1 ≡ some delay
    → now + delay ≤ t
    → Between (key_of custom default) now t calls
    → (second ≤ delay)
      × ((check (after_calls (check l custom default now).0 calls) custom default t).1 ≡ none)
unfolding check
check-retry l custom default now delay t calls i h late between =
    let key = key_of custom default in
    elim (Bool-cases (allow l key now).1.0) [
      | inl passed ↦ absurd (ground arith)
      | inr refused ↦
          let told : (if ltb (allow l key now).1.1 second then second else (allow l key now).1.1)
              ≡ delay =
            ground arith in
          let idle = allow-refused l key now t i refused (ground arith) in
          let (kept, same) =
            after_calls-used (allow l key now).0 key now t calls
              (allow-IsLimiter l key now now i (omega arith)) between in
          let last = after_calls (allow l key now).0 calls in
          let again : (allow last key t).1.0 ≡ true =
            (allow-used last key key t kept).0
            ∙ ltb_free (used last key t) last.limit (same ∙ idle) kept.has_limit in
          (ground arith, rw again refl)
    ]

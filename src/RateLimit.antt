-- ===== src/RateLimit.antt =====
-- ratelimit/ratelimit.go: the limiter of requests per key and fixed window. Times are nanoseconds on
-- the monotonic clock, which never goes back; the mutex makes each call of Allow one
-- step, with the time that is read before the mutex is taken.
pub mod Counts
pub mod Laws
pub mod Retry
use grpcapi.Base.{
  ℕ, ◌+◌, ◌-◌, ◌*◌, String, Bool, true, false, Option, none, some, List, [], ◌∷◌, ◌==◌, ltb, leb,
  nat_eq, if◌then◌else◌, or_else, str_append, lookup, insert, remove, Result, ok, err,
}
use grpcapi.Status.{World}
use grpcapi.Principal.{Principal}

pub record Window : Type 0 where
  pub start : ℕ
  pub count : ℕ

-- `Limiter`, with the limit and the window of its normalized options.
pub record Limiter : Type 0 where
  pub limit : ℕ
  pub window : ℕ
  pub windows : List (String × Window)
  pub last_sweep : ℕ

abbrev pub second : ℕ
second = 1000000000

-- `New`, at the time that it is called; a window that is not positive is one minute.
unfoldable pub new_limiter : ℕ → ℕ → ℕ → Result String Limiter
new_limiter limit window now =
    if nat_eq limit 0
    then err "ratelimit: Limit must be > 0"
    else ok (record {
      limit = limit;
      window = if nat_eq window 0 then 60 * second else window;
      windows = [];
      last_sweep = now;
    })

abbrev pub expired : ℕ → ℕ → Window → Bool
expired window now v = leb window (now - v.start)

-- The loop of `sweepLocked`. A Go map holds a key once: a later entry for it goes with the first.
unfoldable pub live_windows : ℕ → ℕ → List (String × Window) → List (String × Window)
live_windows window now [] = []
live_windows window now ((k, v) ∷ m) =
    let rest = remove k (live_windows window now m) in
    if expired window now v then rest else (k, v) ∷ rest

unfoldable pub sweep : Limiter → ℕ → Limiter
unfolding live_windows
sweep l now =
    if ltb (now - l.last_sweep) l.window
    then l
    else record l { windows = live_windows l.window now l.windows; last_sweep = now }

abbrev put : Limiter → String → Window → Limiter
put l k v = record l { windows = insert k v l.windows }

-- What follows the sweep: the limiter, whether the request is let through, and when to retry.
unfoldable pub allow_swept : Limiter → String → ℕ → Limiter × (Bool × ℕ)
allow_swept l key now =
    let opened : Limiter × (Bool × ℕ) =
      (put l key (record { start = now; count = 1 }), (true, 0)) in
    elim (lookup key l.windows) [
      | none ↦ opened
      | some v ↦
          (if expired l.window now v
            then opened
            else if leb l.limit v.count
            then (l, (false, l.window - (now - v.start)))
            else (put l key (record { start = v.start; count = v.count + 1 }), (true, 0)))
    ]

-- `Allow`, for a key that is not empty.
unfoldable pub allow : Limiter → String → ℕ → Limiter × (Bool × ℕ)
unfolding sweep allow_swept
allow l key now = allow_swept (sweep l now) key now

address_key : Option String → String
address_key none = "anonymous"
address_key (some ip) = if ip == "" then "anonymous" else str_append "ip:" ip

module _ {w : World} where
  -- `defaultKey`, from the principal and the client's address in the context.
  unfoldable pub default_key : Option (Principal w) → Option String → String
  unfolding address_key
  default_key (some p) ip = if p.id == "" then address_key ip else str_append "principal:" p.id
  default_key none ip = address_key ip

-- `check`, over the key of the options, if they have one, and the default key: none lets the request
-- through, else the delay that the error of code ResourceExhausted carries.
unfoldable pub check : Limiter → Option String → String → ℕ → Limiter × Option ℕ
unfolding allow
check l custom default now =
    let wanted = or_else custom default in
    let key = if wanted == "" then default else wanted in
    let (after, (passed, retry)) = allow l key now in
    (after, if passed then none else some (if ltb retry second then second else retry))

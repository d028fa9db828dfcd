-- ===== src/Tests/Limits.antt =====
-- The rate limiter on concrete calls.
use grpcapi.Base.{
  ◌+◌, ◌≤◌, ◌≡◌, refl, false, ◌&&◌, none, [], ◌∷◌, arith, ◌==◌, eq_iff, ltb, if◌then◌else◌,
}
use grpcapi.RateLimit.{Limiter, new_limiter, allow}
use grpcapi.RateLimit.Counts.{used}
use grpcapi.RateLimit.{check, second}
use grpcapi.RateLimit.Retry.{Call, after_calls, check-retry}
use grpcapi.RateLimit.Laws.{IsLimiter, new_limiter-IsLimiter, allow-IsLimiter, allow-used}

-- One request in a window of ten, made at time 3, is all that is allowed.
abbrev two_of_ten : Limiter
two_of_ten = record {
  limit = 1;
  window = 10;
  windows = ("ip:a", record { start = 3; count = 1 }) ∷ [];
  last_sweep = 3;
}

abbrev made : IsLimiter two_of_ten 4
made = record { has_limit = omega arith; has_window = omega arith; entries = λ j v e. ground arith }

new_limiter-IsLimiter_example :
    IsLimiter (record { limit = 5; window = 60000000000; windows = []; last_sweep = 7 }) 7
unfolding new_limiter
new_limiter-IsLimiter_example =
    new_limiter-IsLimiter 5 0 7
      (record { limit = 5; window = 60000000000; windows = []; last_sweep = 7 }) refl

allow-IsLimiter_example : IsLimiter (allow two_of_ten "ip:b" 5).0 5
allow-IsLimiter_example = allow-IsLimiter two_of_ten "ip:b" 4 5 made (omega arith)

allow-used_example :
    ((allow two_of_ten "ip:a" 4).1.0 ≡ ltb (used two_of_ten "ip:a" 4) 1)
    × (used (allow two_of_ten "ip:a" 4).0 "ip:b" 4
        ≡ used two_of_ten "ip:b" 4
          + (if "ip:a" == "ip:b" && ltb (used two_of_ten "ip:a" 4) 1 then 1 else 0))
allow-used_example = allow-used two_of_ten "ip:a" "ip:b" 4 made

abbrev other_call : Call
other_call = record { custom = none; default = "ip:b"; time = 20 }

check-retry_example :
    (second ≤ second)
    × ((check
          (after_calls (check two_of_ten none "ip:a" 4).0 (other_call ∷ []))
          none
          "ip:a"
          (4 + second)).1
        ≡ none)
unfolding check
check-retry_example =
    check-retry two_of_ten none "ip:a" 4 second (4 + second) (other_call ∷ []) made refl
      (omega arith) ((λ e. let same = (eq_iff "ip:b" "ip:a").1 e in cc), omega arith, omega arith)

retry_after_nine : (allow two_of_ten "ip:a" 4).1 ≡ (false, 9)
unfolding allow
retry_after_nine = refl

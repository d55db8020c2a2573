-- ===== src/Payments/RateLimiter.antt =====
-- internal/payments/ratelimit.go: a sliding window of requests for each key. The clock's reading is
-- an argument. A cutoff before the zero time lets every request count, as 0 does.
pub mod Bound
pub mod Traces
pub mod Windows
use gemot.Prelude.{
  ℕ, zero, suc, ◌+◌, ◌-◌, Bool, true, false, Option, none, some, List, [], ◌∷◌, ◌++◌, Map, String,
  string_key, get, put, remove_if, length, last_or, ltb, leb, if◌then◌else◌,
}

pub record RateLimiter : Type 0 where
  pub windows : Map String (List ℕ)
  pub limit : ℕ
  pub window : ℕ

unfoldable pub new_rate_limiter : ℕ → ℕ → RateLimiter
new_rate_limiter limit window = record { windows = []; limit = limit; window = window }

-- The loop that moves start, and times[start:].
unfoldable pub prune : ℕ → List ℕ → List ℕ
prune cutoff [] = []
prune cutoff (t ∷ times) = let rest = prune cutoff times in if ltb t cutoff then rest else t ∷ times

-- r.windows[key], nil where it is missing.
unfoldable pub times_of : String → RateLimiter → List ℕ
times_of key r = elim (get key r.windows) [ none ↦ [] | some times ↦ times ]

unfoldable pub recent : String → ℕ → RateLimiter → List ℕ
unfolding prune times_of
recent key now r = prune (now - r.window) (times_of key r)

unfoldable pub allow : String → ℕ → RateLimiter → Bool × RateLimiter
unfolding recent
allow key now r =
    let times = recent key now r in
    if leb r.limit (length times)
    then (false, record r { windows = put key times r.windows })
    else (true, record r { windows = put key (times ++ (now ∷ [])) r.windows })

-- len(times) == 0 || times[len(times)-1].Before(cutoff)
unfoldable pub is_stale : ℕ → List ℕ → Bool
is_stale cutoff [] = true
is_stale cutoff (t ∷ times) = ltb (last_or t times) cutoff

unfoldable pub cleanup : ℕ → RateLimiter → RateLimiter
unfolding is_stale
cleanup now r = record r { windows = remove_if (is_stale (now - r.window)) r.windows }

-- The requests that remain, and the time of the reset.
unfoldable pub status : String → ℕ → RateLimiter → ℕ × ℕ
unfolding recent
status key now r =
    let times = recent key now r in
    (r.limit - length times, elim times [ [] ↦ now | t ∷ _ ↦ t + r.window ])

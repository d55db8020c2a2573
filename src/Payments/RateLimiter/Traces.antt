-- ===== src/Payments/RateLimiter/Traces.antt =====
-- A rate limiter over a sequence of requests and cleanups: what it has admitted in each window.
use gemot.Prelude.{ℕ, ◌-◌, ◌≤◌, List, [], ◌∷◌, ◌++◌, String, str_eq, string_key, ltb, if◌then◌else◌}
use gemot.Payments.RateLimiter.{RateLimiter, allow, cleanup}

pub data Event : Type 0 where
  request : String → ℕ → Event
  cleans : ℕ → Event

abbrev pub time : Event → ℕ
time (request key now) = now
time (cleans now) = now

-- The clock does not go back.
abbrev pub Forward : ℕ → List Event → Type 0
Forward last [] = Unit
Forward last (e ∷ es) = (last ≤ time e) × Forward (time e) es

abbrev pub last_time : ℕ → List Event → ℕ
last_time last [] = last
last_time last (e ∷ es) = last_time (time e) es

unfoldable pub step : Event → RateLimiter → RateLimiter
step (request key now) r = (allow key now r).1
step (cleans now) r = cleanup now r

-- The time of a request for the key that is let through.
unfoldable pub admits : String → Event → RateLimiter → List ℕ
admits key (request j now) r =
    if str_eq j key then (if (allow j now r).0 then now ∷ [] else []) else []
admits key (cleans now) r = []

unfoldable pub admitted : String → List Event → RateLimiter → List ℕ
unfolding admits
admitted key [] r = []
admitted key (e ∷ es) r = admits key e r ++ admitted key es (step e r)

-- Those that do not lie before the window that ends now.
unfoldable pub within : ℕ → ℕ → List ℕ → List ℕ
within window now [] = []
within window now (t ∷ ts) =
    let rest = within window now ts in if ltb t (now - window) then rest else t ∷ rest

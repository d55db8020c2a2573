-- ===== src/Payments/Examples.antt =====
-- The theorems on the rate limiter at a concrete trace, and on the sandbox quota.
use gemot.Prelude.{suc, ◌≤◌, ◌≡◌, ◌⊎◌, refl, true, false, List, [], ◌∷◌, length, arith}
use gemot.Payments.RateLimiter.{RateLimiter, new_rate_limiter, allow, cleanup, status}
use gemot.Payments.RateLimiter.Traces.{Event, request, cleans, within, step, admitted}
use gemot.Payments.RateLimiter.Bound.{admitted-le_limit, status-allow}
use gemot.Payments.SandboxQuota.{new_sandbox_quota}
use gemot.Payments.SandboxQuota.Counts
use gemot.Payments.SandboxQuota.Counts.{Within, run-Within}

abbrev trace : List Event
trace =
    request "a" 100
    ∷ request "a" 101
    ∷ request "b" 101
    ∷ request "a" 102
    ∷ cleans 105
    ∷ request "a" 112
    ∷ []

admitted_of_trace : admitted "a" trace (new_rate_limiter 2 10) ≡ 100 ∷ 101 ∷ 112 ∷ []
unfolding admitted step allow cleanup new_rate_limiter
admitted_of_trace = refl

admitted-le_limit_example : length (within 10 112 (admitted "a" trace (new_rate_limiter 2 10))) ≤ 2
admitted-le_limit_example = admitted-le_limit "a" 2 10 trace 112 (omega arith) (omega arith)

abbrev limiter : RateLimiter
limiter = record { windows = ("a", 100 ∷ 101 ∷ []) ∷ []; limit = 3; window = 10 }

status-allow_example :
    (((allow "a" 105 limiter).0 ≡ true)
      × ((status "a" 105 limiter).0 ≡ suc (status "a" 105 (allow "a" 105 limiter).1).0))
    ⊎ (((allow "a" 105 limiter).0 ≡ false)
        × ((status "a" 105 limiter).0 ≡ 0)
        × ((status "a" 105 (allow "a" 105 limiter).1).0 ≡ 0))
status-allow_example = status-allow "a" 105 limiter

abbrev sandbox : List Counts.Event
sandbox = Counts.calls "ip" 1 ∷ Counts.calls "ip" 2 ∷ Counts.calls "ip" 3 ∷ Counts.refunds "ip" ∷ []

run-Within_example : Within 2 (Counts.run sandbox (new_sandbox_quota 2 50)).counts
run-Within_example = run-Within 2 50 sandbox (omega arith)

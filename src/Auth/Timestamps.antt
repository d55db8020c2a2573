-- ===== src/Auth/Timestamps.antt =====
-- Which timestamps ValidateTimestamp lets through.
use gemot.Prelude.{ℕ, ◌+◌, ◌-◌, ◌*◌, ◌^◌, ◌≤◌, ◌<◌, ◌≡◌, ◌⊎◌, inl, inr, true, false, arith}
use gemot.Prelude.Outcomes.{ok, err}
use gemot.Auth.Replay.{validate_timestamp, magnitude, over_window, word, second, stale_timestamp}

-- The seconds between the clocks, on either side.
distance :
    (ts now : ℕ)
    → ts < 2 ^ 63
    → now < 2 ^ 63
    → magnitude (word (now + 2 ^ 64 - ts)) ≡ (now - ts) + (ts - now)
unfolding magnitude
distance ts now a b = ground arith

-- No product of that many seconds leaves the int64 range.
within_range :
    (d : ℕ)
    → d ≤ 9223372036
    → ((over_window (word (d * second)) ≡ false) × (d ≤ 300))
      ⊎ ((over_window (word (d * second)) ≡ true) × (300 < d))
unfolding over_window
within_range d h = ground arith

-- Where the clocks are less than 292 years apart, a timestamp is accepted if it lies within five
-- minutes of the receiver's clock, on either side, and refused as stale if it does not.
pub validate_timestamp_cases :
    (ts now : ℕ)
    → ts < 2 ^ 63
    → now < 2 ^ 63
    → now ≤ ts + 9223372036
    → ts ≤ now + 9223372036
    → ((validate_timestamp ts now ≡ ok tt) × (now ≤ ts + 300) × (ts ≤ now + 300))
      ⊎ ((validate_timestamp ts now ≡ err stale_timestamp) × ((ts + 300 < now) ⊎ (now + 300 < ts)))
unfolding validate_timestamp
validate_timestamp_cases ts now a b c d =
    let e = distance ts now a b in
    elim (within_range (now - ts + (ts - now)) (omega arith)) [
      | inl (fits, near) ↦ inl (rw (e, validate_timestamp) (rw fits), omega arith, omega arith)
      | inr (over, far) ↦ inr (rw (e, validate_timestamp) (rw over), ground arith)
    ]

-- A timestamp that lies between 18446744074 and 18446744373 seconds ahead, some 584 years, is
-- accepted, since the difference in nanoseconds wraps around.
pub far_timestamp_accepted :
    (now d : ℕ)
    → 18446744074 ≤ d
    → d ≤ 18446744373
    → now + d < 2 ^ 63
    → validate_timestamp (now + d) now ≡ ok tt
unfolding validate_timestamp
far_timestamp_accepted now d a b c = ground arith

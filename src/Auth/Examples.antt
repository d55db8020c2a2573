-- ===== src/Auth/Examples.antt =====
-- The theorems on replays and timestamps at concrete inputs.
use gemot.Prelude.{◌+◌, ◌≤◌, ◌≡◌, ◌⊎◌, ℕ, ◌<◌, refl, List, [], ◌∷◌, arith}
use gemot.Prelude.Outcomes.{ok, err}
use gemot.Prelude.Integers.{pos}
use gemot.Auth.Signature.{position_payload}
use gemot.Auth.Signature.Injective.{payload-Same, Same, position}
use gemot.Auth.Replay.{
  MemoryNonceCache, nonce_replayed, stale_timestamp, validate_timestamp, new_memory_nonce_cache,
  observe, admit, sweep_locked, evict, remember,
}
use gemot.Auth.Timestamps.{validate_timestamp_cases, far_timestamp_accepted}
use gemot.Auth.Nonces.{Distinct, Queue, enqueue, join_queue, holding}
use gemot.Auth.Observed.{observe-enqueue}
use gemot.Auth.Replays.{Observations, observe_all, replay_refused}

late_is_stale : validate_timestamp 1000 1301 ≡ err stale_timestamp
unfolding validate_timestamp
late_is_stale = refl

validate_timestamp_cases_example :
    ((validate_timestamp 1000 1200 ≡ ok tt) × (1200 ≤ 1300) × (1000 ≤ 1500))
    ⊎ ((validate_timestamp 1000 1200 ≡ err stale_timestamp) × ((1300 < 1200) ⊎ (1500 < 1000)))
validate_timestamp_cases_example =
    validate_timestamp_cases 1000 1200 (omega arith) (omega arith) (omega arith) (omega arith)

far_timestamp_accepted_example : validate_timestamp (1700000000 + 18446744100) 1700000000 ≡ ok tt
far_timestamp_accepted_example =
    far_timestamp_accepted 1700000000 18446744100 (omega arith) (omega arith) (omega arith)

-- Two live nonces, of which the older one makes room for a third.
abbrev full : Queue
full = ("a", 20) ∷ ("b", 25) ∷ []

room_is_made : (enqueue 10 2 "c" 18 full).1 ≡ ("b", 25) ∷ ("c", 28) ∷ []
unfolding enqueue join_queue
room_is_made = refl

observe-enqueue_example :
    (observe "c" 18 (holding 10 2 full)
      ≡ ((enqueue 10 2 "c" 18 full).0, holding 10 2 (enqueue 10 2 "c" 18 full).1))
    × Distinct (enqueue 10 2 "c" 18 full).1
observe-enqueue_example = observe-enqueue 10 2 "c" 18 full (refl, (refl, tt))

abbrev visits : Observations
visits = ("a", 1) ∷ ("b", 2) ∷ ("a", 3) ∷ ("c", 4) ∷ []

abbrev visited : MemoryNonceCache
visited = holding 50 2 (("b", 52) ∷ ("c", 54) ∷ [])

visited_reached : visited ≡ observe_all visits (new_memory_nonce_cache 50 2)
unfolding observe_all observe admit sweep_locked evict remember new_memory_nonce_cache
visited_reached = refl

replay_refused_example :
    (observe "d" 40 (observe_all (("e", 30) ∷ []) (observe "d" 20 visited).1)).0
    ≡ err nonce_replayed
unfolding observe admit sweep_locked
replay_refused_example =
    replay_refused 50 2 visits (("e", 30) ∷ []) "d" 20 40 visited visited_reached refl (omega arith)
      (omega arith) (omega arith)

-- A hash that maps every content to the same byte.
abbrev constant_hash : List ℕ → List ℕ
constant_hash content = 7 ∷ []

payload-Same_example :
    Same constant_hash
      (position (97 ∷ []) (100 ∷ []) (pos 1) (1 ∷ []))
      (position (97 ∷ []) (100 ∷ []) (pos 1) (2 ∷ []))
unfolding position_payload
payload-Same_example =
    payload-Same constant_hash (position (97 ∷ []) (100 ∷ []) (pos 1) (1 ∷ []))
      (position (97 ∷ []) (100 ∷ []) (pos 1) (2 ∷ [])) (omega arith) (omega arith) refl

-- ===== src/Auth/Replay.antt =====
-- internal/auth/replay.go: the cache of seen nonces, and the window of timestamps. Times and spans
-- are nanoseconds.
use gemot.Prelude.{
  ℕ, ◌+◌, ◌-◌, ◌*◌, ◌%◌, ◌^◌, Bool, true, false, not, ◌&&◌, none, some, List, [], ◌∷◌, ◌++◌, Map,
  String, string_key, get, put, delete, length, ltb, leb, ◌==◌, if◌then◌else◌,
}
use gemot.Prelude.Outcomes.{Outcome, ok, err, require}

pub data Error : Type 0 where
  nonce_replayed : Error
  stale_timestamp : Error

abbrev pub second : ℕ
second = 1000000000

abbrev pub replay_window : ℕ
replay_window = 300 * second

pub record MemoryNonceCache : Type 0 where
  pub ttl : ℕ
  pub capacity : ℕ
  pub seen : Map String ℕ
  pub order : List String

unfoldable pub new_memory_nonce_cache : ℕ → ℕ → MemoryNonceCache
new_memory_nonce_cache ttl capacity = record {
  ttl = if ttl == 0 then 2 * replay_window else ttl;
  capacity = if capacity == 0 then 100000 else capacity;
  seen = [];
  order = [];
}

-- The loop of sweepLocked: the order from the cut on, and the map that is left.
unfoldable pub sweep : ℕ → List String → Map String ℕ → List String × Map String ℕ
sweep now [] seen = ([], seen)
sweep now (nonce ∷ order) seen = elim (get nonce seen) [
  | none ↦ sweep now order seen
  | some exp ↦ elim (ltb now exp) [
    | true ↦ (nonce ∷ order, seen)
    | false ↦ sweep now order (delete nonce seen)
  ]
]

unfoldable pub sweep_locked : ℕ → MemoryNonceCache → MemoryNonceCache
unfolding sweep
sweep_locked now m =
    let rest = sweep now m.order m.seen in record m { seen = rest.1; order = rest.0 }

-- if len(m.seen) >= m.capacity: the oldest entry is dropped.
unfoldable pub evict : MemoryNonceCache → MemoryNonceCache
evict m =
    if leb m.capacity (length m.seen)
    then elim m.order [
      | [] ↦ m
      | oldest ∷ order ↦ record m { seen = delete oldest m.seen; order = order }
    ]
    else m

unfoldable pub remember : String → ℕ → MemoryNonceCache → MemoryNonceCache
remember nonce now m = record m {
  seen = put nonce (now + m.ttl) m.seen;
  order = m.order ++ (nonce ∷ []);
}

-- Observe after the sweep.
unfoldable pub admit : String → ℕ → MemoryNonceCache → Outcome Error (Unit {0}) × MemoryNonceCache
admit nonce now m = elim (get nonce m.seen) [
  | some _ ↦ (err nonce_replayed, m)
  | none ↦ (ok tt, remember nonce now (evict m))
]

unfoldable pub observe : String → ℕ → MemoryNonceCache → Outcome Error (Unit {0}) × MemoryNonceCache
observe nonce now m = admit nonce now (sweep_locked now m)

-- An int64 as its 64 bits.
abbrev pub word : ℕ → ℕ
word n = n % 2 ^ 64

-- The bits stand for a negative number.
abbrev pub negative : ℕ → Bool
negative n = leb (2 ^ 63) n

-- if diff < 0 { diff = -diff }
unfoldable pub magnitude : ℕ → ℕ
magnitude n = if negative n then word (2 ^ 64 - n) else n

-- d > ReplayWindow, for an int64 d.
unfoldable pub over_window : ℕ → Bool
over_window d = not (negative d) && ltb replay_window d

-- Unix seconds as 64-bit words.
unfoldable pub validate_timestamp : ℕ → ℕ → Outcome Error (Unit {0})
unfolding magnitude over_window
validate_timestamp ts now =
    require (not (over_window (word (magnitude (word (now + 2 ^ 64 - ts)) * second))))
      stale_timestamp

-- ===== src/Auth/Nonces.antt =====
-- The nonce cache as a queue of nonces with their expiry times, oldest first.
use gemot.Prelude.{
  ℕ, suc, ◌+◌, ◌≡◌, refl, none, some, List, [], ◌∷◌, ◌++◌, Map, String, str_eq, string_key,
  str_eq_refl, get, length, ltb, leb, map, arith, if◌then◌else◌, delete-absent,
}
use text.Mathlib.TextEquality.{eq_iff}
use gemot.Prelude.Outcomes.{Outcome, ok, err}
use gemot.Auth.Replay.{MemoryNonceCache, Error, nonce_replayed, sweep}

abbrev pub Queue : Type 0
Queue = Map String ℕ

abbrev pub nonces : Queue → List String
nonces = map λ e. e.0

-- No nonce stands twice.
abbrev pub Distinct : Queue → Type 0
Distinct [] = Unit
Distinct ((n, _) ∷ q) = (get n q ≡ none) × Distinct q

-- The entries from the first one on that has not expired.
unfoldable pub drop_expired : ℕ → Queue → Queue
drop_expired now [] = []
drop_expired now ((n, exp) ∷ q) =
    let rest = drop_expired now q in if ltb now exp then (n, exp) ∷ q else rest

-- Without the oldest entry if it is full.
unfoldable pub make_room : ℕ → Queue → Queue
make_room capacity [] = []
make_room capacity (e ∷ q) = if leb capacity (suc (length q)) then q else e ∷ q

-- A nonce in the queue is a replay, and any other joins at the end.
unfoldable pub join_queue : ℕ → ℕ → String → ℕ → Queue → Outcome Error (Unit {0}) × Queue
unfolding make_room
join_queue ttl capacity nonce now q = elim (get nonce q) [
  | some _ ↦ (err nonce_replayed, q)
  | none ↦ (ok tt, make_room capacity q ++ ((nonce, now + ttl) ∷ []))
]

-- What Observe promises, of the nonces that have not expired.
unfoldable pub enqueue : ℕ → ℕ → String → ℕ → Queue → Outcome Error (Unit {0}) × Queue
unfolding drop_expired
enqueue ttl capacity nonce now q = join_queue ttl capacity nonce now (drop_expired now q)

-- The cache that holds a queue: its map is the queue, and its order that of the map.
abbrev pub holding : ℕ → ℕ → Queue → MemoryNonceCache
holding ttl capacity q = record { ttl = ttl; capacity = capacity; seen = q; order = nonces q }

pub drop_expired-get :
    (now : ℕ) (n : String) (q : Queue) → get n q ≡ none → get n (drop_expired now q) ≡ none
unfolding drop_expired
drop_expired-get now n [] h = refl
drop_expired-get now n ((j, e) ∷ q) h = ground (arith, eq_iff j n, drop_expired-get now n q)

pub drop_expired-Distinct : (now : ℕ) (q : Queue) → Distinct q → Distinct (drop_expired now q)
unfolding drop_expired
drop_expired-Distinct now [] h = tt
drop_expired-Distinct now ((j, e) ∷ q) h = ground (arith, drop_expired-Distinct now q h.1)

pub sweep-drop_expired :
    (now : ℕ) (q : Queue)
    → Distinct q
    → sweep now (nonces q) q ≡ (nonces (drop_expired now q), drop_expired now q)
unfolding sweep drop_expired
sweep-drop_expired now [] h = refl
sweep-drop_expired now ((j, e) ∷ q) h =
    ground (arith, str_eq_refl j, delete-absent j q h.0, sweep-drop_expired now q h.1)

pub make_room-get : (c : ℕ) (n : String) (q : Queue) → get n q ≡ none → get n (make_room c q) ≡ none
unfolding make_room
make_room-get c n [] h = refl
make_room-get c n ((j, e) ∷ q) h = ground (arith, eq_iff j n)

pub make_room-Distinct : (c : ℕ) (q : Queue) → Distinct q → Distinct (make_room c q)
unfolding make_room
make_room-Distinct c [] h = tt
make_room-Distinct c ((j, e) ∷ q) h = ground arith

get-snoc :
    (n i : String) (v : ℕ) (q : Queue)
    → get n q ≡ none
    → get n (q ++ ((i, v) ∷ [])) ≡ (if str_eq i n then some v else none)
get-snoc n i v [] h = refl
get-snoc n i v ((j, e) ∷ q) h = ground (arith, eq_iff j n, get-snoc n i v q)

pub Distinct-snoc :
    (n : String) (v : ℕ) (q : Queue) → Distinct q → get n q ≡ none → Distinct (q ++ ((n, v) ∷ []))
Distinct-snoc n v [] d h = (refl, tt)
Distinct-snoc n v ((j, e) ∷ q) d h =
    ground (arith, eq_iff j n, eq_iff n j, get-snoc j n v q d.0, Distinct-snoc n v q d.1)

-- ===== src/Auth/Replays.antt =====
-- Over any sequence of observations: the cache stays within its capacity, and refuses a replay.
use gemot.Prelude.{
  ℕ, suc, ◌+◌, ◌≤◌, ◌<◌, ◌≡◌, ◌⊎◌, inl, inr, refl, sym, subst, ap, ◌∙◌, some, List, [], ◌∷◌, ◌++◌,
  String, str_eq, string_key, get, length, length-append, arith, if◌then◌else◌, Option-cases, All,
}
use text.Mathlib.TextEquality.{eq_iff}
use gemot.Prelude.Outcomes.{Outcome, ok, err}
use gemot.Auth.Replay.{MemoryNonceCache, Error, nonce_replayed, new_memory_nonce_cache, observe}
use gemot.Auth.Nonces.{Queue, Distinct, drop_expired, make_room, join_queue, enqueue, holding}
use gemot.Auth.Observed.{observe-enqueue}

-- Observations of nonces at times, one after the other.
abbrev pub Observations : Type 0
Observations = List (String × ℕ)

unfoldable pub observe_all : Observations → MemoryNonceCache → MemoryNonceCache
observe_all [] m = m
observe_all ((n, now) ∷ os) m = observe_all os (observe n now m).1

enqueue_all : ℕ → ℕ → Observations → Queue → Queue
enqueue_all t c [] q = q
enqueue_all t c ((n, now) ∷ os) q = enqueue_all t c os (enqueue t c n now q).1

observe_all-enqueue_all :
    (t c : ℕ) (os : Observations) (q : Queue)
    → Distinct q
    → (observe_all os (holding t c q) ≡ holding t c (enqueue_all t c os q))
      × Distinct (enqueue_all t c os q)
unfolding observe_all enqueue_all
observe_all-enqueue_all t c [] q d = (refl, d)
observe_all-enqueue_all t c ((n, now) ∷ os) q d =
    let (e, d') = observe-enqueue t c n now q d in
    let (rest, d'') = observe_all-enqueue_all t c os (enqueue t c n now q).1 d' in
    (ap (λ (r : Outcome Error (Unit {0}) × MemoryNonceCache). observe_all os r.1) e ∙ rest, d'')

drop_expired-le : (now : ℕ) (q : Queue) → length (drop_expired now q) ≤ length q
unfolding drop_expired
drop_expired-le now [] = omega arith
drop_expired-le now (e ∷ q) = ground (arith, drop_expired-le now q)

join_queue-le :
    (t c : ℕ) (n : String) (now : ℕ) (q : Queue)
    → 0 < c
    → length q ≤ c
    → length (join_queue t c n now q).1 ≤ c
unfolding join_queue make_room
join_queue-le t c n now [] p h = ground arith
join_queue-le t c n now (e ∷ q) p h =
    ground (arith, length-append (e ∷ q) ((n, now + t) ∷ []), length-append q ((n, now + t) ∷ []))

enqueue_all-le :
    (t c : ℕ) (os : Observations) (q : Queue)
    → 0 < c
    → length q ≤ c
    → length (enqueue_all t c os q) ≤ c
unfolding enqueue_all enqueue
enqueue_all-le t c [] q p h = h
enqueue_all-le t c ((n, now) ∷ os) q p h =
    let small = drop_expired-le now q in
    enqueue_all-le t c os _ p (join_queue-le t c n now (drop_expired now q) p (omega arith))

-- The entry of n, with fewer than k entries after it.
abbrev Held : String → ℕ → ℕ → Queue → Type 0
Held n e k [] = ⊥
Held n e k ((j, x) ∷ q) = ((j ≡ n) × (x ≡ e) × (length q < k)) ⊎ Held n e k q

Held-drop_expired :
    (n : String) (e k now : ℕ) (q : Queue)
    → now < e
    → Held n e k q
    → Held n e k (drop_expired now q)
unfolding drop_expired
Held-drop_expired n e k now [] lt h = elim h [ ]
Held-drop_expired n e k now ((j, x) ∷ q) lt (inl (a, b, c)) = ground arith
Held-drop_expired n e k now ((j, x) ∷ q) lt (inr h) =
    ground (arith, Held-drop_expired n e k now q lt h)

Held-snoc :
    (n : String) (e k : ℕ) (x : String × ℕ) (q : Queue)
    → Held n e k q
    → Held n e (suc k) (q ++ (x ∷ []))
Held-snoc n e k x [] h = elim h [ ]
Held-snoc n e k x ((j, y) ∷ q) (inl (a, b, c)) =
    inl (a, b, omega (arith, length-append {0} q (x ∷ [])))
Held-snoc n e k x ((j, y) ∷ q) (inr h) = inr (Held-snoc n e k x q h)

Held-suc : (n : String) (e k : ℕ) (q : Queue) → Held n e k q → Held n e (suc k) q
Held-suc n e k [] h = elim h [ ]
Held-suc n e k ((j, y) ∷ q) (inl (a, b, c)) = inl (a, b, omega arith)
Held-suc n e k ((j, y) ∷ q) (inr h) = inr (Held-suc n e k q h)

Held-make_room :
    (n : String) (e k c : ℕ) (q : Queue) → k < c → Held n e k q → Held n e k (make_room c q)
unfolding make_room
Held-make_room n e k c [] lt h = elim h [ ]
Held-make_room n e k c ((j, y) ∷ q) lt (inl (a, b, d)) = ground arith
Held-make_room n e k c ((j, y) ∷ q) lt (inr h) = ground arith

Held-join_queue :
    (n : String) (e k t c : ℕ) (i : String) (now : ℕ) (q : Queue)
    → k < c
    → Held n e k q
    → Held n e (suc k) (join_queue t c i now q).1
unfolding join_queue
Held-join_queue n e k t c i now q lt h = elim (Option-cases (get i q)) [
  | inl new ↦
      rw (new, join_queue)
        (Held-snoc n e k (i, now + t) (make_room c q) (Held-make_room n e k c q lt h))
  | inr (x, old) ↦ rw (old, join_queue) (Held-suc n e k q h)
]

Held-get : (n : String) (e k : ℕ) (q : Queue) → Held n e k q → (x : ℕ) × (get n q ≡ some x)
Held-get n e k [] h = elim h [ ]
Held-get n e k ((j, y) ∷ q) (inl (a, b, d)) = (y, ground (arith, eq_iff j n))
Held-get n e k ((j, y) ∷ q) (inr h) =
    let (x, found) = Held-get n e k q h in (if str_eq j n then y else x, ground arith)

Held-enqueue_all :
    (n : String) (e k t c : ℕ) (os : Observations) (q : Queue)
    → All (λ o. o.1 < e) os
    → k + length os ≤ c
    → Held n e k q
    → Held n e (k + length os) (enqueue_all t c os q)
unfolding enqueue_all enqueue
Held-enqueue_all n e k t c [] q early few h = subst (λ i. Held n e i q) (omega arith) h
Held-enqueue_all n e k t c ((i, now) ∷ os) q early few h =
    let joined =
      Held-join_queue n e k t c i now (drop_expired now q) (omega arith)
        (Held-drop_expired n e k now q early.0 h) in
    subst (λ l. Held n e l (enqueue_all t c os (enqueue t c i now q).1)) (omega arith)
      (Held-enqueue_all n e (suc k) t c os _ early.1 (omega arith) joined)

Held-joined :
    (n : String) (t c now : ℕ) (q : Queue)
    → (join_queue t c n now q).0 ≡ ok tt
    → Held n (now + t) 1 (join_queue t c n now q).1
unfolding join_queue
Held-joined n t c now q h = elim (Option-cases (get n q)) [
  | inl new ↦ rw (new, join_queue) (Held-last (make_room c q))
  | inr (x, old) ↦ absurd (replayed x old h)
]
  where
    Held-last : (q : Queue) → Held n (now + t) 1 (q ++ ((n, now + t) ∷ []))
    Held-last [] = inl (refl, refl, omega arith)
    Held-last (e ∷ q) = inr (Held-last q)

    replayed : (x : ℕ) → get n q ≡ some x → (join_queue t c n now q).0 ≡ ok tt → ⊥
    replayed x old h = ground arith

-- From an empty cache, any observations whatever leave at most its capacity of nonces in it.
pub observe_all-le_capacity :
    (ttl capacity : ℕ) (os : Observations)
    → length (observe_all os (new_memory_nonce_cache ttl capacity)).seen
      ≤ (new_memory_nonce_cache ttl capacity).capacity
unfolding new_memory_nonce_cache
observe_all-le_capacity ttl capacity os =
    let t = (new_memory_nonce_cache ttl capacity).ttl in
    let c = (new_memory_nonce_cache ttl capacity).capacity in
    let (e, d) = observe_all-enqueue_all t c os [] tt in
    rw e (enqueue_all-le t c os [] (ground arith) (ground arith))

abbrev Refuses : String → ℕ → ℕ → Observations → MemoryNonceCache → Type 0
Refuses n now later between m =
    (observe n now m).0 ≡ ok tt
    → All (λ o. o.1 < now + m.ttl) between
    → length between < m.capacity
    → later < now + m.ttl
    → (observe n later (observe_all between (observe n now m).1)).0 ≡ err nonce_replayed

enqueue_replay :
    (n : String) (e k t c now : ℕ) (q : Queue)
    → now < e
    → Held n e k q
    → (enqueue t c n now q).0 ≡ err nonce_replayed
unfolding enqueue join_queue
enqueue_replay n e k t c now q lt h =
    let (x, found) = Held-get n e k (drop_expired now q) (Held-drop_expired n e k now q lt h) in
    rw (found, join_queue)

Held-enqueued :
    (n : String) (t c now : ℕ) (q : Queue)
    → (enqueue t c n now q).0 ≡ ok tt
    → Held n (now + t) 1 (enqueue t c n now q).1
unfolding enqueue
Held-enqueued n t c now q h = Held-joined n t c now (drop_expired now q) h

Refuses-holding :
    (n : String) (now later : ℕ) (between : Observations) (t c : ℕ) (q : Queue)
    → Distinct q
    → Refuses n now later between (holding t c q)
Refuses-holding n now later between t c q d accepted early few soon =
    let (e, d') = observe-enqueue t c n now q d in
    let q' = (enqueue t c n now q).1 in
    let (rest, d'') = observe_all-enqueue_all t c between q' d' in
    let held =
      Held-enqueued n t c now q
        (sym (ap (λ (r : Outcome Error (Unit {0}) × MemoryNonceCache). r.0) e) ∙ accepted) in
    let kept = Held-enqueue_all n (now + t) 1 t c between q' early (omega arith) held in
    let last = (observe-enqueue t c n later (enqueue_all t c between q') d'').0 in
    ap
      (λ (r : Outcome Error (Unit {0}) × MemoryNonceCache).
        (observe n later (observe_all between r.1)).0)
      e
    ∙ ap (λ m. (observe n later m).0) rest
    ∙ ap (λ (r : Outcome Error (Unit {0}) × MemoryNonceCache). r.0) last
    ∙ enqueue_replay n (now + t) (1 + length between) t c later (enqueue_all t c between q') soon
        kept

-- A nonce that a cache accepted is refused as a replay before its time to live is over, if all
-- observations in between come before then, and are fewer than the capacity. The cache is one that
-- any observations led to.
pub replay_refused :
    (ttl capacity : ℕ) (before between : Observations) (n : String) (now later : ℕ)
    (m : MemoryNonceCache)
    → m ≡ observe_all before (new_memory_nonce_cache ttl capacity)
    → (observe n now m).0 ≡ ok tt
    → All (λ o. o.1 < now + m.ttl) between
    → length between < m.capacity
    → later < now + m.ttl
    → (observe n later (observe_all between (observe n now m).1)).0 ≡ err nonce_replayed
unfolding new_memory_nonce_cache
replay_refused ttl capacity before between n now later m reached =
    let t = (new_memory_nonce_cache ttl capacity).ttl in
    let c = (new_memory_nonce_cache ttl capacity).capacity in
    let (e, d) = observe_all-enqueue_all t c before [] tt in
    subst (Refuses n now later between) (sym (reached ∙ e))
      (Refuses-holding n now later between t c (enqueue_all t c before []) d)

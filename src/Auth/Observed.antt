-- ===== src/Auth/Observed.antt =====
-- MemoryNonceCache.Observe as a bounded queue, and what that means for replays.
use gemot.Prelude.{
  ℕ, ◌+◌, ◌≡◌, inl, inr, refl, ap, ◌∙◌, none, [], ◌∷◌, ◌++◌, String, string_key, str_eq_refl, get,
  arith, delete-absent, put-absent, Option-cases,
}
use mathlib.Core.List.{map-append}
use gemot.Auth.Replay.{observe, admit, sweep_locked, evict, remember}
use gemot.Auth.Nonces.{
  Queue, Distinct, drop_expired, make_room, enqueue, join_queue, holding, drop_expired-Distinct,
  sweep-drop_expired, make_room-get, make_room-Distinct, Distinct-snoc,
}

sweep_locked-holding :
    (t c now : ℕ) (q : Queue)
    → Distinct q
    → sweep_locked now (holding t c q) ≡ holding t c (drop_expired now q)
unfolding sweep_locked
sweep_locked-holding t c now q d = rw (sweep-drop_expired now q d) refl

evict-holding :
    (t c : ℕ) (q : Queue) → Distinct q → evict (holding t c q) ≡ holding t c (make_room c q)
unfolding evict make_room
evict-holding t c [] d = ground arith
evict-holding t c ((j, e) ∷ q) d = ground (arith, str_eq_refl j, delete-absent j q d.0)

remember-holding :
    (t c now : ℕ) (n : String) (q : Queue)
    → get n q ≡ none
    → remember n now (holding t c q) ≡ holding t c (q ++ ((n, now + t) ∷ []))
unfolding remember
remember-holding t c now n q h =
    rw (put-absent n (now + t) q h)
      (rw (map-append (λ (e : String × ℕ). e.0) q ((n, now + t) ∷ [])) refl)

admit-holding :
    (t c : ℕ) (n : String) (now : ℕ) (q : Queue)
    → Distinct q
    → admit n now (holding t c q)
      ≡ ((join_queue t c n now q).0, holding t c (join_queue t c n now q).1)
unfolding admit join_queue
admit-holding t c n now q d = elim (Option-cases (get n q)) [
  | inl new ↦
      rw (new, admit, join_queue)
        (rw (evict-holding t c q d)
          (rw (remember-holding t c now n (make_room c q) (make_room-get c n q new)) refl))
  | inr (e, old) ↦ rw (old, admit, join_queue) refl
]

join_queue-Distinct :
    (t c : ℕ) (n : String) (now : ℕ) (q : Queue) → Distinct q → Distinct (join_queue t c n now q).1
unfolding join_queue
join_queue-Distinct t c n now q d = elim (Option-cases (get n q)) [
  | inl new ↦
      rw (new, join_queue)
        (Distinct-snoc n (now + t) (make_room c q) (make_room-Distinct c q d)
          (make_room-get c n q new))
  | inr (e, old) ↦ rw (old, join_queue) d
]

-- On a cache that holds a queue of distinct nonces, Observe does what the bounded queue does, and
-- the nonces stay distinct.
pub observe-enqueue :
    (t c : ℕ) (n : String) (now : ℕ) (q : Queue)
    → Distinct q
    → (observe n now (holding t c q)
        ≡ ((enqueue t c n now q).0, holding t c (enqueue t c n now q).1))
      × Distinct (enqueue t c n now q).1
unfolding observe enqueue
observe-enqueue t c n now q d =
    let live = drop_expired-Distinct now q d in
    (
      ap (admit n now) (sweep_locked-holding t c now q d)
          ∙ admit-holding t c n now (drop_expired now q) live,
      join_queue-Distinct t c n now (drop_expired now q) live,
    )

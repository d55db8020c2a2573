-- ===== src/Payments/RateLimiter/Bound.antt =====
-- A rate limiter admits at most its limit of requests in each window, and announces what it does.
use gemot.Prelude.{
  ℕ, suc, ◌-◌, ◌≤◌, ◌≡◌, ◌⊎◌, inl, inr, refl, sym, subst, ap, ◌∙◌, true, false, List, [], ◌∷◌, ◌++◌,
  String, str_eq, str_eq_refl, string_key, put, get-put, length, leb, if◌then◌else◌, arith,
  Bool-cases, leb→le, length-append,
}
use text.Mathlib.TextEquality.{eq_iff}
use mathlib.Core.List.{append_assoc, append-nil}
use gemot.Prelude.Unique.{Unique, put-Unique, remove_if-Unique, get-remove_if}
use gemot.Payments.RateLimiter.{
  RateLimiter, new_rate_limiter, prune, times_of, recent, allow, is_stale, cleanup, status,
}
use gemot.Payments.RateLimiter.Traces.{
  Event, request, cleans, time, admits, Forward, last_time, step, admitted, within,
}
use gemot.Payments.RateLimiter.Windows.{
  Kept, later-Kept, prune-Kept, stale-Kept, snoc-Kept, Kept-within,
}

-- What holds of a limiter after the history h of a key.
record Tracks (key : String) (last : ℕ) (h : List ℕ) (r : RateLimiter) : Type 0 where
  kept : Kept r.window r.limit last h (times_of key r)
  unique : Unique r.windows

times_of-put :
    (key j : String) (ts : List ℕ) (r : RateLimiter)
    → times_of key (record r { windows = put j ts r.windows })
      ≡ (if str_eq j key then ts else times_of key r)
unfolding times_of
times_of-put key j ts r = ground (arith, get-put j key ts r.windows)

times_of-cleanup :
    (key : String) (now : ℕ) (r : RateLimiter)
    → Unique r.windows
    → times_of key (cleanup now r)
      ≡ (if is_stale (now - r.window) (times_of key r) then [] else times_of key r)
unfolding times_of cleanup is_stale
times_of-cleanup key now r u =
    ground (arith, get-remove_if (is_stale (now - r.window)) key r.windows u)

put-Tracks :
    (key j : String) (now : ℕ) (h ts : List ℕ) (r : RateLimiter)
    → Unique r.windows
    → Kept r.window r.limit now h (if str_eq j key then ts else times_of key r)
    → Tracks key now h (record r { windows = put j ts r.windows })
put-Tracks key j now h ts r u k = record {
  kept = subst (Kept r.window r.limit now h) (sym (times_of-put key j ts r)) k;
  unique = put-Unique j ts r.windows u;
}

module _ (key : String) (last now : ℕ) (h : List ℕ) (r : RateLimiter) (forward : last ≤ now) where
  cleans-Tracks : Tracks key last h r → Tracks key now h (cleanup now r)
  unfolding cleanup
  cleans-Tracks t = record {
    kept =
        subst (Kept r.window r.limit now h) (sym (times_of-cleanup key now r t.unique))
          (elim (Bool-cases (is_stale (now - r.window) (times_of key r))) [
            | inl old ↦
                rw old (stale-Kept r.window r.limit last now h (times_of key r) forward t.kept old)
            | inr new ↦
                rw new (later-Kept r.window r.limit last now h (times_of key r) forward t.kept)
          ]);
    unique = remove_if-Unique (is_stale (now - r.window)) r.windows t.unique;
  }

  -- A request for the key prunes its window, and joins it if there is room.
  own-Tracks :
      Tracks key last h r
      → Tracks key now (h ++ (if (allow key now r).0 then now ∷ [] else [])) (allow key now r).1
  unfolding recent allow
  own-Tracks t =
      let p = recent key now r in
      let k = prune-Kept r.window r.limit last now h (times_of key r) forward t.kept in
      elim (Bool-cases (leb r.limit (length p))) [
        | inl full ↦
            rw (full, allow)
              (put-Tracks key key now (h ++ []) p r t.unique
                (rw (str_eq_refl key) (rw (append-nil h) k)))
        | inr room ↦
            rw (room, allow)
              (put-Tracks key key now (h ++ (now ∷ [])) (p ++ (now ∷ [])) r t.unique
                (rw (str_eq_refl key) (snoc-Kept r.window r.limit now h p k (ground arith))))
      ]

  other-Tracks :
      (j : String) → str_eq j key ≡ false → Tracks key last h r → Tracks key now h (allow j now r).1
  unfolding allow
  other-Tracks j other t =
      let p = recent j now r in
      let k = later-Kept r.window r.limit last now h (times_of key r) forward t.kept in
      elim (Bool-cases (leb r.limit (length p))) [
        | inl full ↦ rw (full, allow) (put-Tracks key j now h p r t.unique (rw other k))
        | inr room ↦
            rw (room, allow) (put-Tracks key j now h (p ++ (now ∷ [])) r t.unique (rw other k))
      ]

step-Tracks :
    (key : String) (last : ℕ) (e : Event) (h : List ℕ) (r : RateLimiter)
    → last ≤ time e
    → Tracks key last h r
    → Tracks key (time e) (h ++ admits key e r) (step e r)
unfolding step admits
step-Tracks key last (cleans now) h r f t = rw (append-nil h) (cleans-Tracks key last now h r f t)
step-Tracks key last (request j now) h r f t = elim (Bool-cases (str_eq j key)) [
  | inl own ↦ rw own (
      subst
        (λ j. Tracks key now (h ++ (if (allow j now r).0 then now ∷ [] else [])) (allow j now r).1)
        (sym ((eq_iff j key).0 own)) (own-Tracks key last now h r f t))
  | inr other ↦ rw other (rw (append-nil h) (other-Tracks key last now h r f j other t))
]

step-limits :
    (e : Event) (r : RateLimiter) → ((step e r).limit ≡ r.limit) × ((step e r).window ≡ r.window)
unfolding step allow cleanup
step-limits e r = ground arith

run-within :
    (key : String) (last : ℕ) (es : List Event) (h : List ℕ) (r : RateLimiter) (now : ℕ)
    → Forward last es
    → last_time last es ≤ now
    → Tracks key last h r
    → length (within r.window now (h ++ admitted key es r)) ≤ r.limit
unfolding admitted
run-within key last [] h r now f l t = rw (append-nil h) (
    Kept-within r.window r.limit now h (times_of key r)
      (later-Kept r.window r.limit last now h (times_of key r) l t.kept))
run-within key last (e ∷ es) h r now f l t =
    let (limit, window) = step-limits e r in
    let rest =
      run-within key (time e) es (h ++ admits key e r) (step e r) now f.1 l
        (step-Tracks key last e h r f.0 t) in
    rw (sym (append_assoc h (admits key e r) (admitted key es (step e r)))) (
      subst
        (λ w. length (within w now ((h ++ admits key e r) ++ admitted key es (step e r))) ≤ r.limit)
        window
        (subst
          (λ b.
            length
              (within (step e r).window now ((h ++ admits key e r) ++ admitted key es (step e r)))
            ≤ b)
          limit rest))

-- Over any requests, for this key and for others, and cleanups, with a clock that does not go back:
-- of the requests for a key, at most the limit are let through in the window that ends at the last
-- event or later.
pub admitted-le_limit :
    (key : String) (limit window : ℕ) (es : List Event) (now : ℕ)
    → Forward 0 es
    → last_time 0 es ≤ now
    → length (within window now (admitted key es (new_rate_limiter limit window))) ≤ limit
unfolding new_rate_limiter times_of
admitted-le_limit key limit window es now f l =
    run-within key 0 es [] (new_rate_limiter limit window) now f l (record {
      kept = record { old = []; split = refl; gone = tt; climbs = omega arith; few = omega arith };
      unique = tt;
    })

prune_idem : (c : ℕ) (ts : List ℕ) → prune c (prune c ts) ≡ prune c ts
unfolding prune
prune_idem c [] = refl
prune_idem c (t ∷ ts) = ground (arith, prune_idem c ts)

prune-snoc :
    (c now : ℕ) (ts : List ℕ)
    → c ≤ now
    → prune c (prune c ts ++ (now ∷ [])) ≡ prune c ts ++ (now ∷ [])
unfolding prune
prune-snoc c now [] h = ground arith
prune-snoc c now (t ∷ ts) h = ground (arith, prune-snoc c now ts h)

recent-put :
    (key : String) (now : ℕ) (ts : List ℕ) (r : RateLimiter)
    → recent key now (record r { windows = put key ts r.windows }) ≡ prune (now - r.window) ts
unfolding recent
recent-put key now ts r =
    ap (prune (now - r.window)) (times_of-put key key ts r ∙ (rw (str_eq_refl key)))

-- At one time, Status announces that requests remain exactly if Allow lets the next one through.
-- After an admitted request it announces one fewer, and after a refused one still none.
pub status-allow :
    (key : String) (now : ℕ) (r : RateLimiter)
    → (((allow key now r).0 ≡ true)
        × ((status key now r).0 ≡ suc (status key now (allow key now r).1).0))
      ⊎ (((allow key now r).0 ≡ false)
          × ((status key now r).0 ≡ 0)
          × ((status key now (allow key now r).1).0 ≡ 0))
unfolding allow status recent
status-allow key now r =
    let p = recent key now r in
    let again = recent-put key now p r ∙ prune_idem (now - r.window) (times_of key r) in
    let joined =
      recent-put key now (p ++ (now ∷ [])) r
      ∙ prune-snoc (now - r.window) now (times_of key r) (omega arith) in
    elim (Bool-cases (leb r.limit (length p))) [
      | inl full ↦ inr (
        rw (full, allow) refl,
        omega (arith, leb→le r.limit (length p) full),
        rw (full, allow) (rw again (omega (arith, leb→le r.limit (length p) full))),
      )
      | inr room ↦ inl (
        rw (room, allow) refl,
        rw (room, allow)
            (rw joined
              (ground (arith, length-append (prune (now - r.window) (times_of key r)) (now ∷ [])))),
      )
    ]

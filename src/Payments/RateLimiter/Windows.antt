-- ===== src/Payments/RateLimiter/Windows.antt =====
-- The times that a rate limiter keeps for a key are the end of the history of what it admitted.
use gemot.Prelude.{
  ℕ, ◌-◌, ◌≤◌, ◌<◌, ◌≡◌, refl, sym, ap, ◌∙◌, true, List, [], ◌∷◌, ◌++◌, length, length-append, ltb,
  if◌then◌else◌, arith, All, All-append, All-map,
}
use mathlib.Core.List.{append_assoc, append-nil}
use gemot.Payments.RateLimiter.{prune, is_stale}
use gemot.Payments.RateLimiter.Traces.{within}

-- From lo to hi, never falling.
abbrev pub Climbs : ℕ → List ℕ → ℕ → Type 0
Climbs lo [] hi = lo ≤ hi
Climbs lo (t ∷ ts) hi = (lo ≤ t) × Climbs t ts hi

Climbs-snoc :
    (lo hi now : ℕ) (ts : List ℕ) → Climbs lo ts hi → hi ≤ now → Climbs lo (ts ++ (now ∷ [])) now
Climbs-snoc lo hi now [] c h = (omega arith, omega arith)
Climbs-snoc lo hi now (t ∷ ts) c h = (c.0, Climbs-snoc t hi now ts c.1 h)

Climbs-below : (lo lo' hi : ℕ) (ts : List ℕ) → lo' ≤ lo → Climbs lo ts hi → Climbs lo' ts hi
Climbs-below lo lo' hi [] h c = omega arith
Climbs-below lo lo' hi (t ∷ ts) h c = (omega arith, c.1)

Climbs-later : (lo hi now : ℕ) (ts : List ℕ) → hi ≤ now → Climbs lo ts hi → Climbs lo ts now
Climbs-later lo hi now [] h c = omega arith
Climbs-later lo hi now (t ∷ ts) h c = (c.0, Climbs-later t hi now ts h c.1)

prune-Climbs : (lo hi c : ℕ) (ts : List ℕ) → Climbs lo ts hi → Climbs lo (prune c ts) hi
unfolding prune
prune-Climbs lo hi c [] h = h
prune-Climbs lo hi c (t ∷ ts) h =
    ground (arith, prune-Climbs t hi c ts h.1, Climbs-below t lo hi (prune c ts) h.0)

prune-le : (c : ℕ) (ts : List ℕ) → length (prune c ts) ≤ length ts
unfolding prune
prune-le c [] = omega arith
prune-le c (t ∷ ts) = ground (arith, prune-le c ts)

-- What prune drops lies before the cutoff.
pruned : (c : ℕ) (ts : List ℕ) → (old : List ℕ) × (ts ≡ old ++ prune c ts) × All (λ t. t < c) old
unfolding prune
pruned c [] = ([], refl, tt)
pruned c (t ∷ ts) =
    let (old, e, a) = pruned c ts in (if ltb t c then t ∷ old else [], ground arith, ground arith)

is_stale-All :
    (lo hi c : ℕ) (ts : List ℕ) → Climbs lo ts hi → is_stale c ts ≡ true → All (λ t. t < c) ts
unfolding is_stale
is_stale-All lo hi c [] h s = tt
is_stale-All lo hi c (t ∷ []) h s = ground arith
is_stale-All lo hi c (t ∷ (u ∷ ts)) h s =
    let rest = is_stale-All t hi c (u ∷ ts) h.1 s in (omega arith, rest)

-- Of the history h, the times ts are kept; those before them lie outside the window.
pub record Kept (window limit last : ℕ) (h ts : List ℕ) : Type 0 where
  pub old : List ℕ
  pub split : h ≡ old ++ ts
  pub gone : All (λ t. t < last - window) old
  pub climbs : Climbs 0 ts last
  pub few : length ts ≤ limit

module _ (window limit last now : ℕ) (h ts : List ℕ) (forward : last ≤ now) where
  older : (old : List ℕ) → All (λ t. t < last - window) old → All (λ t. t < now - window) old
  older old a = All-map (λ t lt. omega arith) old a

  pub later-Kept : Kept window limit last h ts → Kept window limit now h ts
  later-Kept k = record {
    old = k.old;
    split = k.split;
    gone = older k.old k.gone;
    climbs = Climbs-later 0 last now ts forward k.climbs;
    few = k.few;
  }

  pub prune-Kept : Kept window limit last h ts → Kept window limit now h (prune (now - window) ts)
  prune-Kept k =
      let (old, e, a) = pruned (now - window) ts in
      record {
        old = k.old ++ old;
        split =
            k.split
            ∙ ap (λ l. k.old ++ l) e
            ∙ sym (append_assoc k.old old (prune (now - window) ts));
        gone = All-append (λ t. t < now - window) k.old old (older k.old k.gone) a;
        climbs = prune-Climbs 0 now (now - window) ts (Climbs-later 0 last now ts forward k.climbs);
        few = omega (arith, k.few, prune-le (now - window) ts);
      }

  pub stale-Kept :
      Kept window limit last h ts → is_stale (now - window) ts ≡ true → Kept window limit now h []
  stale-Kept k s = record {
    old = k.old ++ ts;
    split = k.split ∙ sym (append-nil (k.old ++ ts));
    gone =
        All-append (λ t. t < now - window) k.old ts (older k.old k.gone)
          (is_stale-All 0 last (now - window) ts k.climbs s);
    climbs = omega arith;
    few = omega arith;
  }

pub snoc-Kept :
    (window limit now : ℕ) (h ts : List ℕ)
    → Kept window limit now h ts
    → length ts < limit
    → Kept window limit now (h ++ (now ∷ [])) (ts ++ (now ∷ []))
snoc-Kept window limit now h ts k room = record {
  old = k.old;
  split = ap (λ l. l ++ (now ∷ [])) k.split ∙ append_assoc k.old ts (now ∷ []);
  gone = k.gone;
  climbs = Climbs-snoc 0 now now ts k.climbs (omega arith);
  few = omega (arith, length-append {0} ts (now ∷ []));
}

within-append :
    (w now : ℕ) (old ts : List ℕ)
    → All (λ t. t < now - w) old
    → within w now (old ++ ts) ≡ within w now ts
unfolding within
within-append w now [] ts a = refl
within-append w now (t ∷ old) ts a = ground (arith, within-append w now old ts a.1)

within-le : (w now : ℕ) (ts : List ℕ) → length (within w now ts) ≤ length ts
unfolding within
within-le w now [] = omega arith
within-le w now (t ∷ ts) = ground (arith, within-le w now ts)

pub Kept-within :
    (window limit now : ℕ) (h ts : List ℕ)
    → Kept window limit now h ts
    → length (within window now h) ≤ limit
Kept-within window limit now h ts k =
    rw (k.split) (
      rw (within-append window now k.old ts k.gone) (omega (arith, within-le window now ts, k.few)))

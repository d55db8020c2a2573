-- ===== src/Prelude/Selected.antt =====
-- How many values of a map pass a test, after an assignment and after a loop that deletes.
use Prim.Native.Nat.{◌+◌, ◌≤◌}
use mathlib.Core.Path.{◌≡◌, refl}
use mathlib.Core.Logic.{inl, inr}
use mathlib.Core.Bool.{Bool, true}
use mathlib.Core.List.{[], ◌∷◌}
use native.Mathlib.Omega.{arith}
use gemot.Prelude.Tests.{if◌then◌else◌, Bool-cases}
use gemot.Prelude.Lists.{length}
use gemot.Prelude.Maps.{Key, Map, put, remove_if, map_values, select}

module _ {ℓ} {K V : Type ℓ} ⦃k : Key K⦄ (q : V → Bool) where
  pub select-put_le :
      (i : K) (v : V) (m : Map K V)
      → length (select q (put i v m)) ≤ length (select q m) + (if q v then 1 else 0)
  select-put_le i v [] = ground arith
  select-put_le i v ((j, w) ∷ m) = ground (arith, select-put_le i v m)

  pub select-remove_if_le :
      (p : V → Bool) (m : Map K V) → length (select q (remove_if p m)) ≤ length (select q m)
  select-remove_if_le p [] = omega arith
  select-remove_if_le p ((j, w) ∷ m) = ground (arith, select-remove_if_le p m)

  pub select-remove_if_none :
      (p : V → Bool) (m : Map K V)
      → ((v : V) → q v ≡ true → p v ≡ true)
      → length (select q (remove_if p m)) ≡ 0
  select-remove_if_none p [] h = omega arith
  select-remove_if_none p ((j, w) ∷ m) h = ground (arith, h w, select-remove_if_none p m h)

  pub select-map_values_le :
      (f : V → V) (m : Map K V)
      → ((v : V) → q (f v) ≡ true → q v ≡ true)
      → length (select q (map_values f m)) ≤ length (select q m)
  select-map_values_le f [] h = omega arith
  select-map_values_le f ((j, w) ∷ m) h = ground (arith, h w, select-map_values_le f m h)

  -- A value that replaces those of its kind leaves at most one of that kind, and no more of others.
  pub select-upsert_le :
      (p : V → Bool) (i : K) (v : V) (m : Map K V)
      → (q v ≡ true → (w : V) → q w ≡ true → p w ≡ true)
      → length (select q m) ≤ 1
      → length (select q (put i v (remove_if p m))) ≤ 1
  select-upsert_le p i v m kind one = elim (Bool-cases (q v)) [
    | inl own ↦
        ground (arith, select-put_le i v (remove_if p m), select-remove_if_none p m (kind own))
    | inr other ↦ ground (arith, select-put_le i v (remove_if p m), select-remove_if_le p m)
  ]

  -- Where no value passes, an assignment of one that does makes it the only one.
  pub select-put_only :
      (i : K) (v : V) (m : Map K V)
      → length (select q m) ≡ 0
      → q v ≡ true
      → select q (put i v m) ≡ v ∷ []
  select-put_only i v [] none' own = ground arith
  select-put_only i v ((j, w) ∷ m) none' own = ground (arith, select-put_only i v m, select-none m)
    where
      select-none : (m : Map K V) → length (select q m) ≡ 0 → select q m ≡ []
      select-none [] h = refl
      select-none ((j, w) ∷ m) h = ground (arith, select-none m)

-- ===== src/Prelude/Unique.antt =====
-- Maps in which no key stands twice, as those that Go's operations make.
use mathlib.Core.Path.{◌≡◌, refl}
use mathlib.Core.Bool.{Bool}
use mathlib.Core.List.{[], ◌∷◌}
use mathlib.Core.Option.{none, some}
use native.Mathlib.Omega.{arith}
use gemot.Prelude.Tests.{if◌then◌else◌}
use gemot.Prelude.Maps.{Key, Map, get, put, delete, remove_if, get-put, get-delete}

module _ {ℓ} {K V : Type ℓ} ⦃k : Key K⦄ where
  abbrev pub Unique : Map K V → Type ℓ
  Unique [] = Unit
  Unique ((i, _) ∷ m) = (get i m ≡ none) × Unique m

  pub put-Unique : (i : K) (v : V) (m : Map K V) → Unique m → Unique (put i v m)
  put-Unique i v [] u = (refl, tt)
  put-Unique i v ((j, w) ∷ m) u =
      ground (arith, k.same_iff j i, k.same_iff i j, get-put i j v m, put-Unique i v m u.1)

  pub get-remove_if-none :
      (p : V → Bool) (i : K) (m : Map K V) → get i m ≡ none → get i (remove_if p m) ≡ none
  get-remove_if-none p i [] h = refl
  get-remove_if-none p i ((j, w) ∷ m) h = ground (arith, get-remove_if-none p i m)

  pub remove_if-Unique : (p : V → Bool) (m : Map K V) → Unique m → Unique (remove_if p m)
  remove_if-Unique p [] u = tt
  remove_if-Unique p ((j, w) ∷ m) u =
      ground (arith, get-remove_if-none p j m, remove_if-Unique p m u.1)

  pub get-remove_if :
      (p : V → Bool) (i : K) (m : Map K V)
      → Unique m
      → get i (remove_if p m)
        ≡ elim (get i m) [ none ↦ none | some v ↦ if p v then none else some v ]
  get-remove_if p i [] u = refl
  get-remove_if p i ((j, w) ∷ m) u =
      ground (arith, k.same_iff j i, get-remove_if-none p i m, get-remove_if p i m u.1)

  pub delete-Unique : (i : K) (m : Map K V) → Unique m → Unique (delete i m)
  delete-Unique i [] u = tt
  delete-Unique i ((j, w) ∷ m) u = ground (arith, get-delete i j m, delete-Unique i m u.1)

-- ===== src/Prelude/Maps.antt =====
-- Go's maps as association lists: a key stands once, and an assignment keeps its place. Iteration
-- follows the order of insertion, where Go leaves the order open.
use Prim.Native.Nat.{ℕ}
use mathlib.Core.Path.{◌≡◌, refl}
use mathlib.Core.Logic.{◌↔◌}
use mathlib.Core.Bool.{Bool, true}
use mathlib.Core.List.{List, [], ◌∷◌, ◌++◌}
use mathlib.Core.Option.{Option, none, some}
use native.Mathlib.Omega.{arith}
use gemot.Prelude.Tests.{◌==◌, ==_iff, if◌then◌else◌}

-- The keys that a map may have: comparable values.
pub record Key {ℓ} (K : Type ℓ) : Type ℓ where
  pub same : K → K → Bool
  pub same_iff : (a b : K) → (same a b ≡ true) ↔ (a ≡ b)

instance abbrev pub nat_key : Key ℕ
nat_key = record { same = ◌==◌; same_iff = ==_iff }

abbrev pub Map {ℓ} : Type ℓ → Type ℓ → Type ℓ
Map K V = List (K × V)

module _ {ℓ} {K V : Type ℓ} ⦃k : Key K⦄ where
  -- v, ok := m[key]
  abbrev pub get : K → Map K V → Option V
  get key [] = none
  get key ((j, v) ∷ m) = if k.same j key then some v else get key m

  -- m[key] = v
  abbrev pub put : K → V → Map K V → Map K V
  put key v [] = (key, v) ∷ []
  put key v ((j, w) ∷ m) = if k.same j key then (key, v) ∷ m else (j, w) ∷ put key v m

  -- delete(m, key)
  abbrev pub delete : K → Map K V → Map K V
  delete key [] = []
  delete key ((j, v) ∷ m) = let rest = delete key m in if k.same j key then rest else (j, v) ∷ rest

  pub get-put :
      (i j : K) (v : V) (m : Map K V) → get j (put i v m) ≡ (if k.same i j then some v else get j m)
  get-put i j v [] = refl
  get-put i j v ((h, w) ∷ m) =
      ground (arith, k.same_iff h i, k.same_iff h j, k.same_iff i j, get-put i j v m)

  pub get-delete :
      (i j : K) (m : Map K V) → get j (delete i m) ≡ (if k.same i j then none else get j m)
  get-delete i j [] = ground arith
  get-delete i j ((h, w) ∷ m) =
      ground (arith, k.same_iff h i, k.same_iff h j, k.same_iff i j, get-delete i j m)

  -- Without the key, delete changes nothing and an assignment adds an entry at the end.
  pub delete-absent : (i : K) (m : Map K V) → get i m ≡ none → delete i m ≡ m
  delete-absent i [] h = refl
  delete-absent i ((j, w) ∷ m) h = ground (arith, delete-absent i m)

  pub put-absent : (i : K) (v : V) (m : Map K V) → get i m ≡ none → put i v m ≡ m ++ ((i, v) ∷ [])
  put-absent i v [] h = refl
  put-absent i v ((j, w) ∷ m) h = ground (arith, put-absent i v m)

-- A loop over a map that deletes the entries whose value passes a test.
abbrev pub remove_if {ℓ} : {K V : Type ℓ} → (V → Bool) → Map K V → Map K V
remove_if p [] = []
remove_if p (e ∷ m) = let rest = remove_if p m in if p e.1 then rest else e ∷ rest

-- A loop that appends the values that pass a test.
abbrev pub select {ℓ} : {K V : Type ℓ} → (V → Bool) → Map K V → List V
select p [] = []
select p (e ∷ m) = let rest = select p m in if p e.1 then e.1 ∷ rest else rest

-- A loop that writes through the pointers that are the map's values.
abbrev pub map_values {ℓ} : {K V : Type ℓ} → (V → V) → Map K V → Map K V
map_values f [] = []
map_values f ((key, v) ∷ m) = (key, f v) ∷ map_values f m

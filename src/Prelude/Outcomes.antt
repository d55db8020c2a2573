-- ===== src/Prelude/Outcomes.antt =====
-- What a Go call comes back with: a value, an error, or a panic. A method also comes back with its
-- receiver's new state, since what was written before a failure stays written.
use mathlib.Core.Path.{◌≡◌, refl}
use mathlib.Core.Logic.{◌⊎◌, inl, inr}
use mathlib.Core.Bool.{Bool, true, false}

pub data Outcome (E A : Type 0) : Type 0 where
  ok : A → Outcome E A
  err : E → Outcome E A
  panic : Outcome E A

-- if !b { return e }
abbrev pub require : {E : Type 0} → Bool → E → Outcome E (Unit {0})
require true e = ok tt
require false e = err e

-- A pure call, and the rest of the function.
infixl 5 ◌>>=◌ ◌>>◌
abbrev pub ◌>>=◌ : {E A B : Type 0} → Outcome E A → (A → Outcome E B) → Outcome E B
ok a >>= f = f a
err e >>= f = err e
panic >>= f = panic

abbrev pub ◌>>◌ : {E B : Type 0} → Outcome E (Unit {0}) → Outcome E B → Outcome E B
m >> k = m >>= λ _. k

-- To split on a computed outcome and keep the equation.
pub Outcome-cases :
    {E A : Type 0} (o : Outcome E A)
    → ((a : A) × (o ≡ ok a)) ⊎ ((e : E) × (o ≡ err e)) ⊎ (o ≡ panic)
Outcome-cases (ok a) = inl (a, refl)
Outcome-cases (err e) = inr (inl (e, refl))
Outcome-cases panic = inr (inr refl)

-- ===== src/Bft/Chain.antt =====
-- The walk along Parent pointers: Replica.extends of state.go.
pub mod Ancestry
use gemot.Prelude.{
  ℕ, zero, suc, Bool, true, false, Option, none, some, Map, nat_key, get, length, ◌==◌,
  if◌then◌else◌,
}
use gemot.Bft.Types.{Block, genesis_hash}

-- The loop `for cur != zero`; none means that the fuel ran out.
unfoldable pub walk : ℕ → Map ℕ Block → ℕ → ℕ → Option Bool
walk zero known ancestor cur = none
walk (suc fuel) known ancestor cur =
    if cur == genesis_hash
    then some false
    else if cur == ancestor
    then some true
    else elim (get cur known) [ none ↦ some false | some b ↦ walk fuel known ancestor b.parent ]

finished : Option Bool → Bool
finished none = false
finished (some b) = b

-- The fuel is one more than the number of known blocks.
unfoldable pub extends : Map ℕ Block → ℕ → ℕ → Bool
unfolding walk finished
extends known descendant ancestor =
    if ancestor == genesis_hash
    then true
    else finished (walk (suc (length known)) known ancestor descendant)

-- ===== src/Deliberation/Rollup.antt =====
-- internal/deliberation/service.go: PrincipalRollup, which says on whose behalf an agent took part.
pub mod Agreed
use gemot.Prelude.{
  Bool, true, not, ◌||◌, none, some, List, [], ◌∷◌, Map, String, str_eq, string_key, get, put,
  delete, if◌then◌else◌,
}
use gemot.Memory.Records.{Position}

-- What the loop keeps: principalOf and conflicted.
pub record Rollup : Type 0 where
  pub principal_of : Map String String
  pub conflicted : Map String Bool

unfoldable pub roll : Position → Rollup → Rollup
roll p r =
    if not p.principal_verified || str_eq p.on_behalf_of ""
    then r
    else elim (get p.agent_id r.conflicted) [
      | some _ ↦ r
      | none ↦ elim (get p.agent_id r.principal_of) [
        | none ↦ record r { principal_of = put p.agent_id p.on_behalf_of r.principal_of }
        | some existing ↦
            if str_eq existing p.on_behalf_of
            then record r { principal_of = put p.agent_id p.on_behalf_of r.principal_of }
            else record {
              principal_of = delete p.agent_id r.principal_of;
              conflicted = put p.agent_id true r.conflicted;
            }
      ]
    ]

unfoldable pub roll_all : Rollup → List Position → Rollup
unfolding roll
roll_all r [] = r
roll_all r (p ∷ positions) = roll_all (roll p r) positions

unfoldable pub principal_rollup : List Position → Map String String
unfolding roll_all
principal_rollup positions =
    (roll_all (record { principal_of = []; conflicted = [] }) positions).principal_of

-- ===== src/Deliberation/Rollup/Agreed.antt =====
-- PrincipalRollup against a description of its result that knows no loop.
use text.Mathlib.TextEquality.{eq_iff}
use gemot.Prelude.{
  ◌≡◌, refl, ◌⊎◌, inl, inr, Bool, true, not, ◌&&◌, Option, none, some, List, [], ◌∷◌, String,
  str_eq, string_key, get, arith, if◌then◌else◌, get-put, get-delete, Option-cases, str_eq_refl,
}
use gemot.Memory.Records.{Position}
use gemot.Deliberation.Rollup.{Rollup, roll, roll_all, principal_rollup}

-- The principals that the agent's verified positions name, in order.
abbrev pub claims : String → List Position → List String
claims agent [] = []
claims agent (p ∷ positions) =
    let rest = claims agent positions in
    if p.principal_verified && not (str_eq p.on_behalf_of "") && str_eq p.agent_id agent
    then p.on_behalf_of ∷ rest
    else rest

abbrev pub all_are : String → List String → Bool
all_are s [] = true
all_are s (t ∷ ts) = str_eq s t && all_are s ts

-- The text that all agree on, if there is one.
abbrev pub agreed : List String → Option String
agreed [] = none
agreed (s ∷ ts) = if all_are s ts then some s else none

-- What the claims to come make of what the loop has for an agent.
abbrev pending : Option String → Option Bool → List String → Option String
pending known (some _) later = none
pending none none later = agreed later
pending (some s) none later = agreed (s ∷ later)

-- A conflicted agent has no entry.
abbrev Apart : String → Rollup → Type 0
Apart agent r = (get agent r.conflicted ≡ none) ⊎ (get agent r.principal_of ≡ none)

roll-Apart : (agent : String) (p : Position) (r : Rollup) → Apart agent r → Apart agent (roll p r)
unfolding roll
roll-Apart agent p r apart = ground (
  arith,
  eq_iff p.agent_id agent,
  get-put p.agent_id agent p.on_behalf_of r.principal_of,
  get-put p.agent_id agent true r.conflicted,
  get-delete p.agent_id agent r.principal_of,
)

roll-pending :
    (agent : String) (p : Position) (ps : List Position) (r : Rollup)
    → Apart agent r
    → pending
        (get agent (roll p r).principal_of)
        (get agent (roll p r).conflicted)
        (claims agent ps)
      ≡ pending (get agent r.principal_of) (get agent r.conflicted) (claims agent (p ∷ ps))
unfolding roll
roll-pending agent p ps r apart = elim (Option-cases (get p.agent_id r.principal_of)) [
  | inl unknown ↦ ground (
    arith,
    eq_iff p.agent_id agent,
    str_eq_refl p.on_behalf_of,
    get-put p.agent_id agent p.on_behalf_of r.principal_of,
  )
  | inr (s, known) ↦ ground (
    arith,
    eq_iff p.agent_id agent,
    eq_iff s p.on_behalf_of,
    str_eq_refl p.on_behalf_of,
    get-put p.agent_id agent p.on_behalf_of r.principal_of,
    get-put p.agent_id agent true r.conflicted,
    get-delete p.agent_id agent r.principal_of,
  )
]

roll_all-pending :
    (agent : String) (ps : List Position) (r : Rollup)
    → Apart agent r
    → get agent (roll_all r ps).principal_of
      ≡ pending (get agent r.principal_of) (get agent r.conflicted) (claims agent ps)
unfolding roll_all
roll_all-pending agent [] r apart = ground arith
roll_all-pending agent (p ∷ ps) r apart =
    rw (roll_all-pending agent ps (roll p r) (roll-Apart agent p r apart))
      (roll-pending agent p ps r apart)

-- PrincipalRollup gives an agent the principal that all of its verified positions with a principal
-- name, and none if it has no such position or two of them differ, whatever their order.
pub principal_rollup-agreed :
    (agent : String) (positions : List Position)
    → get agent (principal_rollup positions) ≡ agreed (claims agent positions)
unfolding principal_rollup
principal_rollup-agreed agent positions =
    roll_all-pending agent positions (record { principal_of = []; conflicted = [] }) (inl refl)

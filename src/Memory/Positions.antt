-- ===== src/Memory/Positions.antt =====
-- internal/store/memory.go: the positions.
use gemot.Prelude.{
  ℕ, ◌+◌, Bool, true, false, not, ◌&&◌, ◌||◌, Option, none, some, List, [], ◌∷◌, Map, String,
  str_eq, string_key, get, put, select, remove_if, length, ltb, leb, ◌==◌, if◌then◌else◌,
}
use gemot.Prelude.Outcomes.{Outcome, ok, err}
use gemot.Prelude.Sorting.{sort_by}
use gemot.Memory.Records.{Position}
use gemot.Memory.State.{MemoryStore, Error, Method, position_not_found, or_default, or_now}

unfoldable pub create_position : String → ℕ → Position → MemoryStore → Method Position
create_position fresh now p m =
    let p' = record p { id = or_default fresh p.id; created_at = or_now now p.created_at } in
    (ok p', record m { positions = put p'.id p' m.positions })

-- Published positions of the deliberation, of the round if one is given.
unfoldable pub published_in : String → Option ℕ → Position → Bool
published_in id round p =
    str_eq p.deliberation_id id && elim round [ none ↦ true | some r ↦ p.round == r ] && not p.draft

unfoldable pub earlier_position : Position → Position → Bool
earlier_position a b = ltb a.created_at b.created_at

unfoldable pub get_positions : String → Option ℕ → MemoryStore → List Position
unfolding published_in earlier_position
get_positions id round m = sort_by earlier_position (select (published_in id round) m.positions)

unfoldable pub get_position_by_id : String → MemoryStore → Outcome Error Position
get_position_by_id id m = elim (get id m.positions) [
  | none ↦ err position_not_found
  | some p ↦ ok p
]

unfoldable pub count_published : String → Map String Position → ℕ
count_published id [] = 0
count_published id ((_, p) ∷ positions) =
    let n = count_published id positions in
    if str_eq p.deliberation_id id && not p.draft then n + 1 else n

unfoldable pub count_positions : String → MemoryStore → ℕ
unfolding count_published
count_positions id m = count_published id m.positions

-- The loop of CheckParticipantCap: the set of agents with a position, drafts included.
unfoldable pub unique_agents : String → Map String Bool → Map String Position → Map String Bool
unique_agents id agents [] = agents
unique_agents id agents ((_, p) ∷ positions) =
    unique_agents id (if str_eq p.deliberation_id id then put p.agent_id true agents else agents)
      positions

-- The flag that the loop sets.
unfoldable pub already_in : String → String → Map String Position → Bool
already_in id agent [] = false
already_in id agent ((_, p) ∷ positions) =
    (str_eq p.deliberation_id id && str_eq p.agent_id agent) || already_in id agent positions

unfoldable pub check_participant_cap : String → String → ℕ → MemoryStore → Bool × Bool
unfolding unique_agents already_in
check_participant_cap id agent max m =
    let inside = already_in id agent m.positions in
    if max == 0
    then (false, false)
    else (leb max (length (unique_agents id [] m.positions)) && not inside, inside)

unfoldable pub publish_position : String → MemoryStore → Method (Unit {0})
publish_position id m = elim (get id m.positions) [
  | none ↦ (err position_not_found, m)
  | some p ↦ (ok tt, record m { positions = put id (record p { draft = false }) m.positions })
]

unfoldable pub withdraw_positions : String → String → MemoryStore → MemoryStore
withdraw_positions id agent m = record m {
  positions = remove_if (λ p. str_eq p.deliberation_id id && str_eq p.agent_id agent) m.positions;
}

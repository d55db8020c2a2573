-- ===== src/Memory/Votes.antt =====
-- internal/store/memory.go: the votes, and the delegations of votes.
use gemot.Prelude.{
  ℕ, Bool, true, false, ◌&&◌, ◌||◌, some, List, [], ◌∷◌, String, str_eq, string_key, put, select,
  remove_if, map_values, ltb, if◌then◌else◌,
}
use gemot.Prelude.Outcomes.{ok}
use gemot.Prelude.Sorting.{sort_by}
use gemot.Memory.Records.{Position, Vote, Delegation}
use gemot.Memory.State.{MemoryStore, Method, or_default, or_now}
use gemot.Memory.Positions.{get_positions}

-- The votes of one agent on one position by one criterion.
unfoldable pub same_ballot : Vote → Vote → Bool
same_ballot v existing =
    str_eq existing.deliberation_id v.deliberation_id
    && str_eq existing.agent_id v.agent_id
    && str_eq existing.position_id v.position_id
    && str_eq existing.criterion_id v.criterion_id

unfoldable pub create_vote : String → ℕ → Vote → MemoryStore → Method Vote
unfolding same_ballot
create_vote fresh now v m =
    let v' = record v { id = or_default fresh v.id; created_at = or_now now v.created_at } in
    (ok v', record m { votes = put v'.id v' (remove_if (same_ballot v') m.votes) })

unfoldable pub earlier_vote : Vote → Vote → Bool
earlier_vote a b = ltb a.created_at b.created_at

unfoldable pub get_votes : String → MemoryStore → List Vote
unfolding earlier_vote
get_votes id m = sort_by earlier_vote (select (λ v. str_eq v.deliberation_id id) m.votes)

-- allowed[id], for the set of the positions' ids.
unfoldable pub among_positions : String → List Position → Bool
among_positions id [] = false
among_positions id (p ∷ positions) = str_eq p.id id || among_positions id positions

unfoldable pub get_votes_by_round : String → ℕ → MemoryStore → List Vote
unfolding earlier_vote among_positions
get_votes_by_round id round m =
    let positions = get_positions id (some round) m in
    sort_by earlier_vote
      (select (λ v. str_eq v.deliberation_id id && among_positions v.position_id positions) m.votes)

unfoldable pub delete_votes_by_agent : String → String → MemoryStore → MemoryStore
delete_votes_by_agent id agent m = record m {
  votes = remove_if (λ v. str_eq v.deliberation_id id && str_eq v.agent_id agent) m.votes;
}

unfoldable pub delegation_matches_from_agent : String → String → Delegation → Bool
delegation_matches_from_agent id agent d = str_eq d.deliberation_id id && str_eq d.from_agent agent

unfoldable pub create_delegation : String → ℕ → Delegation → MemoryStore → Method Delegation
unfolding delegation_matches_from_agent
create_delegation fresh now d m =
    let d' = record d {
      id = or_default fresh d.id;
      created_at = or_now now d.created_at;
      active = true;
    } in
    let others =
      remove_if (delegation_matches_from_agent d.deliberation_id d.from_agent) m.delegations in
    (ok d', record m { delegations = put d'.id d' others })

unfoldable pub revoke_delegation : String → String → MemoryStore → MemoryStore
unfolding delegation_matches_from_agent
revoke_delegation id agent m = record m {
  delegations =
      map_values
        (λ d. if delegation_matches_from_agent id agent d then record d { active = false } else d)
        m.delegations;
}

unfoldable pub earlier_delegation : Delegation → Delegation → Bool
earlier_delegation a b = ltb a.created_at b.created_at

unfoldable pub get_delegations : String → MemoryStore → List Delegation
unfolding earlier_delegation
get_delegations id m =
    sort_by earlier_delegation (select (λ d. str_eq d.deliberation_id id && d.active) m.delegations)

unfoldable pub delete_delegations_by_agent : String → String → MemoryStore → MemoryStore
unfolding delegation_matches_from_agent
delete_delegations_by_agent id agent m = record m {
  delegations = remove_if (delegation_matches_from_agent id agent) m.delegations;
}

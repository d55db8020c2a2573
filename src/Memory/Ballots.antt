-- ===== src/Memory/Ballots.antt =====
-- At most one vote for a ballot, and at most one delegation of an agent, whatever calls are made.
use gemot.Prelude.{
  ℕ, ◌≤◌, ◌≡◌, subst, str_eq_refl, true, false, ◌&&◌, List, [], ◌∷◌, String, str_eq, string_key,
  put, remove_if, select, length, if◌then◌else◌, arith,
}
use text.Mathlib.TextEquality.{eq_iff}
use gemot.Prelude.Outcomes.{ok}
use gemot.Prelude.Selected.{
  select-remove_if_le, select-map_values_le, select-upsert_le, select-put_only,
  select-remove_if_none,
}
use gemot.Memory.Records.{Vote, Delegation}
use gemot.Memory.State.{MemoryStore, new_memory_store, or_default, or_now}
use gemot.Memory.Votes.{
  same_ballot, create_vote, delete_votes_by_agent, delegation_matches_from_agent, create_delegation,
  revoke_delegation, delete_delegations_by_agent,
}

-- The calls that write votes or delegations, with the new identifier and the time where one is used.
pub data Call : Type 0 where
  creates_vote : String → ℕ → Vote → Call
  deletes_votes : String → String → Call
  creates_delegation : String → ℕ → Delegation → Call
  revokes_delegation : String → String → Call
  deletes_delegations : String → String → Call

unfoldable pub call : Call → MemoryStore → MemoryStore
call (creates_vote fresh now v) m = (create_vote fresh now v m).1
call (deletes_votes id agent) m = delete_votes_by_agent id agent m
call (creates_delegation fresh now d) m = (create_delegation fresh now d m).1
call (revokes_delegation id agent) m = revoke_delegation id agent m
call (deletes_delegations id agent) m = delete_delegations_by_agent id agent m

unfoldable pub calls : List Call → MemoryStore → MemoryStore
unfolding call
calls [] m = m
calls (c ∷ cs) m = calls cs (call c m)

same_ballot_trans :
    (u v w : Vote) → same_ballot u v ≡ true → same_ballot u w ≡ true → same_ballot v w ≡ true
unfolding same_ballot
same_ballot_trans u v w a b = ground (
  arith,
  eq_iff v.deliberation_id u.deliberation_id,
  eq_iff w.deliberation_id u.deliberation_id,
  eq_iff w.deliberation_id v.deliberation_id,
  eq_iff v.agent_id u.agent_id,
  eq_iff w.agent_id u.agent_id,
  eq_iff w.agent_id v.agent_id,
  eq_iff v.position_id u.position_id,
  eq_iff w.position_id u.position_id,
  eq_iff w.position_id v.position_id,
  eq_iff v.criterion_id u.criterion_id,
  eq_iff w.criterion_id u.criterion_id,
  eq_iff w.criterion_id v.criterion_id,
)

matches_trans :
    (id agent : String) (d e : Delegation)
    → delegation_matches_from_agent id agent d ≡ true
    → delegation_matches_from_agent id agent e ≡ true
    → delegation_matches_from_agent d.deliberation_id d.from_agent e ≡ true
unfolding delegation_matches_from_agent
matches_trans id agent d e a b = ground (
  arith,
  eq_iff d.deliberation_id id,
  eq_iff e.deliberation_id id,
  eq_iff e.deliberation_id d.deliberation_id,
  eq_iff d.from_agent agent,
  eq_iff e.from_agent agent,
  eq_iff e.from_agent d.from_agent,
)

matches-revoked :
    (id agent i a : String) (d : Delegation)
    → delegation_matches_from_agent id agent
        (if delegation_matches_from_agent i a d then record d { active = false } else d)
      ≡ true
    → delegation_matches_from_agent id agent d ≡ true
unfolding delegation_matches_from_agent
matches-revoked id agent i a d h = ground arith

same_ballot_refl : (v : Vote) → same_ballot v v ≡ true
unfolding same_ballot
same_ballot_refl v =
    rw (str_eq_refl v.deliberation_id)
      (rw (str_eq_refl v.agent_id) (rw (str_eq_refl v.position_id) (str_eq_refl v.criterion_id)))

-- One vote at most like u, and one delegation at most from the agent.
record One (u : Vote) (id agent : String) (m : MemoryStore) : Type 0 where
  vote : length (select (same_ballot u) m.votes) ≤ 1
  delegation : length (select (delegation_matches_from_agent id agent) m.delegations) ≤ 1

module _ (u : Vote) (id agent : String) where
  call-One : (c : Call) (m : MemoryStore) → One u id agent m → One u id agent (call c m)
  unfolding call create_vote delete_votes_by_agent create_delegation revoke_delegation
      delete_delegations_by_agent
  call-One (creates_vote fresh now v) m o =
      let v' = record v { id = or_default fresh v.id; created_at = or_now now v.created_at } in
      record {
        vote =
            select-upsert_le (same_ballot u) (same_ballot v') v'.id v' m.votes
              (λ h w k. same_ballot_trans u v' w h k) o.vote;
        delegation = o.delegation;
      }
  call-One (deletes_votes i a) m o = record {
    vote = omega (
      arith,
      o.vote,
      select-remove_if_le (same_ballot u) (λ v. str_eq v.deliberation_id i && str_eq v.agent_id a)
          m.votes,
    );
    delegation = o.delegation;
  }
  call-One (creates_delegation fresh now d) m o =
      let d' = record d {
        id = or_default fresh d.id;
        created_at = or_now now d.created_at;
        active = true;
      } in
      record {
        vote = o.vote;
        delegation =
            select-upsert_le (delegation_matches_from_agent id agent)
              (delegation_matches_from_agent d.deliberation_id d.from_agent) d'.id d' m.delegations
              (λ h e k. matches_trans id agent d' e h k) o.delegation;
      }
  call-One (revokes_delegation i a) m o = record {
    vote = o.vote;
    delegation = omega (
      arith,
      o.delegation,
      select-map_values_le (delegation_matches_from_agent id agent)
          (λ d. if delegation_matches_from_agent i a d then record d { active = false } else d)
          m.delegations (matches-revoked id agent i a),
    );
  }
  call-One (deletes_delegations i a) m o = record {
    vote = o.vote;
    delegation = omega (
      arith,
      o.delegation,
      select-remove_if_le (delegation_matches_from_agent id agent)
          (delegation_matches_from_agent i a) m.delegations,
    );
  }

  calls-One : (cs : List Call) (m : MemoryStore) → One u id agent m → One u id agent (calls cs m)
  unfolding calls
  calls-One [] m o = o
  calls-One (c ∷ cs) m o = calls-One cs (call c m) (call-One c m o)

-- From the empty store, whatever calls are made: at most one vote stands for an agent, a position
-- and a criterion of a deliberation, and at most one delegation from an agent in a deliberation.
pub calls-le_one :
    (u : Vote) (id agent : String) (cs : List Call)
    → (length (select (same_ballot u) (calls cs new_memory_store).votes) ≤ 1)
      × (length (
            select (delegation_matches_from_agent id agent) (calls cs new_memory_store).delegations)
          ≤ 1)
unfolding new_memory_store
calls-le_one u id agent cs =
    let o = calls-One u id agent cs new_memory_store empty in (o.vote, o.delegation)
  where
    empty : One u id agent new_memory_store
    empty = record { vote = omega arith; delegation = omega arith }

-- Whatever votes there were, the new vote is the only one left for its agent, position and
-- criterion.
pub create_vote_replaces :
    (fresh : String) (now : ℕ) (v v' : Vote) (m : MemoryStore)
    → (create_vote fresh now v m).0 ≡ ok v'
    → select (same_ballot v') (create_vote fresh now v m).1.votes ≡ v' ∷ []
unfolding create_vote
create_vote_replaces fresh now v v' m h =
    let w = record v { id = or_default fresh v.id; created_at = or_now now v.created_at } in
    let e : w ≡ v' = cc in
    subst
      (λ (x : Vote).
        select (same_ballot x) (put w.id w (remove_if (same_ballot w) m.votes)) ≡ x ∷ [])
      e
      (select-put_only (same_ballot w) w.id w (remove_if (same_ballot w) m.votes)
        (select-remove_if_none (same_ballot w) (same_ballot w) m.votes (λ z k. k))
        (same_ballot_refl w))

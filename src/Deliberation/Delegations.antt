-- ===== src/Deliberation/Delegations.antt =====
-- The cap on delegations, over any calls of Delegate, RevokeDelegation and WithdrawAgent.
use gemot.Prelude.{
  ℕ, ◌+◌, ◌≤◌, ◌<◌, ◌≡◌, refl, sym, subst, ◌∙◌, ◌⊎◌, inl, inr, Bool, true, false, ◌&&◌, List, [],
  ◌∷◌, Map, String, str_eq, string_key, remove_if, select, length, arith, if◌then◌else◌, Bool-cases,
}
use gemot.Prelude.Sorting.{insert_by, sort_by}
use gemot.Prelude.Selected.{select-put_le, select-remove_if_le, select-map_values_le}
use gemot.Memory.Records.{Delegation}
use text.Mathlib.TextEquality.{eq_iff}
use gemot.Memory.State.{MemoryStore, or_default, or_now}
use gemot.Memory.Votes.{get_delegations, create_delegation, delegation_matches_from_agent}
use gemot.Memory.Commitments.{get_commitments}
use gemot.Deliberation.Service.{Outside, Service, and_then, refuse_if, wrote, found}
use gemot.Deliberation.Voting.{
  count_to, delegate, service_revoke_delegation, max_delegations, new_delegation,
}
use gemot.Deliberation.Commitments.{withdraw_agent, remove_agent, cleared}
use gemot.Deliberation.Withdrawal.{withdraw_agent-store, break_open-kept}

-- An active delegation to the agent in the deliberation.
abbrev pub delegated_to : String → String → Delegation → Bool
delegated_to id agent d =
    str_eq d.deliberation_id id && d.active && (d.active && str_eq d.to_agent agent)

abbrev pub delegations_to : String → String → Map String Delegation → ℕ
delegations_to id agent ds = length (select (delegated_to id agent) ds)

-- Nobody has more than three active delegations in a deliberation.
pub record Capped (m : MemoryStore) : Type 0 where
  pub within : (id agent : String) → delegations_to id agent m.delegations ≤ max_delegations

-- Sorting does not change a count.
count_to-insert_by :
    (agent : String) (less : Delegation → Delegation → Bool) (d : Delegation) (ds : List Delegation)
    → count_to agent (insert_by less d ds) ≡ count_to agent (d ∷ ds)
unfolding count_to insert_by
count_to-insert_by agent less d [] = refl
count_to-insert_by agent less d (e ∷ ds) = ground (arith, count_to-insert_by agent less d ds)

count_to-sort_by :
    (agent : String) (less : Delegation → Delegation → Bool) (ds : List Delegation)
    → count_to agent (sort_by less ds) ≡ count_to agent ds
unfolding count_to sort_by
count_to-sort_by agent less [] = refl
count_to-sort_by agent less (d ∷ ds) =
    count_to-insert_by agent less d (sort_by less ds)
    ∙ ground (arith, count_to-sort_by agent less ds)

count_to-select :
    (id agent : String) (ds : Map String Delegation)
    → count_to agent (select (λ d. str_eq d.deliberation_id id && d.active) ds)
      ≡ delegations_to id agent ds
unfolding count_to
count_to-select id agent [] = refl
count_to-select id agent ((_, d) ∷ ds) = ground (arith, count_to-select id agent ds)

count_to-get_delegations :
    (id agent : String) (m : MemoryStore)
    → count_to agent (get_delegations id m) ≡ delegations_to id agent m.delegations
unfolding get_delegations
count_to-get_delegations id agent m =
    count_to-sort_by agent _ _ ∙ count_to-select id agent m.delegations

create_delegation-le :
    (fresh : String) (now : ℕ) (d : Delegation) (id agent : String) (m : MemoryStore)
    → delegations_to id agent (create_delegation fresh now d m).1.delegations
      ≤ delegations_to id agent m.delegations
        + (if str_eq d.deliberation_id id && str_eq d.to_agent agent then 1 else 0)
unfolding create_delegation
create_delegation-le fresh now d id agent m =
    elim (Bool-cases (
      delegated_to id agent (record d {
        id = or_default fresh d.id;
        created_at = or_now now d.created_at;
        active = true;
      }))) [
        | inl own ↦ ground (
          arith,
          select-put_le (delegated_to id agent) (or_default fresh d.id)
              (record d {
                id = or_default fresh d.id;
                created_at = or_now now d.created_at;
                active = true;
              })
              (remove_if (delegation_matches_from_agent d.deliberation_id d.from_agent)
                m.delegations),
          select-remove_if_le (delegated_to id agent)
              (delegation_matches_from_agent d.deliberation_id d.from_agent) m.delegations,
        )
        | inr other ↦ ground (
          arith,
          select-put_le (delegated_to id agent) (or_default fresh d.id)
              (record d {
                id = or_default fresh d.id;
                created_at = or_now now d.created_at;
                active = true;
              })
              (remove_if (delegation_matches_from_agent d.deliberation_id d.from_agent)
                m.delegations),
          select-remove_if_le (delegated_to id agent)
              (delegation_matches_from_agent d.deliberation_id d.from_agent) m.delegations,
        )
      ]

create_delegation-Capped :
    (fresh : String) (now : ℕ) (d : Delegation) (m : MemoryStore)
    → Capped m
    → delegations_to d.deliberation_id d.to_agent m.delegations < max_delegations
    → Capped (create_delegation fresh now d m).1
create_delegation-Capped fresh now d m c room = record {
  within = λ id agent. ground (
    arith,
    create_delegation-le fresh now d id agent m,
    c.within id agent,
    eq_iff d.deliberation_id id,
    eq_iff d.to_agent agent,
  );
}

roomy :
    (id from to' scope : String) (m : MemoryStore)
    → count_to to' (get_delegations id m) < max_delegations
    → delegations_to
        (new_delegation id from to' scope).deliberation_id
        (new_delegation id from to' scope).to_agent
        m.delegations
      < max_delegations
unfolding new_delegation
roomy id from to' scope m room = omega (arith, count_to-get_delegations id to' m)

module _ {L : Type 0} where
  delegate-store :
      (fresh : String) (now : ℕ) (id from to' scope : String) (s : Service L)
      → ((delegate fresh now id from to' scope s).1.store ≡ s.store)
        ⊎ ((count_to to' (get_delegations id s.store) < max_delegations)
            × ((delegate fresh now id from to' scope s).1.store
                ≡ (create_delegation fresh now (new_delegation id from to' scope) s.store).1))
  unfolding delegate and_then refuse_if found wrote
  delegate-store fresh now id from to' scope s = ground arith

  delegate-Capped :
      (fresh : String) (now : ℕ) (id from to' scope : String) (s : Service L)
      → Capped s.store
      → Capped (delegate fresh now id from to' scope s).1.store
  delegate-Capped fresh now id from to' scope s c =
      elim (delegate-store fresh now id from to' scope s) [
        | inl same ↦ subst Capped (sym same) c
        | inr (room, made) ↦ subst Capped (sym made) (
            create_delegation-Capped fresh now (new_delegation id from to' scope) s.store c
              (roomy id from to' scope s.store room))
      ]

  revoke-Capped :
      (id from : String) (s : Service L)
      → Capped s.store
      → Capped (service_revoke_delegation id from s).1.store
  unfolding service_revoke_delegation
  revoke-Capped id from s c = record {
    within = λ i agent. ground (
      arith,
      c.within i agent,
      select-map_values_le (delegated_to i agent)
          (λ (d : Delegation).
            if delegation_matches_from_agent id from d then record d { active = false } else d)
          s.store.delegations (λ d h. ground arith),
    );
  }

module _ {L : Type 0} (x : Outside L) where
  remove_agent-delegations :
      (now : ℕ) (id agent : String) (s : Service L)
      → (remove_agent x now id agent s).store.delegations
        ≡ remove_if (delegation_matches_from_agent id agent) s.store.delegations
  unfolding remove_agent cleared
  remove_agent-delegations now id agent s =
      (break_open-kept x now id agent (get_commitments id (cleared id agent s.store))
        (record s { store = cleared id agent s.store })).2

  withdraw-Capped :
      (now : ℕ) (id agent : String) (s : Service L)
      → Capped s.store
      → Capped (withdraw_agent x now id agent s).1.store
  withdraw-Capped now id agent s c = elim (withdraw_agent-store x now id agent s) [
    | inl same ↦ subst Capped (sym same) c
    | inr gone ↦ subst Capped (sym gone) (record {
      within = λ i to'. rw (remove_agent-delegations now id agent s) (
          omega (
            arith,
            c.within i to',
            select-remove_if_le (delegated_to i to') (delegation_matches_from_agent id agent)
                s.store.delegations,
          ));
    })
  ]

  -- The calls that make or remove delegations, each with what it is given.
  pub data Call : Type 0 where
    delegates : String → ℕ → String → String → String → String → Call
    revokes : String → String → Call
    withdraws : ℕ → String → String → Call

  unfoldable pub call : Service L → Call → Service L
  call s (delegates fresh now id from to' scope) = (delegate fresh now id from to' scope s).1
  call s (revokes id from) = (service_revoke_delegation id from s).1
  call s (withdraws now id agent) = (withdraw_agent x now id agent s).1

  unfoldable pub calls : Service L → List Call → Service L
  unfolding call
  calls s [] = s
  calls s (c ∷ cs) = calls (call s c) cs

  call-Capped : (c : Call) (s : Service L) → Capped s.store → Capped (call s c).store
  unfolding call
  call-Capped (delegates fresh now id from to' scope) s =
      delegate-Capped fresh now id from to' scope s
  call-Capped (revokes id from) s = revoke-Capped id from s
  call-Capped (withdraws now id agent) s = withdraw-Capped now id agent s

  -- In a store where nobody has more than three active delegations in a deliberation, this stays so
  -- over any calls of Delegate, RevokeDelegation and WithdrawAgent, one after the other.
  pub calls-Capped : (cs : List Call) (s : Service L) → Capped s.store → Capped (calls s cs).store
  unfolding calls
  calls-Capped [] s c = c
  calls-Capped (k ∷ cs) s c = calls-Capped cs (call s k) (call-Capped k s c)

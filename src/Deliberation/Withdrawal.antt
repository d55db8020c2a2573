-- ===== src/Deliberation/Withdrawal.antt =====
-- What WithdrawAgent leaves of an agent.
use gemot.Prelude.{
  ℕ, ◌≡◌, refl, sym, ap, subst, ◌∙◌, ◌⊎◌, inl, inr, Bool, true, false, ◌&&◌, none, List, [], ◌∷◌,
  Map, String, str_eq, string_key, select, remove_if, arith, Bool-cases,
}
use gemot.Prelude.Sorting.{insert_by, sort_by}
use gemot.Memory.Records.{Position, Vote, Commitment, Delegation}
use gemot.Memory.Positions.{get_positions, published_in, earlier_position}
use gemot.Memory.Votes.{get_votes, earlier_vote, delegation_matches_from_agent}
use gemot.Memory.Commitments.{get_commitments}
use gemot.Memory.State.{MemoryStore}
use gemot.Deliberation.Service.{Outside, Service, and_then, refuse_if, order_action, ordered, found}
use gemot.Deliberation.Signing.{is_ok}
use gemot.Deliberation.Commitments.{
  withdraw_agent, remove_agent, break_open, break_one, is_outstanding, has_authored, has_cast,
  cleared,
}

-- Sorting does not change who is in a list.
has_authored-sort_by :
    (agent : String) (less : Position → Position → Bool) (ps : List Position)
    → has_authored agent (sort_by less ps) ≡ has_authored agent ps
unfolding has_authored sort_by
has_authored-sort_by agent less [] = refl
has_authored-sort_by agent less (p ∷ ps) =
    has_authored-insert_by p (sort_by less ps) ∙ ground (arith, has_authored-sort_by agent less ps)
  where
    has_authored-insert_by :
        (p : Position) (ps : List Position)
        → has_authored agent (insert_by less p ps) ≡ has_authored agent (p ∷ ps)
    has_authored-insert_by p [] = refl
    has_authored-insert_by p (q ∷ ps) = ground (arith, has_authored-insert_by p ps)

has_cast-sort_by :
    (agent : String) (less : Vote → Vote → Bool) (vs : List Vote)
    → has_cast agent (sort_by less vs) ≡ has_cast agent vs
unfolding has_cast sort_by
has_cast-sort_by agent less [] = refl
has_cast-sort_by agent less (v ∷ vs) =
    has_cast-insert_by v (sort_by less vs) ∙ ground (arith, has_cast-sort_by agent less vs)
  where
    has_cast-insert_by :
        (v : Vote) (vs : List Vote) → has_cast agent (insert_by less v vs) ≡ has_cast agent (v ∷ vs)
    has_cast-insert_by v [] = refl
    has_cast-insert_by v (w ∷ vs) = ground (arith, has_cast-insert_by v vs)

no_positions :
    (id agent : String) (ps : Map String Position)
    → has_authored agent (
        select
          (published_in id none)
          (remove_if (λ p. str_eq p.deliberation_id id && str_eq p.agent_id agent) ps))
      ≡ false
unfolding has_authored published_in
no_positions id agent [] = refl
no_positions id agent ((_, p) ∷ ps) = ground (arith, no_positions id agent ps)

no_votes :
    (id agent : String) (vs : Map String Vote)
    → has_cast agent (
        select
          (λ v. str_eq v.deliberation_id id)
          (remove_if (λ v. str_eq v.deliberation_id id && str_eq v.agent_id agent) vs))
      ≡ false
unfolding has_cast
no_votes id agent [] = refl
no_votes id agent ((_, v) ∷ vs) = ground (arith, no_votes id agent vs)

no_delegations :
    (id agent : String) (ds : Map String Delegation)
    → select
        (delegation_matches_from_agent id agent)
        (remove_if (delegation_matches_from_agent id agent) ds)
      ≡ []
no_delegations id agent [] = refl
no_delegations id agent ((_, d) ∷ ds) = ground (arith, no_delegations id agent ds)

module _ {L : Type 0} (x : Outside L) where
  -- Either nothing changes, or the agent is removed.
  pub withdraw_agent-store :
      (now : ℕ) (id agent : String) (s : Service L)
      → ((withdraw_agent x now id agent s).1.store ≡ s.store)
        ⊎ ((withdraw_agent x now id agent s).1.store ≡ (remove_agent x now id agent s).store)
  unfolding withdraw_agent and_then refuse_if found
  withdraw_agent-store now id agent s = ground arith

  -- Breaking commitments leaves positions, votes and delegations.
  break_one-kept :
      (now : ℕ) (id : String) (c : Commitment) (s : Service L)
      → ((break_one x now id c s).store.positions ≡ s.store.positions)
        × ((break_one x now id c s).store.votes ≡ s.store.votes)
        × ((break_one x now id c s).store.delegations ≡ s.store.delegations)
  unfolding break_one order_action ordered
  break_one-kept now id c s = (ground arith, ground arith, ground arith)

  pub break_open-kept :
      (now : ℕ) (id agent : String) (cs : List Commitment) (s : Service L)
      → ((break_open x now id agent cs s).store.positions ≡ s.store.positions)
        × ((break_open x now id agent cs s).store.votes ≡ s.store.votes)
        × ((break_open x now id agent cs s).store.delegations ≡ s.store.delegations)
  unfolding break_open
  break_open-kept now id agent [] s = (refl, refl, refl)
  break_open-kept now id agent (c ∷ cs) s =
      elim (Bool-cases (str_eq c.agent_id agent && is_outstanding c)) [
        | inl own ↦
            let k = break_open-kept now id agent cs (break_one x now id c s) in
            let o = break_one-kept now id c s in
            rw (own, break_open) (k.0 ∙ o.0, k.1 ∙ o.1, k.2 ∙ o.2)
        | inr other ↦ rw (other, break_open) (break_open-kept now id agent cs s)
      ]

  withdraw_agent-removed :
      (now : ℕ) (id agent : String) (s : Service L)
      → is_ok (withdraw_agent x now id agent s).0 ≡ true
      → (withdraw_agent x now id agent s).1.store ≡ (remove_agent x now id agent s).store
  unfolding withdraw_agent and_then refuse_if found
  withdraw_agent-removed now id agent s done = ground arith

  -- The deliberation without the agent: no published position, no vote and no delegation of it.
  pub record Gone (id agent : String) (m : MemoryStore) : Type 0 where
    pub positions : has_authored agent (get_positions id none m) ≡ false
    pub votes : has_cast agent (get_votes id m) ≡ false
    pub delegations : select (delegation_matches_from_agent id agent) m.delegations ≡ []

  remove_agent-Gone :
      (now : ℕ) (id agent : String) (s : Service L)
      → Gone id agent (remove_agent x now id agent s).store
  unfolding remove_agent cleared get_positions get_votes
  remove_agent-Gone now id agent s =
      let m = cleared id agent s.store in
      let k = break_open-kept now id agent (get_commitments id m) (record s { store = m }) in
      record {
        positions =
            has_authored-sort_by agent earlier_position
              (select (published_in id none) (remove_agent x now id agent s).store.positions)
            ∙ ap
                (λ (ps : Map String Position).
                  has_authored agent (select (published_in id none) ps))
                k.0
            ∙ no_positions id agent s.store.positions;
        votes =
            has_cast-sort_by agent earlier_vote (
              select (λ v. str_eq v.deliberation_id id) (remove_agent x now id agent s).store.votes)
            ∙ ap
                (λ (vs : Map String Vote).
                  has_cast agent (select (λ v. str_eq v.deliberation_id id) vs))
                k.1
            ∙ no_votes id agent s.store.votes;
        delegations =
            ap (λ (ds : Map String Delegation). select (delegation_matches_from_agent id agent) ds)
              k.2
            ∙ no_delegations id agent s.store.delegations;
      }

  -- After WithdrawAgent has succeeded, the agent has no published position, no vote and no delegation
  -- to others left in the deliberation.
  pub withdraw_agent-Gone :
      (now : ℕ) (id agent : String) (s : Service L)
      → is_ok (withdraw_agent x now id agent s).0 ≡ true
      → Gone id agent (withdraw_agent x now id agent s).1.store
  withdraw_agent-Gone now id agent s done =
      subst (Gone id agent) (sym (withdraw_agent-removed now id agent s done))
        (remove_agent-Gone now id agent s)

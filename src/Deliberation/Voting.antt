-- ===== src/Deliberation/Voting.antt =====
-- internal/deliberation/service.go: votes and delegations. The lock that makes a vote atomic with
-- its log entry is that of one step.
use gemot.Prelude.{
  ℕ, zero, suc, ◌+◌, Bool, true, false, not, ◌&&◌, ◌||◌, none, some, List, [], ◌∷◌, ◌++◌, Map,
  String, str_eq, join, string_key, get, put, len, ltb, leb, ◌==◌, if◌then◌else◌,
}
use gemot.Prelude.Integers.{ℤ, pos, negsuc}
use gemot.Prelude.Outcomes.{ok, err, panic}
use gemot.Memory.Records.{Deliberation, Position, Vote, Delegation}
use gemot.Memory.Positions.{get_position_by_id, publish_position}
use gemot.Memory.Votes.{create_vote, create_delegation, get_delegations, revoke_delegation}
use gemot.Deliberation.Service.{
  Outside, M, refuse_if, reads, looks_up, writes, updates, audit, emit, deliberation_of, is_past,
  order_action, show_number, ◌>>=◌, ◌>>◌, max_agent_id_len, too_long, not_found, not_open,
  deadline_passed, not_in_deliberation, bad_vote_value, delegation_cap,
}
use gemot.Deliberation.Signing.{verify_vote_signature}
use gemot.Deliberation.Positions.{rule_bool}

-- v.Value < -2 || v.Value > 2
unfoldable pub bad_value : ℤ → Bool
bad_value (pos n) = ltb 2 n
bad_value (negsuc n) = ltb 1 n

unfoldable pub is_second : ℤ → Bool
is_second (pos n) = n == 1
is_second (negsuc n) = false

unfoldable pub is_unsigned : Vote → Bool
is_unsigned v = elim v.signature [ [] ↦ true | _ ∷ _ ↦ false ]

module _ {L : Type 0} (x : Outside L) where
  -- A +1 of another agent publishes a draft motion. A failure to publish is only logged.
  unfoldable pub publish_seconded : Deliberation → Position → Vote → M L (Unit {0})
  unfolding is_second rule_bool publish_position emit
  publish_seconded d p v s =
      let r = publish_position v.position_id s.store in
      if is_second v.value
        && rule_bool x d "require_second" false
        && p.draft
        && not (str_eq p.agent_id v.agent_id)
      then elim r.0 [
        | ok _ ↦
            emit "position_seconded" v.deliberation_id v.agent_id v.position_id
              (record s { store = r.1 })
        | err _ ↦ (ok tt, record s { store = r.1 })
        | panic ↦ (panic, record s { store = r.1 })
      ]
      else (ok tt, s)

  unfoldable pub cast_vote : String → ℕ → Vote → String → M L (Unit {0})
  unfolding publish_seconded bad_value is_unsigned is_past deliberation_of get_position_by_id
      verify_vote_signature create_vote audit emit
  cast_vote fresh now v signer =
      refuse_if (ltb max_agent_id_len (len v.agent_id)) too_long
      >> deliberation_of v.deliberation_id
      >>= λ d.
          refuse_if (not (str_eq d.status "open")) not_open
          >> refuse_if (is_past now d) deadline_passed
          >> looks_up (get_position_by_id v.position_id) not_found
          >>= λ p.
              refuse_if (not (str_eq p.deliberation_id v.deliberation_id)) not_in_deliberation
              >> refuse_if (bad_value v.value) bad_vote_value
              >> verify_vote_signature x d v signer
              >> order_action x "vote" (
                  v.deliberation_id
                  ∷ (v.agent_id
                      ∷ (v.position_id
                          ∷ (show_number v.value ∷ (v.qualifier ∷ (v.criterion_id ∷ []))))))
              >> writes (create_vote fresh now (record v { relayed = is_unsigned v }))
              >>= λ stored.
                  audit "participate:vote" v.deliberation_id v.agent_id
                  >> emit "vote_cast" v.deliberation_id v.agent_id v.position_id
                  >> publish_seconded d p v

  -- Vote, where a criterion of "" is none, and the signed entry points.
  unfoldable pub vote :
      String → ℕ → String → String → String → ℤ → String → String → String → M L (Unit {0})
  unfolding cast_vote
  vote fresh now id agent position value qualifier caveat criterion =
      cast_vote fresh now
        (record {
          id = "";
          deliberation_id = id;
          agent_id = agent;
          position_id = position;
          value = value;
          criterion_id = criterion;
          qualifier = qualifier;
          caveat = caveat;
          signature = [];
          relayed = false;
          created_at = 0;
        })
        agent

  unfoldable pub submit_signed_vote :
      String
      → ℕ
      → String
      → String
      → String
      → String
      → ℤ
      → String
      → String
      → String
      → List ℕ
      → M L (Unit {0})
  unfolding cast_vote
  submit_signed_vote fresh now id agent signer position value qualifier caveat criterion signature =
      cast_vote fresh now
        (record {
          id = "";
          deliberation_id = id;
          agent_id = agent;
          position_id = position;
          value = value;
          criterion_id = criterion;
          qualifier = qualifier;
          caveat = caveat;
          signature = signature;
          relayed = false;
          created_at = 0;
        })
        signer

-- The loop of Delegate that counts an agent's delegations.
unfoldable pub count_to : String → List Delegation → ℕ
count_to agent [] = 0
count_to agent (d ∷ ds) =
    let n = count_to agent ds in if d.active && str_eq d.to_agent agent then n + 1 else n

unfoldable pub new_delegation : String → String → String → String → Delegation
new_delegation id from to' scope = record {
  id = "";
  deliberation_id = id;
  from_agent = from;
  to_agent = to';
  scope = scope;
  active = false;
  created_at = 0;
}

abbrev pub max_delegations : ℕ
max_delegations = 3

module _ {L : Type 0} where
  unfoldable pub delegate : String → ℕ → String → String → String → String → M L Delegation
  unfolding deliberation_of is_past count_to get_delegations new_delegation create_delegation
  delegate fresh now id from to' scope = deliberation_of id >>= λ d.
      refuse_if (is_past now d) deadline_passed
      >> reads (λ m. count_to to' (get_delegations id m))
      >>= λ count.
          refuse_if (leb max_delegations count) delegation_cap
          >> writes (create_delegation fresh now (new_delegation id from to' scope))

  unfoldable pub service_revoke_delegation : String → String → M L (Unit {0})
  unfolding revoke_delegation
  service_revoke_delegation id from = updates (revoke_delegation id from)

-- delegateOf: the last active delegation of an agent counts.
unfoldable pub delegate_of : Map String String → List Delegation → Map String String
delegate_of graph [] = graph
delegate_of graph (d ∷ ds) =
    delegate_of (if d.active then put d.from_agent d.to_agent graph else graph) ds

-- resolve: at most five steps, which stop before an agent that was seen.
unfoldable pub resolve : ℕ → Map String String → Map String Bool → String → String
resolve zero graph seen current = current
resolve (suc steps) graph seen current = elim (get current graph) [
  | none ↦ current
  | some next ↦ elim (get next seen) [
    | some _ ↦ current
    | none ↦ resolve steps graph (put next true seen) next
  ]
]

-- voted[agent][position]
unfoldable pub has_voted : String → String → List Vote → Bool
has_voted agent position [] = false
has_voted agent position (v ∷ vs) =
    (str_eq v.agent_id agent && str_eq v.position_id position) || has_voted agent position vs

unfoldable pub copied_vote : String → Vote → Vote
copied_vote from v = record {
  id = join "delegated-" (join from (join "-" v.position_id));
  deliberation_id = v.deliberation_id;
  agent_id = from;
  position_id = v.position_id;
  value = v.value;
  criterion_id = "";
  qualifier = "";
  caveat = "";
  signature = [];
  relayed = false;
  created_at = v.created_at;
}

-- The votes of the effective delegate at positions that the delegator has not voted on.
unfoldable pub copies : List Vote → String → String → List Vote → List Vote
unfolding has_voted copied_vote
copies votes from effective [] = []
copies votes from effective (v ∷ vs) =
    let rest = copies votes from effective vs in
    if str_eq v.agent_id effective && not (has_voted from v.position_id votes)
    then copied_vote from v ∷ rest
    else rest

-- The loop over the delegators.
unfoldable pub expand : List Vote → Map String String → Map String String → List Vote
unfolding copies resolve
expand votes graph [] = []
expand votes graph ((from, _) ∷ delegators) =
    let effective = resolve 5 graph ((from, true) ∷ []) from in
    let rest = expand votes graph delegators in
    if str_eq effective from then rest else copies votes from effective votes ++ rest

unfoldable pub resolve_delegations : List Vote → List Delegation → List Vote
unfolding expand delegate_of
resolve_delegations votes [] = votes
resolve_delegations votes (d ∷ ds) =
    let graph = delegate_of [] (d ∷ ds) in votes ++ expand votes graph graph

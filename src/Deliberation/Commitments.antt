-- ===== src/Deliberation/Commitments.antt =====
-- internal/deliberation/service.go: who takes part, and the commitments.
use gemot.Prelude.{
  ℕ, ◌+◌, ◌-◌, Bool, true, false, not, ◌&&◌, ◌||◌, none, some, List, [], ◌∷◌, String, str_eq, join,
  runes, len, ltb, ◌==◌, if◌then◌else◌,
}
use text.Mathlib.Text.{starts_with}
use gemot.Prelude.Outcomes.{ok}
use gemot.Memory.Records.{Position, Commitment, Vote, Dispute}
use gemot.Memory.State.{MemoryStore}
use gemot.Memory.Positions.{get_positions, withdraw_positions}
use gemot.Memory.Votes.{get_votes, delete_votes_by_agent, delete_delegations_by_agent}
use gemot.Memory.Commitments.{
  create_commitment, get_commitments, get_commitment_by_id, update_commitment_status,
  fulfill_commitment, break_commitment, get_commitments_by_group, get_commitments_by_agent,
}
use gemot.Memory.Moderation.{decimal, create_dispute}
use gemot.Memory.Deliberations.{get_deliberation}
use gemot.Deliberation.Service.{
  Outside, Service, M, pure, refuse_if, reads, looks_up, writes, audit, emit, deliberation_of,
  is_past, order_action, ◌>>=◌, ◌>>◌, max_content_len, too_long, not_found, not_open,
  deadline_passed, statement_required, access_denied, self_fulfilment, has_not_participated,
}

-- strings.HasPrefix(agentID, keyID+":")
unfoldable pub owned_by : String → String → Bool
owned_by key agent = starts_with agent (join key ":")

-- c.FulfilledAt == nil && c.BrokenAt == nil
unfoldable pub is_outstanding : Commitment → Bool
is_outstanding c =
    elim c.fulfilled_at [ none ↦ true | some _ ↦ false ]
    && elim c.broken_at [ none ↦ true | some _ ↦ false ]

unfoldable pub has_position : String → List Position → Bool
unfolding owned_by
has_position key [] = false
has_position key (p ∷ ps) = owned_by key p.agent_id || has_position key ps

unfoldable pub has_commitment : String → List Commitment → Bool
unfolding owned_by is_outstanding
has_commitment key [] = false
has_commitment key (c ∷ cs) = (owned_by key c.agent_id && is_outstanding c) || has_commitment key cs

unfoldable pub is_participant : String → String → MemoryStore → Bool
unfolding has_position has_commitment
is_participant id key m =
    str_eq key ""
    || has_position key (get_positions id none m)
    || has_commitment key (get_commitments id m)

-- unicode.IsSpace
unfoldable pub is_space : ℕ → Bool
is_space r =
    (ltb 8 r && ltb r 14)
    || r == 32
    || r == 0x85
    || r == 0xA0
    || r == 0x1680
    || (ltb 0x1FFF r && ltb r 0x200B)
    || r == 0x2028
    || r == 0x2029
    || r == 0x202F
    || r == 0x205F
    || r == 0x3000

-- strings.TrimSpace(statement) == ""
unfoldable pub is_blank : List ℕ → Bool
unfolding is_space
is_blank [] = true
is_blank (r ∷ s) = is_space r && is_blank s

unfoldable pub new_commitment : String → String → ℕ → String → String → Commitment
new_commitment id agent round statement conditional = record {
  id = "";
  deliberation_id = id;
  agent_id = agent;
  analysis_round = round;
  statement = statement;
  conditional = conditional;
  status = "";
  created_at = 0;
  fulfilled_at = none;
  broken_at = none;
  broken_reason = "";
  verified_by = "";
}

module _ {L : Type 0} where
  unfoldable pub check_participant : String → String → M L (Unit {0})
  unfolding is_participant
  check_participant id key =
      reads (is_participant id key) >>= λ inside. refuse_if (not inside) access_denied

  -- An unconditional commitment is active at once; a failure to store that is dropped.
  unfoldable pub activate : Commitment → M L Commitment
  unfolding update_commitment_status
  activate c s =
      if str_eq c.conditional ""
      then (
        ok (record c { status = "active" }),
        record s { store = (update_commitment_status c.id "active" s.store).1 },
      )
      else (ok c, s)

-- A deliberation that is not found has no deadline here.
unfoldable pub closed_for_disputes : ℕ → String → MemoryStore → Bool
unfolding get_deliberation is_past
closed_for_disputes now id m = elim (get_deliberation id m) [ ok d ↦ is_past now d | _ ↦ false ]

unfoldable pub new_dispute : String → String → String → String → Dispute
new_dispute id agent crux_claim correction = record {
  id = "";
  deliberation_id = id;
  agent_id = agent;
  crux_claim = crux_claim;
  correction = correction;
  created_at = 0;
}

unfoldable pub has_authored : String → List Position → Bool
has_authored agent [] = false
has_authored agent (p ∷ ps) = str_eq p.agent_id agent || has_authored agent ps

unfoldable pub has_cast : String → List Vote → Bool
has_cast agent [] = false
has_cast agent (v ∷ vs) = str_eq v.agent_id agent || has_cast agent vs

-- The store without the agent's positions, votes and delegations.
unfoldable pub cleared : String → String → MemoryStore → MemoryStore
unfolding withdraw_positions delete_votes_by_agent delete_delegations_by_agent
cleared id agent m =
    delete_delegations_by_agent id agent
      (delete_votes_by_agent id agent (withdraw_positions id agent m))

module _ {L : Type 0} (x : Outside L) where
  unfoldable pub commit : String → ℕ → String → String → String → String → M L Commitment
  unfolding is_blank deliberation_of is_past new_commitment decimal create_commitment activate audit
  commit fresh now id agent statement conditional =
      refuse_if (is_blank (runes statement)) statement_required >> deliberation_of id >>= λ d.
      refuse_if (is_past now d) deadline_passed
      >> order_action x "commit"
          (id ∷ (agent ∷ (decimal d.round (d.round - 1) ∷ (statement ∷ (conditional ∷ [])))))
      >> writes (
          create_commitment fresh now (new_commitment id agent (d.round - 1) statement conditional))
      >>= λ c. activate c >>= λ c'. audit "decide:commit" id agent >> pure c'

  unfoldable pub service_fulfill_commitment : ℕ → String → String → String → M L (Unit {0})
  unfolding check_participant get_commitment_by_id owned_by fulfill_commitment audit
  service_fulfill_commitment now id verified_by key =
      looks_up (get_commitment_by_id id) not_found >>= λ c.
      check_participant c.deliberation_id key
      >> refuse_if (not (str_eq key "") && owned_by key c.agent_id) self_fulfilment
      >> order_action x "fulfill" (c.deliberation_id ∷ (verified_by ∷ (id ∷ [])))
      >> writes (fulfill_commitment id verified_by now)
      >> audit "decide:fulfill" c.deliberation_id verified_by

  unfoldable pub service_break_commitment : ℕ → String → String → String → String → M L (Unit {0})
  unfolding check_participant get_commitment_by_id break_commitment audit
  service_break_commitment now id reason verified_by key =
      looks_up (get_commitment_by_id id) not_found >>= λ c.
      check_participant c.deliberation_id key
      >> order_action x "break" (c.deliberation_id ∷ (verified_by ∷ (id ∷ (reason ∷ []))))
      >> writes (break_commitment id reason verified_by now)
      >> audit "decide:break" c.deliberation_id verified_by

  unfoldable pub dispute_crux : String → ℕ → String → String → String → String → M L Dispute
  unfolding closed_for_disputes new_dispute create_dispute
  dispute_crux fresh now id agent crux_claim correction =
      reads (closed_for_disputes now id) >>= λ closed.
      refuse_if closed deadline_passed
      >> refuse_if (ltb max_content_len (len crux_claim)) too_long
      >> refuse_if (ltb max_content_len (len correction)) too_long
      >> order_action x "dispute_crux" (id ∷ (agent ∷ (crux_claim ∷ (correction ∷ []))))
      >> writes (create_dispute fresh now (new_dispute id agent crux_claim correction))

  -- Where the log refuses, the commitment stays as it is.
  unfoldable pub break_one : ℕ → String → Commitment → Service L → Service L
  unfolding break_commitment
  break_one now id c s =
      let reason : String = "agent withdrew from deliberation" in
      let r = order_action x "break" (id ∷ ("system" ∷ (c.id ∷ (reason ∷ [])))) s in
      elim r.0 [
        | ok _ ↦ record r.1 { store = (break_commitment c.id reason "system" now r.1.store).1 }
        | _ ↦ r.1
      ]

  -- The loop that breaks what the agent had open.
  unfoldable pub break_open : ℕ → String → String → List Commitment → Service L → Service L
  unfolding is_outstanding break_one
  break_open now id agent [] s = s
  break_open now id agent (c ∷ cs) s =
      break_open now id agent cs
        (if str_eq c.agent_id agent && is_outstanding c then break_one now id c s else s)

  -- What WithdrawAgent does once its checks have passed.
  unfoldable pub remove_agent : ℕ → String → String → Service L → Service L
  unfolding cleared get_commitments break_open
  remove_agent now id agent s =
      let m = cleared id agent s.store in
      break_open now id agent (get_commitments id m) (record s { store = m })

  unfoldable pub withdraw_agent : ℕ → String → String → M L (Unit {0})
  unfolding deliberation_of has_authored has_cast get_positions get_votes emit
  withdraw_agent now id agent = deliberation_of id >>= λ d.
      refuse_if (not (str_eq d.status "open")) not_open
      >> reads
          (λ m. has_authored agent (get_positions id none m) || has_cast agent (get_votes id m))
      >>= λ took_part.
          refuse_if (not took_part) has_not_participated
          >> (λ s. (ok tt, remove_agent now id agent s))
          >> emit "agent_withdrawn" id agent ""

pub record ReputationSummary : Type 0 where
  pub total_commitments : ℕ
  pub fulfilled : ℕ
  pub broken : ℕ
  pub pending : ℕ

-- The loop of AgentReputation. The trust score, a quotient of the counts, is left out.
unfoldable pub summarize : String → List Commitment → ReputationSummary → ReputationSummary
summarize agent [] r = r
summarize agent (c ∷ cs) r = summarize agent cs (
    if not (str_eq c.agent_id agent) then r else record {
      total_commitments = r.total_commitments + 1;
      fulfilled = if str_eq c.status "fulfilled" then r.fulfilled + 1 else r.fulfilled;
      broken = if str_eq c.status "broken" then r.broken + 1 else r.broken;
      pending =
          if str_eq c.status "pending" || str_eq c.status "active"
          then r.pending + 1
          else r.pending;
    })

unfoldable pub agent_reputation : String → String → MemoryStore → ReputationSummary
unfolding summarize get_commitments_by_group get_commitments_by_agent
agent_reputation agent group m =
    summarize agent
      (if str_eq group ""
        then get_commitments_by_agent agent m
        else get_commitments_by_group group m)
      (record { total_commitments = 0; fulfilled = 0; broken = 0; pending = 0 })

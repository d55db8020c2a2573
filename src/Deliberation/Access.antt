-- ===== src/Deliberation/Access.antt =====
-- internal/deliberation/service.go: who may enter and steer a deliberation.
use gemot.Prelude.{
  ℕ, ◌+◌, Bool, true, false, not, ◌&&◌, ◌||◌, Option, none, some, List, [], ◌∷◌, Map, String,
  str_eq, string_key, put, length, len, ltb, if◌then◌else◌,
}
use gemot.Prelude.Integers.{ℤ, pos, negsuc}
use gemot.Prelude.Outcomes.{ok}
use gemot.Memory.Records.{Deliberation, Position, Vote, JoinCode, Invitation}
use gemot.Memory.State.{MemoryStore}
use gemot.Memory.Deliberations.{
  get_deliberation, delete_deliberation, update_deliberation_template, update_deliberation_rules,
}
use gemot.Memory.Positions.{get_positions}
use gemot.Memory.Votes.{get_votes}
use gemot.Memory.Moderation.{create_abuse_report}
use gemot.Memory.Access.{
  check_acl, create_join_code, claim_join_code, lookup_join_code, create_invitation,
  create_share_token,
}
use gemot.Deliberation.Service.{
  Outside, M, pure, fail, refuse_if, reads, looks_up, writes, updates, audit, deliberation_of,
  ◌>>=◌, ◌>>◌, max_content_len, too_long, not_found, access_denied, unknown_template, not_creator,
  quorum_not_met, invalid_role, group_required, no_randomness,
}
use gemot.Deliberation.Positions.{rule_int}
use gemot.Deliberation.Templates.{get_template}

-- CheckACL's answer, no on its error.
unfoldable pub on_acl : String → String → MemoryStore → Bool
unfolding check_acl
on_acl id key m = elim (check_acl id key m) [ ok allowed ↦ allowed | _ ↦ false ]

-- A visibility that is none of the four lets everybody in.
unfoldable pub may_enter : String → String → Deliberation → MemoryStore → Bool
unfolding on_acl
may_enter id key d m =
    if str_eq d.visibility "private" then str_eq d.creator_key key || on_acl id key m else true

module _ {L : Type 0} where
  unfoldable pub check_access : String → String → M L (Unit {0})
  unfolding deliberation_of may_enter
  check_access id key =
      if str_eq key ""
      then pure tt
      else deliberation_of id >>= λ d.
          refuse_if (str_eq d.status "deleted") not_found
          >> reads (may_enter id key d)
          >>= λ allowed. refuse_if (not allowed) access_denied

-- The agents as the keys of a map.
unfoldable pub agents_of : List Position → Map String Bool → Map String Bool
agents_of [] agents = agents
agents_of (p ∷ ps) agents = agents_of ps (put p.agent_id true agents)

-- len(uniqueAgents) < minP, where minP > 0.
unfoldable pub short_of : ℤ → ℕ → Bool
short_of (pos least) n = ltb n least
short_of (negsuc _) n = false

module _ {L : Type 0} (x : Outside L) where
  unfoldable pub check_quorum : String → M L (Unit {0})
  unfolding deliberation_of rule_int agents_of short_of get_positions
  check_quorum id = deliberation_of id >>= λ d.
      reads (λ m. length (agents_of (get_positions id none m) [])) >>= λ n.
      refuse_if (short_of (rule_int x d "min_participants" (pos 0)) n) quorum_not_met

  unfoldable pub check_analysis_preconditions : String → String → Bool → M L (Unit {0})
  unfolding deliberation_of check_access check_quorum
  check_analysis_preconditions id key require_quorum = deliberation_of id >>= λ d.
      check_access id key >> (if require_quorum then check_quorum id else pure tt)

unfoldable pub is_valid_role : String → Bool
is_valid_role role =
    str_eq role "moderator"
    || str_eq role "expert"
    || str_eq role "mediator"
    || str_eq role "observer"
    || str_eq role ""

module _ {L : Type 0} where
  unfoldable pub set_template : String → String → String → M L (Unit {0})
  unfolding get_template deliberation_of update_deliberation_template update_deliberation_rules
  set_template id template key = elim (get_template template) [
    | none ↦ fail unknown_template
    | some t ↦ deliberation_of id >>= λ d.
        refuse_if (not (str_eq d.creator_key "") && not (str_eq d.creator_key key)) not_creator
        >> writes (update_deliberation_template id template)
        >> writes (update_deliberation_rules id (some t.default_rules))
  ]

  -- The lock of the resolution, which goes with the deliberation, is left out.
  unfoldable pub service_delete_deliberation : ℕ → String → String → Bool → M L (Unit {0})
  unfolding deliberation_of delete_deliberation audit
  service_delete_deliberation now id key is_admin =
      (if is_admin
        then pure tt
        else deliberation_of id >>= λ d.
            refuse_if (str_eq d.creator_key "" || not (str_eq d.creator_key key)) not_creator)
      >> writes (delete_deliberation id now)
      >> audit "deliberation:delete" id ""

  unfoldable pub report_abuse : ℕ → String → String → String → M L (Unit {0})
  unfolding deliberation_of create_abuse_report
  report_abuse now id reporter reason =
      deliberation_of id >>= λ d. updates (create_abuse_report id reporter reason now)

  -- The code's words and number are random, and so given; 0 uses stand for the default.
  unfoldable pub generate_join_code : String → ℕ → String → String → ℕ → ℕ → M L JoinCode
  unfolding deliberation_of create_join_code
  generate_join_code code now id role ttl max_uses =
      let jc : JoinCode = record {
        code = code;
        deliberation_id = id;
        role = role;
        expires_at = now + ttl;
        used = false;
        used_by = "";
        use_count = 0;
        max_uses = if ltb 0 max_uses then max_uses else 1;
        created_at = now;
      } in
      deliberation_of id >>= λ d. writes (create_join_code now jc)

  unfoldable pub join_deliberation : ℕ → String → String → M L (String × String)
  unfolding claim_join_code
  join_deliberation now code agent =
      writes (claim_join_code code agent now) >>= λ jc. pure (jc.deliberation_id, jc.role)

  -- A deliberation that is gone is nil.
  unfoldable pub service_lookup_join_code : String → M L (JoinCode × Option Deliberation)
  unfolding lookup_join_code get_deliberation
  service_lookup_join_code code = looks_up (lookup_join_code code) not_found >>= λ jc.
      reads (λ m. (jc, elim (get_deliberation jc.deliberation_id m) [ ok d ↦ some d | _ ↦ none ]))

  unfoldable pub invite_agent :
      String → ℕ → String → String → String → String → String → M L Invitation
  unfolding is_valid_role create_invitation len
  invite_agent fresh now id by agent role reason =
      let inv : Invitation = record {
        id = "";
        deliberation_id = id;
        invited_by = by;
        invited_agent = agent;
        role = role;
        reason = reason;
        status = "";
        created_at = 0;
      } in
      refuse_if (ltb max_content_len (len reason)) too_long
      >> refuse_if (not (is_valid_role role)) invalid_role
      >> writes (create_invitation fresh now inv)

  -- The token is 16 random bytes in hexadecimal, or none if the generator fails; times are counted in
  -- nanoseconds.
  unfoldable pub service_create_share_token : Option String → ℕ → String → M L String
  unfolding create_share_token
  service_create_share_token random now group =
      if str_eq group "" then fail group_required else elim random [
        | none ↦ fail no_randomness
        | some token ↦
            updates (create_share_token token group (now + 2592000000000000)) >> pure token
      ]

-- The loop of GetAgentVotes.
unfoldable pub votes_by : String → List Vote → List Vote
votes_by agent [] = []
votes_by agent (v ∷ vs) =
    let rest = votes_by agent vs in if str_eq v.agent_id agent then v ∷ rest else rest

unfoldable pub get_agent_votes : {L : Type 0} → String → String → M L (List Vote)
unfolding votes_by get_votes
get_agent_votes id agent = reads (λ m. votes_by agent (get_votes id m))

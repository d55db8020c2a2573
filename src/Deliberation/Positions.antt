-- ===== src/Deliberation/Positions.antt =====
-- internal/deliberation/service.go: the rules of a deliberation, SubmitPosition and GetPositions.
use gemot.Prelude.{
  ℕ, suc, Bool, true, false, not, ◌&&◌, Option, none, some, List, [], ◌∷◌, Map, String, str_eq,
  string_key, get, len, ltb, leb, if◌then◌else◌,
}
use gemot.Prelude.Integers.{ℤ, pos, negsuc}
use gemot.Memory.Records.{Deliberation, Position}
use gemot.Memory.State.{MemoryStore}
use gemot.Memory.Positions.{create_position, count_positions, check_participant_cap, get_positions}
use gemot.Memory.Moderation.{has_context_access, decimal}
use gemot.Deliberation.Service.{
  Outside, M, pure, refuse_if, reads, writes, audit, emit, deliberation_of, is_past, order_action,
  ◌>>=◌, ◌>>◌, max_agent_id_len, max_content_len, max_positions, too_long, content_rejected,
  not_open, deadline_passed, review_required, positions_full, participants_full,
}
use gemot.Deliberation.Signing.{verify_position_signature, verify_principal_delegation}

-- d.Rules[key]
unfoldable pub rule : Deliberation → String → Option String
rule d key = elim d.rules [ none ↦ none | some rules ↦ get key rules ]

-- The position that SubmitPosition begins with.
unfoldable pub blank_position : String → String → String → ℕ → Position
blank_position id agent content round = record {
  id = "";
  deliberation_id = id;
  agent_id = agent;
  content = content;
  model_family = "";
  group = "";
  conviction = 0;
  reservation = "";
  on_behalf_of = "";
  interests = "";
  principal_credential = [];
  principal_verified = false;
  draft = false;
  parent_position_id = "";
  metadata = none;
  round = round;
  signature = [];
  created_at = 0;
}

abbrev pub PositionOption : Type 0
PositionOption = Position → Position

unfoldable pub with_model_family : String → PositionOption
with_model_family family p = record p { model_family = family }

unfoldable pub with_group : String → PositionOption
with_group group p = record p { group = group }

unfoldable pub with_reservation : String → PositionOption
with_reservation r p = record p { reservation = r }

unfoldable pub with_on_behalf_of : String → PositionOption
with_on_behalf_of principal p = record p { on_behalf_of = principal }

unfoldable pub with_interests : String → PositionOption
with_interests interests p = record p { interests = interests }

unfoldable pub with_draft : PositionOption
with_draft p = record p { draft = true }

unfoldable pub with_parent_position : String → PositionOption
with_parent_position id p = record p { parent_position_id = id }

unfoldable pub with_metadata : Option (Map String String) → PositionOption
with_metadata m p = record p { metadata = m }

unfoldable pub with_principal_credential : List ℕ → PositionOption
with_principal_credential raw p = record p { principal_credential = raw }

unfoldable pub with_signature : List ℕ → PositionOption
with_signature sig p = record p { signature = sig }

abbrev pub apply_options : List PositionOption → Position → Position
apply_options [] p = p
apply_options (opt ∷ opts) p = apply_options opts (opt p)

-- In a later round the agent has to have read the context.
unfoldable pub must_review : Deliberation → String → String → MemoryStore → Bool
unfolding has_context_access
must_review d id agent m = ltb 1 d.round && not (has_context_access id agent d.round m)

unfoldable pub over_cap : Deliberation → String → String → MemoryStore → Bool
unfolding check_participant_cap
over_cap d id agent m =
    let cap = check_participant_cap id agent d.max_participants m in
    ltb 0 d.max_participants && cap.0 && not cap.1

-- Has the classifier blocked the text?
unfoldable pub screened : Option (String → Bool) → String → Bool
screened none content = false
screened (some blocked) content = blocked content

module _ {L : Type 0} (x : Outside L) where
  unfoldable pub rule_int : Deliberation → String → ℤ → ℤ
  unfolding rule
  rule_int d key default = elim (rule d key) [
    | none ↦ default
    | some v ↦ elim (x.rule_number v) [ none ↦ default | some n ↦ n ]
  ]

  unfoldable pub rule_bool : Deliberation → String → Bool → Bool
  unfolding rule
  rule_bool d key default = elim (rule d key) [
    | none ↦ default
    | some v ↦ elim (x.rule_flag v) [ none ↦ default | some b ↦ b ]
  ]

  -- limit > 0 && n > limit
  unfoldable pub exceeds : ℤ → ℕ → Bool
  exceeds (pos limit) n = ltb 0 limit && ltb limit n
  exceeds (negsuc _) n = false

  -- The position after the options, a draft where motions need a second.
  unfoldable pub built_position :
      Deliberation → String → String → String → List PositionOption → Position
  unfolding rule_bool blank_position
  built_position d id agent content opts =
      let p = apply_options opts (blank_position id agent content d.round) in
      record p { draft = if rule_bool d "require_second" false then true else p.draft }

  unfoldable pub submit_checked :
      String
      → ℕ
      → String
      → String
      → Deliberation
      → Position
      → String
      → String
      → String
      → M L Position
  unfolding verify_position_signature verify_principal_delegation create_position audit emit decimal
  submit_checked fresh now id agent d p content raw signer =
      verify_position_signature x d p raw signer
      >> verify_principal_delegation x d p raw signer
      >>= λ p'.
          order_action x "submit_position"
            (id ∷ (agent ∷ (decimal (suc p.round) p.round ∷ (content ∷ []))))
          >> writes (create_position fresh now p')
          >>= λ stored.
              audit "participate:submit_position" id agent
              >> emit "position_submitted" id agent stored.id
              >> pure stored

  unfoldable pub submit_position :
      String → ℕ → String → String → String → String → List PositionOption → M L Position
  unfolding submit_checked built_position rule_int rule_bool exceeds must_review over_cap screened
      blank_position is_past deliberation_of count_positions len
  submit_position fresh now id agent signer raw opts =
      let content = x.sanitize raw in
      refuse_if (ltb max_agent_id_len (len agent)) too_long
      >> refuse_if (ltb max_content_len (len raw)) too_long
      >> refuse_if (screened x.blocked content) content_rejected
      >> deliberation_of id
      >>= λ d.
          refuse_if (not (str_eq d.status "open")) not_open
          >> refuse_if (is_past now d) deadline_passed
          >> reads (must_review d id agent)
          >>= λ unread. refuse_if unread review_required >> reads (count_positions id) >>= λ count.
              refuse_if (leb max_positions count) positions_full
              >> reads (over_cap d id agent)
              >>= λ full.
                  refuse_if full participants_full
                  >> refuse_if (exceeds (rule_int d "speaking_time_limit" (pos 0)) (len content))
                      too_long
                  >> submit_checked fresh now id agent d (built_position d id agent content opts)
                      content raw signer

-- The loop that filters out an agent.
unfoldable pub others : String → List Position → List Position
others agent [] = []
others agent (p ∷ ps) =
    let rest = others agent ps in if str_eq p.agent_id agent then rest else p ∷ rest

unfoldable pub service_get_positions :
    String → Option String → Option ℕ → MemoryStore → List Position
unfolding others get_positions
service_get_positions id exclude round m =
    let positions = get_positions id round m in
    elim exclude [ none ↦ positions | some agent ↦ others agent positions ]

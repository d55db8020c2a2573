-- ===== src/Deliberation/Creation.antt =====
-- internal/deliberation/service.go: the options of a deliberation, and CreateDeliberation.
pub mod Admissible
use gemot.Prelude.{
  ℕ, Bool, true, false, not, ◌&&◌, ◌||◌, Option, none, some, List, [], ◌∷◌, Map, String, str_eq,
  string_key, put, len, ltb, ◌==◌, if◌then◌else◌,
}
use gemot.Memory.Records.{Deliberation}
use gemot.Memory.State.{or_default}
use gemot.Memory.Deliberations.{create_deliberation}
use gemot.Memory.Access.{add_to_acl}
use gemot.Deliberation.Service.{
  M, pure, refuse_if, writes, updates, audit, emit, ◌>>=◌, ◌>>◌, too_long, unknown_template,
  invalid_type, invalid_visibility,
}
use gemot.Deliberation.Templates.{Template, get_template}

-- An option sets fields of the deliberation.
abbrev pub DeliberationOption : Type 0
DeliberationOption = Deliberation → Deliberation

unfoldable pub with_type : String → DeliberationOption
with_type kind d = record d { kind = kind }

unfoldable pub with_visibility : String → DeliberationOption
with_visibility visibility d = record d { visibility = visibility }

unfoldable pub with_creator_key : String → DeliberationOption
with_creator_key key d = record d { creator_key = key }

unfoldable pub with_group_id : String → DeliberationOption
with_group_id group d = record d { group_id = group }

unfoldable pub with_max_participants : ℕ → DeliberationOption
with_max_participants n d = record d { max_participants = n }

-- The loop that copies rules over others.
unfoldable pub put_all : Map String String → Map String String → Map String String
put_all [] rules = rules
put_all ((k, v) ∷ more) rules = put_all more (put k v rules)

-- The rules of a template, where it has some and none are set.
unfoldable pub rules_or_default : Template → Option (Map String String) → Option (Map String String)
unfolding put_all
rules_or_default t rules = elim rules [
  | some rs ↦ some rs
  | none ↦ elim t.default_rules [ [] ↦ none | _ ∷ _ ↦ some (put_all t.default_rules []) ]
]

unfoldable pub with_template : String → DeliberationOption
unfolding rules_or_default get_template
with_template name d = elim (get_template name) [
  | none ↦ record d { template = name }
  | some t ↦ record d {
    template = name;
    kind = if str_eq d.kind "" then t.default_type else d.kind;
    max_participants = if d.max_participants == 0 then t.default_max_part else d.max_participants;
    rules = rules_or_default t d.rules;
  }
]

unfoldable pub with_rules : Map String String → DeliberationOption
unfolding put_all
with_rules rules d = record d {
  rules = some (put_all rules (elim d.rules [ none ↦ [] | some own ↦ own ]));
}

unfoldable pub with_deadline : ℕ → DeliberationOption
with_deadline t d = record d { deadline_at = some t }

-- Unknown values are normalized to "none".
unfoldable pub policy_of : String → String
policy_of policy =
    if str_eq policy "none" || str_eq policy "advisory" || str_eq policy "required"
    then policy
    else "none"

unfoldable pub with_signature_policy : String → DeliberationOption
unfolding policy_of
with_signature_policy policy d = record d { signature_policy = policy_of policy }

unfoldable pub with_principal_policy : String → DeliberationOption
unfolding policy_of
with_principal_policy policy d = record d { principal_policy = policy_of policy }

unfoldable pub apply_all : List DeliberationOption → Deliberation → Deliberation
apply_all [] d = d
apply_all (opt ∷ opts) d = apply_all opts (opt d)

unfoldable pub blank_deliberation : String → String → Deliberation
blank_deliberation topic description = record {
  id = "";
  topic = topic;
  description = description;
  round = 1;
  status = "open";
  sub_status = "";
  kind = "";
  criteria = [];
  visibility = "";
  creator_key = "";
  max_participants = 0;
  template = "";
  rules = none;
  group_id = "";
  resolution = none;
  signature_policy = "";
  principal_policy = "";
  deadline_at = none;
  created_at = 0;
}

unfoldable pub is_known_template : String → Bool
unfolding get_template
is_known_template name = str_eq name "" || elim (get_template name) [ none ↦ false | some _ ↦ true ]

unfoldable pub is_valid_type : String → Bool
is_valid_type kind =
    str_eq kind ""
    || str_eq kind "reasoning"
    || str_eq kind "knowledge"
    || str_eq kind "negotiation"
    || str_eq kind "policy"

unfoldable pub is_valid_visibility : String → Bool
is_valid_visibility v = str_eq v "open" || str_eq v "private" || str_eq v "link"

module _ {L : Type 0} where
  -- The creator of a private deliberation is put on its access list.
  unfoldable pub admit_creator : Deliberation → M L (Unit {0})
  unfolding add_to_acl
  admit_creator d = updates λ m.
      if str_eq d.visibility "private" && not (str_eq d.creator_key "")
      then add_to_acl d.id d.creator_key m
      else m

  unfoldable pub announce : Deliberation → M L Deliberation
  unfolding admit_creator audit emit
  announce made =
      admit_creator made
      >> audit "deliberation:create" made.id ""
      >> emit "deliberation_created" made.id "" made.topic
      >> pure made

  -- Validation and what follows, for the deliberation that the options make.
  unfoldable pub create_checked : String → ℕ → Deliberation → M L Deliberation
  unfolding is_known_template is_valid_type is_valid_visibility create_deliberation announce
  create_checked fresh now d =
      let d' = record d { visibility = or_default "open" d.visibility } in
      refuse_if (not (is_known_template d.template)) unknown_template
      >> refuse_if (not (is_valid_type d.kind)) invalid_type
      >> refuse_if (not (is_valid_visibility d'.visibility)) invalid_visibility
      >> writes (create_deliberation fresh now d')
      >>= announce

  unfoldable pub service_create_deliberation :
      String → ℕ → String → String → List DeliberationOption → M L Deliberation
  unfolding create_checked apply_all blank_deliberation len
  service_create_deliberation fresh now topic description opts =
      refuse_if (ltb 500 (len topic)) too_long
      >> refuse_if (ltb 5000 (len description)) too_long
      >> create_checked fresh now (apply_all opts (blank_deliberation topic description))

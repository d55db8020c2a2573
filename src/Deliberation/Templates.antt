-- ===== src/Deliberation/Templates.antt =====
-- internal/deliberation/templates.go: the table of templates, without the prose for people and for the
-- language model. A threshold is in hundredths, a value of a rule its JSON text.
use gemot.Prelude.{ℕ, Option, [], ◌∷◌, Map, String, string_key, get}

pub record Template : Type 0 where
  pub name : String
  pub default_type : String
  pub default_max_part : ℕ
  pub suggested_threshold : ℕ
  pub default_rules : Map String String

unfoldable pub template_named : String → String → ℕ → ℕ → Map String String → Template
template_named name kind most threshold rules = record {
  name = name;
  default_type = kind;
  default_max_part = most;
  suggested_threshold = threshold;
  default_rules = rules;
}

unfoldable pub templates : Map String Template
unfolding template_named
templates =
    ("assembly", template_named "assembly" "" 50 67 (("min_participants", "3") ∷ []))
    ∷ ("sortition", template_named "sortition" "policy" 15 67 (("min_participants", "10") ∷ []))
    ∷ (
      "parliament",
      template_named "parliament" "policy" 0 51 (
          ("min_participants", "5")
          ∷ ("cooling_period_minutes", "60")
          ∷ ("position_cost", "5")
          ∷ []),
    )
    ∷ (
      "jury",
      template_named "jury" "reasoning" 12 92
          (("min_participants", "6") ∷ ("cooling_period_minutes", "15") ∷ []),
    )
    ∷ (
      "consensus",
      template_named "consensus" "negotiation" 20 100
          (("min_participants", "3") ∷ ("cooling_period_minutes", "30") ∷ []),
    )
    ∷ (
      "negotiation",
      template_named "negotiation" "negotiation" 10 60 (("min_participants", "2") ∷ []),
    )
    ∷ ("review", template_named "review" "reasoning" 10 75 (("min_participants", "2") ∷ []))
    ∷ (
      "roberts_rules",
      template_named "roberts_rules" "policy" 100 51 (
          ("min_participants", "5")
          ∷ ("cooling_period_minutes", "15")
          ∷ ("position_cost", "3")
          ∷ ("require_second", "true")
          ∷ ("allow_amendments", "true")
          ∷ ("speaking_time_limit", "500")
          ∷ []),
    )
    ∷ ("freeform", template_named "freeform" "" 20 50 (("min_participants", "2") ∷ []))
    ∷ []

unfoldable pub get_template : String → Option Template
unfolding templates
get_template name = get name templates

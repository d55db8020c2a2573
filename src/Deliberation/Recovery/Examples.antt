-- ===== src/Deliberation/Recovery/Examples.antt =====
-- CreateDeliberation and RecoverStuck at concrete calls.
use gemot.Prelude.{ℕ, ◌≡◌, refl, some, List, [], ◌∷◌, get, string_key, ◌-◌}
use gemot.Prelude.Outcomes.{ok}
use gemot.Memory.Records.{Deliberation}
use gemot.Memory.State.{new_memory_store}
use gemot.Memory.Deliberations.{create_deliberation}
use gemot.Deliberation.Service.{Service, refuse_if, and_then, wrote, audit, emit}
use gemot.Deliberation.Creation.{
  DeliberationOption, with_template, with_visibility, with_creator_key, service_create_deliberation,
  blank_deliberation,
}
use gemot.Deliberation.Creation.Admissible.{IsAdmissible, create_deliberation-Admissible}
use gemot.Deliberation.Recovery.{stuck_age, recover_stuck}
use gemot.Deliberation.Recovery.Reopened.{recovered, recover_stuck-get}

abbrev empty : Service (List ℕ)
empty = record { store = new_memory_store; log = []; audits = []; events = [] }

abbrev options : List DeliberationOption
options = with_template "jury" ∷ with_visibility "private" ∷ with_creator_key "k" ∷ []

abbrev made : Deliberation
made = record (blank_deliberation "topic" "") {
  id = "d";
  kind = "reasoning";
  template = "jury";
  visibility = "private";
  creator_key = "k";
  max_participants = 12;
  rules = some (("min_participants", "6") ∷ ("cooling_period_minutes", "15") ∷ []);
  created_at = 9;
}

made_of_options : (service_create_deliberation "d" 9 "topic" "" options empty).0 ≡ ok made
unfolding service_create_deliberation with_template with_visibility with_creator_key
    blank_deliberation refuse_if and_then wrote audit emit create_deliberation new_memory_store
made_of_options = refl

create_deliberation-Admissible_example :
    IsAdmissible made
    × (get made.id
          (service_create_deliberation "d" 9 "topic" "" options empty).1.store.deliberations
        ≡ some made)
create_deliberation-Admissible_example =
    create_deliberation-Admissible "d" 9 "topic" "" options made empty made_of_options

abbrev hung : Deliberation
hung = record made { status = "analyzing" }

abbrev stuck : Service (List ℕ)
stuck = record empty {
  store = record new_memory_store {
    deliberations = ("d", hung) ∷ [];
    status_changed = ("d", 9) ∷ [];
  };
}

recover_stuck-get_example :
    get "d" (recover_stuck 1800000000010 stuck).1.store.deliberations
    ≡ some (recovered (1800000000010 - stuck_age) stuck.store "d" hung)
recover_stuck-get_example = recover_stuck-get 1800000000010 stuck "d" hung (refl, tt) refl

-- ===== src/Deliberation/Accesses.antt =====
-- internal/deliberation/service.go: the downstream accesses to a commitment, and the signals that are
-- derived from them.
use gemot.Prelude.{
  ℕ, ◌+◌, Bool, true, false, not, ◌&&◌, ◌||◌, Option, none, some, List, [], ◌∷◌, Map, String,
  str_eq, string_key, put, length, ltb, if◌then◌else◌,
}
use gemot.Prelude.Outcomes.{ok}
use gemot.Memory.Records.{Commitment, CommitmentAccess}
use gemot.Memory.State.{MemoryStore}
use gemot.Memory.Commitments.{
  get_commitment_by_id, record_commitment_access, get_commitment_accesses,
}
use gemot.Deliberation.Service.{
  Outside, M, pure, fail, refuse_if, reads, looks_up, writes, audit, order_action, ◌>>=◌, ◌>>◌,
  not_found, own_commitment, bad_access_kind, dependency_required, own_dependent, not_dependent,
}
use gemot.Deliberation.Commitments.{owned_by, check_participant}

module _ {L : Type 0} where
  -- The dependent commitment is the accessor's own, and another one.
  unfoldable pub check_dependent : String → String → String → String → M L (String × String)
  unfolding get_commitment_by_id owned_by
  check_dependent id accessor dependent key =
      refuse_if (str_eq dependent "") dependency_required
      >> refuse_if (str_eq dependent id) own_dependent
      >> looks_up (get_commitment_by_id dependent) not_found
      >>= λ dep.
          refuse_if
            (not (not (str_eq key "") && owned_by key dep.agent_id)
              && not (str_eq dep.agent_id accessor))
            not_dependent
          >> pure ("dependency", dependent)

  -- What the switch on the kind leaves: the kind and the dependent commitment.
  unfoldable pub check_kind : String → String → String → String → String → M L (String × String)
  unfolding check_dependent
  check_kind id accessor kind dependent key =
      if str_eq kind "" || str_eq kind "read"
      then pure ("read", "")
      else if str_eq kind "question"
      then pure ("question", "")
      else if str_eq kind "dependency"
      then check_dependent id accessor dependent key
      else fail bad_access_kind

  -- The checks before the action is ordered.
  unfoldable pub checked_access :
      String → String → String → String → String → M L (Commitment × String × String)
  unfolding get_commitment_by_id check_participant owned_by check_kind
  checked_access id accessor kind dependent key =
      looks_up (get_commitment_by_id id) not_found >>= λ c.
      check_participant c.deliberation_id key
      >> refuse_if ((not (str_eq key "") && owned_by key c.agent_id) || str_eq accessor c.agent_id)
          own_commitment
      >> check_kind id accessor kind dependent key
      >>= λ k. pure (c, k.0, k.1)

unfoldable pub new_access : String → String → String → String → String → CommitmentAccess
new_access id accessor kind note dependent = record {
  id = "";
  commitment_id = id;
  accessor_id = accessor;
  kind = kind;
  note = note;
  dependent_commitment_id = dependent;
  created_at = 0;
}

module _ {L : Type 0} (x : Outside L) where
  unfoldable pub record_access :
      String → ℕ → String → String → String → String → String → String → M L CommitmentAccess
  unfolding checked_access new_access record_commitment_access audit
  record_access fresh now id accessor kind note dependent key =
      checked_access id accessor kind dependent key >>= λ r.
      order_action x "access" (r.0.deliberation_id ∷ (accessor ∷ (id ∷ (r.1 ∷ []))))
      >> writes (record_commitment_access fresh now (new_access id accessor r.1 note r.2))
      >>= λ a. audit "decide:access" r.0.deliberation_id accessor >> pure a

-- models.go: CommitmentSignals; and the maps that the loop fills.
pub record Signals : Type 0 where
  pub access_count : ℕ
  pub first_downstream_access_at : Option ℕ
  pub last_downstream_access_at : Option ℕ
  pub first_question_at : Option ℕ
  pub distinct_accessors : Map String Bool
  pub live_dependents : Map String Bool

unfoldable pub no_signals : Signals
no_signals = record {
  access_count = 0;
  first_downstream_access_at = none;
  last_downstream_access_at = none;
  first_question_at = none;
  distinct_accessors = [];
  live_dependents = [];
}

abbrev pub or_first : Option ℕ → ℕ → Option ℕ
or_first (some t) now = some t
or_first none now = some now

-- derr == nil && dep.Status != "broken"
unfoldable pub is_live : MemoryStore → String → Bool
unfolding get_commitment_by_id
is_live m id = elim (get_commitment_by_id id m) [
  | ok c ↦ not (str_eq c.status "broken")
  | _ ↦ false
]

unfoldable pub with_dependent : MemoryStore → CommitmentAccess → Map String Bool → Map String Bool
unfolding is_live
with_dependent m a seen =
    if str_eq a.kind "dependency"
      && not (str_eq a.dependent_commitment_id "")
      && is_live m a.dependent_commitment_id
    then put a.dependent_commitment_id true seen
    else seen

-- One round of the loop. A dependent that was seen is live, so to put it again changes nothing.
unfoldable pub count_access : MemoryStore → CommitmentAccess → Signals → Signals
unfolding with_dependent
count_access m a sig = record {
  access_count = sig.access_count + 1;
  first_downstream_access_at = or_first sig.first_downstream_access_at a.created_at;
  last_downstream_access_at = some a.created_at;
  first_question_at =
      if str_eq a.kind "question"
      then or_first sig.first_question_at a.created_at
      else sig.first_question_at;
  distinct_accessors = put a.accessor_id true sig.distinct_accessors;
  live_dependents = with_dependent m a sig.live_dependents;
}

unfoldable pub count_accesses : MemoryStore → List CommitmentAccess → Signals → Signals
unfolding count_access
count_accesses m [] sig = sig
count_accesses m (a ∷ as') sig = count_accesses m as' (count_access m a sig)

unfoldable pub stakes_level : Signals → String
stakes_level sig = if ltb 0 (length sig.live_dependents) then "high" else "normal"

unfoldable pub commitment_signals : {L : Type 0} → String → M L (Signals × String)
unfolding get_commitment_by_id get_commitment_accesses count_accesses no_signals stakes_level
commitment_signals id = looks_up (get_commitment_by_id id) not_found >>= λ c.
    reads (λ m. count_accesses m (get_commitment_accesses id m) no_signals) >>= λ sig.
    pure (sig, stakes_level sig)

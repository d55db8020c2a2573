-- ===== src/Deliberation/Examples.antt =====
-- Tests and runs of the service on a small store.
use gemot.Prelude.{
  ℕ, ◌≡◌, refl, true, false, none, List, [], ◌∷◌, runes, get, string_key, length, len, arith,
}
use gemot.Prelude.Integers.{pos}
use gemot.Prelude.Sorting.{sort_by}
use gemot.Memory.Records.{Deliberation, Position, Vote, Delegation}
use gemot.Memory.State.{new_memory_store}
use gemot.Deliberation.Service.{
  Outside, Service, and_then, refuse_if, found, wrote, order_action, payload_text,
}
use gemot.Deliberation.Signing.{is_ok}
use gemot.Deliberation.Payloads.{split_escaped_pipe, payload_of}
use gemot.Deliberation.Payloads.RoundTrip.{split_escaped_pipe-payload_of}
use gemot.Deliberation.Voting.{
  cast_vote, publish_seconded, new_delegation, copied_vote, resolve_delegations,
}
use gemot.Deliberation.Positions.{blank_position}
use gemot.Deliberation.Rollup.{principal_rollup}
use gemot.Deliberation.Rollup.Agreed.{principal_rollup-agreed, agreed, claims}
use gemot.Deliberation.Commitments.{withdraw_agent, new_commitment}
use gemot.Deliberation.Withdrawal.{Gone, withdraw_agent-Gone}
use gemot.Deliberation.Ordered.Effects.{votes, sent, intended}
use gemot.Deliberation.Ordered.Steps.{Ordered}
use gemot.Deliberation.Ordered.Actions.{perform, perform-Ordered}
use gemot.Deliberation.Delegations.{Capped, delegates, revokes, withdraws, calls, calls-Capped}

-- A log that takes every payload, and no classifier or verifier.
abbrev outside : Outside (List (List ℕ))
outside = record {
  submit = λ p log. (true, p ∷ log);
  ed25519_verify = λ key msg sig. false;
  sha256 = λ b. b;
  sanitize = λ s. s;
  blocked = none;
  decode_credential = λ raw. none;
  verify_credential = none;
  rule_number = λ v. none;
  rule_flag = λ v. none;
}

abbrev budget : Deliberation
budget = record {
  id = "d";
  topic = "budget";
  description = "";
  round = 1;
  status = "open";
  sub_status = "";
  kind = "";
  criteria = [];
  visibility = "open";
  creator_key = "k";
  max_participants = 0;
  template = "";
  rules = none;
  group_id = "";
  resolution = none;
  signature_policy = "none";
  principal_policy = "none";
  deadline_at = none;
  created_at = 5;
}

abbrev of_alice : Position
of_alice = record (blank_position "d" "alice" "more" 1) {
  id = "p";
  on_behalf_of = "acme";
  principal_verified = true;
}

abbrev service : Service (List (List ℕ))
service = record {
  store = record new_memory_store {
    deliberations = ("d", budget) ∷ [];
    positions = ("p", of_alice) ∷ [];
    commitments = ("c", record (new_commitment "d" "alice" 0 "pay" "") { id = "c" }) ∷ [];
  };
  log = [];
  audits = [];
  events = [];
}

abbrev ballot : Vote
ballot = record {
  id = "v";
  deliberation_id = "d";
  agent_id = "bob";
  position_id = "p";
  value = pos 1;
  criterion_id = "";
  qualifier = "";
  caveat = "";
  signature = [];
  relayed = false;
  created_at = 0;
}

-- Fields that hold pipes and backslashes.
split_escaped_pipe-payload_of_example :
    split_escaped_pipe (payload_of (runes "vote") (runes "d|e" ∷ (runes "a\\|b" ∷ [])))
    ≡ runes "vote" ∷ (runes "d|e" ∷ (runes "a\\|b" ∷ []))
split_escaped_pipe-payload_of_example =
    split_escaped_pipe-payload_of (runes "vote") (runes "d|e" ∷ (runes "a\\|b" ∷ []))

principal_rollup-agreed_example :
    get "alice" (principal_rollup (of_alice ∷ (of_alice ∷ [])))
    ≡ agreed (claims "alice" (of_alice ∷ (of_alice ∷ [])))
principal_rollup-agreed_example = principal_rollup-agreed "alice" (of_alice ∷ (of_alice ∷ []))

-- Two verified principals of one agent are a conflict.
conflict :
    get "alice" (principal_rollup (of_alice ∷ (record of_alice { on_behalf_of = "b" } ∷ []))) ≡ none
unfolding principal_rollup blank_position
conflict = refl

perform-Ordered_example :
    Ordered outside
      (payload_text "vote" (sent outside (votes "v" 9 ballot "bob") service.store))
      (intended outside (votes "v" 9 ballot "bob") service.store)
      service.store
      service.log
      (perform outside (votes "v" 9 ballot "bob") service)
perform-Ordered_example = perform-Ordered outside (votes "v" 9 ballot "bob") service

vote_is_ordered : length (perform outside (votes "v" 9 ballot "bob") service).1.log ≡ 1
unfolding perform cast_vote and_then refuse_if found wrote order_action blank_position
    new_memory_store publish_seconded len
vote_is_ordered = refl

-- The log accepts the vote's own payload, and the store is the intended one.
vote_is_sent :
    (perform outside (votes "v" 9 ballot "bob") service).1.log
    ≡ payload_text "vote" (sent outside (votes "v" 9 ballot "bob") service.store) ∷ []
unfolding perform cast_vote and_then refuse_if found wrote order_action blank_position
    new_memory_store publish_seconded len sent
vote_is_sent = refl

none-Capped : Capped service.store
unfolding new_memory_store
none-Capped = record { within = λ id agent. omega arith }

calls-Capped_example :
    Capped
      (calls outside service (
        delegates "1" 9 "d" "alice" "bob" ""
        ∷ (revokes "d" "alice" ∷ (withdraws 9 "d" "alice" ∷ [])))).store
calls-Capped_example =
    calls-Capped outside
      (delegates "1" 9 "d" "alice" "bob" ""
        ∷ (revokes "d" "alice" ∷ (withdraws 9 "d" "alice" ∷ [])))
      service none-Capped

withdraws_alice : is_ok (withdraw_agent outside 9 "d" "alice" service).0 ≡ true
unfolding withdraw_agent and_then refuse_if found blank_position new_memory_store sort_by
withdraws_alice = refl

withdraw_agent-Gone_example :
    Gone outside "d" "alice" (withdraw_agent outside 9 "d" "alice" service).1.store
withdraw_agent-Gone_example = withdraw_agent-Gone outside 9 "d" "alice" service withdraws_alice

abbrev to_alice : Delegation
to_alice = record (new_delegation "d" "bob" "alice" "") { active = true }

abbrev by_alice : Vote
by_alice = record ballot { id = "w"; agent_id = "alice" }

-- Bob has not voted, so alice's vote counts for him too.
copied_once :
    resolve_delegations (by_alice ∷ []) (to_alice ∷ [])
    ≡ by_alice ∷ (copied_vote "bob" by_alice ∷ [])
unfolding resolve_delegations new_delegation
copied_once = refl

abbrev to_bob : Delegation
to_bob = record (new_delegation "d" "carol" "bob" "") { active = true }

-- Carol's delegation leads over bob to alice, and a revoked one does not count.
copied_twice :
    resolve_delegations
      (by_alice ∷ [])
      (to_alice ∷ (to_bob ∷ (record to_bob { to_agent = "dave"; active = false } ∷ [])))
    ≡ by_alice ∷ (copied_vote "bob" by_alice ∷ (copied_vote "carol" by_alice ∷ []))
unfolding resolve_delegations new_delegation
copied_twice = refl

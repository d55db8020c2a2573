-- ===== src/Memory/Examples.antt =====
-- The theorems on the store in memory at concrete inputs.
use gemot.Prelude.{
  ℕ, ◌+◌, ◌≤◌, ◌≡◌, refl, true, false, none, List, [], ◌∷◌, String, string_key, select, length,
  arith,
}
use text.Mathlib.TextEquality.{eq_iff}
use gemot.Prelude.Integers.{pos}
use gemot.Memory.Records.{Deliberation, Vote, Delegation, JoinCode, OAuthAuthorizationCode}
use gemot.Memory.State.{MemoryStore, new_memory_store}
use gemot.Memory.Deliberations.{try_set_analyzing, advance_round}
use gemot.Memory.Access.{claim_join_code}
use gemot.Memory.Jobs.{recover_stuck_jobs}
use gemot.Memory.Votes.{same_ballot, delegation_matches_from_agent}
use gemot.Memory.Ballots.{
  Call, creates_vote, creates_delegation, revokes_delegation, calls, calls-le_one,
}
use gemot.Memory.Codes.{
  Claims, claimed, uses_left, is_limited, claimed-le-uses_left, Attempts, consumed, unconsumed,
  consumed-le-unconsumed,
}
use gemot.Memory.Starts.{
  StatusCall, starts, advances, started, startable, openings, started-le-startable,
}
use gemot.Memory.Running
use gemot.Memory.Running.{runs_for, calls-one_running, create_all, create_all-not_recovered}

abbrev talk : Deliberation
talk = record {
  id = "d1";
  topic = "parks";
  description = "";
  round = 1;
  status = "open";
  sub_status = "";
  kind = "policy";
  criteria = [];
  visibility = "private";
  creator_key = "";
  max_participants = 0;
  template = "";
  rules = none;
  group_id = "g";
  resolution = none;
  signature_policy = "none";
  principal_policy = "none";
  deadline_at = none;
  created_at = 7;
}

abbrev code_ab : JoinCode
code_ab = record {
  code = "ab";
  deliberation_id = "d1";
  role = "";
  expires_at = 100;
  used = false;
  used_by = "";
  use_count = 0;
  max_uses = 2;
  created_at = 7;
}

abbrev grant : OAuthAuthorizationCode
grant = record {
  code = "xyz";
  agent_id = "client";
  principal = "";
  scope = "";
  code_challenge = "";
  code_challenge_method = "S256";
  expires_at = 100;
  consumed_at = none;
  created_at = 7;
}

abbrev store : MemoryStore
store = record new_memory_store {
  deliberations = ("d1", talk) ∷ [];
  status_changed = ("d1", 7) ∷ [];
  acl = ("d1", ("k2", true) ∷ []) ∷ [];
  join_codes = ("ab", code_ab) ∷ [];
  oauth_auth_codes = ("xyz", grant) ∷ [];
}

abbrev vote_of : ℕ → Vote
vote_of v = record {
  id = "";
  deliberation_id = "d1";
  agent_id = "ann";
  position_id = "p";
  value = pos v;
  criterion_id = "";
  qualifier = "";
  caveat = "";
  signature = [];
  relayed = false;
  created_at = 0;
}

abbrev to_agent : String → Delegation
to_agent agent = record {
  id = "";
  deliberation_id = "d1";
  from_agent = "ann";
  to_agent = agent;
  scope = "";
  active = false;
  created_at = 0;
}

abbrev writes : List Call
writes =
    creates_vote "v1" 10 (vote_of 1)
    ∷ creates_delegation "x1" 11 (to_agent "bob")
    ∷ creates_vote "v2" 12 (vote_of 2)
    ∷ creates_delegation "x2" 13 (to_agent "eve")
    ∷ revokes_delegation "d1" "ann"
    ∷ []

calls-le_one_example :
    (length (select (same_ballot (vote_of 0)) (calls writes new_memory_store).votes) ≤ 1)
    × (length (
          select
            (delegation_matches_from_agent "d1" "ann")
            (calls writes new_memory_store).delegations)
        ≤ 1)
calls-le_one_example = calls-le_one (vote_of 0) "d1" "ann" writes

abbrev cast_vote : Vote
cast_vote = record (vote_of 2) { id = "v3"; created_at = 20 }

abbrev claims_of_ab : Claims
claims_of_ab = ("ab", "ann", 10) ∷ ("ab", "bob", 11) ∷ ("zz", "bob", 12) ∷ ("ab", "eve", 13) ∷ []

two_claims : claimed "ab" claims_of_ab store ≡ 2
unfolding claimed claim_join_code new_memory_store
two_claims = refl

claimed-le-uses_left_example : claimed "ab" claims_of_ab store ≤ uses_left "ab" store
unfolding is_limited
claimed-le-uses_left_example = claimed-le-uses_left "ab" claims_of_ab store refl

abbrev attempts : Attempts
attempts = ("xyz", "other", 10) ∷ ("xyz", "client", 11) ∷ ("xyz", "client", 12) ∷ []

consumed-le-unconsumed_example :
    (consumed "xyz" attempts store ≤ unconsumed "xyz" store) × (consumed "xyz" attempts store ≤ 1)
consumed-le-unconsumed_example = consumed-le-unconsumed "xyz" attempts store

abbrev status_calls : List StatusCall
status_calls = starts "d1" 10 ∷ (starts "d1" 11 ∷ (advances "d1" 12 ∷ (starts "d1" 13 ∷ [])))

started-le-startable_example :
    started "d1" status_calls store ≤ startable "d1" store + openings "d1" status_calls
started-le-startable_example = started-le-startable "d1" status_calls store

started_twice : started "d1" status_calls store ≡ 2
unfolding started try_set_analyzing advance_round
started_twice = refl

abbrev job_calls : List Running.Call
job_calls =
    Running.claims "j1" "d1" 10
    ∷ Running.claims "j2" "d1" 11
    ∷ Running.completes "j1" "completed" "" 12
    ∷ Running.claims "j3" "d1" 13
    ∷ Running.recovers 99 10
    ∷ []

calls-one_running_example :
    length (select (runs_for "d1") (Running.calls job_calls new_memory_store).jobs) ≤ 1
calls-one_running_example =
    calls-one_running "d1" job_calls
      (tt, (tt, (ground (arith, eq_iff "completed" "running"), (tt, (tt, tt)))))

create_all-not_recovered_example :
    recover_stuck_jobs 9000 60 (create_all (("j1", "d1", 10) ∷ []) new_memory_store)
    ≡ (0, create_all (("j1", "d1", 10) ∷ []) new_memory_store)
create_all-not_recovered_example = create_all-not_recovered (("j1", "d1", 10) ∷ []) 9000 60

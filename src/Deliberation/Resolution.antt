-- ===== src/Deliberation/Resolution.antt =====
-- What resolveDelegations adds to the votes that were cast.
mod Delegates
mod Copied
use gemot.Prelude.{◌≡◌, ◌≢◌, ◌↔◌, ◌⊎◌, false, List, [], ◌∷◌, ◌++◌, String, join, string_key}
use gemot.Memory.Records.{Vote, Delegation}
use gemot.Deliberation.Voting.{copies}
use gemot.Deliberation.Resolution.Delegates.{Leads, In}

-- The agent has cast no vote on the position.
abbrev pub Silent : String → String → List Vote → Type 0
Silent agent position [] = Unit
Silent agent position (v ∷ vs) =
    ((v.agent_id ≢ agent) ⊎ (v.position_id ≢ position)) × Silent agent position vs

-- A vote of another agent's, under the agent's name and without its signature and remarks.
pub record IsCopy (votes : List Vote) (ds : List Delegation) (v : Vote) : Type 0 where
  pub source : Vote
  pub cast : In source votes
  pub led : Leads ds 5 (v.agent_id ∷ []) v.agent_id source.agent_id
  pub other : source.agent_id ≢ v.agent_id
  pub silent : Silent v.agent_id source.position_id votes
  pub fields : v ≡ record {
    id = join "delegated-" (join v.agent_id (join "-" source.position_id));
    deliberation_id = source.deliberation_id;
    agent_id = v.agent_id;
    position_id = source.position_id;
    value = source.value;
    criterion_id = "";
    qualifier = "";
    caveat = "";
    signature = [];
    relayed = false;
    created_at = source.created_at;
  }

-- The votes as they were cast, and then exactly the copies.
pub record Extends (votes : List Vote) (ds : List Delegation) (expanded : List Vote) : Type 0 where
  pub added : List Vote
  pub in_front : expanded ≡ votes ++ added
  pub copies : (v : Vote) → In v added ↔ IsCopy votes ds v

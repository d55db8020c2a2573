-- ===== src/Memory/State.antt =====
-- internal/store/memory.go: MemoryStore, and the errors of its methods. One lock guards the store,
-- so a method is one step from a store to a store. A clock reading and a new identifier, which
-- time.Now and crypto/rand give, are arguments.
use gemot.Prelude.{ℕ, Bool, List, [], Map, String, str_eq, ◌==◌, if◌then◌else◌}
use gemot.Prelude.Outcomes.{Outcome}
use gemot.Memory.Records.{
  Deliberation, Position, Vote, Delegation, Commitment, CommitmentAccess, JoinCode, Invitation,
  OAuthAuthorizationCode, Dispute,
}

pub record ShareToken : Type 0 where
  pub group_id : String
  pub expires_at : ℕ

pub record AbuseReport : Type 0 where
  pub deliberation_id : String
  pub reporter_key : String
  pub reason : String
  pub created_at : ℕ

pub record AgentKey : Type 0 where
  pub public_key : List ℕ
  pub algo : String
  pub active : Bool

pub record AuditEntry : Type 0 where
  pub key_id : String
  pub ip : String
  pub method : String
  pub deliberation_id : String
  pub agent_id : String
  pub created_at : ℕ

pub record JobRecord : Type 0 where
  pub id : String
  pub deliberation_id : String
  pub status : String
  pub error : String
  pub created_at : ℕ
  pub started_at : ℕ
  pub completed_at : ℕ

pub record LlmCacheEntry : Type 0 where
  pub response : String
  pub model : String
  pub created_at : ℕ

-- The reputation map, which no method uses, is left out. An analysis result, which the store only
-- carries, is its JSON text.
pub record MemoryStore : Type 0 where
  pub deliberations : Map String Deliberation
  pub status_changed : Map String ℕ
  pub positions : Map String Position
  pub votes : Map String Vote
  pub delegations : Map String Delegation
  pub commitments : Map String Commitment
  pub commitment_access : Map String (List CommitmentAccess)
  pub analyses : Map String (Map ℕ String)
  pub join_codes : Map String JoinCode
  pub acl : Map String (Map String Bool)
  pub invitations : Map String Invitation
  pub share_tokens : Map String ShareToken
  pub oauth_auth_codes : Map String OAuthAuthorizationCode
  pub disputes : Map String Dispute
  pub dispute_processed : Map String ℕ
  pub abuse_reports : List AbuseReport
  pub context_access : Map String Bool
  pub agent_keys : Map String AgentKey
  pub audit_log : List AuditEntry
  pub jobs : Map String JobRecord
  pub llm_cache : Map String LlmCacheEntry

pub data Error : Type 0 where
  deliberation_exists : Error
  deliberation_not_found : Error
  position_not_found : Error
  commitment_not_found : Error
  join_code_not_found : Error
  join_code_expired : Error
  join_code_exhausted : Error
  invitation_not_found : Error
  share_token_not_found : Error
  share_token_expired : Error
  no_active_agent_key : Error
  agent_key_not_found : Error
  job_not_found : Error
  invalid_authorization_code : Error

unfoldable pub new_memory_store : MemoryStore
new_memory_store = record {
  deliberations = [];
  status_changed = [];
  positions = [];
  votes = [];
  delegations = [];
  commitments = [];
  commitment_access = [];
  analyses = [];
  join_codes = [];
  acl = [];
  invitations = [];
  share_tokens = [];
  oauth_auth_codes = [];
  disputes = [];
  dispute_processed = [];
  abuse_reports = [];
  context_access = [];
  agent_keys = [];
  audit_log = [];
  jobs = [];
  llm_cache = [];
}

-- What a method that writes comes back with.
abbrev pub Method : Type 0 → Type 0
Method A = Outcome Error A × MemoryStore

-- if s == "" { s = d }
abbrev pub or_default : String → String → String
or_default d s = if str_eq s "" then d else s

-- if t.IsZero() { t = now }
abbrev pub or_now : ℕ → ℕ → ℕ
or_now now t = if t == 0 then now else t

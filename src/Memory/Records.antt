-- ===== src/Memory/Records.antt =====
-- types/types.go: the records that the store keeps. A time is a number, and the zero time is 0. A
-- float64 is its 64 bits, a value of type any its JSON text, and a nil pointer or map is none.
use gemot.Prelude.{ℕ, Bool, Option, List, Map, String}
use gemot.Prelude.Integers.{ℤ}

pub record VoteTally : Type 0 where
  pub position_id : String
  pub agent_id : String
  pub content : String
  pub agree : ℕ
  pub disagree : ℕ
  pub pass : ℕ
  pub approval : ℕ

pub record Resolution : Type 0 where
  pub position_id : String
  pub position_text : String
  pub agent_id : String
  pub strategy : String
  pub threshold : ℕ
  pub approval : ℕ
  pub vote_breakdown : List VoteTally
  pub resolved_at : ℕ

pub record Criterion : Type 0 where
  pub id : String
  pub name : String
  pub description : String

pub record Deliberation : Type 0 where
  pub id : String
  pub topic : String
  pub description : String
  pub round : ℕ
  pub status : String
  pub sub_status : String
  pub kind : String
  pub criteria : List Criterion
  pub visibility : String
  pub creator_key : String
  pub max_participants : ℕ
  pub template : String
  pub rules : Option (Map String String)
  pub group_id : String
  pub resolution : Option Resolution
  pub signature_policy : String
  pub principal_policy : String
  pub deadline_at : Option ℕ
  pub created_at : ℕ

pub record Position : Type 0 where
  pub id : String
  pub deliberation_id : String
  pub agent_id : String
  pub content : String
  pub model_family : String
  pub group : String
  pub conviction : ℕ
  pub reservation : String
  pub on_behalf_of : String
  pub interests : String
  pub principal_credential : List ℕ
  pub principal_verified : Bool
  pub draft : Bool
  pub parent_position_id : String
  pub metadata : Option (Map String String)
  pub round : ℕ
  pub signature : List ℕ
  pub created_at : ℕ

pub record JoinCode : Type 0 where
  pub code : String
  pub deliberation_id : String
  pub role : String
  pub expires_at : ℕ
  pub used : Bool
  pub used_by : String
  pub use_count : ℕ
  pub max_uses : ℕ
  pub created_at : ℕ

pub record Delegation : Type 0 where
  pub id : String
  pub deliberation_id : String
  pub from_agent : String
  pub to_agent : String
  pub scope : String
  pub active : Bool
  pub created_at : ℕ

pub record Commitment : Type 0 where
  pub id : String
  pub deliberation_id : String
  pub agent_id : String
  pub analysis_round : ℕ
  pub statement : String
  pub conditional : String
  pub status : String
  pub created_at : ℕ
  pub fulfilled_at : Option ℕ
  pub broken_at : Option ℕ
  pub broken_reason : String
  pub verified_by : String

pub record Invitation : Type 0 where
  pub id : String
  pub deliberation_id : String
  pub invited_by : String
  pub invited_agent : String
  pub role : String
  pub reason : String
  pub status : String
  pub created_at : ℕ

pub record Dispute : Type 0 where
  pub id : String
  pub deliberation_id : String
  pub agent_id : String
  pub crux_claim : String
  pub correction : String
  pub created_at : ℕ

pub record Vote : Type 0 where
  pub id : String
  pub deliberation_id : String
  pub agent_id : String
  pub position_id : String
  pub value : ℤ
  pub criterion_id : String
  pub qualifier : String
  pub caveat : String
  pub signature : List ℕ
  pub relayed : Bool
  pub created_at : ℕ

pub record CommitmentAccess : Type 0 where
  pub id : String
  pub commitment_id : String
  pub accessor_id : String
  pub kind : String
  pub note : String
  pub dependent_commitment_id : String
  pub created_at : ℕ

pub record OAuthAuthorizationCode : Type 0 where
  pub code : String
  pub agent_id : String
  pub principal : String
  pub scope : String
  pub code_challenge : String
  pub code_challenge_method : String
  pub expires_at : ℕ
  pub consumed_at : Option ℕ
  pub created_at : ℕ

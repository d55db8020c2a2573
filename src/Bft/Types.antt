-- ===== src/Bft/Types.antt =====
-- types.go, the errors of protocol.go, log.go and votehistory.go, and the interface of signature.go.
-- A Hash is the number whose 32 bytes, most significant first, are the digest; View and Height are
-- the numbers below 2 ^ 64 of a uint64, and byte slices are lists of numbers.
use gemot.Prelude.{ℕ, ◌+◌, ◌-◌, ◌%◌, ◌^◌, Bool, List, [], ◌==◌, ◌&&◌}
use gemot.Prelude.Outcomes.{Outcome}

abbrev pub two64 : ℕ
two64 = 2 ^ 64

-- v + 1 and v - 1 on a uint64.
abbrev pub succ64 : ℕ → ℕ
succ64 v = (v + 1) % two64

abbrev pub pred64 : ℕ → ℕ
pred64 v = (v + two64 - 1) % two64

-- The zero Hash: the genesis block.
abbrev pub genesis_hash : ℕ
genesis_hash = 0

pub record Qc : Type 0 where
  pub view : ℕ
  pub block_hash : ℕ
  pub signers : List ℕ
  pub agg_sig : List ℕ

-- QC{}
abbrev pub genesis_qc : Qc
genesis_qc = record { view = 0; block_hash = genesis_hash; signers = []; agg_sig = [] }

unfoldable pub is_genesis : Qc → Bool
is_genesis q = q.view == 0 && q.block_hash == genesis_hash

pub record Block : Type 0 where
  pub height : ℕ
  pub parent : ℕ
  pub view : ℕ
  pub payload : List ℕ
  pub justify : Qc

pub record Proposal : Type 0 where
  pub view : ℕ
  pub block : Block
  pub justify : Qc
  pub sender : ℕ
  pub sig : List ℕ

pub record Vote : Type 0 where
  pub view : ℕ
  pub block_hash : ℕ
  pub voter : ℕ
  pub sig : List ℕ

pub record NewView : Type 0 where
  pub view : ℕ
  pub high_qc : Qc
  pub sender : ℕ
  pub sig : List ℕ

-- The union of the protocol's messages: exactly one of the source's three pointers is set.
pub data Message : Type 0 where
  proposal : Proposal → Message
  vote : Vote → Message
  new_view : NewView → Message

-- The errors, as errors.Is tells them apart: a wrapped error is the one that it wraps by %w.
pub data Error : Type 0 where
  not_leader stale_view double_vote double_propose safety_rule bad_justify : Error
  bad_proposal_sig wrong_leader stale_new_view bad_new_view_sig bad_new_view_qc : Error
  log_fork_detected history_regression : Error
  view_mismatch bad_vote_sig parent_unknown non_increasing_view : Error
  few_signers duplicate_signer bad_aggregate no_peer : Error
  log_refuses_genesis log_gap replay_gap no_log storage : Error
  bad_replica_count bad_fault_bound bad_roster : Error
  not_a_vote canceled no_qc qc_view_mismatch lock_failed : Error

pub record LogEntry : Type 0 where
  pub block : Block
  pub qc : Qc

-- The interface Signer: Verify and VerifyAggregate say whether their error is nil.
pub record Signer : Type 0 where
  pub sign : List ℕ → List ℕ
  pub verify : ℕ → List ℕ → List ℕ → Bool
  pub aggregate : List (List ℕ) → List ℕ
  pub verify_aggregate : List ℕ → List ℕ → List ℕ → Bool

-- The interface LogStore. A call that fails leaves the store as it was.
pub record LogStore (L : Type 0) : Type 0 where
  pub append : LogEntry → L → Outcome Error L
  pub load : L → Outcome Error (List LogEntry)
  pub highest_height : L → Outcome Error ℕ

-- The interface VoteHistoryStore.
pub record VoteHistoryStore (V : Type 0) : Type 0 where
  pub save_vote : ℕ → V → Outcome Error V
  pub save_proposal : ℕ → V → Outcome Error V
  pub load : V → Outcome Error (ℕ × ℕ)

-- What a replica runs on: crypto/sha256, and its durable stores.
pub record Platform (L V : Type 0) : Type 0 where
  pub sha256 : List ℕ → ℕ
  pub log : LogStore L
  pub history : VoteHistoryStore V

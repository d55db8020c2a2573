-- ===== src/Bft/Examples.antt =====
-- Runs of a single replica on the in-memory stores, and the theorems of Bft at concrete inputs.
mod Six
mod Bytes
use gemot.Prelude.{
  ℕ, ◌+◌, ◌≤◌, ◌≡◌, ◌≢◌, ◌⊎◌, inl, refl, true, false, none, some, List, [], ◌∷◌, Map, nat_key,
  get_elem?, arith, ◌<◌, ◌^◌, ◌-◌, ◌++◌,
}
use gemot.Prelude.Outcomes.{ok}
use gemot.Bft.Types.{Qc, Block, Proposal, Signer, LogEntry, Platform, genesis_qc, genesis_hash}
use gemot.Bft.Encoding.{block_hash, vote_digest, proposal_sign_digest}
use gemot.Bft.Stores.{
  InMemoryLog, InMemoryVoteHistory, in_memory, append, load, save_vote, load_history,
}
use gemot.Bft.Stores.Appends.{append_cases}
use gemot.Bft.Replica.{leader, new_replica, restore_vote_history}
use gemot.Bft.Chain.{extends}
use gemot.Bft.Chain.Ancestry.{Walks, extends-Walks}
use gemot.Bft.Justify.{verify_qc, process_justify, commit_block}
use gemot.Bft.Proposals.{handle_proposal}
use gemot.Bft.Events.{
  Event, proposal_in, proposes, crashes, run, votes, proposals, restart, step, votes_of, reload_log,
  reload_history,
}
use gemot.Bft.Events.Guarded.{IsGuarded, in_memory-HistoryLaws}
use gemot.Bft.Events.Once.{votes_rise, proposals_rise}
use gemot.Bft.Events.Advance.{Rises, vote_views, proposal_views}
use gemot.Bft.Events.Synced.{Node, IsSynced}
use gemot.Bft.Events.Recovery.{restart_recovers, run-IsSynced}
use gemot.Bft.Quorum.{common, verify_qc-overlap, count_below}
use gemot.Bft.Quorum.Agreement.{agreement, Casts}
use gemot.Bft.Replay.{replay, attach_log}

-- A stand-in for the hash: one more than the sum of the bytes.
abbrev toy_hash : List ℕ → ℕ
toy_hash [] = 1
toy_hash (b ∷ bs) = b + toy_hash bs

abbrev pub toy : Platform InMemoryLog InMemoryVoteHistory
toy = in_memory toy_hash

abbrev pub trusting : Signer
trusting = record {
  sign = λ msg. msg;
  verify = λ id msg sig. true;
  aggregate = λ sigs. [];
  verify_aggregate = λ signers msg sig. true;
}

abbrev pub replica_of : ℕ → ℕ → List ℕ → Node
replica_of n f roster = record {
  id = 0;
  n = n;
  f = f;
  view = 1;
  high_qc = genesis_qc;
  locked_qc = genesis_qc;
  prepared_qc = genesis_qc;
  last_voted_view = 0;
  proposed_in_view = 0;
  known_blocks = [];
  committed = (genesis_hash, true) ∷ [];
  committed_log = genesis_hash ∷ [];
  pending_votes = [];
  pending_new_views = [];
  view_change_high_qc = [];
  signer = trusting;
  transport = record { self = 0; peers = (0, []) ∷ [] };
  roster = roster;
  log = some [];
  vote_history = some (record { last_voted = 0; last_proposed = 0 });
}

abbrev solo : Node
solo = replica_of 1 0 (0 ∷ [])

abbrev pub block_1 : Block
block_1 = record { height = 1; parent = 0; view = 1; payload = 7 ∷ []; justify = genesis_qc }

abbrev proposal_1 : Proposal
proposal_1 = record { view = 1; block = block_1; justify = genesis_qc; sender = 0; sig = [] }

abbrev pub hash_1 : ℕ
hash_1 = 10

abbrev pub qc_1 : Qc
qc_1 = record { view = 1; block_hash = hash_1; signers = 0 ∷ []; agg_sig = [] }

abbrev block_2 : Block
block_2 = record { height = 2; parent = hash_1; view = 2; payload = 8 ∷ []; justify = qc_1 }

abbrev proposal_2 : Proposal
proposal_2 = record { view = 2; block = block_2; justify = qc_1; sender = 0; sig = [] }

abbrev qc_2 : Qc
qc_2 = record { view = 2; block_hash = 23; signers = 0 ∷ []; agg_sig = [] }

abbrev block_3 : Block
block_3 = record { height = 3; parent = 23; view = 3; payload = []; justify = qc_2 }

abbrev proposal_3 : Proposal
proposal_3 = record { view = 3; block = block_3; justify = qc_2; sender = 0; sig = [] }

-- Three rounds with a crash in the middle; the repeated proposal is refused.
abbrev life : List Event
life =
    proposal_in proposal_1
    ∷ proposal_in proposal_2
    ∷ crashes
    ∷ proposal_in proposal_2
    ∷ proposal_in proposal_3
    ∷ []

hash_of_block_1 : block_hash toy_hash block_1 ≡ hash_1
unfolding block_hash
hash_of_block_1 = refl

votes_of_life : vote_views (votes toy life solo) ≡ 1 ∷ 2 ∷ 3 ∷ []
unfolding votes votes_of step handle_proposal process_justify commit_block block_hash in_memory
    append load save_vote load_history restart reload_log reload_history new_replica replay
    attach_log restore_vote_history extends leader vote_digest proposal_sign_digest
votes_of_life = refl

-- Block 1 commits when the QC on its child arrives, and is found again after the crash.
abbrev steady : List Event
steady = proposal_in proposal_1 ∷ proposal_in proposal_2 ∷ proposal_in proposal_3 ∷ crashes ∷ []

log_of_steady : (run toy steady solo).committed_log ≡ 0 ∷ hash_1 ∷ []
unfolding run step handle_proposal process_justify commit_block block_hash in_memory append load
    save_vote load_history restart reload_log reload_history new_replica replay attach_log
    restore_vote_history extends leader vote_digest proposal_sign_digest
log_of_steady = refl

solo-IsGuarded : IsGuarded toy solo
unfolding in_memory load_history
solo-IsGuarded = record {
  store = record { last_voted = 0; last_proposed = 0 };
  attached = refl;
  covers = ((0, 0), refl, omega arith, omega arith);
}

solo-IsSynced : IsSynced toy_hash solo
solo-IsSynced = record {
  entries = [];
  attached = refl;
  numbered = omega arith;
  logged = refl;
  marked = tt;
}

votes_rise_example :
    Rises solo.last_voted_view
      (vote_views (votes toy life solo))
      (run toy life solo).last_voted_view
votes_rise_example = votes_rise toy (in_memory-HistoryLaws toy_hash) life solo solo-IsGuarded

abbrev leading : List Event
leading = proposes 0 (7 ∷ []) genesis_qc ∷ crashes ∷ proposes 0 (8 ∷ []) genesis_qc ∷ []

proposals_rise_example :
    Rises solo.proposed_in_view
      (proposal_views (proposals toy leading solo))
      (run toy leading solo).proposed_in_view
proposals_rise_example =
    proposals_rise toy (in_memory-HistoryLaws toy_hash) leading solo solo-IsGuarded

run-IsSynced_example : IsSynced toy_hash (run toy steady solo)
run-IsSynced_example = run-IsSynced toy_hash steady solo solo-IsSynced

abbrev remade_solo : Node
remade_solo = record solo { log = none; vote_history = none }

restart_recovers_example :
    (r' : Node) × (restart toy solo ≡ ok r')
    × (r'.committed_log ≡ solo.committed_log)
    × IsSynced toy_hash r'
unfolding new_replica
restart_recovers_example = restart_recovers toy_hash solo remade_solo solo-IsSynced refl

-- QCs that a single replica accepts are of its one signer.
abbrev other_qc_1 : Qc
other_qc_1 = record qc_1 { agg_sig = 9 ∷ [] }

qc_1_accepted : verify_qc solo qc_1 ≡ ok tt
unfolding verify_qc
qc_1_accepted = refl

other_qc_1_accepted : verify_qc solo other_qc_1 ≡ ok tt
unfolding verify_qc
other_qc_1_accepted = refl

verify_qc-overlap_example : solo.f < common solo.n qc_1.signers other_qc_1.signers
verify_qc-overlap_example =
    verify_qc-overlap solo qc_1 other_qc_1 (omega arith) (omega arith) (omega arith) qc_1_accepted
      other_qc_1_accepted

cast_1 : Casts 1 hash_1 (votes toy life solo)
unfolding votes votes_of step handle_proposal process_justify block_hash in_memory append load
    save_vote load_history extends leader vote_digest proposal_sign_digest
cast_1 = inl (refl, refl)

agreement_example : qc_1.block_hash ≡ other_qc_1.block_hash
unfolding count_below
agreement_example =
    agreement toy (in_memory-HistoryLaws toy_hash) (λ i. true) (λ i. life) (λ i. solo)
      (λ i h. solo-IsGuarded) solo qc_1 other_qc_1 (omega arith) (omega arith) (omega arith)
      (omega arith) qc_1_accepted other_qc_1_accepted (λ i e h. cast_1) (λ i e h. cast_1) refl

abbrev two_blocks : Map ℕ Block
two_blocks = (hash_1, block_1) ∷ (23, block_2) ∷ []

extends-Walks_example : Walks two_blocks 23 hash_1
extends-Walks_example = extends-Walks two_blocks 23 hash_1

abbrev entry_1 : LogEntry
entry_1 = record { block = block_1; qc = qc_1 }

-- ===== src/Bft/Justify/Frame.antt =====
-- What processing a QC leaves alone.
use gemot.Prelude.{◌≡◌, arith, nat_key}
use gemot.Bft.Types.{Qc, Block, Platform}
use gemot.Bft.Replica.{Replica}
use gemot.Bft.Justify.{commit_block, process_justify, lock_and_commit}

-- The fields that neither a commit nor a lock changes.
pub record Frame {L V : Type 0} (r s : Replica L V) : Type 0 where
  pub id : s.id ≡ r.id
  pub n : s.n ≡ r.n
  pub f : s.f ≡ r.f
  pub view : s.view ≡ r.view
  pub last_voted_view : s.last_voted_view ≡ r.last_voted_view
  pub proposed_in_view : s.proposed_in_view ≡ r.proposed_in_view
  pub known_blocks : s.known_blocks ≡ r.known_blocks
  pub signer : s.signer ≡ r.signer
  pub transport : s.transport ≡ r.transport
  pub roster : s.roster ≡ r.roster
  pub vote_history : s.vote_history ≡ r.vote_history
  pub pending_votes : s.pending_votes ≡ r.pending_votes

module _ {L V : Type 0} (x : Platform L V) where
  pub commit_block-Frame :
      (b : Block) (qc : Qc) (r : Replica L V) → Frame r (commit_block x b qc r).1
  unfolding commit_block
  commit_block-Frame b qc r = ground arith

  lock_and_commit-Frame : (b : Block) (r : Replica L V) → Frame r (lock_and_commit x b r).1
  unfolding lock_and_commit
  lock_and_commit-Frame b r = grind (arith, commit_block-Frame)

  pub process_justify-Frame : (qc : Qc) (r : Replica L V) → Frame r (process_justify x qc r).1
  unfolding process_justify
  process_justify-Frame qc r = grind (arith, commit_block-Frame)

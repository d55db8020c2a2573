-- ===== src/Bft/Proposals.antt =====
-- protocol.go: HandleProposal and Propose.
use gemot.Prelude.{ℕ, none, some, List, [], nat_key, get, put, ltb, leb, ◌==◌, if◌then◌else◌}
use gemot.Prelude.Outcomes.{Outcome, ok, err, panic, require, ◌>>=◌, ◌>>◌}
use gemot.Bft.Types.{
  Qc, Block, Proposal, Vote, vote, Error, Platform, not_leader, stale_view, double_vote,
  double_propose, safety_rule, bad_justify, bad_proposal_sig, wrong_leader, view_mismatch,
  parent_unknown, genesis_hash, succ64,
}
use gemot.Bft.Encoding.{block_hash, vote_digest, proposal_sign_digest}
use gemot.Bft.Replica.{Replica, vote_key, leader}
use gemot.Bft.Justify.{then_do, verify_unless_genesis, safe_proposal, process_justify, send_message}

module _ {L V : Type 0} (x : Platform L V) where
  -- HandleProposal up to the safety rule: the leader to vote to.
  unfoldable pub check_proposal : Replica L V → Proposal → Outcome Error ℕ
  unfolding verify_unless_genesis safe_proposal
  check_proposal r p = do
    require (leb r.view p.view) stale_view
    require (p.block.view == p.view) view_mismatch
    expected ← leader r p.view
    require (p.sender == expected) wrong_leader
    require
        (r.signer.verify p.sender (proposal_sign_digest p.view (block_hash x.sha256 p.block)) p.sig)
        bad_proposal_sig
    verify_unless_genesis r p.justify bad_justify
    require (ltb r.last_voted_view p.view) double_vote
    require (safe_proposal r p) safety_rule
    ok expected

  -- voteHistory.SaveVote, where a store is attached.
  unfoldable pub save_vote : ℕ → Replica L V → Outcome Error (Unit {0}) × Replica L V
  save_vote v r = elim r.vote_history [
    | none ↦ (ok tt, r)
    | some vh ↦ elim (x.history.save_vote v vh) [
      | ok vh' ↦ (ok tt, record r { vote_history = some vh' })
      | err e ↦ (err e, r)
      | panic ↦ (panic, r)
    ]
  ]

  unfoldable pub save_proposal : ℕ → Replica L V → Outcome Error (Unit {0}) × Replica L V
  save_proposal v r = elim r.vote_history [
    | none ↦ (ok tt, r)
    | some vh ↦ elim (x.history.save_proposal v vh) [
      | ok vh' ↦ (ok tt, record r { vote_history = some vh' })
      | err e ↦ (err e, r)
      | panic ↦ (panic, r)
    ]
  ]

  unfoldable pub vote_for : Replica L V → Proposal → Vote
  vote_for r p =
      let h = block_hash x.sha256 p.block in
      record {
        view = p.view;
        block_hash = h;
        voter = r.id;
        sig = r.signer.sign (vote_digest p.view h);
      }

  -- preparedQC and lastVotedView of an accepted proposal.
  unfoldable pub record_vote : Proposal → Replica L V → Replica L V
  record_vote p r = record r {
    prepared_qc = record {
      view = p.view;
      block_hash = block_hash x.sha256 p.block;
      signers = [];
      agg_sig = [];
    };
    last_voted_view = p.view;
  }

  unfoldable pub know_block : Block → Replica L V → Replica L V
  know_block b r = record r { known_blocks = put (block_hash x.sha256 b) b r.known_blocks }

  -- HandleProposal after its checks.
  unfoldable pub accept_proposal :
      Proposal → ℕ → Replica L V → Outcome Error (Unit {0}) × Replica L V
  unfolding save_vote record_vote know_block send_message vote_for
  accept_proposal p expected r = then_do (save_vote p.view (know_block p.block r)) (λ _ r2.
      then_do (process_justify x p.justify (record_vote p r2))
        (λ _ r3. send_message expected (vote (vote_for r2 p)) r3))

  unfoldable pub handle_proposal : Proposal → Replica L V → Outcome Error (Unit {0}) × Replica L V
  unfolding check_proposal accept_proposal
  handle_proposal p r = then_do (check_proposal r p, r) (accept_proposal p)

  -- The justify and parent that Propose extends: those of a completed view change, or the caller's.
  justify_for : Replica L V → ℕ → Qc → ℕ × Qc
  justify_for r parent justify = elim (get r.view r.view_change_high_qc) [
    | none ↦ (parent, justify)
    | some qc ↦ (qc.block_hash, qc)
  ]

  height_over : Replica L V → ℕ → Outcome Error ℕ
  height_over r parent = if parent == genesis_hash then ok 1 else elim (get parent r.known_blocks) [
    | none ↦ err parent_unknown
    | some b ↦ ok (succ64 b.height)
  ]

  unfoldable pub next_block : Replica L V → ℕ → List ℕ → Qc → Outcome Error Block
  unfolding justify_for height_over
  next_block r parent payload justify =
      let (p, j) = justify_for r parent justify in
      height_over r p >>= λ height.
      ok (record { height = height; parent = p; view = r.view; payload = payload; justify = j })

  signed_proposal : Replica L V → Block → Proposal
  signed_proposal r b = record {
    view = r.view;
    block = b;
    justify = b.justify;
    sender = r.id;
    sig = r.signer.sign (proposal_sign_digest r.view (block_hash x.sha256 b));
  }

  -- Propose after its guards.
  unfoldable pub emit : Replica L V → Block → Outcome Error Proposal × Replica L V
  unfolding know_block save_proposal signed_proposal
  emit r b =
      then_do (save_proposal r.view (know_block b r))
        (λ _ r'. (ok (signed_proposal r b), record r' { proposed_in_view = r.view }))

  unfoldable pub check_propose : Replica L V → ℕ → List ℕ → Qc → Outcome Error Block
  unfolding next_block
  check_propose r parent payload justify = do
    expected ← leader r r.view
    require (r.id == expected) not_leader
    require (ltb r.proposed_in_view r.view) double_propose
    next_block r parent payload justify

  unfoldable pub propose : ℕ → List ℕ → Qc → Replica L V → Outcome Error Proposal × Replica L V
  unfolding check_propose emit
  propose parent payload justify r =
      then_do (check_propose r parent payload justify, r) (λ b r'. emit r' b)

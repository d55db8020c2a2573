-- ===== src/Bft/Votes.antt =====
-- protocol.go: HandleVote.
use gemot.Prelude.{
  ℕ, Option, none, some, List, [], map, Map, nat_key, get, put, delete, length, ltb, ◌==◌,
  if◌then◌else◌,
}
use gemot.Prelude.Outcomes.{Outcome, ok, require, ◌>>=◌, ◌>>◌}
use gemot.Bft.Types.{Qc, Vote, Error, Platform, not_leader, bad_vote_sig}
use gemot.Bft.Encoding.{vote_digest}
use gemot.Bft.Replica.{Replica, VoteKey, vote_key, quorum, leader}
use gemot.Bft.Justify.{then_do, process_justify}

-- A vote bucket, as its signers and its signatures.
unfoldable pub bucket_qc : {L V : Type 0} → Replica L V → Vote → Map ℕ (List ℕ) → Qc
bucket_qc r v bucket = record {
  view = v.view;
  block_hash = v.block_hash;
  signers = map (λ e. e.0) bucket;
  agg_sig = r.signer.aggregate (map (λ e. e.1) bucket);
}

abbrev pub key_of : Vote → VoteKey
key_of v = record { view = v.view; hash = v.block_hash }

module _ {L V : Type 0} where
  -- r.pendingVotes[key], where a missing bucket is made.
  unfoldable pub bucket_of : Replica L V → VoteKey → Map ℕ (List ℕ)
  bucket_of r key = elim (get key r.pending_votes) [ none ↦ [] | some bucket ↦ bucket ]

  unfoldable pub check_vote : Replica L V → Vote → Outcome Error (Unit {0})
  check_vote r v = do
    expected ← leader r v.view
    require (r.id == expected) not_leader
    require (r.signer.verify v.voter (vote_digest v.view v.block_hash) v.sig) bad_vote_sig

  unfoldable pub store_bucket : VoteKey → Map ℕ (List ℕ) → Replica L V → Replica L V
  store_bucket key bucket r = record r { pending_votes = put key bucket r.pending_votes }

  unfoldable pub drop_bucket : VoteKey → Replica L V → Replica L V
  drop_bucket key r = record r { pending_votes = delete key r.pending_votes }

module _ {L V : Type 0} (x : Platform L V) where
  -- Quorum reached: form the QC, free the bucket and integrate the QC.
  unfoldable pub form_qc :
      Vote → Map ℕ (List ℕ) → Replica L V → Outcome Error (Option Qc) × Replica L V
  unfolding bucket_qc drop_bucket
  form_qc v bucket r =
      let qc = bucket_qc r v bucket in
      then_do (process_justify x qc (drop_bucket (key_of v) r)) (λ _ r'. (ok (some qc), r'))

  unfoldable pub tally :
      Vote → Map ℕ (List ℕ) → Replica L V → Outcome Error (Option Qc) × Replica L V
  unfolding form_qc store_bucket quorum
  tally v bucket r =
      let r' = store_bucket (key_of v) bucket r in
      if ltb (length bucket) (quorum r) then (ok none, r') else form_qc v bucket r'

  unfoldable pub count_vote : Vote → Replica L V → Outcome Error (Option Qc) × Replica L V
  unfolding tally bucket_of
  count_vote v r = elim (get v.voter (bucket_of r (key_of v))) [
    | some _ ↦ (ok none, r)
    | none ↦ tally v (put v.voter v.sig (bucket_of r (key_of v))) r
  ]

  unfoldable pub handle_vote : Vote → Replica L V → Outcome Error (Option Qc) × Replica L V
  unfolding check_vote count_vote
  handle_vote v r = then_do (check_vote r v, r) (λ _ r'. count_vote v r')

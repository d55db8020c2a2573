-- ===== src/Bft/Views.antt =====
-- protocol.go: AdvanceView, Timeout and HandleNewView.
pub mod Selection
use gemot.Prelude.{
  ℕ, none, some, List, [], ◌∷◌, Map, nat_key, get, put, delete, length, ltb, leb, if◌then◌else◌,
}
use gemot.Prelude.Outcomes.{Outcome, ok, err, require, ◌>>◌}
use gemot.Bft.Types.{
  Qc, NewView, new_view, Error, stale_new_view, bad_new_view_sig, bad_new_view_qc,
  non_increasing_view, genesis_qc, succ64,
}
use gemot.Bft.Encoding.{new_view_digest}
use gemot.Bft.Stores.{broadcast}
use gemot.Bft.Replica.{Replica, VoteKey, vote_key, quorum}
use gemot.Bft.Justify.{then_do, verify_unless_genesis}

-- The views of the dropped vote buckets lie below v.
unfoldable pub collect_votes : ℕ → Map VoteKey (Map ℕ (List ℕ)) → Map VoteKey (Map ℕ (List ℕ))
collect_votes v [] = []
collect_votes v ((key, bucket) ∷ m) =
    let rest = collect_votes v m in if ltb key.view v then rest else (key, bucket) ∷ rest

-- The loop that keeps the first QC of the highest view, from QC{} on.
unfoldable pub highest_qc : Qc → Map ℕ NewView → Qc
highest_qc highest [] = highest
highest_qc highest ((id, msg) ∷ bucket) =
    highest_qc (if ltb highest.view msg.high_qc.view then msg.high_qc else highest) bucket

module _ {L V : Type 0} where
  enter_view : ℕ → Replica L V → Replica L V
  unfolding collect_votes
  enter_view v r = record r { view = v; pending_votes = collect_votes v r.pending_votes }

  unfoldable pub advance_view : ℕ → Replica L V → Outcome Error (Unit {0}) × Replica L V
  unfolding enter_view
  advance_view v r = if leb v r.view then (err non_increasing_view, r) else (ok tt, enter_view v r)

  unfoldable pub new_view_for : Replica L V → NewView
  new_view_for r = record {
    view = succ64 r.view;
    high_qc = r.high_qc;
    sender = r.id;
    sig = r.signer.sign (new_view_digest (succ64 r.view) r.high_qc.view r.high_qc.block_hash);
  }

  -- Broadcast never fails.
  unfoldable pub timeout : Replica L V → Outcome Error NewView × Replica L V
  unfolding new_view_for enter_view broadcast
  timeout r =
      let nv = new_view_for r in
      (
        ok nv,
        enter_view (succ64 r.view) (record r { transport = broadcast (new_view nv) r.transport }),
      )

  unfoldable pub check_new_view : Replica L V → NewView → Outcome Error (Unit {0})
  unfolding verify_unless_genesis
  check_new_view r nv = do
    require (leb r.view nv.view) stale_new_view
    require
        (r.signer.verify nv.sender (new_view_digest nv.view nv.high_qc.view nv.high_qc.block_hash)
          nv.sig)
        bad_new_view_sig
    verify_unless_genesis r nv.high_qc bad_new_view_qc

  -- r.pendingNewViews[v], where a missing bucket is made.
  unfoldable pub new_views_for : Replica L V → ℕ → Map ℕ NewView
  new_views_for r v = elim (get v r.pending_new_views) [ none ↦ [] | some bucket ↦ bucket ]

  collect_new_view : NewView → Map ℕ NewView → Replica L V → Replica L V
  unfolding quorum highest_qc
  collect_new_view nv bucket r =
      if ltb (length bucket) (quorum r)
      then record r { pending_new_views = put nv.view bucket r.pending_new_views }
      else record r {
        view_change_high_qc = put nv.view (highest_qc genesis_qc bucket) r.view_change_high_qc;
        pending_new_views = delete nv.view r.pending_new_views;
      }

  add_new_view : NewView → Replica L V → Replica L V
  unfolding collect_new_view new_views_for
  add_new_view nv r = elim (get nv.sender (new_views_for r nv.view)) [
    | some _ ↦ r
    | none ↦ collect_new_view nv (put nv.sender nv (new_views_for r nv.view)) r
  ]

  unfoldable pub handle_new_view : NewView → Replica L V → Outcome Error (Unit {0}) × Replica L V
  unfolding check_new_view add_new_view
  handle_new_view nv r = then_do (check_new_view r nv, r) (λ _ r'. (ok tt, add_new_view nv r'))

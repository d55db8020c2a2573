-- ===== src/Bft/Views/Selection.antt =====
-- The QC that HandleNewView selects from a quorum of NewViews, for the next leader to extend.
use gemot.Prelude.{
  ℕ, ◌≤◌, ◌≡◌, ◌⊎◌, inl, inr, refl, none, some, [], ◌∷◌, Map, nat_key, get, put, get-put,
  get-delete, length, ltb, if◌then◌else◌, All, arith, ==_refl,
}
use gemot.Prelude.Outcomes.{ok}
use gemot.Bft.Types.{Qc, NewView, genesis_qc}
use gemot.Bft.Replica.{Replica, quorum}
use gemot.Bft.Views.{highest_qc, check_new_view, new_views_for, handle_new_view}

-- A NewView of the bucket carries the QC.
abbrev pub Among : Qc → Map ℕ NewView → Type 0
Among qc [] = ⊥
Among qc (e ∷ bucket) = (e.1.high_qc ≡ qc) ⊎ Among qc bucket

-- At least as new as the QC q and those of the bucket, and one of them.
pub record Newest (q qc : Qc) (bucket : Map ℕ NewView) : Type 0 where
  pub above : q.view ≤ qc.view
  pub newest : All (λ e. e.1.high_qc.view ≤ qc.view) bucket
  pub carried : (qc ≡ q) ⊎ Among qc bucket

Newest-cons :
    (q q' qc : Qc) (id : ℕ) (msg : NewView) (bucket : Map ℕ NewView)
    → q' ≡ (if ltb q.view msg.high_qc.view then msg.high_qc else q)
    → Newest q' qc bucket
    → Newest q qc ((id, msg) ∷ bucket)
Newest-cons q q' qc id msg bucket e n = record {
  above = ground (arith, n.above);
  newest = (ground (arith, n.above), n.newest);
  carried = elim n.carried [ inl same ↦ ground arith | inr among ↦ inr (inr among) ];
}

highest_qc-Newest : (q : Qc) (bucket : Map ℕ NewView) → Newest q (highest_qc q bucket) bucket
unfolding highest_qc
highest_qc-Newest q [] = record { above = omega arith; newest = tt; carried = inl refl }
highest_qc-Newest q ((id, msg) ∷ bucket) =
    let q' = if ltb q.view msg.high_qc.view then msg.high_qc else q in
    Newest-cons q q' _ id msg bucket refl (highest_qc-Newest q' bucket)

-- A NewView that passes its checks, comes from a new sender and completes a quorum makes the replica
-- select a QC for its view: at least as new as the QC of every NewView collected, and carried by one
-- of them if it is not the genesis QC. The bucket is freed.
pub handle_new_view-Newest :
    {L V : Type 0} (nv : NewView) (r : Replica L V)
    → check_new_view r nv ≡ ok tt
    → get nv.sender (new_views_for r nv.view) ≡ none
    → quorum r ≤ length (put nv.sender nv (new_views_for r nv.view))
    → (qc : Qc) × (get nv.view (handle_new_view nv r).1.view_change_high_qc ≡ some qc)
      × Newest genesis_qc qc (put nv.sender nv (new_views_for r nv.view))
      × (get nv.view (handle_new_view nv r).1.pending_new_views ≡ none)
unfolding handle_new_view
handle_new_view-Newest nv r checks fresh enough =
    let bucket = put nv.sender nv (new_views_for r nv.view) in
    let qc = highest_qc genesis_qc bucket in
    let same = ==_refl nv.view in
    (
      qc,
      ground (arith, get-put nv.view nv.view qc r.view_change_high_qc, same),
      highest_qc-Newest genesis_qc bucket,
      ground (arith, get-delete nv.view nv.view r.pending_new_views, same),
    )

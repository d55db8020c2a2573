-- ===== src/Bft/Events/Once.antt =====
-- One vote and one proposal in each view, over a whole life with its crashes.
use gemot.Prelude.{refl, List, [], ◌∷◌}
use gemot.Bft.Types.{Proposal, Vote, Platform}
use gemot.Bft.Replica.{Replica}
use gemot.Bft.Events.{
  Event, proposal_in, vote_in, new_view_in, proposes, advances, times_out, crashes, step, votes_of,
  proposals_of, run, votes, proposals, restart,
}
use gemot.Bft.Events.Guarded.{
  HistoryLaws, IsGuarded, handle_vote-Still, handle_new_view-Still, advance_view-Still,
  timeout-Still,
}
use mathlib.Core.List.{map-append}
use gemot.Bft.Events.Advance.{
  Rises, Rises-append, vote_views, proposal_views, Advance, Still-refl, Still-Advance,
  handle_proposal-Advance, propose-Advance, restarted-Advance,
}

module _ {L V : Type 0} (x : Platform L V) (laws : HistoryLaws x.history) where
  step-Advance :
      (e : Event) (r : Replica L V)
      → IsGuarded x r
      → Advance x r (step x e r) (vote_views (votes_of x e r)) (proposal_views (proposals_of x e r))
  unfolding step votes_of proposals_of
  step-Advance (proposal_in p) r g = handle_proposal-Advance x laws p r g
  step-Advance (vote_in v) r g = Still-Advance x r _ g (handle_vote-Still x v r)
  step-Advance (new_view_in nv) r g = Still-Advance x r _ g (handle_new_view-Still nv r)
  step-Advance (proposes parent payload justify) r g =
      propose-Advance x laws parent payload justify r g
  step-Advance (advances v) r g = Still-Advance x r _ g (advance_view-Still v r)
  step-Advance times_out r g = Still-Advance x r _ g (timeout-Still r)
  step-Advance crashes r g = restarted-Advance x laws r (restart x r) g refl

  run-Advance :
      (es : List Event) (r : Replica L V)
      → IsGuarded x r
      → Advance x r (run x es r) (vote_views (votes x es r)) (proposal_views (proposals x es r))
  unfolding run votes proposals
  run-Advance [] r g = Still-Advance x r r g (Still-refl r)
  run-Advance (e ∷ es) r g =
      let a = step-Advance e r g in
      let b = run-Advance es (step x e r) a.guarded in
      record {
        guarded = b.guarded;
        voted =
            rw (map-append (λ (v : Vote). v.view) (votes_of x e r) (votes x es (step x e r)))
              (Rises-append _ _ _ (vote_views (votes_of x e r)) _ a.voted b.voted);
        proposed =
            rw
              (map-append (λ (p : Proposal). p.view) (proposals_of x e r)
                (proposals x es (step x e r)))
              (Rises-append _ _ _ (proposal_views (proposals_of x e r)) _ a.proposed b.proposed);
      }

-- Over any life of a replica, crashes and restarts included, whose vote history covers its counters
-- at the start: the views of the votes it sends rise strictly, above its lastVotedView at the start,
-- so it never votes twice in a view.
pub votes_rise :
    {L V : Type 0} (x : Platform L V)
    → HistoryLaws x.history
    → (es : List Event) (r : Replica L V) → IsGuarded x r
    → Rises r.last_voted_view (vote_views (votes x es r)) (run x es r).last_voted_view
votes_rise x laws es r g = (run-Advance x laws es r g).voted

-- Over any such life, the views of the proposals it hands out rise strictly, above its
-- proposedInView at the start, so it never proposes twice in a view.
pub proposals_rise :
    {L V : Type 0} (x : Platform L V)
    → HistoryLaws x.history
    → (es : List Event) (r : Replica L V) → IsGuarded x r
    → Rises r.proposed_in_view (proposal_views (proposals x es r)) (run x es r).proposed_in_view
proposals_rise x laws es r g = (run-Advance x laws es r g).proposed

-- ===== src/Bft/Events.antt =====
-- A replica over its life: the calls that drive it, with crashes, after each of which a fresh
-- replica is built from the durable stores by NewReplica, Replay and RestoreVoteHistory, as the
-- comment of replay.go prescribes.
pub mod Guarded
mod Restart
pub mod Advance
pub mod Once
pub mod Synced
pub mod Handlers
pub mod Recovery
use gemot.Prelude.{ℕ, Option, none, some, List, [], ◌∷◌, ◌++◌}
use gemot.Prelude.Outcomes.{Outcome, ok, err, panic, ◌>>=◌}
use gemot.Bft.Types.{Qc, Proposal, Vote, NewView, Error, Platform}
use gemot.Bft.Replica.{Replica, new_replica, restore_vote_history}
use gemot.Bft.Replay.{replay}
use gemot.Bft.Proposals.{handle_proposal, propose, vote_for}
use gemot.Bft.Votes.{handle_vote}
use gemot.Bft.Views.{advance_view, timeout, handle_new_view}

pub data Event : Type 0 where
  proposal_in : Proposal → Event
  vote_in : Vote → Event
  new_view_in : NewView → Event
  proposes : ℕ → List ℕ → Qc → Event
  advances : ℕ → Event
  times_out crashes : Event

-- The proposal that a step hands out for broadcast.
pub handed_out : Outcome Error Proposal → List Proposal
handed_out (ok p) = p ∷ []
handed_out (err e) = []
handed_out panic = []

module _ {L V : Type 0} (x : Platform L V) where
  unfoldable pub reload_log : Option L → Replica L V → Outcome Error (Replica L V)
  unfolding replay
  reload_log none r = ok r
  reload_log (some l) r = replay x l r

  unfoldable pub reload_history : Option V → Replica L V → Outcome Error (Replica L V)
  unfolding restore_vote_history
  reload_history none r = ok r
  reload_history (some vh) r = restore_vote_history x vh r

  unfoldable pub restart : Replica L V → Outcome Error (Replica L V)
  restart r = new_replica r.id r.n r.f r.signer r.transport r.roster >>= λ r0.
      (reload_log r.log r0 >>= reload_history r.vote_history)

  -- A replica that cannot be rebuilt stays as the crash left it, and does nothing.
  pub restarted : Replica L V → Outcome Error (Replica L V) → Replica L V
  restarted r (ok r') = r'
  restarted r (err e) = r
  restarted r panic = r

  unfoldable pub step : Event → Replica L V → Replica L V
  unfolding restarted
  step (proposal_in p) r = (handle_proposal x p r).1
  step (vote_in v) r = (handle_vote x v r).1
  step (new_view_in nv) r = (handle_new_view nv r).1
  step (proposes parent payload justify) r = (propose x parent payload justify r).1
  step (advances v) r = (advance_view v r).1
  step times_out r = (timeout r).1
  step crashes r = restarted r (restart r)

  -- The vote that a step sends.
  pub cast : Proposal → Replica L V → Outcome Error (Unit {0}) → List Vote
  cast p r (ok _) = vote_for x r p ∷ []
  cast p r (err e) = []
  cast p r panic = []

  unfoldable pub votes_of : Event → Replica L V → List Vote
  unfolding cast
  votes_of (proposal_in p) r = cast p r (handle_proposal x p r).0
  votes_of _ r = []

  unfoldable pub proposals_of : Event → Replica L V → List Proposal
  unfolding handed_out
  proposals_of (proposes parent payload justify) r =
      handed_out (propose x parent payload justify r).0
  proposals_of _ r = []

  unfoldable pub run : List Event → Replica L V → Replica L V
  run [] r = r
  run (e ∷ es) r = run es (step e r)

  unfoldable pub votes : List Event → Replica L V → List Vote
  votes [] r = []
  votes (e ∷ es) r = votes_of e r ++ votes es (step e r)

  unfoldable pub proposals : List Event → Replica L V → List Proposal
  proposals [] r = []
  proposals (e ∷ es) r = proposals_of e r ++ proposals es (step e r)

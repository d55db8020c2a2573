-- ===== src/Deliberation/Ordered/Actions.antt =====
-- The six ordered operations as one.

use gemot.Deliberation.Service.{Outside, Service, M, payload_text}
use gemot.Deliberation.Positions.{submit_position}
use gemot.Deliberation.Voting.{cast_vote}
use gemot.Deliberation.Commitments.{
  commit, service_fulfill_commitment, service_break_commitment, dispute_crux,
}
use gemot.Deliberation.Ordered.Effects.{
  Action, submits, votes, commits, fulfills, breaks, disputes, op_type, sent, intended,
}
use gemot.Deliberation.Ordered.Steps.{Ordered, dropped}
use gemot.Deliberation.Ordered.Votes.{cast_vote-Ordered, dispute_crux-Ordered}
use gemot.Deliberation.Ordered.Verdicts.{
  commit-Ordered, fulfill_commitment-Ordered, break_commitment-Ordered,
}
use gemot.Deliberation.Ordered.Submissions.{submit_position-Ordered}

module _ {L : Type 0} (x : Outside L) where
  unfoldable pub perform : Action → M L (Unit {0})
  perform (submits fresh now id agent signer raw opts) s =
      dropped (submit_position x fresh now id agent signer raw opts s)
  perform (votes fresh now v signer) s = cast_vote x fresh now v signer s
  perform (commits fresh now id agent statement conditional) s =
      dropped (commit x fresh now id agent statement conditional s)
  perform (fulfills now id verified_by key) s =
      service_fulfill_commitment x now id verified_by key s
  perform (breaks now id reason verified_by key) s =
      service_break_commitment x now id reason verified_by key s
  perform (disputes fresh now id agent claim correction) s =
      dropped (dispute_crux x fresh now id agent claim correction s)

  -- Whatever position, vote, commitment, verdict or dispute is sent to the service: the call fails
  -- before it gets to the log, and leaves the store and the log; or the log refuses the payload of
  -- the operation's type and fields, and the call fails with that and leaves the store; or the log
  -- accepts this payload, and outcome and store are the intended ones. Where the payload was
  -- submitted, the service keeps the log that this leaves.
  pub perform-Ordered :
      (a : Action) (s : Service L)
      → Ordered x
          (payload_text (op_type a) (sent x a s.store))
          (intended x a s.store)
          s.store
          s.log
          (perform a s)
  unfolding perform
  perform-Ordered (submits fresh now id agent signer raw opts) s =
      submit_position-Ordered x fresh now id agent signer raw opts s
  perform-Ordered (votes fresh now v signer) s = cast_vote-Ordered x fresh now v signer s
  perform-Ordered (commits fresh now id agent statement conditional) s =
      commit-Ordered x fresh now id agent statement conditional s
  perform-Ordered (fulfills now id verified_by key) s =
      fulfill_commitment-Ordered x now id verified_by key s
  perform-Ordered (breaks now id reason verified_by key) s =
      break_commitment-Ordered x now id reason verified_by key s
  perform-Ordered (disputes fresh now id agent claim correction) s =
      dispute_crux-Ordered x fresh now id agent claim correction s

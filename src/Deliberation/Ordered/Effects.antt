-- ===== src/Deliberation/Ordered/Effects.antt =====
-- What the six ordered operations of the service are to do: the fields that each sends to the log,
-- and what it does to the store once the log has accepted them.
use gemot.Prelude.{
  ℕ, suc, ◌-◌, Bool, true, false, not, ◌&&◌, none, some, List, [], ◌∷◌, String, str_eq,
  if◌then◌else◌,
}
use gemot.Prelude.Outcomes.{Outcome, ok, err, panic}
use gemot.Memory.Records.{Deliberation, Position, Vote, Commitment}
use gemot.Memory.State.{MemoryStore, Method}
use gemot.Memory.Deliberations.{get_deliberation}
use gemot.Memory.Positions.{get_position_by_id, create_position, publish_position}
use gemot.Memory.Votes.{create_vote}
use gemot.Memory.Commitments.{
  create_commitment, get_commitment_by_id, update_commitment_status, fulfill_commitment,
  break_commitment,
}
use gemot.Memory.Moderation.{decimal, create_dispute}
use gemot.Deliberation.Service.{Outside, Error, show_number, store_failed}
use gemot.Deliberation.Positions.{PositionOption, built_position, rule_bool}
use gemot.Deliberation.Voting.{is_second, is_unsigned}
use gemot.Deliberation.Commitments.{new_commitment, new_dispute}

-- A call of an ordered operation, with the identifier and the time that it is given.
pub data Action : Type 0 where
  submits : String → ℕ → String → String → String → String → List PositionOption → Action
  votes : String → ℕ → Vote → String → Action
  commits : String → ℕ → String → String → String → String → Action
  fulfills : ℕ → String → String → String → Action
  breaks : ℕ → String → String → String → String → Action
  disputes : String → ℕ → String → String → String → String → Action

abbrev pub op_type : Action → String
op_type (submits _ _ _ _ _ _ _) = "submit_position"
op_type (votes _ _ _ _) = "vote"
op_type (commits _ _ _ _ _ _) = "commit"
op_type (fulfills _ _ _ _) = "fulfill"
op_type (breaks _ _ _ _ _) = "break"
op_type (disputes _ _ _ _ _ _) = "dispute_crux"

-- An outcome with the store that it leaves.
abbrev pub Effect : Type 0 → Type 0
Effect A = Outcome Error A × MemoryStore

abbrev pub stored : {A : Type 0} → Method A → Effect (Unit {0})
stored (ok _, m) = (ok tt, m)
stored (err _, m) = (err store_failed, m)
stored (panic, m) = (panic, m)

-- A call whose failure is dropped.
abbrev pub tried : {A : Type 0} → Method A → Effect (Unit {0})
tried (ok _, m) = (ok tt, m)
tried (err _, m) = (ok tt, m)
tried (panic, m) = (panic, m)

abbrev pub commitment_deliberation : String → MemoryStore → String
commitment_deliberation id m = elim (get_commitment_by_id id m) [
  | ok c ↦ c.deliberation_id
  | _ ↦ ""
]

-- A commitment that waits for nothing is active at once.
abbrev pub committed : String → Method Commitment → MemoryStore
committed conditional r = elim r.0 [
  | ok c ↦ if str_eq conditional "" then (update_commitment_status c.id "active" r.1).1 else r.1
  | _ ↦ r.1
]

module _ {L : Type 0} (x : Outside L) where
  -- The credential's principal, where the position names none, and the mark that it was verified.
  unfoldable pub verified_position : Position → Position
  verified_position p = elim p.principal_credential [
    | [] ↦ p
    | b ∷ raw ↦ elim (x.decode_credential (b ∷ raw)) [
      | none ↦ p
      | some cred ↦ record p {
        on_behalf_of = if str_eq p.on_behalf_of "" then cred.principal else p.on_behalf_of;
        principal_verified = true;
      }
    ]
  ]

  -- The fields of the log's payload.
  unfoldable pub sent : Action → MemoryStore → List String
  sent (submits fresh now id agent signer raw opts) m = elim (get_deliberation id m) [
    | ok d ↦
        let p = built_position x d id agent (x.sanitize raw) opts in
        id ∷ (agent ∷ (decimal (suc p.round) p.round ∷ (x.sanitize raw ∷ [])))
    | _ ↦ []
  ]
  sent (votes fresh now v signer) m =
      v.deliberation_id
      ∷ (v.agent_id
          ∷ (v.position_id ∷ (show_number v.value ∷ (v.qualifier ∷ (v.criterion_id ∷ [])))))
  sent (commits fresh now id agent statement conditional) m = elim (get_deliberation id m) [
    | ok d ↦ id ∷ (agent ∷ (decimal d.round (d.round - 1) ∷ (statement ∷ (conditional ∷ []))))
    | _ ↦ []
  ]
  sent (fulfills now id verified_by key) m =
      commitment_deliberation id m ∷ (verified_by ∷ (id ∷ []))
  sent (breaks now id reason verified_by key) m =
      commitment_deliberation id m ∷ (verified_by ∷ (id ∷ (reason ∷ [])))
  sent (disputes fresh now id agent claim correction) m = id ∷ (agent ∷ (claim ∷ (correction ∷ [])))

  -- A +1 of another agent on a draft, where the rules ask for a second, publishes the draft.
  unfoldable pub seconds : Deliberation → Position → Vote → Bool
  seconds d p v =
      is_second v.value
      && rule_bool x d "require_second" false
      && p.draft
      && not (str_eq p.agent_id v.agent_id)

  unfoldable pub seconded : Vote → MemoryStore → MemoryStore → Effect (Unit {0})
  seconded v before m = elim (get_deliberation v.deliberation_id before) [
    | ok d ↦ elim (get_position_by_id v.position_id before) [
      | ok p ↦ if seconds d p v then tried (publish_position v.position_id m) else (ok tt, m)
      | _ ↦ (ok tt, m)
    ]
    | _ ↦ (ok tt, m)
  ]

  unfoldable pub intended : Action → MemoryStore → Effect (Unit {0})
  unfolding seconded verified_position seconds
  intended (submits fresh now id agent signer raw opts) m = elim (get_deliberation id m) [
    | ok d ↦
        let p = built_position x d id agent (x.sanitize raw) opts in
        stored (create_position fresh now (verified_position p) m)
    | _ ↦ (ok tt, m)
  ]
  intended (votes fresh now v signer) m =
      seconded v m (create_vote fresh now (record v { relayed = is_unsigned v }) m).1
  intended (commits fresh now id agent statement conditional) m = elim (get_deliberation id m) [
    | ok d ↦ (
      ok tt,
      committed conditional (
          create_commitment fresh now (new_commitment id agent (d.round - 1) statement conditional)
            m),
    )
    | _ ↦ (ok tt, m)
  ]
  intended (fulfills now id verified_by key) m = stored (fulfill_commitment id verified_by now m)
  intended (breaks now id reason verified_by key) m =
      stored (break_commitment id reason verified_by now m)
  intended (disputes fresh now id agent claim correction) m =
      stored (create_dispute fresh now (new_dispute id agent claim correction) m)

-- ===== src/Deliberation/Signing.antt =====
-- internal/deliberation/service.go: the checks of signatures and credentials on positions and votes,
-- and the registry of agent keys.
use gemot.Prelude.{
  ℕ, Bool, true, false, not, ◌||◌, Option, none, some, List, [], ◌∷◌, String, str_eq, bytes, len,
  length, ltb, ◌==◌, if◌then◌else◌,
}
use gemot.Prelude.Integers.{pos}
use gemot.Prelude.Outcomes.{Outcome, ok, err, panic}
use gemot.Memory.Records.{Deliberation, Position, Vote}
use gemot.Memory.State.{MemoryStore, or_default}
use gemot.Memory.Moderation.{get_active_agent_key, register_agent_key, revoke_agent_key}
use gemot.Auth.Signature.{position_payload, vote_payload, verify, validate_public_key}
use gemot.Deliberation.Payloads.{same_runes}
use gemot.Deliberation.Service.{
  Outside, Credential, M, pure, fail, refuse_if, updates, writes, audit, ◌>>◌, max_agent_id_len,
  signature_without_key, signature_verify_fail, signature_required, principal_required, no_verifier,
  bad_credential, principal_verify_fail, too_long,
}

-- GetActiveAgentKey, whose only error in the memory store is that there is none.
unfoldable pub active_key : String → MemoryStore → Option (List ℕ × String)
unfolding get_active_agent_key
active_key agent m = elim (get_active_agent_key agent m) [
  | ok k ↦ some k
  | err _ ↦ none
  | panic ↦ none
]

abbrev pub is_ok : {E A : Type 0} → Outcome E A → Bool
is_ok (ok _) = true
is_ok (err _) = false
is_ok panic = false

-- An unsigned submission: the policy decides where the agent has a key.
unfoldable pub unsigned :
    {L : Type 0} → Option (List ℕ × String) → String → String → String → String → M L (Unit {0})
unfolding audit
unsigned none policy event id agent = pure tt
unsigned (some _) policy event id agent =
    if str_eq policy "required"
    then fail signature_required
    else if str_eq policy "advisory"
    then audit event id agent
    else pure tt

-- A signed one: the signature has to verify under the agent's key.
unfoldable pub signed : {L : Type 0} → Option Bool → String → String → String → M L (Unit {0})
unfolding audit
signed none event id agent = fail signature_without_key
signed (some true) event id agent = pure tt
signed (some false) event id agent = audit event id agent >> fail signature_verify_fail

module _ {L : Type 0} (x : Outside L) where
  unfoldable pub verifies : List ℕ → List ℕ → Option (List ℕ × String) → Option Bool
  unfolding verify
  verifies msg sig none = none
  verifies msg sig (some (pubkey, algo)) =
      some (is_ok (verify x.ed25519_verify algo pubkey msg sig))

  -- auth.PositionPayload over the client's content.
  unfoldable pub signed_position : Position → String → String → List ℕ
  unfolding position_payload
  signed_position p content signer =
      position_payload x.sha256 (bytes signer) (bytes p.deliberation_id) (pos p.round)
        (bytes content)

  unfoldable pub verify_position_signature :
      Deliberation → Position → String → String → M L (Unit {0})
  unfolding unsigned signed verifies signed_position active_key
  verify_position_signature d p content signer s =
      let key = active_key p.agent_id s.store in
      elim p.signature [
        | [] ↦
            unsigned key (or_default "none" d.signature_policy) "participate:unsigned_position" d.id
              p.agent_id s
        | b ∷ sig ↦
            signed (verifies (signed_position p content signer) (b ∷ sig) key)
              "participate:signature_verify_fail:position" d.id p.agent_id s
      ]

  unfoldable pub verify_vote_signature : Deliberation → Vote → String → M L (Unit {0})
  unfolding unsigned signed verifies vote_payload active_key
  verify_vote_signature d v signer s =
      let key = active_key v.agent_id s.store in
      let msg =
        vote_payload (bytes signer) (bytes v.deliberation_id) (bytes v.position_id) v.value
          (bytes v.qualifier) (bytes v.caveat) (bytes v.criterion_id) in
      elim v.signature [
        | [] ↦
            unsigned key (or_default "none" d.signature_policy) "participate:unsigned_vote" d.id
              v.agent_id s
        | b ∷ sig ↦
            signed (verifies msg (b ∷ sig) key) "participate:signature_verify_fail:vote" d.id
              v.agent_id s
      ]

  -- The key that the verifier returned is the one registered for the agent, and signed the position.
  unfoldable pub prove_possession : List ℕ → Position → String → String → MemoryStore → Bool
  unfolding active_key signed_position verify same_runes
  prove_possession bound p content signer m =
      if length bound == 0 || length p.signature == 0
      then false
      else elim (active_key p.agent_id m) [
        | none ↦ false
        | some (pubkey, algo) ↦
            if not (same_runes pubkey bound)
            then false
            else is_ok
                (verify x.ed25519_verify algo pubkey (signed_position p content signer) p.signature)
      ]

  -- A position without a credential.
  unfoldable pub unbacked : Deliberation → Position → M L Position
  unfolding audit
  unbacked d p =
      if str_eq p.on_behalf_of ""
      then pure p
      else if str_eq (or_default "none" d.principal_policy) "required"
      then fail principal_required
      else if str_eq (or_default "none" d.principal_policy) "advisory"
      then audit "participate:unverified_principal" d.id p.agent_id >> pure p
      else pure p

  -- What the verifier says of the credential, and the proof of possession.
  unfoldable pub proven : Option (List ℕ) → Position → String → String → MemoryStore → Bool
  unfolding prove_possession
  proven none p content signer m = false
  proven (some bound) p content signer m = prove_possession bound p content signer m

  unfoldable pub verify_credential :
      (Credential → String → String × String → Option (List ℕ))
      → Credential
      → Deliberation
      → Position
      → String
      → String
      → M L Position
  unfolding proven audit
  verify_credential check cred d p content signer s =
      let p' = if str_eq p.on_behalf_of "" then record p { on_behalf_of = cred.principal } else p in
      if not (str_eq cred.principal p'.on_behalf_of)
      then fail principal_verify_fail s
      else if proven (check cred signer (p.deliberation_id, d.group_id)) p' content signer s.store
      then (audit "participate:principal_verified" d.id p.agent_id
            >> pure (record p' { principal_verified = true }))
          s
      else (audit "participate:principal_verify_fail" d.id p.agent_id >> fail principal_verify_fail)
          s

  -- The position comes back with what the checks fill in.
  unfoldable pub verify_principal_delegation :
      Deliberation → Position → String → String → M L Position
  unfolding unbacked verify_credential
  verify_principal_delegation d p content signer = elim p.principal_credential [
    | [] ↦ unbacked d p
    | b ∷ raw ↦ elim x.verify_credential [
      | none ↦ fail no_verifier
      | some check ↦ elim (x.decode_credential (b ∷ raw)) [
        | none ↦ fail bad_credential
        | some cred ↦ verify_credential check cred d p content signer
      ]
    ]
  ]

module _ {L : Type 0} where
  unfoldable pub service_register_agent_key : String → List ℕ → String → M L (Unit {0})
  unfolding validate_public_key register_agent_key audit len
  service_register_agent_key agent public_key algo =
      refuse_if (len agent == 0 || ltb max_agent_id_len (len agent)) too_long
      >> refuse_if (not (is_ok (validate_public_key algo public_key))) bad_credential
      >> updates (register_agent_key agent public_key algo)
      >> audit "participate:register_key" "" agent

  unfoldable pub service_revoke_agent_key : String → M L (Unit {0})
  unfolding revoke_agent_key audit
  service_revoke_agent_key agent =
      writes (revoke_agent_key agent) >> audit "participate:revoke_key" "" agent

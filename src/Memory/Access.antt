-- ===== src/Memory/Access.antt =====
-- internal/store/memory.go: who may enter a deliberation: join codes, access lists, invitations,
-- share tokens and authorization codes.
use gemot.Prelude.{
  ℕ, ◌+◌, Bool, true, false, not, ◌&&◌, none, some, List, [], Map, String, str_eq, string_key, get,
  put, select, ltb, leb, if◌then◌else◌,
}
use gemot.Prelude.Outcomes.{Outcome, ok, err}
use gemot.Prelude.Sorting.{sort_by}
use gemot.Memory.Records.{JoinCode, Invitation, OAuthAuthorizationCode}
use gemot.Memory.State.{
  MemoryStore, Error, Method, deliberation_not_found, join_code_not_found, join_code_expired,
  join_code_exhausted, invitation_not_found, share_token_not_found, share_token_expired,
  invalid_authorization_code, or_default, or_now,
}
use gemot.Memory.Deliberations.{is_open, in_acl}

unfoldable pub create_join_code : ℕ → JoinCode → MemoryStore → Method JoinCode
create_join_code now jc m =
    let jc' = record jc { created_at = or_now now jc.created_at } in
    (ok jc', record m { join_codes = put jc.code jc' m.join_codes })

unfoldable pub used_by_agent : String → JoinCode → JoinCode
used_by_agent agent jc = record jc { use_count = jc.use_count + 1; used = true; used_by = agent }

unfoldable pub claim_join_code : String → String → ℕ → MemoryStore → Method JoinCode
unfolding used_by_agent
claim_join_code code agent now m = elim (get code m.join_codes) [
  | none ↦ (err join_code_not_found, m)
  | some jc ↦
      if ltb jc.expires_at now
      then (err join_code_expired, m)
      else if ltb 0 jc.max_uses && leb jc.max_uses jc.use_count
      then (err join_code_exhausted, m)
      else (
        ok (used_by_agent agent jc),
        record m { join_codes = put code (used_by_agent agent jc) m.join_codes },
      )
]

unfoldable pub lookup_join_code : String → MemoryStore → Outcome Error JoinCode
lookup_join_code code m = elim (get code m.join_codes) [
  | none ↦ err join_code_not_found
  | some jc ↦ ok jc
]

-- m.acl[id], where a missing map is made.
unfoldable pub keys_of : String → MemoryStore → Map String Bool
keys_of id m = elim (get id m.acl) [ none ↦ [] | some keys ↦ keys ]

unfoldable pub add_to_acl : String → String → MemoryStore → MemoryStore
unfolding keys_of
add_to_acl id key m = record m { acl = put id (put key true (keys_of id m)) m.acl }

unfoldable pub check_acl : String → String → MemoryStore → Outcome Error Bool
unfolding is_open in_acl
check_acl id key m = elim (get id m.deliberations) [
  | none ↦ err deliberation_not_found
  | some d ↦
      if is_open d
      then ok true
      else if str_eq d.creator_key key
      then ok true
      else if in_acl m id key
      then ok true
      else ok false
]

unfoldable pub create_invitation : String → ℕ → Invitation → MemoryStore → Method Invitation
create_invitation fresh now inv m =
    let inv' = record inv {
      id = or_default fresh inv.id;
      created_at = or_now now inv.created_at;
      status = or_default "pending" inv.status;
    } in
    (ok inv', record m { invitations = put inv'.id inv' m.invitations })

unfoldable pub get_invitations : String → MemoryStore → List Invitation
unfolding sort_by
get_invitations id m =
    sort_by (λ a b. ltb a.created_at b.created_at)
      (select (λ i. str_eq i.deliberation_id id) m.invitations)

unfoldable pub update_invitation_status : String → String → MemoryStore → Method (Unit {0})
update_invitation_status id status m = elim (get id m.invitations) [
  | none ↦ (err invitation_not_found, m)
  | some i ↦ (ok tt, record m { invitations = put id (record i { status = status }) m.invitations })
]

unfoldable pub create_share_token : String → String → ℕ → MemoryStore → MemoryStore
create_share_token token group expires m = record m {
  share_tokens = put token (record { group_id = group; expires_at = expires }) m.share_tokens;
}

unfoldable pub lookup_share_token : String → ℕ → MemoryStore → Outcome Error String
lookup_share_token token now m = elim (get token m.share_tokens) [
  | none ↦ err share_token_not_found
  | some st ↦ if ltb st.expires_at now then err share_token_expired else ok st.group_id
]

-- The code is known, of this client, not consumed and not expired.
unfoldable pub consumable : String → ℕ → OAuthAuthorizationCode → Bool
consumable client now oc =
    str_eq oc.agent_id client
    && elim oc.consumed_at [ none ↦ true | some _ ↦ false ]
    && not (ltb oc.expires_at now)

unfoldable pub consume_oauth_authorization_code :
    String → String → ℕ → MemoryStore → Method OAuthAuthorizationCode
unfolding consumable
consume_oauth_authorization_code code client now m = elim (get code m.oauth_auth_codes) [
  | none ↦ (err invalid_authorization_code, m)
  | some oc ↦
      let oc' = record oc { consumed_at = some now } in
      if consumable client now oc
      then (ok oc', record m { oauth_auth_codes = put code oc' m.oauth_auth_codes })
      else (err invalid_authorization_code, m)
]

unfoldable pub create_oauth_authorization_code :
    ℕ → OAuthAuthorizationCode → MemoryStore → Method OAuthAuthorizationCode
create_oauth_authorization_code now oc m =
    let oc' = record oc { created_at = or_now now oc.created_at } in
    (ok oc', record m { oauth_auth_codes = put oc.code oc' m.oauth_auth_codes })

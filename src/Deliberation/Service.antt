-- ===== src/Deliberation/Service.antt =====
-- internal/deliberation/service.go: the Service over the in-memory store, what it asks of code
-- outside this repository or this model, and orderAction. All clock readings of one call are one
-- argument, as are the identifiers that it makes.
use gemot.Prelude.{
  ℕ, suc, Bool, true, false, Option, none, some, List, [], ◌∷◌, ◌++◌, map, String, join, runes, ltb,
}
use gemot.Prelude.Integers.{ℤ, pos, negsuc}
use gemot.Prelude.Outcomes.{Outcome, ok, err, panic}
use gemot.Memory.Records.{Deliberation}
use gemot.Memory.State.{MemoryStore, Method}
use gemot.Memory.State as State
use gemot.Memory.Deliberations.{get_deliberation}
use gemot.Memory.Moderation.{decimal}
use gemot.Deliberation.Payloads.{payload_of}

-- The errors, without the texts that some of them wrap.
pub data Error : Type 0 where
  too_long : Error
  not_found : Error
  not_open : Error
  deadline_passed : Error
  content_rejected : Error
  review_required : Error
  positions_full : Error
  participants_full : Error
  not_in_deliberation : Error
  bad_vote_value : Error
  signature_without_key : Error
  signature_verify_fail : Error
  signature_required : Error
  principal_required : Error
  no_verifier : Error
  bad_credential : Error
  principal_verify_fail : Error
  not_ordered : Error
  store_failed : Error
  delegation_cap : Error
  statement_required : Error
  access_denied : Error
  self_fulfilment : Error
  has_not_participated : Error
  unknown_template : Error
  invalid_type : Error
  invalid_visibility : Error
  invalid_role : Error
  quorum_not_met : Error
  not_creator : Error
  not_analyzing : Error
  group_required : Error
  no_randomness : Error
  own_commitment : Error
  bad_access_kind : Error
  dependency_required : Error
  own_dependent : Error
  not_dependent : Error

-- internal/principal/credential.go: Credential.
pub record Credential : Type 0 where
  pub principal : String
  pub agent : String
  pub agent_key : List ℕ
  pub scope : String
  pub issuer : String
  pub expires_at : ℕ
  pub signature : List ℕ

-- What a service calls: the engine's Submit, which may fail and leaves the engine in a new state;
-- ed25519 and SHA-256; the sanitizer's text; the screening of a text, where a classifier is set; the
-- JSON decoder; the verifier of credentials, where one is set, which gives the key that a credential
-- is bound to; and the dynamic type tests on the value of a rule.
pub record Outside (L : Type 0) : Type 0 where
  pub submit : List ℕ → L → Bool × L
  pub ed25519_verify : List ℕ → List ℕ → List ℕ → Bool
  pub sha256 : List ℕ → List ℕ
  pub sanitize : String → String
  pub blocked : Option (String → Bool)
  pub decode_credential : List ℕ → Option Credential
  pub verify_credential : Option (Credential → String → String × String → Option (List ℕ))
  pub rule_number : String → Option ℤ
  pub rule_flag : String → Option Bool

pub record Service (L : Type 0) : Type 0 where
  pub store : MemoryStore
  pub log : L
  pub audits : List (String × String × String)
  pub events : List (String × String × String × String)

-- A method takes the service and returns it with an outcome; what was done before an error stays.
abbrev pub M : Type 0 → Type 0 → Type 0
M L A = Service L → Outcome Error A × Service L

unfoldable pub and_then :
    {L A B : Type 0} → Outcome Error A × Service L → (A → M L B) → Outcome Error B × Service L
and_then (ok a, s) f = f a s
and_then (err e, s) f = (err e, s)
and_then (panic, s) f = (panic, s)

infixl 5 ◌>>=◌ ◌>>◌
abbrev pub ◌>>=◌ : {L A B : Type 0} → M L A → (A → M L B) → M L B
◌>>=◌ m f s = and_then (m s) f

abbrev pub ◌>>◌ : {L B : Type 0} → M L (Unit {0}) → M L B → M L B
◌>>◌ m k s = and_then (m s) (λ _. k)

abbrev pub pure : {L A : Type 0} → A → M L A
pure a s = (ok a, s)

abbrev pub fail : {L A : Type 0} → Error → M L A
fail e s = (err e, s)

-- if bad { return e }
unfoldable pub refuse_if : {L : Type 0} → Bool → Error → M L (Unit {0})
refuse_if true e s = (err e, s)
refuse_if false e s = (ok tt, s)

-- What a method of the store that only reads gives.
abbrev pub reads : {L A : Type 0} → (MemoryStore → A) → M L A
reads f s = (ok (f s.store), s)

unfoldable pub found : {L A : Type 0} → Outcome State.Error A → Error → M L A
found (ok a) e s = (ok a, s)
found (err _) e s = (err e, s)
found panic e s = (panic, s)

unfoldable pub looks_up : {L A : Type 0} → (MemoryStore → Outcome State.Error A) → Error → M L A
unfolding found
looks_up f e s = found (f s.store) e s

-- A method of the store that writes.
unfoldable pub wrote : {L A : Type 0} → Method A → M L A
wrote (ok a, m) s = (ok a, record s { store = m })
wrote (err _, m) s = (err store_failed, record s { store = m })
wrote (panic, m) s = (panic, record s { store = m })

abbrev pub writes : {L A : Type 0} → (MemoryStore → Method A) → M L A
writes f s = wrote (f s.store) s

abbrev pub updates : {L : Type 0} → (MemoryStore → MemoryStore) → M L (Unit {0})
updates f s = (ok tt, record s { store = f s.store })

unfoldable pub audit : {L : Type 0} → String → String → String → M L (Unit {0})
audit method id agent s = (ok tt, record s { audits = s.audits ++ ((method, id, agent) ∷ []) })

unfoldable pub emit : {L : Type 0} → String → String → String → String → M L (Unit {0})
emit kind id agent detail s =
    (ok tt, record s { events = s.events ++ ((kind, id, agent, detail) ∷ []) })

-- fmt's %d
unfoldable pub show_number : ℤ → String
unfolding decimal
show_number (pos n) = decimal (suc n) n
show_number (negsuc n) = join "-" (decimal (suc (suc n)) (suc n))

abbrev pub payload_text : String → List String → List ℕ
payload_text op_type parts = payload_of (runes op_type) (map runes parts)

unfoldable pub ordered : {L : Type 0} → Bool × L → M L (Unit {0})
ordered (true, log) s = (ok tt, record s { log = log })
ordered (false, log) s = (err not_ordered, record s { log = log })

module _ {L : Type 0} (x : Outside L) where
  unfoldable pub order_action : String → List String → M L (Unit {0})
  unfolding payload_of ordered
  order_action op_type parts s = ordered (x.submit (payload_text op_type parts) s.log) s

-- store.GetDeliberation, with the caller's "deliberation not found".
unfoldable pub deliberation_of : {L : Type 0} → String → M L Deliberation
unfolding get_deliberation looks_up found
deliberation_of id = looks_up (get_deliberation id) not_found

-- d.DeadlineAt != nil && time.Now().After(*d.DeadlineAt)
unfoldable pub is_past : ℕ → Deliberation → Bool
is_past now d = elim d.deadline_at [ none ↦ false | some t ↦ ltb t now ]

abbrev pub max_agent_id_len : ℕ
max_agent_id_len = 200

abbrev pub max_content_len : ℕ
max_content_len = 50000

abbrev pub max_positions : ℕ
max_positions = 1000

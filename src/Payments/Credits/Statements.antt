-- ===== src/Payments/Credits/Statements.antt =====
-- The rows of api_keys and x402_settlements, and the statements on them.
use gemot.Prelude.{
  ℕ, ◌+◌, Bool, Option, none, some, [], ◌∷◌, Map, String, str_eq, string_key, get, put, ltb, leb,
  if◌then◌else◌,
}

pub record ApiKey : Type 0 where
  pub email : String
  pub credits_remaining : ℕ
  pub stripe_customer_id : String
  pub stripe_session_id : String
  pub suspended : Bool
  pub created_at : ℕ
  pub last_used_at : Option ℕ

pub record Settlement : Type 0 where
  pub api_key : String
  pub credits : ℕ

-- The largest INTEGER.
abbrev pub int4_max : ℕ
int4_max = 2147483647

-- SELECT key … WHERE email = … ORDER BY created_at DESC LIMIT 1; of keys made at one time, where SQL
-- leaves it open, the first.
unfoldable pub latest_key : String → Map String ApiKey → Option (String × ApiKey)
latest_key email [] = none
latest_key email ((key, k) ∷ m) =
    let rest = latest_key email m in
    if str_eq k.email email
    then elim rest [
      | none ↦ some (key, k)
      | some other ↦ if ltb k.created_at other.1.created_at then some other else some (key, k)
    ]
    else rest

-- SELECT key … WHERE stripe_session_id = …
unfoldable pub key_of_session : String → Map String ApiKey → Option String
key_of_session session [] = none
key_of_session session ((key, k) ∷ m) =
    let rest = key_of_session session m in
    if str_eq k.stripe_session_id session then some key else rest

-- UPDATE … SET credits_remaining = credits_remaining + amount WHERE key = … RETURNING …: none where
-- no row is updated, or the sum is out of range.
unfoldable pub update_credits : ℕ → String → Map String ApiKey → Option (ℕ × Map String ApiKey)
update_credits amount key keys = elim (get key keys) [
  | none ↦ none
  | some k ↦
      let balance = k.credits_remaining + amount in
      if leb balance int4_max
      then some (balance, put key (record k { credits_remaining = balance }) keys)
      else none
]

-- The same with stripe_session_id = session, WHERE … stripe_session_id IS DISTINCT FROM session; the
-- unique index refuses a session that another row has.
unfoldable pub update_session :
    ℕ → String → String → Map String ApiKey → Option (ℕ × Map String ApiKey)
unfolding key_of_session
update_session amount key session keys = elim (get key keys) [
  | none ↦ none
  | some k ↦
      let balance = k.credits_remaining + amount in
      let k' = record k { credits_remaining = balance; stripe_session_id = session } in
      if str_eq k.stripe_session_id session then none else elim (key_of_session session keys) [
        | some _ ↦ none
        | none ↦ if leb balance int4_max then some (balance, put key k' keys) else none
      ]
]

-- ===== src/Payments/Credits.antt =====
-- internal/payments/credits.go over the tables api_keys and x402_settlements of
-- internal/store/schema.sql. A table is a map by its primary key and each SQL statement a function
-- on it, with the unique index on the sessions and the range of INTEGER; a connection that is lost
-- is not modelled. Amounts are natural numbers, as every caller passes.
pub mod Statements
pub mod Purchases
pub mod Webhook
pub mod Ledger
pub mod Settled
pub mod Bought
pub mod Redelivered
mod Examples
use gemot.Prelude.{
  ℕ, ◌+◌, ◌-◌, ◌*◌, ◌/◌, Bool, true, false, not, ◌&&◌, Option, none, some, Map, String, str_eq,
  join, string_key, get, put, ltb, leb, if◌then◌else◌,
}
use gemot.Prelude.Outcomes.{Outcome, ok, err}
use Statements.{
  ApiKey, Settlement, int4_max, latest_key, key_of_session, update_credits, update_session,
}

pub record CreditStore : Type 0 where
  pub api_keys : Map String ApiKey
  pub x402_settlements : Map String Settlement

pub data Error : Type 0 where
  no_randomness : Error
  constraint_violated : Error
  key_not_found : Error
  no_key_for_email : Error
  already_applied : Error
  invalid_key : Error
  insufficient_credits : ℕ → Error
  nonce_required : Error

-- A method's result, and the tables after it.
abbrev pub OutcomeOf : Type 0 → Type 0
OutcomeOf A = Outcome Error A × CreditStore

-- The random bytes, in hexadecimal, or none if the generator fails.
unfoldable pub random_key : String → Option String → Option String
random_key prefix random = elim random [ none ↦ none | some hex ↦ some (join prefix hex) ]

unfoldable pub new_key : String → String → String → ℕ → ℕ → ApiKey
new_key email customer session credits now = record {
  email = email;
  credits_remaining = credits;
  stripe_customer_id = customer;
  stripe_session_id = session;
  suspended = false;
  created_at = now;
  last_used_at = none;
}

-- What the primary key, the unique index and the range of INTEGER admit.
unfoldable pub insertable : String → String → ℕ → Map String ApiKey → Bool
unfolding key_of_session
insertable key session credits keys =
    elim (get key keys) [ none ↦ true | some _ ↦ false ]
    && (if str_eq session ""
        then true
        else elim (key_of_session session keys) [ none ↦ true | some _ ↦ false ])
    && leb credits int4_max

unfoldable pub generate_key :
    Option String → String → String → String → ℕ → ℕ → CreditStore → OutcomeOf String
unfolding random_key insertable new_key
generate_key random email customer session credits now s = elim (random_key "gmt_" random) [
  | none ↦ (err no_randomness, s)
  | some key ↦
      let k = new_key email customer session credits now in
      if insertable key session credits s.api_keys
      then (ok key, record s { api_keys = put key k s.api_keys })
      else (err constraint_violated, s)
]

unfoldable pub add_credits : String → ℕ → CreditStore → OutcomeOf ℕ
unfolding update_credits
add_credits key amount s = elim (update_credits amount key s.api_keys) [
  | none ↦ (err key_not_found, s)
  | some (balance, keys) ↦ (ok balance, record s { api_keys = keys })
]

-- The empty session stands for a call without one.
unfoldable pub add_credits_by_email : String → ℕ → String → CreditStore → OutcomeOf (String × ℕ)
unfolding latest_key update_credits update_session
add_credits_by_email email amount session s = elim (latest_key email s.api_keys) [
  | none ↦ (err no_key_for_email, s)
  | some (key, _) ↦
      let added =
        if str_eq session ""
        then update_credits amount key s.api_keys
        else update_session amount key session s.api_keys in
      elim added [
        | none ↦ (err (if str_eq session "" then key_not_found else already_applied), s)
        | some (balance, keys) ↦ (ok (key, balance), record s { api_keys = keys })
      ]
]

unfoldable pub deduct : String → ℕ → ℕ → CreditStore → OutcomeOf ℕ
deduct key amount now s = elim (get key s.api_keys) [
  | none ↦ (err invalid_key, s)
  | some k ↦
      let balance = k.credits_remaining - amount in
      let k' = record k { credits_remaining = balance; last_used_at = some now } in
      if leb amount k.credits_remaining
      then (ok balance, record s { api_keys = put key k' s.api_keys })
      else (err (insufficient_credits k.credits_remaining), s)
]

unfoldable pub get_balance : String → CreditStore → Outcome Error ℕ
get_balance key s = elim (get key s.api_keys) [
  | none ↦ err invalid_key
  | some k ↦ ok k.credits_remaining
]

unfoldable pub validate_key : String → CreditStore → Bool
validate_key key s = elim (get key s.api_keys) [
  | none ↦ false
  | some k ↦ if k.suspended then false else ltb 0 k.credits_remaining
]

unfoldable pub key_active : String → CreditStore → Bool
key_active key s = elim (get key s.api_keys) [ none ↦ false | some k ↦ not k.suspended ]

unfoldable pub set_suspended : Bool → String → CreditStore → CreditStore
set_suspended suspended key s = elim (get key s.api_keys) [
  | none ↦ s
  | some k ↦ record s { api_keys = put key (record k { suspended = suspended }) s.api_keys }
]

unfoldable pub suspend_key : String → CreditStore → CreditStore
unfolding set_suspended
suspend_key = set_suspended true

unfoldable pub unsuspend_key : String → CreditStore → CreditStore
unfolding set_suspended
unsuspend_key = set_suspended false

-- One transaction: on an error of the update the nonce's row is rolled back. The flag tells whether
-- the nonce was new.
unfoldable pub credit_x402_settlement : String → String → ℕ → CreditStore → OutcomeOf (ℕ × Bool)
unfolding update_credits
credit_x402_settlement nonce key amount s =
    if str_eq nonce ""
    then (err nonce_required, s)
    else if ltb int4_max amount
    then (err constraint_violated, s)
    else elim (get nonce s.x402_settlements) [
      | some _ ↦ elim (get key s.api_keys) [
        | none ↦ (err key_not_found, s)
        | some k ↦ (ok (k.credits_remaining, false), s)
      ]
      | none ↦ elim (update_credits amount key s.api_keys) [
        | none ↦ (err key_not_found, s)
        | some (balance, keys) ↦
            let row : Settlement = record { api_key = key; credits = amount } in
            (
              ok (balance, true),
              record { api_keys = keys; x402_settlements = put nonce row s.x402_settlements },
            )
      ]
    ]

abbrev pub cost_sonnet : ℕ
cost_sonnet = 60

abbrev pub cost_opus : ℕ
cost_opus = 300

abbrev pub cost_haiku : ℕ
cost_haiku = 20

unfoldable pub credit_cost : String → ℕ
credit_cost model =
    if str_eq model "claude-opus-4-6"
    then cost_opus
    else if str_eq model "claude-haiku-4-5"
    then cost_haiku
    else cost_sonnet

abbrev pub mpp_spt_minimum_cents : ℕ
mpp_spt_minimum_cents = 50

unfoldable pub mpp_price_for_model : String → ℕ
unfolding credit_cost
mpp_price_for_model model =
    let price = credit_cost model * 5 / 10 in
    if ltb price mpp_spt_minimum_cents then mpp_spt_minimum_cents else price

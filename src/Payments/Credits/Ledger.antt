-- ===== src/Payments/Credits/Ledger.antt =====
-- Every credit of api_keys is accounted for by the results of the calls.
use gemot.Prelude.{
  ℕ, ◌+◌, ◌-◌, ◌≡◌, inl, inr, Bool, true, false, Option, none, some, List, [], ◌∷◌, Map, String,
  str_eq, string_key, get, put, arith, Bool-cases, Option-cases,
}
use gemot.Prelude.Outcomes.{Outcome, ok, err, panic}
use gemot.Payments.Credits.Statements.{ApiKey, latest_key, update_credits, update_session}
use gemot.Payments.Credits.{
  CreditStore, new_key, insertable, random_key, generate_key, add_credits, add_credits_by_email,
  deduct, set_suspended, suspend_key, unsuspend_key, credit_x402_settlement,
}
use gemot.Payments.Credits

pub data Event : Type 0 where
  generates : Option String → String → String → String → ℕ → ℕ → Event
  adds : String → ℕ → Event
  adds_by_email : String → ℕ → String → Event
  deducts : String → ℕ → ℕ → Event
  suspends : String → Event
  unsuspends : String → Event
  settles : String → String → ℕ → Event

unfoldable pub step : Event → CreditStore → CreditStore
step (generates random email customer session credits now) s =
    (generate_key random email customer session credits now s).1
step (adds key amount) s = (add_credits key amount s).1
step (adds_by_email email amount session) s = (add_credits_by_email email amount session s).1
step (deducts key amount now) s = (deduct key amount now s).1
step (suspends key) s = suspend_key key s
step (unsuspends key) s = unsuspend_key key s
step (settles nonce key amount) s = (credit_x402_settlement nonce key amount s).1

-- The amount of a call that succeeded.
abbrev if_ok : {A : Type 0} → ℕ → Outcome Credits.Error A → ℕ
if_ok amount (ok _) = amount
if_ok amount (err _) = 0
if_ok amount panic = 0

abbrev if_applied : ℕ → Outcome Credits.Error (ℕ × Bool) → ℕ
if_applied amount (ok (_, true)) = amount
if_applied amount (ok (_, false)) = 0
if_applied amount (err _) = 0
if_applied amount panic = 0

-- The credits that a call reports as granted, and as spent.
unfoldable pub granted : Event → CreditStore → ℕ
granted (generates random email customer session credits now) s =
    if_ok credits (generate_key random email customer session credits now s).0
granted (adds key amount) s = if_ok amount (add_credits key amount s).0
granted (adds_by_email email amount session) s =
    if_ok amount (add_credits_by_email email amount session s).0
granted (settles nonce key amount) s =
    if_applied amount (credit_x402_settlement nonce key amount s).0
granted _ s = 0

unfoldable pub spent : Event → CreditStore → ℕ
spent (deducts key amount now) s = if_ok amount (deduct key amount now s).0
spent _ s = 0

unfoldable pub run : List Event → CreditStore → CreditStore
unfolding step
run [] s = s
run (e ∷ es) s = run es (step e s)

unfoldable pub all_granted : List Event → CreditStore → ℕ
unfolding granted step
all_granted [] s = 0
all_granted (e ∷ es) s = granted e s + all_granted es (step e s)

unfoldable pub all_spent : List Event → CreditStore → ℕ
unfolding spent step
all_spent [] s = 0
all_spent (e ∷ es) s = spent e s + all_spent es (step e s)

-- The sum of the balances.
unfoldable pub total : Map String ApiKey → ℕ
total [] = 0
total ((_, k) ∷ m) = k.credits_remaining + total m

-- The balance of a key, 0 if there is none.
abbrev pub balance_of : String → Map String ApiKey → ℕ
balance_of key m = elim (get key m) [ none ↦ 0 | some k ↦ k.credits_remaining ]

pub total-put :
    (key : String) (k : ApiKey) (m : Map String ApiKey)
    → total (put key k m) + balance_of key m ≡ total m + k.credits_remaining
unfolding total
total-put key k [] = omega arith
total-put key k ((j, w) ∷ m) = ground (arith, total-put key k m)

update_credits-total :
    (amount : ℕ) (key : String) (keys keys' : Map String ApiKey) (balance : ℕ)
    → update_credits amount key keys ≡ some (balance, keys')
    → total keys' ≡ total keys + amount
unfolding update_credits
update_credits-total amount key keys keys' balance h = elim (Option-cases (get key keys)) [
  | inl absent ↦ ground arith
  | inr (k, found) ↦
      let k' = record k { credits_remaining = k.credits_remaining + amount } in
      ground (arith, total-put key k' keys)
]

update_session-total :
    (amount : ℕ) (key session : String) (keys keys' : Map String ApiKey) (balance : ℕ)
    → update_session amount key session keys ≡ some (balance, keys')
    → total keys' ≡ total keys + amount
unfolding update_session
update_session-total amount key session keys keys' balance h = elim (Option-cases (get key keys)) [
  | inl absent ↦ ground arith
  | inr (k, found) ↦
      let k' = record k {
        credits_remaining = k.credits_remaining + amount;
        stripe_session_id = session;
      } in
      ground (arith, total-put key k' keys)
]

-- One call.
abbrev Balanced : Event → CreditStore → Type 0
Balanced e s = total (step e s).api_keys + spent e s ≡ total s.api_keys + granted e s

generate_key-total :
    (random : Option String) (email customer session : String) (credits now : ℕ) (s : CreditStore)
    → Balanced (generates random email customer session credits now) s
unfolding step spent granted generate_key
generate_key-total random email customer session credits now s =
    elim (Option-cases (random_key "gmt_" random)) [
      | inl e ↦ ground arith
      | inr (key, e) ↦ elim (Bool-cases (insertable key session credits s.api_keys)) [
        | inl fits ↦
            let k = new_key email customer session credits now in
            unfold insertable new_key in ground (arith, total-put key k s.api_keys)
        | inr not_fits ↦ ground arith
      ]
    ]

add_credits-total : (key : String) (amount : ℕ) (s : CreditStore) → Balanced (adds key amount) s
unfolding step spent granted add_credits
add_credits-total key amount s = elim (Option-cases (update_credits amount key s.api_keys)) [
  | inl e ↦ ground arith
  | inr ((balance, keys), e) ↦
      ground (arith, update_credits-total amount key s.api_keys keys balance e)
]

deduct-total :
    (key : String) (amount now : ℕ) (s : CreditStore) → Balanced (deducts key amount now) s
unfolding step spent granted deduct
deduct-total key amount now s = elim (Option-cases (get key s.api_keys)) [
  | inl absent ↦ ground arith
  | inr (k, found) ↦
      let k' = record k {
        credits_remaining = k.credits_remaining - amount;
        last_used_at = some now;
      } in
      ground (arith, total-put key k' s.api_keys)
]

set_suspended-total :
    (b : Bool) (key : String) (s : CreditStore)
    → total (set_suspended b key s).api_keys ≡ total s.api_keys
unfolding set_suspended
set_suspended-total b key s = elim (Option-cases (get key s.api_keys)) [
  | inl absent ↦ ground arith
  | inr (k, found) ↦ ground (arith, total-put key (record k { suspended = b }) s.api_keys)
]

add_credits_by_email-total :
    (email : String) (amount : ℕ) (session : String) (s : CreditStore)
    → Balanced (adds_by_email email amount session) s
unfolding step spent granted add_credits_by_email
add_credits_by_email-total email amount session s =
    elim (Option-cases (latest_key email s.api_keys)) [
      | inl e ↦ ground arith
      | inr ((key, k), e) ↦ elim (Bool-cases (str_eq session "")) [
        | inl without ↦ elim (Option-cases (update_credits amount key s.api_keys)) [
          | inl e' ↦ ground arith
          | inr ((balance, keys), e') ↦
              ground (arith, update_credits-total amount key s.api_keys keys balance e')
        ]
        | inr with_session ↦ elim (Option-cases (update_session amount key session s.api_keys)) [
          | inl e' ↦ ground arith
          | inr ((balance, keys), e') ↦
              ground (arith, update_session-total amount key session s.api_keys keys balance e')
        ]
      ]
    ]

credit_x402_settlement-total :
    (nonce key : String) (amount : ℕ) (s : CreditStore) → Balanced (settles nonce key amount) s
unfolding step spent granted credit_x402_settlement
credit_x402_settlement-total nonce key amount s =
    elim (Option-cases (update_credits amount key s.api_keys)) [
      | inl e ↦ ground arith
      | inr ((balance, keys), e) ↦
          ground (arith, update_credits-total amount key s.api_keys keys balance e)
    ]

step-total : (e : Event) (s : CreditStore) → Balanced e s
step-total (generates random email customer session credits now) s =
    generate_key-total random email customer session credits now s
step-total (adds key amount) s = add_credits-total key amount s
step-total (adds_by_email email amount session) s =
    add_credits_by_email-total email amount session s
step-total (deducts key amount now) s = deduct-total key amount now s
step-total (suspends key) s =
    unfold step spent granted suspend_key in omega (arith, set_suspended-total true key s)
step-total (unsuspends key) s =
    unfold step spent granted unsuspend_key in omega (arith, set_suspended-total false key s)
step-total (settles nonce key amount) s = credit_x402_settlement-total nonce key amount s

-- Over any calls of the credit store, the balances of all keys afterwards and the credits of the
-- successful deductions are together the balances before and the credits that the successful calls
-- granted: those of new keys, additions, and settlements reported as applied.
pub run-total :
    (es : List Event) (s : CreditStore)
    → total (run es s).api_keys + all_spent es s ≡ total s.api_keys + all_granted es s
unfolding run all_spent all_granted
run-total [] s = omega arith
run-total (e ∷ es) s = omega (arith, step-total e s, run-total es (step e s))

-- ===== src/Payments/Credits/Settled.antt =====
-- The nonces of settlements, over calls of CreditX402Settlement and BuyCredits among the others.
use gemot.Prelude.{
  ℕ, ◌+◌, ◌≤◌, ◌≡◌, inl, inr, Bool, true, false, Option, none, some, List, [], ◌∷◌, String, str_eq,
  string_key, get, get-put, if◌then◌else◌, arith, Option-cases,
}
use gemot.Prelude.Outcomes.{ok}
use gemot.Payments.Credits.Statements.{Settlement, update_credits}
use gemot.Payments.Credits.{
  CreditStore, generate_key, add_credits, add_credits_by_email, deduct, set_suspended, suspend_key,
  unsuspend_key, credit_x402_settlement,
}
use gemot.Payments.Credits.Ledger.{
  Event, generates, adds, adds_by_email, deducts, suspends, unsuspends, settles, step,
}

-- Whether a call credited the nonce.
unfoldable pub credits_nonce : String → Event → CreditStore → ℕ
credits_nonce nonce (settles other key amount) s =
    if str_eq other nonce
    then elim (credit_x402_settlement other key amount s).0 [
      | ok (_, applied) ↦ if applied then 1 else 0
      | _ ↦ 0
    ]
    else 0
credits_nonce nonce _ s = 0

unfoldable pub times_credited : String → List Event → CreditStore → ℕ
unfolding credits_nonce step
times_credited nonce [] s = 0
times_credited nonce (e ∷ es) s = credits_nonce nonce e s + times_credited nonce es (step e s)

-- 1 for a nonce that is not in the table, else 0.
abbrev pub unsettled : String → CreditStore → ℕ
unsettled nonce s = elim (get nonce s.x402_settlements) [ none ↦ 1 | some _ ↦ 0 ]

-- The other calls leave the table as it is.
abbrev SameSettlements : Event → CreditStore → Type 0
SameSettlements e s = (step e s).x402_settlements ≡ s.x402_settlements

step-settles :
    (nonce other key : String) (amount : ℕ) (s : CreditStore)
    → credits_nonce nonce (settles other key amount) s
        + unsettled nonce (step (settles other key amount) s)
      ≤ unsettled nonce s
unfolding credits_nonce step credit_x402_settlement
step-settles nonce other key amount s = elim (Option-cases (get other s.x402_settlements)) [
  | inl new ↦ elim (Option-cases (update_credits amount key s.api_keys)) [
    | inl e ↦ ground (arith, string_key.same_iff other nonce)
    | inr ((balance, keys), e) ↦
        let row : Settlement = record { api_key = key; credits = amount } in
        ground (arith, string_key.same_iff other nonce, get-put other nonce row s.x402_settlements)
  ]
  | inr (row, old) ↦ ground (arith, string_key.same_iff other nonce)
]

generates-same :
    (random : Option String) (email customer session : String) (credits now : ℕ) (s : CreditStore)
    → SameSettlements (generates random email customer session credits now) s
unfolding step generate_key
generates-same random email customer session credits now s = ground arith

adds-same : (key : String) (amount : ℕ) (s : CreditStore) → SameSettlements (adds key amount) s
unfolding step add_credits
adds-same key amount s = ground arith

by_email-same :
    (email : String) (amount : ℕ) (session : String) (s : CreditStore)
    → SameSettlements (adds_by_email email amount session) s
unfolding step add_credits_by_email
by_email-same email amount session s = ground arith

deducts-same :
    (key : String) (amount now : ℕ) (s : CreditStore) → SameSettlements (deducts key amount now) s
unfolding step deduct
deducts-same key amount now s = ground arith

suspended-same :
    (b : Bool) (key : String) (s : CreditStore)
    → (set_suspended b key s).x402_settlements ≡ s.x402_settlements
unfolding set_suspended
suspended-same b key s = ground arith

same_le :
    (nonce : String) (e : Event) (s : CreditStore)
    → SameSettlements e s
    → unsettled nonce (step e s) ≤ unsettled nonce s
same_le nonce e s h = rw h (omega arith)

step_le :
    (nonce : String) (e : Event) (s : CreditStore)
    → credits_nonce nonce e s + unsettled nonce (step e s) ≤ unsettled nonce s
unfolding credits_nonce
step_le nonce (generates random email customer session credits now) s =
    let e = generates random email customer session credits now in
    omega (arith, same_le nonce e s (generates-same random email customer session credits now s))
step_le nonce (adds key amount) s =
    omega (arith, same_le nonce (adds key amount) s (adds-same key amount s))
step_le nonce (adds_by_email email amount session) s =
    let e = adds_by_email email amount session in
    omega (arith, same_le nonce e s (by_email-same email amount session s))
step_le nonce (deducts key amount now) s =
    omega (arith, same_le nonce (deducts key amount now) s (deducts-same key amount now s))
step_le nonce (suspends key) s =
    let h : SameSettlements (suspends key) s =
      unfold step suspend_key in suspended-same true key s in
    omega (arith, same_le nonce (suspends key) s h)
step_le nonce (unsuspends key) s =
    let h : SameSettlements (unsuspends key) s =
      unfold step unsuspend_key in suspended-same false key s in
    omega (arith, same_le nonce (unsuspends key) s h)
step_le nonce (settles other key amount) s =
    unfold credits_nonce in step-settles nonce other key amount s

-- Over any calls of the credit store, a settlement's nonce is credited at most once, and not at all
-- if the table has it at the start.
pub times_credited-le-unsettled :
    (nonce : String) (es : List Event) (s : CreditStore)
    → times_credited nonce es s ≤ unsettled nonce s
unfolding times_credited
times_credited-le-unsettled nonce [] s = omega arith
times_credited-le-unsettled nonce (e ∷ es) s =
    omega (arith, step_le nonce e s, times_credited-le-unsettled nonce es (step e s))

-- ===== src/Payments/Credits/Bought.antt =====
-- What BuyCredits does on each of its paths.
use gemot.Prelude.{
  ℕ, ◌+◌, ◌≡◌, ◌⊎◌, refl, inl, inr, Bool, true, false, Map, ltb, some, String, str_eq, string_key,
  get, get-put, str_eq_refl, arith, Bool-cases, Option-cases,
}
use gemot.Prelude.Outcomes.{ok, err}
use gemot.Payments.Credits.Statements.{ApiKey, int4_max, update_credits}
use gemot.Payments.Credits.{
  CreditStore, nonce_required, constraint_violated, key_not_found, credit_x402_settlement,
  get_balance,
}
use gemot.Payments.Credits
use gemot.Payments.Credits.Purchases.{
  CreditPack, Outside, Charge, settled, challenge, gate_failure, BuyCreditsResult, lookup_pack,
  settled_without_nonce, settled_without_credit, gemot_key_required, unknown_pack,
  payment_gate_error, payment_required, decode_x402_nonce, credit_pack, buy_credits, Purchase,
}
use gemot.Payments.Credits.Purchases

-- An error, and the tables as they were.
abbrev pub Refused : CreditStore → Purchase → Type 0
Refused s p = (p.1 ≡ s) × (e : Purchases.Error) × (p.0 ≡ err e)

-- A settled charge for the pack, credited under the nonce of the credential.
abbrev pub Bought : Outside → String → String → String → String → CreditStore → Purchase → Type 0
Bought x name key account token s p =
    (pack : CreditPack) × (nonce : String) × (r : BuyCreditsResult) × (lookup_pack x name
      ≡ some pack)
    × (x.require_payment pack.price_usd account token "gemot:buy_credits" ≡ settled)
    × (decode_x402_nonce x token ≡ some nonce)
    × (p.0 ≡ ok r)
    × (p.1 ≡ (credit_x402_settlement nonce key pack.credits s).1)
    × (get_balance key p.1 ≡ ok r.new_balance)

update_credits-get :
    (amount : ℕ) (key : String) (s : CreditStore) (balance : ℕ) (keys : Map String ApiKey)
    → update_credits amount key s.api_keys ≡ some (balance, keys)
    → (k : ApiKey) × (get key keys ≡ some k) × (k.credits_remaining ≡ balance)
unfolding update_credits
update_credits-get amount key s balance keys h = elim (Option-cases (get key s.api_keys)) [
  | inl absent ↦ ground arith
  | inr (k, found) ↦
      let k' = record k { credits_remaining = k.credits_remaining + amount } in
      (k', ground (arith, get-put key key k' s.api_keys, str_eq_refl key), ground arith)
]

-- A settlement either fails and changes nothing, or announces the balance that the key then has.
settlement_cases :
    (nonce key : String) (amount : ℕ) (s : CreditStore)
    → ((e : Credits.Error) × (credit_x402_settlement nonce key amount s ≡ (err e, s)))
      ⊎ ((balance : ℕ) × (applied : Bool) × ((credit_x402_settlement nonce key amount s).0
            ≡ ok (balance, applied))
          × (get_balance key (credit_x402_settlement nonce key amount s).1 ≡ ok balance))
unfolding credit_x402_settlement get_balance
settlement_cases nonce key amount s = elim (Bool-cases (str_eq nonce "")) [
  | inl empty ↦ inl (nonce_required, ground arith)
  | inr named ↦ elim (Bool-cases (ltb int4_max amount)) [
    | inl large ↦ inl (constraint_violated, ground arith)
    | inr small ↦ elim (Option-cases (get nonce s.x402_settlements)) [
      | inr (row, old) ↦ elim (Option-cases (get key s.api_keys)) [
        | inl absent ↦ inl (key_not_found, ground arith)
        | inr (k, found) ↦ inr (k.credits_remaining, false, ground arith, ground arith)
      ]
      | inl new ↦ elim (Option-cases (update_credits amount key s.api_keys)) [
        | inl e ↦ inl (key_not_found, ground arith)
        | inr ((balance, keys), e) ↦ inr (
          balance,
          true,
          ground arith,
          ground (arith, update_credits-get amount key s balance keys e),
        )
      ]
    ]
  ]
]

Charge-cases :
    (c : Charge)
    → (c ≡ settled)
      ⊎ (c ≡ gate_failure)
      ⊎ ((code : ℕ) × (message : String) × (c ≡ challenge code message))
Charge-cases settled = inl refl
Charge-cases gate_failure = inr (inl refl)
Charge-cases (challenge code message) = inr (inr (code, message, refl))

credit_pack_cases :
    (x : Outside) (name key account token : String) (pack : CreditPack) (s : CreditStore)
    → lookup_pack x name ≡ some pack
    → x.require_payment pack.price_usd account token "gemot:buy_credits" ≡ settled
    → Refused s (credit_pack x pack key token s)
      ⊎ Bought x name key account token s (credit_pack x pack key token s)
unfolding credit_pack
credit_pack_cases x name key account token pack s known paid =
    elim (Option-cases (decode_x402_nonce x token)) [
      | inl e ↦ inl (ground arith, settled_without_nonce, ground arith)
      | inr (nonce, e) ↦ elim (settlement_cases nonce key pack.credits s) [
        | inl (e', failed) ↦ inl (ground arith, settled_without_credit e', ground arith)
        | inr (balance, applied, done, now) ↦
            let r : BuyCreditsResult = record {
              pack = pack.name;
              credits = pack.credits;
              new_balance = balance;
            } in
            let after : (credit_pack x pack key token s).1
                ≡ (credit_x402_settlement nonce key pack.credits s).1 =
              ground arith in
            inr (pack, nonce, r, known, paid, e, ground arith, after, rw after now)
      ]
    ]

-- BuyCredits either fails and leaves the tables as they were, or all of this holds: the gate settled
-- the charge of the named pack's price to the account with the credential, the credential has a
-- nonce, the tables are those after the settlement of that nonce for the pack's credits, and the
-- balance that is returned is that of the key.
pub buy_credits_cases :
    (x : Outside) (name key account token : String) (s : CreditStore)
    → Refused s (buy_credits x name key account token s)
      ⊎ Bought x name key account token s (buy_credits x name key account token s)
unfolding buy_credits
buy_credits_cases x name key account token s = elim (Bool-cases (str_eq key "")) [
  | inl empty ↦ inl (ground arith, gemot_key_required, ground arith)
  | inr given ↦ elim (Option-cases (lookup_pack x name)) [
    | inl unknown ↦ inl (ground arith, unknown_pack name, ground arith)
    | inr (pack, known) ↦
        let charge = x.require_payment pack.price_usd account token "gemot:buy_credits" in
        elim (Charge-cases charge) [
          | inl paid ↦
              let sold : buy_credits x name key account token s ≡ credit_pack x pack key token s =
                ground arith in
              rw sold (credit_pack_cases x name key account token pack s known paid)
          | inr (inl failed) ↦ inl (ground arith, payment_gate_error, ground arith)
          | inr (inr (code, message, due)) ↦
              inl (ground arith, payment_required code message, ground arith)
        ]
  ]
]

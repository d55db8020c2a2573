-- ===== src/Payments/Credits/Purchases.antt =====
-- internal/payments/buycredits.go, the packs of checkout.go, and the nonce of x402gate.go.
use gemot.Prelude.{ℕ, Bool, Option, none, some, List, [], ◌∷◌, String, str_eq, if◌then◌else◌}
use gemot.Prelude.Outcomes.{Outcome, ok, err, panic}
use gemot.Payments.Credits.{CreditStore, credit_x402_settlement}
use gemot.Payments.Credits

pub record CreditPack : Type 0 where
  pub name : String
  pub credits : ℕ
  pub price_usd : ℕ

abbrev pub credit_packs : List CreditPack
credit_packs =
    record { name = "Starter"; credits = 1000; price_usd = 500 }
    ∷ record { name = "Standard"; credits = 4500; price_usd = 2000 }
    ∷ record { name = "Pro"; credits = 12000; price_usd = 5000 }
    ∷ record { name = "Micro"; credits = 10; price_usd = 10 }
    ∷ []

-- What RequirePayment answers: the charge settled, a challenge with its code and message, or an
-- error of the infrastructure.
pub data Charge : Type 0 where
  settled : Charge
  challenge : ℕ → String → Charge
  gate_failure : Charge

-- The payment gate (price, account, credential, resource), strings.EqualFold and strings.TrimSpace,
-- and the nonce in a credential's Base64 and JSON.
pub record Outside : Type 0 where
  pub require_payment : ℕ → String → String → String → Charge
  pub equal_fold : String → String → Bool
  pub trim_space : String → String
  pub read_nonce : String → Option String

pub data Error : Type 0 where
  gemot_key_required : Error
  unknown_pack : String → Error
  payment_gate_error : Error
  payment_required : ℕ → String → Error
  settled_without_nonce : Error
  settled_without_credit : Credits.Error → Error

pub record BuyCreditsResult : Type 0 where
  pub pack : String
  pub credits : ℕ
  pub new_balance : ℕ

unfoldable pub named : Outside → String → List CreditPack → Option CreditPack
named x name [] = none
named x name (p ∷ ps) =
    let rest = named x name ps in if x.equal_fold p.name name then some p else rest

-- CreditPacks is not empty.
unfoldable pub lookup_pack : Outside → String → Option CreditPack
unfolding named
lookup_pack x name =
    if str_eq name ""
    then some (record { name = "Starter"; credits = 1000; price_usd = 500 })
    else named x name credit_packs

unfoldable pub decode_x402_nonce : Outside → String → Option String
decode_x402_nonce x credential = elim (x.read_nonce credential) [
  | none ↦ none
  | some raw ↦ let nonce = x.trim_space raw in if str_eq nonce "" then none else some nonce
]

abbrev pub Purchase : Type 0
Purchase = Outcome Error BuyCreditsResult × CreditStore

-- What follows a settled charge.
unfoldable pub credit_pack : Outside → CreditPack → String → String → CreditStore → Purchase
unfolding decode_x402_nonce credit_x402_settlement
credit_pack x pack key token s = elim (decode_x402_nonce x token) [
  | none ↦ (err settled_without_nonce, s)
  | some nonce ↦
      let credited = credit_x402_settlement nonce key pack.credits s in
      elim credited.0 [
        | ok (balance, _) ↦ (
          ok (record { pack = pack.name; credits = pack.credits; new_balance = balance }),
          credited.1,
        )
        | err e ↦ (err (settled_without_credit e), credited.1)
        | panic ↦ (panic, credited.1)
      ]
]

-- The gate and the store are given.
unfoldable pub buy_credits : Outside → String → String → String → String → CreditStore → Purchase
unfolding lookup_pack credit_pack
buy_credits x pack_name key account token s =
    if str_eq key "" then (err gemot_key_required, s) else elim (lookup_pack x pack_name) [
      | none ↦ (err (unknown_pack pack_name), s)
      | some pack ↦ elim (x.require_payment pack.price_usd account token "gemot:buy_credits") [
        | gate_failure ↦ (err payment_gate_error, s)
        | challenge code message ↦ (err (payment_required code message), s)
        | settled ↦ credit_pack x pack key token s
      ]
    ]

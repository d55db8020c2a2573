-- ===== src/Payments/Credits/Webhook.antt =====
-- internal/payments/checkout.go: what WebhookHandler does with a checkout session that is completed,
-- once Stripe's signature and the JSON are read.
use gemot.Prelude.{
  ℕ, Option, none, some, List, [], ◌∷◌, String, str_eq, ◌==◌, ltb, ◌&&◌, if◌then◌else◌, not,
}
use gemot.Prelude.Outcomes.{ok}
use gemot.Payments.Credits.{CreditStore, add_credits_by_email, generate_key}
use gemot.Payments.Credits.Statements.{key_of_session}
use gemot.Payments.Credits.Purchases.{CreditPack, credit_packs}

-- The fields that the handler reads. The credits of the metadata come as a text and as the number
-- that Sscanf reads from it, 0 if there is none.
pub record CheckoutSession : Type 0 where
  pub id : String
  pub customer_email : String
  pub details_email : Option String
  pub metadata_credits : String
  pub scanned_credits : ℕ
  pub customer_id : String
  pub amount_total : ℕ

-- The HTTP status.
pub data Status : Type 0 where
  status_ok : Status
  internal_error : Status

unfoldable pub email_of : CheckoutSession → String
email_of sess =
    if str_eq sess.customer_email ""
    then elim sess.details_email [ none ↦ "" | some e ↦ e ]
    else sess.customer_email

-- fmt.Sprintf("%d", …) is a parameter.
unfoldable pub expected_amount : (ℕ → String) → String → List CreditPack → ℕ
expected_amount decimal credits [] = 0
expected_amount decimal credits (p ∷ ps) =
    let rest = expected_amount decimal credits ps in
    if str_eq (decimal p.credits) credits then p.price_usd else rest

unfoldable pub provision :
    Option String → ℕ → String → CheckoutSession → CreditStore → Status × CreditStore
unfolding add_credits_by_email generate_key
provision random now email sess s =
    let added = add_credits_by_email email sess.scanned_credits sess.id s in
    elim added.0 [
      | ok _ ↦ (status_ok, added.1)
      | _ ↦
          let made =
            generate_key random email sess.customer_id sess.id sess.scanned_credits now added.1 in
          elim made.0 [ ok _ ↦ (status_ok, made.1) | _ ↦ (internal_error, made.1) ]
    ]

unfoldable pub session_completed :
    (ℕ → String) → Option String → ℕ → CheckoutSession → CreditStore → Status × CreditStore
unfolding email_of expected_amount provision key_of_session
session_completed decimal random now sess s =
    let email = email_of sess in
    let expected = expected_amount decimal sess.metadata_credits credit_packs in
    if ltb 0 expected && not (sess.amount_total == expected)
    then (status_ok, s)
    else if not (str_eq email "") && ltb 0 sess.scanned_credits
    then elim (key_of_session sess.id s.api_keys) [
      | some _ ↦ (status_ok, s)
      | none ↦ provision random now email sess s
    ]
    else (status_ok, s)

-- ===== src/Payments/Credits/Examples.antt =====
-- The theorems on the credit store at concrete keys, settlements and sessions.
use gemot.Prelude.{
  ℕ, ◌+◌, ◌≡◌, ◌≢◌, ◌≤◌, ◌⊎◌, refl, false, none, some, List, [], ◌∷◌, String, str_eq, string_key,
  arith,
}
use text.Mathlib.TextEquality.{eq_iff}
use gemot.Prelude.Outcomes.{ok}
use gemot.Payments.Credits.{CreditStore, add_credits, deduct, credit_x402_settlement, get_balance}
use gemot.Payments.Credits.Statements.{ApiKey, latest_key, key_of_session, update_credits}
use gemot.Payments.Credits.Purchases.{Outside, settled, buy_credits}
use gemot.Payments.Credits.Ledger.{
  Event, adds, deducts, settles, step, run, total, all_granted, all_spent, run-total,
}
use gemot.Payments.Credits.Settled.{times_credited, unsettled, times_credited-le-unsettled}
use gemot.Payments.Credits.Bought.{Refused, Bought, buy_credits_cases}
use gemot.Payments.Credits.Webhook.{CheckoutSession, email_of, expected_amount}
use gemot.Payments.Credits.Redelivered.{IsPaid, delivered, redelivered_credits_twice}

abbrev row : ApiKey
row = record {
  email = "a@b.c";
  credits_remaining = 100;
  stripe_customer_id = "";
  stripe_session_id = "s0";
  suspended = false;
  created_at = 5;
  last_used_at = none;
}

abbrev one_key : CreditStore
one_key = record { api_keys = ("gmt_1", row) ∷ []; x402_settlements = [] }

abbrev calls : List Event
calls =
    adds "gmt_1" 20
    ∷ settles "n" "gmt_1" 10
    ∷ settles "n" "gmt_1" 10
    ∷ deducts "gmt_1" 60 7
    ∷ deducts "gmt_1" 500 8
    ∷ []

balance_after_calls : total (run calls one_key).api_keys ≡ 70
unfolding run total step deduct credit_x402_settlement update_credits add_credits
balance_after_calls = refl

run-total_example :
    total (run calls one_key).api_keys + all_spent calls one_key
    ≡ total one_key.api_keys + all_granted calls one_key
run-total_example = run-total calls one_key

times_credited-le-unsettled_example : times_credited "n" calls one_key ≤ unsettled "n" one_key
times_credited-le-unsettled_example = times_credited-le-unsettled "n" calls one_key

-- A gate that settles every charge, and texts compared as they are.
abbrev outside : Outside
outside = record {
  require_payment = λ price account token resource. settled;
  equal_fold = str_eq;
  trim_space = λ s. s;
  read_nonce = λ s. some s;
}

buy_credits_cases_example :
    Refused one_key (buy_credits outside "Micro" "gmt_1" "acct" "n" one_key)
    ⊎ Bought outside "Micro" "gmt_1" "acct" "n" one_key
        (buy_credits outside "Micro" "gmt_1" "acct" "n" one_key)
buy_credits_cases_example = buy_credits_cases outside "Micro" "gmt_1" "acct" "n" one_key

abbrev starter : String → CheckoutSession
starter id = record {
  id = id;
  customer_email = "a@b.c";
  details_email = none;
  metadata_credits = "1000";
  scanned_credits = 1000;
  customer_id = "";
  amount_total = 500;
}

-- Every number is written "1000", so that the first pack fits.
abbrev decimal : ℕ → String
decimal n = "1000"

starter-IsPaid : (id : String) → id ≢ "" → IsPaid decimal "a@b.c" (starter id)
unfolding email_of expected_amount
starter-IsPaid id h = record {
  identified = h;
  buyer = refl;
  full = refl;
  some_credits = omega arith;
}

redelivered_credits_twice_example :
    get_balance "gmt_1" (
      delivered decimal none 9
        (starter "s1")
        (delivered decimal none 9 (starter "s2") (delivered decimal none 9 (starter "s1") one_key)))
    ≡ ok 3100
unfolding latest_key key_of_session
redelivered_credits_twice_example =
    redelivered_credits_twice decimal none 9 "a@b.c" (ground (arith, eq_iff "a@b.c" ""))
      (starter "s1") (starter "s2") "gmt_1" row one_key
      (starter-IsPaid "s1" (ground (arith, eq_iff "s1" "")))
      (starter-IsPaid "s2" (ground (arith, eq_iff "s2" ""))) (ground (arith, eq_iff "s1" "s2"))
      (refl, tt) refl refl refl (omega arith)

-- ===== src/Payments/Credits/Redelivered.antt =====
-- A checkout session whose webhook comes again.
use gemot.Prelude.{
  ℕ, ◌+◌, ap, sym, ◌∙◌, ◌≡◌, ◌≢◌, ◌<◌, ◌≤◌, refl, Option, none, some, [], ◌∷◌, Map, String,
  string_key, get, put, str_eq_refl, arith,
}
use gemot.Payments.Credits.Statements.{ApiKey, int4_max, latest_key, key_of_session, update_session}
use gemot.Prelude.Unique.{Unique}
use gemot.Prelude.Outcomes.{ok}
use gemot.Payments.Credits.{CreditStore, add_credits_by_email, get_balance}
use gemot.Payments.Credits.Purchases.{credit_packs}
use gemot.Payments.Credits.Webhook.{
  CheckoutSession, Status, status_ok, email_of, expected_amount, provision, session_completed,
}

key_of_session-put :
    (t key : String) (k : ApiKey) (m : Map String ApiKey)
    → key_of_session t m ≡ none
    → k.stripe_session_id ≢ t
    → key_of_session t (put key k m) ≡ none
unfolding key_of_session
key_of_session-put t key k [] h ne = ground (arith, string_key.same_iff k.stripe_session_id t)
key_of_session-put t key k ((j, w) ∷ m) h ne = ground (
  arith,
  string_key.same_iff k.stripe_session_id t,
  string_key.same_iff w.stripe_session_id t,
  key_of_session-put t key k m,
)

key_of_session-found :
    (t key : String) (k : ApiKey) (m : Map String ApiKey)
    → get key m ≡ some k
    → key_of_session t m ≡ none
    → k.stripe_session_id ≢ t
unfolding key_of_session
key_of_session-found t key k [] g h e = cc
key_of_session-found t key k ((j, w) ∷ m) g h e =
    ground (arith, string_key.same_iff w.stripe_session_id t, key_of_session-found t key k m)

get-put_self : (key : String) (k : ApiKey) (m : Map String ApiKey) → get key (put key k m) ≡ some k
get-put_self key k [] = ground (arith, str_eq_refl key)
get-put_self key k ((j, w) ∷ m) = ground (arith, str_eq_refl key, get-put_self key k m)

put-put :
    (key : String) (v k : ApiKey) (m : Map String ApiKey) → put key v (put key k m) ≡ put key v m
put-put key v k [] = ground (arith, str_eq_refl key)
put-put key v k ((j, w) ∷ m) = ground (arith, str_eq_refl key, put-put key v k m)

put-same :
    (key : String) (k : ApiKey) (m : Map String ApiKey) → get key m ≡ some k → put key k m ≡ m
put-same key k [] h = cc
put-same key k ((j, w) ∷ m) h = ground (arith, string_key.same_iff j key, put-same key k m)

latest_key-present :
    (email key : String) (k : ApiKey) (m : Map String ApiKey)
    → latest_key email m ≡ some (key, k)
    → get key m ≢ none
unfolding latest_key
latest_key-present email key k [] h e = cc
latest_key-present email key k ((j, w) ∷ m) h e =
    ground (arith, str_eq_refl j, string_key.same_iff j key, latest_key-present email key k m)

latest_key-get :
    (email key : String) (k : ApiKey) (m : Map String ApiKey)
    → Unique m
    → latest_key email m ≡ some (key, k)
    → get key m ≡ some k
unfolding latest_key
latest_key-get email key k [] u h = cc
latest_key-get email key k ((j, w) ∷ m) u h = ground (
  arith,
  string_key.same_iff j key,
  latest_key-get email key k m u.1,
  latest_key-present email key k m,
)

-- A row written anew with its email and time stays the latest one.
latest_key-put :
    (email key : String) (k v : ApiKey) (m : Map String ApiKey)
    → Unique m
    → latest_key email m ≡ some (key, k)
    → v.email ≡ k.email
    → v.created_at ≡ k.created_at
    → latest_key email (put key v m) ≡ some (key, v)
unfolding latest_key
latest_key-put email key k v [] u h e c = cc
latest_key-put email key k v ((j, w) ∷ m) u h e c = ground (
  arith,
  string_key.same_iff j key,
  latest_key-put email key k v m u.1,
  latest_key-present email key k m,
)

-- A session that the handler provisions for the email: paid in full, with credits.
pub record IsPaid (decimal : ℕ → String) (email : String) (sess : CheckoutSession) : Type 0 where
  pub identified : sess.id ≢ ""
  pub buyer : email_of sess ≡ email
  pub full : sess.amount_total ≡ expected_amount decimal sess.metadata_credits credit_packs
  pub some_credits : 0 < sess.scanned_credits

-- The row after a session is credited.
abbrev credited : CheckoutSession → ApiKey → ApiKey
credited sess k = record k {
  credits_remaining = k.credits_remaining + sess.scanned_credits;
  stripe_session_id = sess.id;
}

-- The tables after the webhook of a session.
unfoldable pub delivered :
    (ℕ → String) → Option String → ℕ → CheckoutSession → CreditStore → CreditStore
unfolding session_completed
delivered decimal random now sess s = (session_completed decimal random now sess s).1

module _ (decimal : ℕ → String) (random : Option String) (now : ℕ) (email : String)
    (someone : email ≢ "") where
  -- Where a key has the email and no key has the session, the handler credits the latest key.
  session_completed-credits :
      (sess : CheckoutSession) (key : String) (k : ApiKey) (s : CreditStore)
      → IsPaid decimal email sess
      → latest_key email s.api_keys ≡ some (key, k)
      → get key s.api_keys ≡ some k
      → key_of_session sess.id s.api_keys ≡ none
      → k.credits_remaining + sess.scanned_credits ≤ int4_max
      → session_completed decimal random now sess s
        ≡ (status_ok, record s { api_keys = put key (credited sess k) s.api_keys })
  unfolding session_completed provision add_credits_by_email update_session
  session_completed-credits sess key k s p latest found new fits =
      let other : k.stripe_session_id ≢ sess.id =
        key_of_session-found sess.id key k s.api_keys found new in
      ground (
        arith,
        p.identified,
        p.buyer,
        p.full,
        p.some_credits,
        other,
        string_key.same_iff k.stripe_session_id sess.id,
        string_key.same_iff sess.id "",
        string_key.same_iff email "",
      )

  -- The same, for a store that differs from the given one in the key's row.
  delivered-put :
      (sess : CheckoutSession) (key : String) (k v : ApiKey) (s : CreditStore)
      → IsPaid decimal email sess
      → Unique s.api_keys
      → latest_key email s.api_keys ≡ some (key, k)
      → v.email ≡ k.email
      → v.created_at ≡ k.created_at
      → key_of_session sess.id s.api_keys ≡ none
      → v.stripe_session_id ≢ sess.id
      → v.credits_remaining + sess.scanned_credits ≤ int4_max
      → delivered decimal random now sess (record s { api_keys = put key v s.api_keys })
        ≡ record s { api_keys = put key (credited sess v) s.api_keys }
  unfolding delivered
  delivered-put sess key k v s p u latest same_email same_time new ne fits =
      let s' : CreditStore = record s { api_keys = put key v s.api_keys } in
      let written =
        session_completed-credits sess key v s' p
          (latest_key-put email key k v s.api_keys u latest same_email same_time)
          (get-put_self key v s.api_keys) (key_of_session-put sess.id key v s.api_keys new ne)
          fits in
      ap (λ (r : Status × CreditStore). r.1) written
      ∙ ap (λ (m : Map String ApiKey). let t : CreditStore = record s { api_keys = m } in t)
          (put-put key (credited sess v) v s.api_keys)

  -- Two paid sessions of an email that has a key and that no key's row names yet: delivered in the
  -- order a, b, a, the session a is credited twice, as long as the balance stays in range.
  pub redelivered_credits_twice :
      (a b : CheckoutSession) (key : String) (k : ApiKey) (s : CreditStore)
      → IsPaid decimal email a
      → IsPaid decimal email b
      → a.id ≢ b.id
      → Unique s.api_keys
      → latest_key email s.api_keys ≡ some (key, k)
      → key_of_session a.id s.api_keys ≡ none
      → key_of_session b.id s.api_keys ≡ none
      → k.credits_remaining + a.scanned_credits + b.scanned_credits + a.scanned_credits ≤ int4_max
      → get_balance key (
          delivered decimal random now a
            (delivered decimal random now b (delivered decimal random now a s)))
        ≡ ok (k.credits_remaining + a.scanned_credits + b.scanned_credits + a.scanned_credits)
  unfolding get_balance
  redelivered_credits_twice a b key k s pa pb ne u latest new_a new_b fits =
      let found = latest_key-get email key k s.api_keys u latest in
      let ka = credited a k in
      let kb = credited b ka in
      let first : delivered decimal random now a s ≡ record s { api_keys = put key ka s.api_keys } =
        unfold delivered in
        ap (λ (r : Status × CreditStore). r.1)
          (session_completed-credits a key k s pa latest found new_a (omega arith)) in
      rw first (
        rw (delivered-put b key k ka s pb u latest refl refl new_b ne (omega arith)) (
          rw
            (delivered-put a key k kb s pa u latest refl refl new_a (λ e. ne (sym e)) (omega arith))
            (ground (arith, get-put_self key (credited a kb) s.api_keys))))

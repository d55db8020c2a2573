-- ===== src/Memory/Codes.antt =====
-- How often a join code and an authorization code are taken.
use gemot.Prelude.{
  ℕ, ◌+◌, ◌-◌, ◌≤◌, ◌≡◌, inl, inr, Bool, true, none, some, List, [], ◌∷◌, String, str_eq,
  string_key, get, get-put, ltb, if◌then◌else◌, arith, Option-cases,
}
use text.Mathlib.TextEquality.{eq_iff}
use gemot.Prelude.Outcomes.{Outcome, ok, err, panic}
use gemot.Memory.State.{MemoryStore, Error}
use gemot.Memory.Access.{claim_join_code, used_by_agent, consume_oauth_authorization_code}

-- 1 for a call that succeeds.
abbrev pub successes : {A : Type 0} → Outcome Error A → ℕ
successes (ok a) = 1
successes (err e) = 0
successes panic = 0

-- Claims of join codes, each with the code, the agent and the time.
abbrev pub Claims : Type 0
Claims = List (String × String × ℕ)

-- The claims of the code that succeed.
unfoldable pub claimed : String → Claims → MemoryStore → ℕ
claimed code [] m = 0
claimed code ((c, agent, now) ∷ claims) m =
    (if str_eq c code then successes (claim_join_code c agent now m).0 else 0)
    + claimed code claims (claim_join_code c agent now m).1

-- The uses that are left of a limited code.
unfoldable pub uses_left : String → MemoryStore → ℕ
uses_left code m = elim (get code m.join_codes) [ none ↦ 0 | some jc ↦ jc.max_uses - jc.use_count ]

-- The code is unknown, or has a limit.
unfoldable pub is_limited : String → MemoryStore → Bool
is_limited code m = elim (get code m.join_codes) [ none ↦ true | some jc ↦ ltb 0 jc.max_uses ]

claim-uses_left :
    (code c agent : String) (now : ℕ) (m : MemoryStore)
    → is_limited code m ≡ true
    → ((if str_eq c code then successes (claim_join_code c agent now m).0 else 0)
          + uses_left code (claim_join_code c agent now m).1
        ≤ uses_left code m)
      × (is_limited code (claim_join_code c agent now m).1 ≡ true)
unfolding claim_join_code uses_left is_limited
claim-uses_left code c agent now m limited = elim (Option-cases (get c m.join_codes)) [
  | inl e ↦ rw (e, claim_join_code) (ground (arith, eq_iff c code))
  | inr (jc, e) ↦
      rw (e, claim_join_code)
        (ground (arith, eq_iff c code, get-put c code (used_by_agent agent jc) m.join_codes))
]

-- Of a join code with a limit, no more claims succeed than it has uses left, whoever claims it and
-- whatever other codes are claimed in between.
pub claimed-le-uses_left :
    (code : String) (claims : Claims) (m : MemoryStore)
    → is_limited code m ≡ true
    → claimed code claims m ≤ uses_left code m
unfolding claimed
claimed-le-uses_left code [] m limited = omega arith
claimed-le-uses_left code ((c, agent, now) ∷ claims) m limited =
    let (less, limited') = claim-uses_left code c agent now m limited in
    omega (arith, less, claimed-le-uses_left code claims (claim_join_code c agent now m).1 limited')

-- Attempts to redeem authorization codes, each with the code, the client and the time.
abbrev pub Attempts : Type 0
Attempts = List (String × String × ℕ)

unfoldable pub consumed : String → Attempts → MemoryStore → ℕ
consumed code [] m = 0
consumed code ((c, client, now) ∷ attempts) m =
    (if str_eq c code then successes (consume_oauth_authorization_code c client now m).0 else 0)
    + consumed code attempts (consume_oauth_authorization_code c client now m).1

-- 1 if the code is known and not consumed.
unfoldable pub unconsumed : String → MemoryStore → ℕ
unconsumed code m = elim (get code m.oauth_auth_codes) [
  | none ↦ 0
  | some oc ↦ elim oc.consumed_at [ none ↦ 1 | some _ ↦ 0 ]
]

consume-unconsumed :
    (code c client : String) (now : ℕ) (m : MemoryStore)
    → (if str_eq c code then successes (consume_oauth_authorization_code c client now m).0 else 0)
        + unconsumed code (consume_oauth_authorization_code c client now m).1
      ≤ unconsumed code m
unfolding consume_oauth_authorization_code unconsumed
consume-unconsumed code c client now m = elim (Option-cases (get c m.oauth_auth_codes)) [
  | inl e ↦ rw (e, consume_oauth_authorization_code) (ground (arith, eq_iff c code))
  | inr (oc, e) ↦
      rw (e, consume_oauth_authorization_code)
        (ground (
          arith,
          eq_iff c code,
          get-put c code (record oc { consumed_at = some now }) m.oauth_auth_codes,
        ))
]

unconsumed-le_one : (code : String) (m : MemoryStore) → unconsumed code m ≤ 1
unfolding unconsumed
unconsumed-le_one code m = ground arith

consumed-le :
    (code : String) (attempts : Attempts) (m : MemoryStore)
    → consumed code attempts m ≤ unconsumed code m
unfolding consumed
consumed-le code [] m = omega arith
consumed-le code ((c, client, now) ∷ attempts) m = omega (
  arith,
  consume-unconsumed code c client now m,
  consumed-le code attempts (consume_oauth_authorization_code c client now m).1,
)

-- In any attempts to redeem authorization codes, each code is redeemed at most once, and not at all
-- if it is unknown or was consumed before.
pub consumed-le-unconsumed :
    (code : String) (attempts : Attempts) (m : MemoryStore)
    → (consumed code attempts m ≤ unconsumed code m) × (consumed code attempts m ≤ 1)
consumed-le-unconsumed code attempts m = (
  consumed-le code attempts m,
  omega (arith, consumed-le code attempts m, unconsumed-le_one code m),
)

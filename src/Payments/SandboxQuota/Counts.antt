-- ===== src/Payments/SandboxQuota/Counts.antt =====
-- The calls that a sandbox quota counts.
use gemot.Prelude.{
  ℕ, ◌+◌, ◌-◌, ◌≤◌, ◌≡◌, ◌≢◌, inl, inr, refl, Bool, true, some, List, [], ◌∷◌, Map, String, str_eq,
  string_key, get, put, remove_if, leb, arith, All, Bool-cases, Option-cases,
}
use text.Mathlib.TextEquality.{eq_iff}
use gemot.Prelude.Integers.{negsuc}
use gemot.Payments.SandboxQuota.{
  SandboxQuota, QuotaEntry, new_sandbox_quota, is_over, prune_expired, start_window, count_call,
  allow, refund,
}

pub data Event : Type 0 where
  calls : String → ℕ → Event
  refunds : String → Event

unfoldable pub step : Event → SandboxQuota → SandboxQuota
step (calls identity now) q = (allow identity now q).1
step (refunds identity) q = refund identity q

unfoldable pub run : List Event → SandboxQuota → SandboxQuota
unfolding step
run [] q = q
run (e ∷ es) q = run es (step e q)

-- Every count is at most the limit.
abbrev pub Within : ℕ → Map String QuotaEntry → Type 0
Within limit = All λ e. e.1.count ≤ limit

put-Within :
    (limit : ℕ) (key : String) (e : QuotaEntry) (m : Map String QuotaEntry)
    → e.count ≤ limit
    → Within limit m
    → Within limit (put key e m)
put-Within limit key e [] h w = (h, tt)
put-Within limit key e ((i, x) ∷ m) h w = ground (arith, put-Within limit key e m h w.1)

remove_if-Within :
    (limit : ℕ) (p : QuotaEntry → Bool) (m : Map String QuotaEntry)
    → Within limit m
    → Within limit (remove_if p m)
remove_if-Within limit p [] w = tt
remove_if-Within limit p ((i, x) ∷ m) w = ground (arith, remove_if-Within limit p m w.1)

get-Within :
    (limit : ℕ) (key : String) (e : QuotaEntry) (m : Map String QuotaEntry)
    → Within limit m
    → get key m ≡ some e
    → e.count ≤ limit
get-Within limit key e [] w h = cc
get-Within limit key e ((i, x) ∷ m) w h = ground (arith, get-Within limit key e m w.1)

-- The limit is kept, with every count within it.
record IsBounded (limit : ℕ) (q : SandboxQuota) : Type 0 where
  same : q.limit ≡ limit
  within : Within limit q.counts

module _ (limit : ℕ) (some_calls : 1 ≤ limit) where
  start_window-IsBounded :
      (key : String) (now : ℕ) (q : SandboxQuota)
      → IsBounded limit q
      → IsBounded limit (start_window key now q).1
  unfolding start_window
  start_window-IsBounded key now q b = record {
    same = b.same;
    within =
        put-Within limit key (record { count = 1; reset_at = now + q.window }) q.counts some_calls
          b.within;
  }

  count_call-IsBounded :
      (key : String) (e : QuotaEntry) (q : SandboxQuota)
      → IsBounded limit q
      → IsBounded limit (count_call key e q).1
  unfolding count_call
  count_call-IsBounded key e q b = elim (Bool-cases (leb q.limit e.count)) [
    | inl full ↦ rw (full, count_call) b
    | inr room ↦
        rw (room, count_call)
          (record {
            same = b.same;
            within =
                put-Within limit key (record e { count = e.count + 1 }) q.counts
                  (ground (arith, b.same)) b.within;
          })
  ]

  prune_expired-IsBounded :
      (now : ℕ) (q : SandboxQuota) → IsBounded limit q → IsBounded limit (prune_expired now q)
  unfolding prune_expired
  prune_expired-IsBounded now q b = record {
    same = b.same;
    within = remove_if-Within limit (is_over now) q.counts b.within;
  }

  allow-IsBounded :
      (key : String) (now : ℕ) (q : SandboxQuota)
      → IsBounded limit q
      → IsBounded limit (allow key now q).1
  unfolding allow
  allow-IsBounded key now q b =
      let p = prune_expired-IsBounded now q b in
      let q' = prune_expired now q in
      let fresh = start_window-IsBounded key now q' p in
      elim (Bool-cases (str_eq key "")) [
        | inl nobody ↦ rw (nobody, allow) b
        | inr named ↦ elim (Option-cases (get key q'.counts)) [
          | inl new ↦ rw (named, allow) (rw (new, allow) fresh)
          | inr (e, old) ↦ elim (Bool-cases (is_over now e)) [
            | inl over ↦ rw (named, allow) (rw (old, allow) (rw over fresh))
            | inr live ↦
                rw (named, allow) (rw (old, allow) (rw live (count_call-IsBounded key e q' p)))
          ]
        ]
      ]

  refund-IsBounded :
      (key : String) (q : SandboxQuota) → IsBounded limit q → IsBounded limit (refund key q)
  unfolding refund
  refund-IsBounded key q b = elim (Option-cases (get key q.counts)) [
    | inl e ↦ ground arith
    | inr (e, found) ↦
        let e' = record e { count = e.count - 1 } in
        let fewer : e'.count ≤ limit =
          omega (arith, get-Within limit key e q.counts b.within found) in
        let put' : IsBounded limit (record q { counts = put key e' q.counts }) = record {
          same = b.same;
          within = put-Within limit key e' q.counts fewer b.within;
        } in
        ground (arith, put')
  ]

  run-IsBounded :
      (es : List Event) (q : SandboxQuota) → IsBounded limit q → IsBounded limit (run es q)
  unfolding run
  run-IsBounded [] q b = b
  run-IsBounded (calls key now ∷ es) q b =
      run-IsBounded es (allow key now q).1 (allow-IsBounded key now q b)
  run-IsBounded (refunds key ∷ es) q b = run-IsBounded es (refund key q) (refund-IsBounded key q b)

-- With a limit of one call or more, whatever calls and refunds there are, no identity is ever
-- counted for more calls than the limit.
pub run-Within :
    (limit window : ℕ) (es : List Event)
    → 1 ≤ limit
    → Within limit (run es (new_sandbox_quota limit window)).counts
unfolding new_sandbox_quota
run-Within limit window es h =
    (run-IsBounded limit h es (new_sandbox_quota limit window)
      (record { same = refl; within = tt })).within

-- A quota with a limit of 0 lets the first call of an identity through all the same, and announces
-- -1 remaining calls.
pub zero_limit_admits :
    (identity : String) (window now : ℕ)
    → identity ≢ ""
    → (allow identity now (new_sandbox_quota 0 window)).0 ≡ (true, negsuc 0)
unfolding allow new_sandbox_quota prune_expired start_window
zero_limit_admits identity window now h = ground (arith, eq_iff identity "")

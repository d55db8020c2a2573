-- ===== src/Payments/SandboxQuota.antt =====
-- internal/payments/sandbox_quota.go: a count of calls for each identity, from its first call on.
pub mod Counts
use gemot.Prelude.{
  ℕ, ◌+◌, ◌-◌, Bool, true, false, none, some, [], Map, String, str_eq, string_key, get, put,
  remove_if, ltb, leb, if◌then◌else◌,
}
use gemot.Prelude.Integers.{ℤ, pos, sub_ℕ}

pub record QuotaEntry : Type 0 where
  pub count : ℕ
  pub reset_at : ℕ

pub record SandboxQuota : Type 0 where
  pub counts : Map String QuotaEntry
  pub limit : ℕ
  pub window : ℕ

unfoldable pub new_sandbox_quota : ℕ → ℕ → SandboxQuota
new_sandbox_quota limit window = record { counts = []; limit = limit; window = window }

-- now.After(e.resetAt)
unfoldable pub is_over : ℕ → QuotaEntry → Bool
is_over now e = ltb e.reset_at now

unfoldable pub prune_expired : ℕ → SandboxQuota → SandboxQuota
unfolding is_over
prune_expired now q = record q { counts = remove_if (is_over now) q.counts }

unfoldable pub start_window : String → ℕ → SandboxQuota → (Bool × ℤ) × SandboxQuota
start_window identity now q =
    let e : QuotaEntry = record { count = 1; reset_at = now + q.window } in
    ((true, sub_ℕ q.limit 1), record q { counts = put identity e q.counts })

unfoldable pub count_call : String → QuotaEntry → SandboxQuota → (Bool × ℤ) × SandboxQuota
count_call identity e q =
    let e' = record e { count = e.count + 1 } in
    if leb q.limit e.count
    then ((false, pos 0), q)
    else ((true, sub_ℕ q.limit e'.count), record q { counts = put identity e' q.counts })

unfoldable pub allow : String → ℕ → SandboxQuota → (Bool × ℤ) × SandboxQuota
unfolding prune_expired start_window count_call is_over
allow identity now q =
    let q' = prune_expired now q in
    if str_eq identity "" then ((true, pos q.limit), q) else elim (get identity q'.counts) [
      | none ↦ start_window identity now q'
      | some e ↦ if is_over now e then start_window identity now q' else count_call identity e q'
    ]

unfoldable pub refund : String → SandboxQuota → SandboxQuota
refund identity q = if str_eq identity "" then q else elim (get identity q.counts) [
  | none ↦ q
  | some e ↦
      if ltb 0 e.count
      then record q { counts = put identity (record e { count = e.count - 1 }) q.counts }
      else q
]

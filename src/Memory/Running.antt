-- ===== src/Memory/Running.antt =====
-- At most one job of a deliberation runs at a time, and jobs that CreateJob makes are not recovered.
use gemot.Prelude.{
  ℕ, ◌-◌, ◌≤◌, ◌≡◌, ◌≢◌, refl, sym, subst, ◌⊎◌, inl, inr, Bool, false, ◌&&◌, List, [], ◌∷◌, Map,
  String, str_eq, string_key, get, put, select, length, arith, All, Bool-cases, Option-cases,
}
use text.Mathlib.TextEquality.{eq_iff}
use gemot.Prelude.Selected.{select-put_le}
use gemot.Memory.State.{MemoryStore, JobRecord, new_memory_store}
use gemot.Memory.Jobs.{
  is_running, in_flight, new_job, claim_job, create_job, complete_job, fail_stuck,
  recover_stuck_jobs,
}

pub data Call : Type 0 where
  claims : String → String → ℕ → Call
  creates : String → String → ℕ → Call
  completes : String → String → String → ℕ → Call
  recovers : ℕ → ℕ → Call

unfoldable pub call : Call → MemoryStore → MemoryStore
call (claims fresh id now) m = (claim_job fresh id now m).1
call (creates fresh id now) m = (create_job fresh id now m).1
call (completes job status message now) m = (complete_job job status message now m).1
call (recovers now age) m = (recover_stuck_jobs now age m).1

unfoldable pub calls : List Call → MemoryStore → MemoryStore
unfolding call
calls [] m = m
calls (c ∷ cs) m = calls cs (call c m)

-- No job is completed with the status of a running one.
abbrev pub Completes : Call → Type 0
Completes (completes job status message now) = status ≢ "running"
Completes _ = Unit

unfoldable pub runs_for : String → JobRecord → Bool
unfolding is_running
runs_for id j = str_eq j.deliberation_id id && is_running j

idle :
    (id : String) (jobs : Map String JobRecord)
    → in_flight id jobs ≡ false
    → length (select (runs_for id) jobs) ≡ 0
unfolding in_flight runs_for
idle id [] h = omega arith
idle id ((k, j) ∷ jobs) h = ground (arith, idle id jobs)

claimed-one :
    (id fresh i : String) (now : ℕ) (jobs : Map String JobRecord)
    → in_flight i jobs ≡ false
    → length (select (runs_for id) jobs) ≤ 1
    → length (select (runs_for id) (put fresh (new_job fresh i "running" now) jobs)) ≤ 1
unfolding new_job
claimed-one id fresh i now jobs free one = elim (Bool-cases (str_eq i id)) [
  | inl own ↦
      let none' = subst (λ i. in_flight i jobs ≡ false) ((eq_iff i id).0 own) free in
      ground (
        arith,
        idle id jobs none',
        select-put_le (runs_for id) fresh (new_job fresh i "running" now) jobs,
      )
  | inr other ↦
      let p : runs_for id (new_job fresh i "running" now) ≡ false =
        unfold runs_for in rw other refl in
      ground (arith, p, select-put_le (runs_for id) fresh (new_job fresh i "running" now) jobs)
]

-- An assignment of a job that does not run adds none that does.
put-stopped :
    (id key : String) (j : JobRecord) (jobs : Map String JobRecord)
    → is_running j ≡ false
    → length (select (runs_for id) (put key j jobs)) ≤ length (select (runs_for id) jobs)
put-stopped id key j jobs h =
    let p : runs_for id j ≡ false = stopped in
    ground (arith, p, select-put_le (runs_for id) key j jobs)
  where
    stopped : runs_for id j ≡ false
    stopped = unfold runs_for in ground arith

fail_stuck-le :
    (id : String) (now cutoff : ℕ) (jobs : Map String JobRecord)
    → length (select (runs_for id) (fail_stuck now cutoff jobs).1)
      ≤ length (select (runs_for id) jobs)
unfolding fail_stuck runs_for
fail_stuck-le id now cutoff [] = omega arith
fail_stuck-le id now cutoff ((k, j) ∷ jobs) =
    let failed : str_eq "failed" "running" ≡ false = refl in
    ground (arith, failed, fail_stuck-le id now cutoff jobs)

claim_job_cases :
    (fresh i : String) (now : ℕ) (m : MemoryStore)
    → ((claim_job fresh i now m).1.jobs ≡ m.jobs)
      ⊎ ((in_flight i m.jobs ≡ false)
          × ((claim_job fresh i now m).1.jobs ≡ put fresh (new_job fresh i "running" now) m.jobs))
unfolding claim_job
claim_job_cases fresh i now m = ground arith

complete_job_cases :
    (job status message : String) (now : ℕ) (m : MemoryStore)
    → ((complete_job job status message now m).1.jobs ≡ m.jobs)
      ⊎ ((j : JobRecord) × ((complete_job job status message now m).1.jobs
            ≡ put job (record j { status = status; error = message; completed_at = now }) m.jobs))
unfolding complete_job
complete_job_cases job status message now m = elim (Option-cases (get job m.jobs)) [
  | inl e ↦ inl (rw (e, complete_job) refl)
  | inr (j, e) ↦ inr (j, rw (e, complete_job) refl)
]

pending_stopped : (fresh i : String) (now : ℕ) → is_running (new_job fresh i "pending" now) ≡ false
unfolding is_running new_job
pending_stopped fresh i now = refl

abbrev One : String → Map String JobRecord → Type 0
One id jobs = length (select (runs_for id) jobs) ≤ 1

not_running : (j : JobRecord) → j.status ≢ "running" → is_running j ≡ false
unfolding is_running
not_running j h = ground (arith, eq_iff j.status "running")

created-One :
    (id fresh i : String) (now : ℕ) (m : MemoryStore)
    → One id m.jobs
    → One id (create_job fresh i now m).1.jobs
unfolding create_job
created-One id fresh i now m one = omega (
  arith,
  one,
  put-stopped id fresh (new_job fresh i "pending" now) m.jobs (pending_stopped fresh i now),
)

recovered-One :
    (id : String) (now age : ℕ) (m : MemoryStore)
    → One id m.jobs
    → One id (recover_stuck_jobs now age m).1.jobs
unfolding recover_stuck_jobs
recovered-One id now age m one = omega (arith, one, fail_stuck-le id now (now - age) m.jobs)

call-One :
    (id : String) (c : Call) (m : MemoryStore)
    → Completes c
    → One id m.jobs
    → One id (call c m).jobs
unfolding call
call-One id (claims fresh i now) m p one = elim (claim_job_cases fresh i now m) [
  | inl same ↦ subst (One id) (sym same) one
  | inr (free, put') ↦ subst (One id) (sym put') (claimed-one id fresh i now m.jobs free one)
]
call-One id (creates fresh i now) m p one = created-One id fresh i now m one
call-One id (completes job status message now) m p one =
    elim (complete_job_cases job status message now m) [
      | inl same ↦ subst (One id) (sym same) one
      | inr (j, put') ↦
          let j' = record j { status = status; error = message; completed_at = now } in
          subst (One id) (sym put')
            (omega (arith, one, put-stopped id job j' m.jobs (not_running j' p)))
    ]
call-One id (recovers now age) m p one = recovered-One id now age m one

calls-One :
    (id : String) (cs : List Call) (m : MemoryStore)
    → All Completes cs
    → One id m.jobs
    → One id (calls cs m).jobs
unfolding calls
calls-One id [] m p one = one
calls-One id (c ∷ cs) m p one = calls-One id cs (call c m) p.1 (call-One id c m p.0 one)

-- From the empty store, whatever jobs are claimed, created, completed with another status than
-- that of a running job, and recovered: at most one job runs for each deliberation.
pub calls-one_running :
    (id : String) (cs : List Call)
    → All Completes cs
    → length (select (runs_for id) (calls cs new_memory_store).jobs) ≤ 1
unfolding new_memory_store
calls-one_running id cs p = calls-One id cs new_memory_store p (omega arith)

-- Jobs made by CreateJob.
unfoldable pub create_all : List (String × String × ℕ) → MemoryStore → MemoryStore
create_all [] m = m
create_all ((fresh, id, now) ∷ created) m = create_all created (create_job fresh id now m).1

none_stuck :
    (now cutoff : ℕ) (jobs : Map String JobRecord)
    → All (λ e. is_running e.1 ≡ false) jobs
    → fail_stuck now cutoff jobs ≡ (0, jobs)
unfolding fail_stuck
none_stuck now cutoff [] h = refl
none_stuck now cutoff ((k, j) ∷ jobs) h = ground (arith, none_stuck now cutoff jobs h.1)

put-All :
    (key : String) (j : JobRecord) (jobs : Map String JobRecord)
    → is_running j ≡ false
    → All (λ e. is_running e.1 ≡ false) jobs
    → All (λ e. is_running e.1 ≡ false) (put key j jobs)
put-All key j [] p h = (p, tt)
put-All key j ((i, w) ∷ jobs) p h = ground (arith, put-All key j jobs p h.1)

create_all-stopped :
    (created : List (String × String × ℕ)) (m : MemoryStore)
    → All (λ e. is_running e.1 ≡ false) m.jobs
    → All (λ e. is_running e.1 ≡ false) (create_all created m).jobs
unfolding create_all create_job
create_all-stopped [] m h = h
create_all-stopped ((fresh, id, now) ∷ created) m h =
    create_all-stopped created (create_job fresh id now m).1
      (put-All fresh (new_job fresh id "pending" now) m.jobs (pending_stopped fresh id now) h)

-- However long ago they were made, RecoverStuckJobs recovers no job that CreateJob made.
pub create_all-not_recovered :
    (created : List (String × String × ℕ)) (now age : ℕ)
    → recover_stuck_jobs now age (create_all created new_memory_store)
      ≡ (0, create_all created new_memory_store)
unfolding recover_stuck_jobs new_memory_store
create_all-not_recovered created now age =
    rw
      (none_stuck now (now - age) (create_all created new_memory_store).jobs
        (create_all-stopped created new_memory_store tt))
      refl

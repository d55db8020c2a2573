-- ===== src/Memory/Jobs.antt =====
-- internal/store/memory.go: the jobs of asynchronous analyses, the cache of model responses, and the
-- removal of old deliberations.
use gemot.Prelude.{
  ℕ, ◌+◌, ◌-◌, Bool, false, ◌&&◌, ◌||◌, none, some, List, [], ◌∷◌, Map, String, str_eq, string_key,
  get, put, delete, select, map, ltb, if◌then◌else◌,
}
use text.Mathlib.Text.{starts_with}
use gemot.Prelude.Outcomes.{ok, err}
use gemot.Memory.Records.{Deliberation}
use gemot.Memory.State.{MemoryStore, JobRecord, LlmCacheEntry, Method, job_not_found}
use gemot.Memory.Analyses.{changed_at}

unfoldable pub is_running : JobRecord → Bool
is_running j = str_eq j.status "running"

-- A job of the deliberation is running.
unfoldable pub in_flight : String → Map String JobRecord → Bool
unfolding is_running
in_flight id [] = false
in_flight id ((_, j) ∷ jobs) = (str_eq j.deliberation_id id && is_running j) || in_flight id jobs

unfoldable pub new_job : String → String → String → ℕ → JobRecord
new_job fresh id status now = record {
  id = fresh;
  deliberation_id = id;
  status = status;
  error = "";
  created_at = now;
  started_at = now;
  completed_at = 0;
}

-- The id of the new job, or the empty text.
unfoldable pub claim_job : String → String → ℕ → MemoryStore → String × MemoryStore
unfolding in_flight new_job
claim_job fresh id now m =
    if in_flight id m.jobs
    then ("", m)
    else (fresh, record m { jobs = put fresh (new_job fresh id "running" now) m.jobs })

unfoldable pub create_job : String → String → ℕ → MemoryStore → String × MemoryStore
unfolding new_job
create_job fresh id now m =
    (fresh, record m { jobs = put fresh (new_job fresh id "pending" now) m.jobs })

unfoldable pub complete_job : String → String → String → ℕ → MemoryStore → Method (Unit {0})
complete_job job status message now m = elim (get job m.jobs) [
  | none ↦ (err job_not_found, m)
  | some j ↦
      let j' = record j { status = status; error = message; completed_at = now } in
      (ok tt, record m { jobs = put job j' m.jobs })
]

unfoldable pub get_pending_jobs : MemoryStore → List String
unfolding is_running
get_pending_jobs m = map (λ j. j.deliberation_id) (select is_running m.jobs)

-- The loop of RecoverStuckJobs over the pointers to the jobs. As for analyses, a cutoff before the
-- zero time may be 0.
unfoldable pub fail_stuck : ℕ → ℕ → Map String JobRecord → ℕ × Map String JobRecord
unfolding is_running
fail_stuck now cutoff [] = (0, [])
fail_stuck now cutoff ((key, j) ∷ jobs) =
    let rest = fail_stuck now cutoff jobs in
    let j' = record j { status = "failed"; error = "stuck — recovered"; completed_at = now } in
    if is_running j && ltb j.started_at cutoff
    then (rest.0 + 1, (key, j') ∷ rest.1)
    else (rest.0, (key, j) ∷ rest.1)

unfoldable pub recover_stuck_jobs : ℕ → ℕ → MemoryStore → ℕ × MemoryStore
unfolding fail_stuck
recover_stuck_jobs now max_age m =
    let done = fail_stuck now (now - max_age) m.jobs in (done.0, record m { jobs = done.1 })

-- An age of 0 is no limit. The clock never goes back behind an entry.
unfoldable pub cache_get : String → ℕ → ℕ → MemoryStore → String
cache_get key max_age now m = elim (get key m.llm_cache) [
  | none ↦ ""
  | some e ↦ if ltb 0 max_age && ltb max_age (now - e.created_at) then "" else e.response
]

unfoldable pub cache_put : String → String → String → ℕ → MemoryStore → MemoryStore
cache_put key response model now m =
    let e : LlmCacheEntry = record { response = response; model = model; created_at = now } in
    record m { llm_cache = put key e m.llm_cache }

unfoldable pub is_sandbox : Deliberation → Bool
is_sandbox d = starts_with d.creator_key "sbx:"

unfoldable pub drop_deliberation : String → MemoryStore → MemoryStore
drop_deliberation id m = record m {
  deliberations = delete id m.deliberations;
  status_changed = delete id m.status_changed;
}

-- The loop over the deliberations, of which it deletes the sandboxed ones created before the cutoff.
unfoldable pub delete_sandboxes : ℕ → Map String Deliberation → MemoryStore → ℕ × MemoryStore
unfolding is_sandbox drop_deliberation
delete_sandboxes cutoff [] m = (0, m)
delete_sandboxes cutoff ((id, d) ∷ ds) m =
    let old = is_sandbox d && ltb d.created_at cutoff in
    let rest = delete_sandboxes cutoff ds (if old then drop_deliberation id m else m) in
    (if old then rest.0 + 1 else rest.0, rest.1)

unfoldable pub delete_expired_sandbox_deliberations : ℕ → ℕ → MemoryStore → ℕ × MemoryStore
unfolding delete_sandboxes
delete_expired_sandbox_deliberations now max_age m =
    delete_sandboxes (now - max_age) m.deliberations m

unfoldable pub drop_with_acl : String → MemoryStore → MemoryStore
unfolding drop_deliberation
drop_with_acl id m = record (drop_deliberation id m) { acl = delete id m.acl }

unfoldable pub purge_deleted : ℕ → Map String Deliberation → MemoryStore → ℕ × MemoryStore
unfolding drop_with_acl changed_at
purge_deleted cutoff [] m = (0, m)
purge_deleted cutoff ((id, d) ∷ ds) m =
    let gone = str_eq d.status "deleted" && ltb (changed_at id m) cutoff in
    let rest = purge_deleted cutoff ds (if gone then drop_with_acl id m else m) in
    (if gone then rest.0 + 1 else rest.0, rest.1)

unfoldable pub purge_soft_deleted : ℕ → ℕ → MemoryStore → ℕ × MemoryStore
unfolding purge_deleted
purge_soft_deleted now max_age m = purge_deleted (now - max_age) m.deliberations m

-- ===== src/Memory/Analyses.antt =====
-- internal/store/memory.go: the results of the analyses by round, and the analyses that hang.
use gemot.Prelude.{
  ℕ, ◌+◌, ◌-◌, Bool, ◌&&◌, Option, none, some, List, [], ◌∷◌, Map, String, str_eq, string_key,
  nat_key, get, put, map, ltb, if◌then◌else◌,
}
use gemot.Prelude.Sorting.{sort_by}
use gemot.Memory.Records.{Deliberation}
use gemot.Memory.State.{MemoryStore}

-- m.analyses[id], where a missing map is empty.
unfoldable pub rounds_of : String → MemoryStore → Map ℕ String
rounds_of id m = elim (get id m.analyses) [ none ↦ [] | some rounds ↦ rounds ]

unfoldable pub save_analysis_result : String → ℕ → String → MemoryStore → MemoryStore
unfolding rounds_of
save_analysis_result id round result m = record m {
  analyses = put id (put round result (rounds_of id m)) m.analyses;
}

unfoldable pub get_analysis_result : String → ℕ → MemoryStore → Option String
unfolding rounds_of
get_analysis_result id round m = get round (rounds_of id m)

-- The loop that looks for the last round. Rounds are never negative, so 0 does for Go's -1.
unfoldable pub max_round : ℕ → Map ℕ String → ℕ
max_round most [] = most
max_round most ((r, _) ∷ rounds) = max_round (if ltb most r then r else most) rounds

unfoldable pub get_latest_analysis_result : String → MemoryStore → Option String
unfolding rounds_of max_round
get_latest_analysis_result id m = get (max_round 0 (rounds_of id m)) (rounds_of id m)

-- *rounds[k] for the keys in order.
unfoldable pub results_at : List ℕ → Map ℕ String → List String
results_at [] rounds = []
results_at (k ∷ ks) rounds =
    let rest = results_at ks rounds in
    elim (get k rounds) [ none ↦ rest | some result ↦ result ∷ rest ]

unfoldable pub get_all_analysis_results : String → MemoryStore → List String
unfolding rounds_of results_at sort_by
get_all_analysis_results id m =
    results_at (sort_by ltb (map (λ e. e.0) (rounds_of id m))) (rounds_of id m)

-- m.statusChanged[id], the zero time where it is missing.
unfoldable pub changed_at : String → MemoryStore → ℕ
changed_at id m = elim (get id m.status_changed) [ none ↦ 0 | some t ↦ t ]

-- d.Status == "analyzing" and its last change lies before the cutoff. No time is negative, so a
-- cutoff before the zero time lets nothing through, as 0 does.
unfoldable pub is_stuck : ℕ → MemoryStore → String → Deliberation → Bool
unfolding changed_at
is_stuck cutoff m id d = str_eq d.status "analyzing" && ltb (changed_at id m) cutoff

unfoldable pub stuck_ids : ℕ → MemoryStore → Map String Deliberation → List String
unfolding is_stuck
stuck_ids cutoff m [] = []
stuck_ids cutoff m ((id, d) ∷ ds) =
    let rest = stuck_ids cutoff m ds in if is_stuck cutoff m id d then id ∷ rest else rest

unfoldable pub get_stuck_analyzing : ℕ → ℕ → MemoryStore → List String
unfolding stuck_ids
get_stuck_analyzing now max_age m = stuck_ids (now - max_age) m m.deliberations

-- The loop of RecoverStuckAnalyzing: each deliberation that hangs is written once.
unfoldable pub reopen : ℕ → ℕ → Map String Deliberation → MemoryStore → ℕ × MemoryStore
unfolding is_stuck
reopen now cutoff [] m = (0, m)
reopen now cutoff ((id, d) ∷ ds) m =
    let stuck = is_stuck cutoff m id d in
    let m' = record m {
      deliberations = put id (record d { status = "open"; sub_status = "" }) m.deliberations;
      status_changed = put id now m.status_changed;
    } in
    let rest = reopen now cutoff ds (if stuck then m' else m) in
    (if stuck then rest.0 + 1 else rest.0, rest.1)

unfoldable pub recover_stuck_analyzing : ℕ → ℕ → MemoryStore → ℕ × MemoryStore
unfolding reopen
recover_stuck_analyzing now max_age m = reopen now (now - max_age) m.deliberations m

-- ===== src/Memory/Starts.antt =====
-- internal/store/memory.go: how often an analysis of a deliberation is started.
use gemot.Prelude.{
  ℕ, ◌+◌, ◌≤◌, ◌≡◌, inl, inr, refl, Bool, false, ◌&&◌, none, some, List, [], ◌∷◌, String, str_eq,
  string_key, get, get-put, if◌then◌else◌, arith, Option-cases,
}
use text.Mathlib.TextEquality.{eq_iff}
use gemot.Prelude.Outcomes.{Outcome, ok, err, panic}
use gemot.Memory.Records.{Deliberation}
use gemot.Memory.State.{MemoryStore, Error, or_default}
use gemot.Memory.Deliberations.{
  on_deliberation, complete, try_set_analyzing, update_deliberation_status, advance_round,
  delete_deliberation, create_deliberation,
}
use gemot.Memory.Analyses.{recover_stuck_analyzing}

-- 1 for a call that wins.
abbrev pub wins : Outcome Error Bool → ℕ
wins (ok b) = if b then 1 else 0
wins (err e) = 0
wins panic = 0

-- The calls of the store that write a deliberation's status, with the identifiers and the times.
pub data StatusCall : Type 0 where
  starts : String → ℕ → StatusCall
  updates : String → String → ℕ → StatusCall
  advances : String → ℕ → StatusCall
  deletes : String → ℕ → StatusCall
  creates : String → ℕ → Deliberation → StatusCall
  recovers : ℕ → ℕ → StatusCall

unfoldable pub status_call : StatusCall → MemoryStore → MemoryStore
status_call (starts i now) m = (try_set_analyzing i now m).1
status_call (updates i status now) m = (update_deliberation_status i status now m).1
status_call (advances i now) m = (advance_round i now m).1
status_call (deletes i now) m = (delete_deliberation i now m).1
status_call (creates fresh now d) m = (create_deliberation fresh now d m).1
status_call (recovers now age) m = (recover_stuck_analyzing now age m).1

-- 1 for a call that starts an analysis of the deliberation.
unfoldable pub starting : String → StatusCall → MemoryStore → ℕ
starting id (starts i now) m = if str_eq i id then wins (try_set_analyzing i now m).0 else 0
starting id _ m = 0

-- 1 for a call that may give the deliberation the status "open", as a recovery may.
unfoldable pub opening : String → StatusCall → ℕ
opening id (updates i status now) = if str_eq i id && str_eq status "open" then 1 else 0
opening id (advances i now) = if str_eq i id then 1 else 0
opening id (creates fresh now d) =
    if str_eq (or_default fresh d.id) id && str_eq d.status "open" then 1 else 0
opening id (recovers now age) = 1
opening id _ = 0

unfoldable pub started : String → List StatusCall → MemoryStore → ℕ
unfolding starting status_call
started id [] m = 0
started id (c ∷ cs) m = starting id c m + started id cs (status_call c m)

unfoldable pub openings : String → List StatusCall → ℕ
unfolding opening
openings id [] = 0
openings id (c ∷ cs) = opening id c + openings id cs

-- 1 if the deliberation is open.
unfoldable pub startable : String → MemoryStore → ℕ
startable id m = elim (get id m.deliberations) [
  | none ↦ 0
  | some d ↦ if str_eq d.status "open" then 1 else 0
]

startable-le_one : (id : String) (m : MemoryStore) → startable id m ≤ 1
unfolding startable
startable-le_one id m = ground arith

start-startable :
    (id i : String) (now : ℕ) (m : MemoryStore)
    → (if str_eq i id then wins (try_set_analyzing i now m).0 else 0)
        + startable id (try_set_analyzing i now m).1
      ≡ startable id m
unfolding try_set_analyzing startable
start-startable id i now m = elim (Option-cases (get i m.deliberations)) [
  | inl e ↦ rw (e, try_set_analyzing, on_deliberation) (ground (arith, eq_iff i id))
  | inr (d, e) ↦
      rw (e, try_set_analyzing, on_deliberation)
        (ground (
          arith,
          eq_iff i id,
          analyzing_is_not_open,
          get-put i id (record d { status = "analyzing" }) m.deliberations,
        ))
]
  where
    analyzing_is_not_open : str_eq "analyzing" "open" ≡ false
    analyzing_is_not_open = refl

set-startable :
    (id i status : String) (now : ℕ) (m : MemoryStore)
    → startable id (update_deliberation_status i status now m).1
      ≤ startable id m + (if str_eq i id && str_eq status "open" then 1 else 0)
unfolding update_deliberation_status startable
set-startable id i status now m = elim (Option-cases (get i m.deliberations)) [
  | inl e ↦ rw (e, update_deliberation_status, on_deliberation) (ground (arith, eq_iff i id))
  | inr (d, e) ↦
      rw (e, update_deliberation_status, on_deliberation)
        (ground (arith, eq_iff i id, get-put i id (record d { status = status }) m.deliberations))
]

advanced-startable :
    (id i : String) (now : ℕ) (m : MemoryStore)
    → startable id (advance_round i now m).1 ≤ startable id m + (if str_eq i id then 1 else 0)
unfolding advance_round startable
advanced-startable id i now m = elim (Option-cases (get i m.deliberations)) [
  | inl e ↦ rw (e, advance_round, on_deliberation) (ground (arith, eq_iff i id))
  | inr (d, e) ↦
      rw (e, advance_round, on_deliberation)
        (ground (
          arith,
          eq_iff i id,
          get-put i id (record d { round = d.round + 1; status = "open"; sub_status = "" })
              m.deliberations,
        ))
]

deleted-startable :
    (id i : String) (now : ℕ) (m : MemoryStore)
    → startable id (delete_deliberation i now m).1 ≤ startable id m
unfolding delete_deliberation startable
deleted-startable id i now m = elim (Option-cases (get i m.deliberations)) [
  | inl e ↦ rw (e, delete_deliberation, on_deliberation) (ground (arith, eq_iff i id))
  | inr (d, e) ↦
      rw (e, delete_deliberation, on_deliberation)
        (ground (
          arith,
          eq_iff i id,
          deleted_is_not_open,
          get-put i id (record d { status = "deleted" }) m.deliberations,
        ))
]
  where
    deleted_is_not_open : str_eq "deleted" "open" ≡ false
    deleted_is_not_open = refl

created-startable :
    (id fresh : String) (now : ℕ) (d : Deliberation) (m : MemoryStore)
    → startable id (create_deliberation fresh now d m).1
      ≤ startable id m
        + (if str_eq (or_default fresh d.id) id && str_eq d.status "open" then 1 else 0)
unfolding create_deliberation startable
created-startable id fresh now d m =
    let d' = complete fresh now d in
    elim (Option-cases (get d'.id m.deliberations)) [
      | inl e ↦
          rw (e, create_deliberation)
            (ground (arith, eq_iff d'.id id, get-put d'.id id d' m.deliberations))
      | inr (old, e) ↦ rw (e, create_deliberation) (ground arith)
    ]

call-startable :
    (id : String) (c : StatusCall) (m : MemoryStore)
    → starting id c m + startable id (status_call c m) ≤ startable id m + opening id c
unfolding starting status_call opening
call-startable id (starts i now) m = omega (arith, start-startable id i now m)
call-startable id (updates i status now) m = omega (arith, set-startable id i status now m)
call-startable id (advances i now) m = omega (arith, advanced-startable id i now m)
call-startable id (deletes i now) m = omega (arith, deleted-startable id i now m)
call-startable id (recovers now age) m =
    omega (arith, startable-le_one id (recover_stuck_analyzing now age m).1)
call-startable id (creates fresh now d) m = omega (arith, created-startable id fresh now d m)

-- Over any calls of the store that write the status of deliberations, no more analyses of a
-- deliberation are started than it is open at first, once or not at all, and opened by the calls,
-- where each recovery of stuck analyses counts as one.
pub started-le-startable :
    (id : String) (cs : List StatusCall) (m : MemoryStore)
    → started id cs m ≤ startable id m + openings id cs
unfolding started openings
started-le-startable id [] m = omega arith
started-le-startable id (c ∷ cs) m =
    omega (arith, call-startable id c m, started-le-startable id cs (status_call c m))

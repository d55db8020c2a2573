-- ===== src/Deliberation/Recovery/Reopened.antt =====
-- What RecoverStuck does to each deliberation.
use gemot.Prelude.{
  ℕ, ◌-◌, ◌≡◌, refl, inl, inr, false, none, some, [], ◌∷◌, Map, String, string_key, get, get-put,
  put, if◌then◌else◌, arith, Bool-cases, List-cases,
}
use gemot.Prelude.Unique.{Unique}
use gemot.Memory.Records.{Deliberation}
use gemot.Memory.State.{MemoryStore}
use gemot.Memory.Analyses.{
  changed_at, is_stuck, stuck_ids, get_stuck_analyzing, reopen, recover_stuck_analyzing,
}
use gemot.Deliberation.Service.{Service}
use gemot.Deliberation.Recovery.{stuck_age, recover_stuck}

abbrev pub reopened : Deliberation → Deliberation
reopened d = record d { status = "open"; sub_status = "" }

-- What becomes of a deliberation: reopened if it hung, else as it was.
abbrev pub recovered : ℕ → MemoryStore → String → Deliberation → Deliberation
recovered cutoff m id d = if is_stuck cutoff m id d then reopened d else d

reopen-get :
    (now cutoff : ℕ) (ds : Map String Deliberation) (m : MemoryStore) (id : String)
    → Unique ds
    → get id (reopen now cutoff ds m).1.deliberations ≡ elim (get id ds) [
      | none ↦ get id m.deliberations
      | some d ↦ if is_stuck cutoff m id d then some (reopened d) else get id m.deliberations
    ]
unfolding reopen is_stuck changed_at
reopen-get now cutoff [] m id u = refl
reopen-get now cutoff ((j, w) ∷ ds) m id u = elim (Bool-cases (is_stuck cutoff m j w)) [
  | inr fine ↦ ground (arith, string_key.same_iff j id, reopen-get now cutoff ds m id u.1)
  | inl stuck ↦
      let m' : MemoryStore = record m {
        deliberations = put j (reopened w) m.deliberations;
        status_changed = put j now m.status_changed;
      } in
      ground (
        arith,
        string_key.same_iff j id,
        reopen-get now cutoff ds m' id u.1,
        get-put j id (reopened w) m.deliberations,
        get-put j id now m.status_changed,
      )
]

stuck_ids-none :
    (cutoff : ℕ) (m : MemoryStore) (ds : Map String Deliberation) (id : String) (d : Deliberation)
    → stuck_ids cutoff m ds ≡ []
    → get id ds ≡ some d
    → is_stuck cutoff m id d ≡ false
unfolding stuck_ids
stuck_ids-none cutoff m [] id d none' found = cc
stuck_ids-none cutoff m ((j, w) ∷ ds) id d none' found =
    ground (arith, string_key.same_iff j id, stuck_ids-none cutoff m ds id d)

-- Where no id stands twice, after RecoverStuck every deliberation that had been analyzing for more
-- than 30 minutes is open with an empty sub-status, and every other one is as it was.
pub recover_stuck-get :
    {L : Type 0} (now : ℕ) (s : Service L) (id : String) (d : Deliberation)
    → Unique s.store.deliberations
    → get id s.store.deliberations ≡ some d
    → get id (recover_stuck now s).1.store.deliberations
      ≡ some (recovered (now - stuck_age) s.store id d)
unfolding recover_stuck get_stuck_analyzing recover_stuck_analyzing
recover_stuck-get now s id d u found =
    elim (List-cases (stuck_ids (now - stuck_age) s.store s.store.deliberations)) [
      | inl none' ↦
          ground (arith, stuck_ids-none (now - stuck_age) s.store s.store.deliberations id d)
      | inr (i, rest, some') ↦
          ground (arith, reopen-get now (now - stuck_age) s.store.deliberations s.store id u)
    ]

-- ===== src/Deliberation/Recovery.antt =====
-- internal/deliberation/service.go: an analysis that is cancelled or hangs. The functions that cancel
-- the goroutine of an analysis are left out; times are counted in nanoseconds.
pub mod Reopened
mod Examples
use gemot.Prelude.{ℕ, not, [], ◌∷◌, String, str_eq, if◌then◌else◌}
use gemot.Prelude.Outcomes.{ok}
use gemot.Memory.Deliberations.{update_deliberation_status}
use gemot.Memory.Analyses.{get_stuck_analyzing, recover_stuck_analyzing}
use gemot.Deliberation.Service.{
  M, refuse_if, writes, emit, deliberation_of, ◌>>=◌, ◌>>◌, not_analyzing,
}

-- 30 * time.Minute
abbrev pub stuck_age : ℕ
stuck_age = 1800000000000

module _ {L : Type 0} where
  -- A failure is only logged.
  unfoldable pub reset_analyzing_status : ℕ → String → M L (Unit {0})
  unfolding update_deliberation_status
  reset_analyzing_status now id s =
      (ok tt, record s { store = (update_deliberation_status id "open" now s.store).1 })

  unfoldable pub cancel_analysis : ℕ → String → M L (Unit {0})
  unfolding deliberation_of update_deliberation_status emit
  cancel_analysis now id = deliberation_of id >>= λ d.
      refuse_if (not (str_eq d.status "analyzing")) not_analyzing
      >> writes (update_deliberation_status id "open" now)
      >> emit "analysis_cancelled" id "" ""

  unfoldable pub recover_stuck : ℕ → M L ℕ
  unfolding get_stuck_analyzing recover_stuck_analyzing
  recover_stuck now s = elim (get_stuck_analyzing now stuck_age s.store) [
    | [] ↦ (ok 0, s)
    | _ ∷ _ ↦
        let r = recover_stuck_analyzing now stuck_age s.store in (ok r.0, record s { store = r.1 })
  ]

-- ===== src/Examples/Walks.antt =====
-- The walk's theorems on three steps.
use hoist.Prelude.{ℕ, ◌≡◌, refl, ◌⊎◌, List, [], ◌∷◌, none, some, codes, map, drop}
use hoist.Engine.StepName
use hoist.Engine.State.{cleanly_satisfied, satisfied_by, waiting_for, Env, Step}
use hoist.Engine.Landing.{with_landing_walk}
use hoist.Engine.Drive.{drive_status, probe_index, index_of, phase_index}
use hoist.Engine.Drive.Reports.{Reports, names_of, drive_status-Reports}
use hoist.Engine.Drive.Shortcut.{drive_status_skips_before_merge}
use hoist.Engine.Drive.Trace.{
  Justified, log_of, inner, traced, traced_save, traced_runtime, drive_status-Justified,
}
use hoist.Engine.Observe.{observe_all, status, zero_status}
use hoist.Engine.Observe.Agree.{Agrees, observe_all-status}
use hoist.Examples.Fixtures.{clock, promotion, start, fixed, writer, three_steps}

drive_status-Justified_example : Justified (
    log_of
      (drive_status
        (traced_runtime clock)
        (traced_save none)
        (map traced three_steps)
        (inner [] start)).1)
drive_status-Justified_example = drive_status-Justified clock none three_steps start

drive_status-Reports_example :
    Reports (names_of three_steps) (drive_status clock none three_steps start).0
    ⊎ ((m : ℕ) × (probe_index three_steps (codes "") ≡ some m)
        × Reports (names_of (drop m three_steps)) (drive_status clock none three_steps start).0)
drive_status-Reports_example = drive_status-Reports clock none three_steps start

observe_all-status_example :
    Agrees zero_status (observe_all clock three_steps start) (status clock three_steps start)
observe_all-status_example = observe_all-status clock three_steps start

abbrev merged_step : Step ℕ
merged_step = fixed StepName.merged (satisfied_by (codes "merged"))

abbrev after_merge : List (Step ℕ)
after_merge = fixed StepName.rolled_out (waiting_for (codes "pods")) ∷ []

abbrev late : Env ℕ
late = record start { state = record promotion { phase = StepName.rolled_out } }

drive_status_skips_before_merge_example :
    drive_status clock none (writer StepName.branched ∷ merged_step ∷ after_merge) late
    ≡ drive_status clock none
        (fixed StepName.branched (waiting_for (codes "gone")) ∷ merged_step ∷ after_merge)
        late
unfolding probe_index index_of phase_index cleanly_satisfied
drive_status_skips_before_merge_example =
    drive_status_skips_before_merge clock none (writer StepName.branched ∷ [])
      (fixed StepName.branched (waiting_for (codes "gone")) ∷ []) merged_step after_merge late
      (with_landing_walk late) (satisfied_by (codes "merged")) refl refl refl refl

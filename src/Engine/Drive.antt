-- ===== src/Engine/Drive.antt =====
-- internal/engine/engine.go: DriveStatus and Drive, the walk that observes each step and acts.
pub mod Reports
pub mod Shortcut
pub mod Invariant
pub mod Trace
pub mod Gated
pub mod Rounds
pub mod Quiet
use hoist.Prelude.{
  ℕ, suc, ◌+◌, Bool, true, false, not, ◌&&◌, List, [], ◌∷◌, ◌++◌, Option, none, some, Text, codes,
  text_eq, is_empty, drop, length, ltb, ◌==◌, if◌then◌else◌,
}
use hoist.Engine.StepName.{StepName}
use hoist.Engine.StepName
use hoist.Engine.Errors.{
  Err, observing, acting, wrapped, blocked_error, step_error, waiting, error_text, as_act_blocked,
  Result, ok, err,
}
use hoist.Engine.State.{
  Observation, satisfied_by, blocked_by, cleanly_satisfied, StepStatus, Env, Step, Runtime,
}
use hoist.Engine.History.{append_history}
use hoist.Engine.Landing.{with_landing_walk, probed_not_landed}

abbrev past : ℕ → Option ℕ → Bool
past m none = false
past m (some p) = ltb m p

module _ {W : Type 0} where
  -- The index of the first step of that name.
  unfoldable pub index_of : StepName → List (Step W) → Option ℕ
  index_of name [] = none
  index_of name (step ∷ steps) = elim (text_eq step.name name) [
    | true ↦ some 0
    | false ↦ elim (index_of name steps) [ none ↦ none | some i ↦ some (i + 1) ]
  ]

  -- phaseIndex: `none` is -1.
  unfoldable pub phase_index : List (Step W) → StepName → Option ℕ
  unfolding index_of
  phase_index steps phase = if is_empty phase then none else index_of phase steps

  abbrev pub set_phase : StepName → Env W → Env W
  set_phase name env = record env { state = record (env.state) { phase = name } }

-- What DriveStatus returns.
pub record Outcome : Type 0 where
  pub done : Bool
  pub statuses : List StepStatus
  pub failure : Option Err

abbrev pub prepend : StepStatus → Outcome → Outcome
prepend st o = record o { statuses = st ∷ o.statuses }

abbrev pub stopped : List StepStatus → Err → Outcome
stopped sts e = record { done = false; statuses = sts; failure = some e }

abbrev pub finished : Outcome
finished = record { done = true; statuses = []; failure = none }

-- How one step of the walk ends: the walk stops, or it goes on with the step's status.
pub data Verdict : Type 0 where
  stop : List StepStatus → Err → Verdict
  proceed : StepStatus → Verdict

module _ {W : Type 0} where
  abbrev pub add_status : StepStatus → Outcome × Env W → Outcome × Env W
  add_status st (o, env) = (prepend st o, env)

  abbrev pub follow : Verdict × Env W → (Env W → Outcome × Env W) → Outcome × Env W
  follow (stop sts e, env) rest = (stopped sts e, env)
  follow (proceed st, env) rest = add_status st (rest env)

  -- The index at which the merged step is probed before the loop: it is in the list and not
  -- last, and the recorded phase lies beyond it.
  unfoldable pub probe_index : List (Step W) → StepName → Option ℕ
  unfolding index_of phase_index
  probe_index steps phase = elim (index_of StepName.merged steps) [
    | none ↦ none
    | some m ↦
        if ltb (m + 1) (length steps) && past m (phase_index steps phase) then some m else none
  ]

  -- The observation of the probe stands for the step's own, at the probe's index.
  unfoldable pub observe_at :
      Option (ℕ × Observation) → ℕ → Step W → Env W → Result Observation × Env W
  observe_at none i step env = step.observe env
  observe_at (some (j, obs)) i step env = if i == j then (ok obs, env) else step.observe env

-- The save that DriveStatus is given; `none` is nil.
abbrev pub Save : Type 0 → Type 0
Save W = Option (Env W → Option Err × Env W)

module _ {W : Type 0} (rt : Runtime W) (save : Save W) where
  saved_or_logged : Option Err × Env W → Env W
  unfolding append_history
  saved_or_logged (none, env) = env
  saved_or_logged (some e, env) =
      append_history rt env.state.phase (codes "state save failed: " ++ error_text e) env

  -- saveIfSet.
  unfoldable pub save_if_set : Env W → Env W
  unfolding saved_or_logged
  save_if_set env = elim save [ none ↦ env | some f ↦ saved_or_logged (f env) ]

  -- A stop that is recorded: phase, history, save.
  unfoldable pub record_stop : StepName → Text → Env W → Env W
  unfolding save_if_set append_history
  record_stop name detail env = save_if_set (append_history rt name detail (set_phase name env))

  save_verdict : StepName → StepStatus → Option Err × Env W → Verdict × Env W
  save_verdict name st (none, env) = (proceed st, env)
  save_verdict name st (some e, env) =
      (stop (st ∷ []) (wrapped (name ++ codes ": saving state: ") e), env)

  -- The end of the loop's body: the step is satisfied, by what was there or by its own Act.
  unfoldable pub pass : StepName → Observation → Text → Env W → Verdict × Env W
  unfolding save_verdict append_history
  pass name obs detail env =
      let st : StepStatus = record { step = name; observation = obs } in
      let env' = set_phase name (append_history rt name detail env) in
      elim save [ none ↦ (proceed st, env') | some f ↦ save_verdict name st (f env') ]

  failed_act : StepName → Observation → Err → Env W → Verdict × Env W
  unfolding record_stop
  failed_act name obs e env = elim (as_act_blocked e) [
    | some reason ↦ (
      stop (record { step = name; observation = blocked_by reason } ∷ [])
          (blocked_error name reason),
      record_stop name (codes "blocked: " ++ reason) env,
    )
    | none ↦ (
      stop (record { step = name; observation = obs } ∷ []) (step_error name acting e),
      record_stop name (codes "act failed: " ++ error_text e) env,
    )
  ]

  acted_verdict : StepName → Observation → Option Err × Env W → Verdict × Env W
  unfolding failed_act pass
  acted_verdict name obs (some e, env) = failed_act name obs e env
  acted_verdict name obs (none, env) = pass name (satisfied_by (codes "acted")) (codes "acted") env

  -- The loop's body after Observe.
  unfoldable pub after_observe : Step W → Result Observation × Env W → Verdict × Env W
  unfolding acted_verdict record_stop pass
  after_observe step (err e, env) =
      (stop [] (step_error step.name observing e), set_phase step.name env)
  after_observe step (ok obs, env) =
      let st : StepStatus = record { step = step.name; observation = obs } in
      if not (is_empty obs.blocked)
      then (
        stop (st ∷ []) (blocked_error step.name obs.blocked),
        record_stop step.name (codes "blocked: " ++ obs.blocked) env,
      )
      else if obs.waiting
      then (stop (st ∷ []) waiting, record_stop step.name (codes "waiting: " ++ obs.detail) env)
      else if not obs.satisfied
      then acted_verdict step.name obs (step.act env)
      else pass step.name obs (codes "already satisfied: " ++ obs.detail) env

  -- One round of the loop.
  unfoldable pub drive_step : Option (ℕ × Observation) → ℕ → Step W → Env W → Verdict × Env W
  unfolding after_observe observe_at
  drive_step probed i step env = elim (rt.cancelled env.world) [
    | some e ↦ (stop [] e, env)
    | none ↦ after_observe step (observe_at probed i step env)
  ]

  -- The loop over the steps from index `i` on.
  unfoldable pub drive_from : Option (ℕ × Observation) → ℕ → List (Step W) → Env W → Outcome × Env W
  drive_from probed i [] env = (finished, env)
  drive_from probed i (step ∷ steps) env =
      follow (drive_step probed i step env) (λ env'. drive_from probed (i + 1) steps env')

  -- The probe's answer: where the loop starts, with what statuses, and what it may reuse.
  after_probe : List (Step W) → ℕ → StepName → Result Observation × Env W → Outcome × Env W
  after_probe steps m name (err e, env) = drive_from none 0 steps (probed_not_landed (some e) env)
  after_probe steps m name (ok obs, env) =
      if cleanly_satisfied obs
      then add_status (record { step = name; observation = obs })
          (drive_from (some (m, obs)) (m + 1) (drop (suc m) steps) env)
      else drive_from (some (m, obs)) 0 steps (probed_not_landed none env)

  probe_at : List (Step W) → ℕ → List (Step W) → Env W → Outcome × Env W
  unfolding after_probe
  probe_at steps m [] env = drive_from none 0 steps env
  probe_at steps m (merged ∷ _) env = after_probe steps m merged.name (merged.observe env)

  -- DriveStatus.
  unfoldable pub drive_status : List (Step W) → Env W → Outcome × Env W
  unfolding probe_index probe_at drive_from with_landing_walk
  drive_status steps env = elim (probe_index steps env.state.phase) [
    | none ↦ drive_from none 0 steps (with_landing_walk env)
    | some m ↦ probe_at steps m (drop m steps) (with_landing_walk env)
  ]

  -- Drive.
  unfoldable pub drive : List (Step W) → Env W → Option Err × Env W
  unfolding drive_status
  drive steps env = let (o, env') = drive_status steps env in (o.failure, env')

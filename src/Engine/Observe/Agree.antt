-- ===== src/Engine/Observe/Agree.antt =====
-- ObserveAll and Status make the same walk.
use hoist.Prelude.{
  ℕ, suc, ◌+◌, ◌≡◌, refl, inl, inr, List, [], ◌∷◌, ◌++◌, ap, codes, Option, none, some, Text,
  append_assoc, Option-cases, if_both, if◌then◌else◌, drop, length, ◌==◌,
}
use hoist.Engine.StepName.{StepName}
use hoist.Engine.Errors.{Err, error_text, wrapped, step_error, observing, Result, ok, err}
use hoist.Engine.State.{StepStatus, Observation, cleanly_satisfied, Env, Step, Runtime}
use hoist.Engine.Drive.{Outcome, observe_at, phase_index}
use hoist.Engine.StepName
use hoist.Engine.Landing.{with_landing_walk, probed_not_landed}
use hoist.Engine.Observe.{
  Survey, Probe, zero_status, no_probe, reused_probe, failed_probe, stop_at, observe_from,
  status_from, survey_step, status_step, after_probe, status_after_probe, probe_at, status_probe_at,
  observe_all, status,
}

abbrev pub message : Option Err → Option Text
message none = none
message (some e) = some (error_text e)

-- The last status of a walk, `d` if there is none.
abbrev pub last_or : StepStatus → List StepStatus → StepStatus
last_or d [] = d
last_or d (st ∷ sts) = last_or st sts

-- What ObserveAll returned is what Status returned: done, the final state of everything, the
-- message of the failure, and with no failure the last status.
abbrev pub Agrees : {W : Type 0} → StepStatus → Survey × Env W → Outcome × Env W → Type 0
Agrees d s o =
    (s.0.done ≡ o.0.done)
    × (s.1 ≡ o.1)
    × (message s.0.failure ≡ message o.0.failure)
    × (s.0.failure ≡ none → s.0.last ≡ last_or d o.0.statuses)

module _ {W : Type 0} (rt : Runtime W) where
  failure_text :
      (name : StepName) (e : Err)
      → error_text (wrapped (name ++ codes ": observe: ") e)
        ≡ error_text (step_error name observing e)
  unfolding error_text
  failure_text name e = append_assoc name (codes ": observe: ") (error_text e)

  survey_step-Agrees :
      (p : Probe) (i : ℕ) (name : StepName) (r : Result Observation × Env W) (d : StepStatus)
      (f : StepStatus → Env W → Survey × Env W) (g : Env W → Outcome × Env W)
      → ((st : StepStatus) (env : Env W) → Agrees st (f st env) (g env))
      → Agrees d (survey_step rt p i name r f) (status_step rt p i name r g)
  unfolding survey_step status_step
  survey_step-Agrees p i name (err e, env) d f g h =
      (refl, refl, ap some (failure_text name e), λ e. cc)
  survey_step-Agrees p i name (ok obs, env) d f g h = elim (Option-cases (stop_at p i obs)) [
    | inl go ↦ rw (go, survey_step, status_step) (h _ env)
    | inr (none, halt) ↦ rw (halt, survey_step, status_step) (refl, refl, refl, λ _. refl)
    | inr (some e, halt) ↦
        rw (halt, survey_step, status_step) (refl, refl, ap some (failure_text p.name e), λ e. cc)
  ]

  observe_from-Agrees :
      (p : Probe) (i : ℕ) (steps : List (Step W)) (d : StepStatus) (env : Env W)
      → Agrees d (observe_from rt p i steps d env) (status_from rt p i steps env)
  unfolding observe_from status_from
  observe_from-Agrees p i [] d env = (refl, refl, refl, λ _. refl)
  observe_from-Agrees p i (step ∷ steps) d env = elim (Option-cases (rt.cancelled env.world)) [
    | inl live ↦
        rw (live, observe_from, status_from)
          (survey_step-Agrees p i step.name (observe_at p.reuse i step env) d _ _
            (λ st env'. observe_from-Agrees p (i + 1) steps st env'))
    | inr (e, over) ↦ rw (over, observe_from, status_from) (refl, refl, refl, λ e. cc)
  ]

  after_probe-Agrees :
      (steps : List (Step W)) (m : ℕ) (name : StepName) (r : Result Observation × Env W)
      → Agrees zero_status (after_probe rt steps m name r) (status_after_probe rt steps m name r)
  unfolding after_probe status_after_probe
  after_probe-Agrees steps m name (err e, env) =
      observe_from-Agrees (failed_probe steps m name e) 0 steps zero_status
        (probed_not_landed (some e) env)
  after_probe-Agrees steps m name (ok obs, env) =
      let env' : Env W = if cleanly_satisfied obs then env else probed_not_landed none env in
      if_both (Agrees zero_status) obs.satisfied
        (if_both (Agrees zero_status) (m + 1 == length steps) (refl, refl, refl, λ _. refl)
          (observe_from-Agrees no_probe (m + 1) (drop (suc m) steps) _ env'))
        (observe_from-Agrees (reused_probe m obs) 0 steps zero_status env')

  probe_at-Agrees :
      (steps : List (Step W)) (m : ℕ) (rest : List (Step W)) (env : Env W)
      → Agrees zero_status (probe_at rt steps m rest env) (status_probe_at rt steps m rest env)
  unfolding probe_at status_probe_at
  probe_at-Agrees steps m [] env = observe_from-Agrees no_probe 0 steps zero_status env
  probe_at-Agrees steps m (merged ∷ _) env =
      after_probe-Agrees steps m merged.name (merged.observe env)

  -- ObserveAll and Status make the same walk, from every state and whatever the steps answer: they
  -- agree on done, leave the same world and state, fail with the same message, and without a
  -- failure ObserveAll's status is the last of Status's (the zero status if there is none).
  pub observe_all-status :
      (steps : List (Step W)) (env : Env W)
      → Agrees zero_status (observe_all rt steps env) (status rt steps env)
  unfolding observe_all status
  observe_all-status steps env = elim (Option-cases (phase_index steps StepName.merged)) [
    | inl e ↦
        rw (e, observe_all, status)
          (observe_from-Agrees no_probe 0 steps zero_status (with_landing_walk env))
    | inr (m, e) ↦
        rw (e, observe_all, status) (probe_at-Agrees steps m (drop m steps) (with_landing_walk env))
  ]

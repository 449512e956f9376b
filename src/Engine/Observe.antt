-- ===== src/Engine/Observe.antt =====
-- internal/engine/engine.go: ObserveAll and Status, the walks that observe and never act.
pub mod Agree
use hoist.Prelude.{
  ℕ, suc, ◌+◌, Bool, true, false, not, ◌||◌, List, [], ◌∷◌, ◌++◌, Option, none, some, codes,
  is_empty, drop, length, ltb, ◌==◌, if◌then◌else◌,
}
use hoist.Engine.StepName.{StepName}
use hoist.Engine.StepName
use hoist.Engine.Errors.{Err, observing, wrapped, step_error, Result, ok, err}
use hoist.Engine.State.{
  Observation, zero_observation, cleanly_satisfied, StepStatus, Env, Step, Runtime,
}
use hoist.Engine.Landing.{with_landing_walk, probed_not_landed}
use hoist.Engine.Drive.{Outcome, prepend, add_status, phase_index, observe_at}

-- What ObserveAll returns.
pub record Survey : Type 0 where
  pub done : Bool
  pub last : StepStatus
  pub failure : Option Err

abbrev pub zero_status : StepStatus
zero_status = record { step = codes ""; observation = zero_observation }

-- What the loops are given of the probe of the merged step: an observation to reuse at its index,
-- the failure of the lookup, the step's name, and the indices of PROpened and of that step.
pub record Probe : Type 0 where
  pub reuse : Option (ℕ × Observation)
  pub failure : Option Err
  pub name : StepName
  pub pr_opened : Option ℕ
  pub merged : Option ℕ

abbrev before : ℕ → Option ℕ → Bool
before i none = false
before i (some k) = ltb i k

-- Before its index, a stop is reported as the failure of the probe.
abbrev hidden_by : ℕ → Option ℕ → Option Err → Option Err
hidden_by i limit none = none
hidden_by i limit (some e) = if before i limit then some e else none

-- Whether the loop stops at this observation, and with which error of the probe.
unfoldable pub stop_at : Probe → ℕ → Observation → Option (Option Err)
stop_at p i obs =
    if not (is_empty obs.blocked) || obs.waiting
    then some (hidden_by i p.pr_opened p.failure)
    else if not obs.satisfied
    then some (hidden_by i p.merged p.failure)
    else none

-- The walk without a probe, with one whose observation is reused, and with one that failed.
abbrev no_probe : Probe
no_probe = record { reuse = none; failure = none; name = codes ""; pr_opened = none; merged = none }

abbrev reused_probe : ℕ → Observation → Probe
reused_probe m obs = record no_probe { reuse = some (m, obs); merged = some m }

abbrev failed_probe : {W : Type 0} → List (Step W) → ℕ → StepName → Err → Probe
failed_probe steps m name e = record {
  reuse = none;
  failure = some e;
  name = name;
  pr_opened = phase_index steps StepName.pr_opened;
  merged = some m;
}

module _ {W : Type 0} (rt : Runtime W) where
  observe_failure : StepName → Err → Survey
  observe_failure name e = record {
    done = false;
    last = record { step = name; observation = zero_observation };
    failure = some (wrapped (name ++ codes ": observe: ") e);
  }

  end_survey : Probe → StepStatus → Option Err → Survey
  unfolding observe_failure
  end_survey p st none = record { done = false; last = st; failure = none }
  end_survey p st (some e) = observe_failure p.name e

  survey_step :
      Probe
      → ℕ
      → StepName
      → Result Observation × Env W
      → (StepStatus → Env W → Survey × Env W)
      → Survey × Env W
  unfolding stop_at end_survey observe_failure
  survey_step p i name (err e, env) rest = (observe_failure name e, env)
  survey_step p i name (ok obs, env) rest =
      let st : StepStatus = record { step = name; observation = obs } in
      elim (stop_at p i obs) [ some e ↦ (end_survey p st e, env) | none ↦ rest st env ]

  -- The loop of ObserveAll; `last` is the status of the step before.
  unfoldable pub observe_from : Probe → ℕ → List (Step W) → StepStatus → Env W → Survey × Env W
  unfolding survey_step observe_at
  observe_from p i [] last env = (record { done = true; last = last; failure = none }, env)
  observe_from p i (step ∷ steps) last env = elim (rt.cancelled env.world) [
    | some e ↦ (record { done = false; last = last; failure = some e }, env)
    | none ↦
        survey_step p i step.name (observe_at p.reuse i step env)
          (λ st env'. observe_from p (i + 1) steps st env')
  ]

  unreported : StepName → Err → Outcome
  unreported name e = record {
    done = false;
    statuses = [];
    failure = some (step_error name observing e);
  }

  end_status : Probe → StepStatus → Option Err → Outcome
  unfolding unreported
  end_status p st none = record { done = false; statuses = st ∷ []; failure = none }
  end_status p st (some e) = prepend st (unreported p.name e)

  status_step :
      Probe
      → ℕ
      → StepName
      → Result Observation × Env W
      → (Env W → Outcome × Env W)
      → Outcome × Env W
  unfolding stop_at end_status unreported
  status_step p i name (err e, env) rest = (unreported name e, env)
  status_step p i name (ok obs, env) rest =
      let st : StepStatus = record { step = name; observation = obs } in
      elim (stop_at p i obs) [ some e ↦ (end_status p st e, env) | none ↦ add_status st (rest env) ]

  -- The loop of Status.
  unfoldable pub status_from : Probe → ℕ → List (Step W) → Env W → Outcome × Env W
  unfolding status_step observe_at
  status_from p i [] env = (record { done = true; statuses = []; failure = none }, env)
  status_from p i (step ∷ steps) env = elim (rt.cancelled env.world) [
    | some e ↦ (record { done = false; statuses = []; failure = some e }, env)
    | none ↦
        status_step p i step.name (observe_at p.reuse i step env)
          (λ env'. status_from p (i + 1) steps env')
  ]

  -- The probe of ObserveAll answered.
  after_probe : List (Step W) → ℕ → StepName → Result Observation × Env W → Survey × Env W
  unfolding cleanly_satisfied
  after_probe steps m name (err e, env) =
      observe_from (failed_probe steps m name e) 0 steps zero_status
        (probed_not_landed (some e) env)
  after_probe steps m name (ok obs, env) =
      let env' = if cleanly_satisfied obs then env else probed_not_landed none env in
      let st : StepStatus = record { step = name; observation = obs } in
      if obs.satisfied
      then if m + 1 == length steps
        then (record { done = true; last = st; failure = none }, env')
        else observe_from no_probe (m + 1) (drop (suc m) steps) st env'
      else observe_from (reused_probe m obs) 0 steps zero_status env'

  probe_at : List (Step W) → ℕ → List (Step W) → Env W → Survey × Env W
  unfolding after_probe
  probe_at steps m [] env = observe_from no_probe 0 steps zero_status env
  probe_at steps m (merged ∷ _) env = after_probe steps m merged.name (merged.observe env)

  -- ObserveAll.
  unfoldable pub observe_all : List (Step W) → Env W → Survey × Env W
  unfolding phase_index probe_at with_landing_walk
  observe_all steps env = elim (phase_index steps StepName.merged) [
    | none ↦ observe_from no_probe 0 steps zero_status (with_landing_walk env)
    | some m ↦ probe_at steps m (drop m steps) (with_landing_walk env)
  ]

  -- The probe of Status answered.
  status_after_probe : List (Step W) → ℕ → StepName → Result Observation × Env W → Outcome × Env W
  unfolding cleanly_satisfied
  status_after_probe steps m name (err e, env) =
      status_from (failed_probe steps m name e) 0 steps (probed_not_landed (some e) env)
  status_after_probe steps m name (ok obs, env) =
      let env' = if cleanly_satisfied obs then env else probed_not_landed none env in
      let st : StepStatus = record { step = name; observation = obs } in
      if obs.satisfied
      then if m + 1 == length steps
        then (record { done = true; statuses = st ∷ []; failure = none }, env')
        else add_status st (status_from no_probe (m + 1) (drop (suc m) steps) env')
      else status_from (reused_probe m obs) 0 steps env'

  status_probe_at : List (Step W) → ℕ → List (Step W) → Env W → Outcome × Env W
  unfolding status_after_probe
  status_probe_at steps m [] env = status_from no_probe 0 steps env
  status_probe_at steps m (merged ∷ _) env =
      status_after_probe steps m merged.name (merged.observe env)

  -- Status.
  unfoldable pub status : List (Step W) → Env W → Outcome × Env W
  unfolding phase_index status_probe_at with_landing_walk
  status steps env = elim (phase_index steps StepName.merged) [
    | none ↦ status_from no_probe 0 steps (with_landing_walk env)
    | some m ↦ status_probe_at steps m (drop m steps) (with_landing_walk env)
  ]

-- ===== src/Engine/Drive/Reports.antt =====
-- What DriveStatus returns: the shape of its statuses, and that it is done exactly when it has no
-- error to report.
use hoist.Prelude.{
  ℕ, suc, ◌+◌, ◌≡◌, refl, ◌⊎◌, inl, inr, true, false, List, [], ◌∷◌, map, Option, none, some, Text,
  codes, arith, All, Option-cases, drop, is_empty, not, if_elim, drop-suc,
}
use mathlib.Core.Path.{ap₂, subst}
use hoist.Engine.StepName.{StepName}
use hoist.Engine.Errors.{Err, as_act_blocked, Result, ok, err}
use hoist.Engine.State.{
  StepStatus, Observation, satisfied_by, cleanly_satisfied, Env, Step, Runtime,
}
use hoist.Engine.Landing.{with_landing_walk, probed_not_landed}
use hoist.Engine.Drive.{
  Outcome, Verdict, stop, proceed, Save, follow, add_status, observe_at, pass, after_observe,
  acted_verdict, failed_act, save_verdict, drive_step, drive_from, after_probe, probe_at,
  drive_status, probe_index,
}

abbrev pub IsClean : StepStatus → Type 0
IsClean st = cleanly_satisfied st.observation ≡ true

-- The statuses of a walk that went through: one for each step, each cleanly satisfied.
abbrev pub Complete : List StepName → List StepStatus → Type 0
Complete names sts = (map (λ st. st.step) sts ≡ names) × All IsClean sts

-- Those of a walk that stopped: for the first steps only, each before the last cleanly satisfied.
abbrev pub Partial : List StepName → List StepStatus → Type 0
Partial names [] = Unit
Partial [] (st ∷ sts) = ⊥
Partial (n ∷ names) (st ∷ []) = st.step ≡ n
Partial (n ∷ names) (st ∷ st' ∷ sts) = (st.step ≡ n) × IsClean st × Partial names (st' ∷ sts)

abbrev pub Reports : List StepName → Outcome → Type 0
Reports names o =
    ((o.done ≡ true) × (o.failure ≡ none) × Complete names o.statuses)
    ⊎ ((o.done ≡ false) × (e : Err) × (o.failure ≡ some e) × Partial names o.statuses)

-- What one round of the loop reports.
abbrev VerdictReports : StepName → Verdict → Type 0
VerdictReports name (stop [] e) = Unit
VerdictReports name (stop (st ∷ []) e) = st.step ≡ name
VerdictReports name (stop (st ∷ st' ∷ sts) e) = ⊥
VerdictReports name (proceed st) = (st.step ≡ name) × IsClean st

abbrev pub names_of : {W : Type 0} → List (Step W) → List StepName
names_of = map (λ step. step.name)

prepend-Partial :
    (name : StepName) (names : List StepName) (st : StepStatus) (sts : List StepStatus)
    → st.step ≡ name
    → IsClean st
    → Partial names sts
    → Partial (name ∷ names) (st ∷ sts)
prepend-Partial name names st [] h c p = h
prepend-Partial name names st (st' ∷ sts) h c p = (h, c, p)

module _ {W : Type 0} where
  add_status-Reports :
      (name : StepName) (names : List StepName) (st : StepStatus) (o : Outcome × Env W)
      → st.step ≡ name
      → IsClean st
      → Reports names o.0
      → Reports (name ∷ names) (add_status st o).0
  add_status-Reports name names st (o, env) h c (inl (d, f, k)) =
      inl (d, f, (ap₂ (◌∷◌) h k.0, (c, k.1)))
  add_status-Reports name names st (o, env) h c (inr (d, e, f, p)) =
      inr (d, e, f, prepend-Partial name names st o.statuses h c p)

  follow-Reports :
      (name : StepName) (names : List StepName) (v : Verdict × Env W)
      (rest : Env W → Outcome × Env W)
      → VerdictReports name v.0
      → ((env : Env W) → Reports names (rest env).0)
      → Reports (name ∷ names) (follow v rest).0
  follow-Reports name names (stop [] e, env) rest h r = inr (refl, e, refl, tt)
  follow-Reports name names (stop (st ∷ []) e, env) rest h r = inr (refl, e, refl, h)
  follow-Reports name names (stop (st ∷ st' ∷ sts) e, env) rest h r = absurd h
  follow-Reports name names (proceed st, env) rest h r =
      add_status-Reports name names st (rest env) h.0 h.1 (r env)

module _ {W : Type 0} (rt : Runtime W) (save : Save W) where
  save_verdict-VerdictReports :
      (name : StepName) (st : StepStatus) (r : Option Err × Env W)
      → st.step ≡ name
      → IsClean st
      → VerdictReports name (save_verdict rt save name st r).0
  unfolding save_verdict
  save_verdict-VerdictReports name st (none, env) h c = (h, c)
  save_verdict-VerdictReports name st (some e, env) h c = h

  pass-VerdictReports :
      (name : StepName) (obs : Observation) (detail : Text) (env : Env W)
      → cleanly_satisfied obs ≡ true
      → VerdictReports name (pass rt save name obs detail env).0
  unfolding pass
  pass-VerdictReports name obs detail env c = elim (Option-cases save) [
    | inl e ↦ rw (e, pass) (refl, c)
    | inr (f, e) ↦ rw (e, pass) (save_verdict-VerdictReports name _ (f _) refl c)
  ]

  failed_act-VerdictReports :
      (name : StepName) (obs : Observation) (e : Err) (env : Env W)
      → VerdictReports name (failed_act rt save name obs e env).0
  unfolding failed_act
  failed_act-VerdictReports name obs e env = elim (Option-cases (as_act_blocked e)) [
    | inl n ↦ rw (n, failed_act) refl
    | inr (reason, s) ↦ rw (s, failed_act) refl
  ]

  acted_verdict-VerdictReports :
      (name : StepName) (obs : Observation) (r : Option Err × Env W)
      → VerdictReports name (acted_verdict rt save name obs r).0
  unfolding acted_verdict cleanly_satisfied
  acted_verdict-VerdictReports name obs (some e, env) = failed_act-VerdictReports name obs e env
  acted_verdict-VerdictReports name obs (none, env) =
      pass-VerdictReports name (satisfied_by (codes "acted")) (codes "acted") env refl

  is_clean_from :
      (obs : Observation)
      → not (is_empty obs.blocked) ≡ false
      → obs.waiting ≡ false
      → not obs.satisfied ≡ false
      → cleanly_satisfied obs ≡ true
  unfolding cleanly_satisfied
  is_clean_from obs b w s = ground arith

  after_observe-VerdictReports :
      (step : Step W) (r : Result Observation × Env W)
      → VerdictReports step.name (after_observe rt save step r).0
  unfolding after_observe
  after_observe-VerdictReports step (err e, env) = tt
  after_observe-VerdictReports step (ok obs, env) =
      let P : Verdict × Env W → Type 0 = λ v. VerdictReports step.name v.0 in
      if_elim P (not (is_empty obs.blocked)) (λ _. refl)
        λ b.
          if_elim P obs.waiting (λ _. refl)
            λ w.
              if_elim P (not obs.satisfied)
                (λ _. acted_verdict-VerdictReports step.name obs (step.act env))
                (λ s. pass-VerdictReports step.name obs _ env (is_clean_from obs b w s))

  drive_step-VerdictReports :
      (probed : Option (ℕ × Observation)) (i : ℕ) (step : Step W) (env : Env W)
      → VerdictReports step.name (drive_step rt save probed i step env).0
  unfolding drive_step
  drive_step-VerdictReports probed i step env = elim (Option-cases (rt.cancelled env.world)) [
    | inl live ↦
        rw (live, drive_step) (after_observe-VerdictReports step (observe_at probed i step env))
    | inr (e, over) ↦ rw (over, drive_step) tt
  ]

  drive_from-Reports :
      (probed : Option (ℕ × Observation)) (i : ℕ) (steps : List (Step W)) (env : Env W)
      → Reports (names_of steps) (drive_from rt save probed i steps env).0
  unfolding drive_from
  drive_from-Reports probed i [] env = inl (refl, refl, (refl, tt))
  drive_from-Reports probed i (step ∷ steps) env =
      follow-Reports step.name (names_of steps) (drive_step rt save probed i step env)
        (λ env'. drive_from rt save probed (i + 1) steps env')
        (drive_step-VerdictReports probed i step env)
        (λ env'. drive_from-Reports probed (i + 1) steps env')

  after_probe-Reports :
      (steps : List (Step W)) (m : ℕ) (name : StepName) (r : Result Observation × Env W)
      → Reports (names_of steps) (after_probe rt save steps m name r).0
        ⊎ Reports (name ∷ names_of (drop (suc m) steps)) (after_probe rt save steps m name r).0
  unfolding after_probe
  after_probe-Reports steps m name (err e, env) = inl (drive_from-Reports none 0 steps _)
  after_probe-Reports steps m name (ok obs, env) =
      if_elim
        (λ (o : Outcome × Env W).
          Reports (names_of steps) o.0 ⊎ Reports (name ∷ names_of (drop (suc m) steps)) o.0)
        (cleanly_satisfied obs)
        (λ c. inr (
          add_status-Reports name (names_of (drop (suc m) steps))
            (record { step = name; observation = obs })
            (drive_from rt save (some (m, obs)) (m + 1) (drop (suc m) steps) env) refl c
            (drive_from-Reports (some (m, obs)) (m + 1) (drop (suc m) steps) env)))
        (λ _. inl (drive_from-Reports (some (m, obs)) 0 steps (probed_not_landed none env)))

  probe_at-Reports :
      (steps : List (Step W)) (m : ℕ) (rest : List (Step W)) (env : Env W)
      → drop m steps ≡ rest
      → Reports (names_of steps) (probe_at rt save steps m rest env).0
        ⊎ Reports (names_of rest) (probe_at rt save steps m rest env).0
  unfolding probe_at
  probe_at-Reports steps m [] env e = inl (drive_from-Reports none 0 steps env)
  probe_at-Reports steps m (merged ∷ rest) env e =
      let r = merged.observe env in
      let o = (after_probe rt save steps m merged.name r).0 in
      subst (λ after. Reports (names_of steps) o ⊎ Reports (merged.name ∷ names_of after) o)
        (drop-suc m steps merged rest e) (after_probe-Reports steps m merged.name r)

  -- DriveStatus is done exactly when it has no error to return. It is done only with one cleanly
  -- satisfied status for each step, or, when it probed the merged step, for each step from that
  -- one on; stopped, it has statuses of the first of those steps, all before the last clean.
  pub drive_status-Reports :
      (steps : List (Step W)) (env : Env W)
      → let o = (drive_status rt save steps env).0 in
        Reports (names_of steps) o
        ⊎ ((m : ℕ) × (probe_index steps env.state.phase ≡ some m)
            × Reports (names_of (drop m steps)) o)
  unfolding drive_status
  drive_status-Reports steps env = elim (Option-cases (probe_index steps env.state.phase)) [
    | inl e ↦ rw (e, drive_status) (inl (drive_from-Reports none 0 steps (with_landing_walk env)))
    | inr (m, e) ↦ elim (probe_at-Reports steps m (drop m steps) (with_landing_walk env) refl) [
      | inl r ↦ rw (e, drive_status) (inl r)
      | inr r ↦ rw (e, drive_status) (inr (m, refl, r))
    ]
  ]

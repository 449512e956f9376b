-- ===== src/Engine/Drive/Invariant.antt =====
-- The rule for invariants of a walk: what every Observe, every Act that its own observation asks
-- for, the bookkeeping and the save keep, the whole walk keeps.
use hoist.Prelude.{
  ℕ, zero, suc, ◌+◌, ◌<◌, ◌≡◌, inl, inr, Bool, true, List, [], ◌∷◌, Option, none, some, Text, codes,
  arith, All, Option-cases, if_elim, drop, is_empty, not, ◌&&◌, ◌==◌,
}
use mathlib.Core.Path.{subst}
use hoist.Engine.StepName.{StepName}
use hoist.Engine.Errors.{Err, Result, ok, err, as_act_blocked}
use hoist.Engine.State.{PromotionState, Observation, Env, Step, Runtime}
use hoist.Engine.History.{append_history}
use hoist.Engine.Drive.{
  Outcome, Verdict, stop, proceed, Save, set_phase, follow, observe_at, saved_or_logged,
  save_if_set, record_stop, save_verdict, pass, failed_act, acted_verdict, after_observe,
  drive_step, drive_from,
}

-- The observation asks for the step's Act.
unfoldable pub needs_act : Observation → Bool
needs_act o = is_empty o.blocked && (not o.waiting && not o.satisfied)

abbrev pub Answers : Result Observation → Type 0
Answers (ok obs) = needs_act obs ≡ true
Answers (err e) = ⊥

module _ {W : Type 0} (P : Env W → Type 0) (Ready : Step W → Env W → Type 0) where
  -- What the rule wants of a step: both methods keep the invariant, the second one where an
  -- observation that asks for it has made it ready.
  pub record Obeys (step : Step W) : Type 0 where
    pub observe_keeps : (env : Env W) → P env → P (step.observe env).1
    pub asks :
        (env : Env W) → P env → Answers (step.observe env).0 → Ready step (step.observe env).1
    pub act_keeps : (env : Env W) → P env → Ready step env → P (step.act env).1

  -- The probe's observation may be reused at its index: there it has to make the step ready.
  abbrev pub Reusable : Option (ℕ × Observation) → ℕ → List (Step W) → Type 0
  Reusable none i steps = Unit
  Reusable (some (j, obs)) i [] = Unit
  Reusable (some (j, obs)) i (step ∷ steps) =
      ((i == j) ≡ true → (env : Env W) → P env → needs_act obs ≡ true → Ready step env)
      × Reusable (some (j, obs)) (i + 1) steps

module _ {W : Type 0} (P : Env W → Type 0) (Ready : Step W → Env W → Type 0) (m : ℕ)
    (obs : Observation) where
  -- Beyond its index the probe is not reused.
  pub Reusable-past :
      (i : ℕ) (steps : List (Step W)) → m < i → Reusable P Ready (some (m, obs)) i steps
  Reusable-past i [] h = tt
  Reusable-past i (step ∷ steps) h =
      ((λ e. absurd (ground arith)), Reusable-past (i + 1) steps (omega arith))

  -- It is enough that the step at its index is made ready.
  pub Reusable-at :
      (i k : ℕ) (steps : List (Step W)) (step : Step W) (rest : List (Step W))
      → i + k ≡ m
      → drop k steps ≡ step ∷ rest
      → ((env : Env W) → P env → needs_act obs ≡ true → Ready step env)
      → Reusable P Ready (some (m, obs)) i steps
  Reusable-at i k [] step rest e d r = tt
  Reusable-at i zero (s ∷ steps) step rest e d r = (
    (λ _.
        subst (λ (t : Step W). (env : Env W) → P env → needs_act obs ≡ true → Ready t env) (cc) r),
    Reusable-past (i + 1) steps (omega arith),
  )
  Reusable-at i (suc k) (s ∷ steps) step rest e d r =
      ((λ hit. absurd (ground arith)), Reusable-at (i + 1) k steps step rest (omega arith) d r)

module _ {W : Type 0} (rt : Runtime W) (save : Save W) (P : Env W → Type 0)
    (Ready : Step W → Env W → Type 0)
    (keeps_state : (env : Env W) (s : PromotionState) → P env → P (record env { state = s }))
    (keeps_save : (f : Env W → Option Err × Env W)
      → save ≡ some f
      → (env : Env W) → P env
      → P (f env).1) where
  saved_or_logged_keeps : (r : Option Err × Env W) → P r.1 → P (saved_or_logged rt save r)
  unfolding saved_or_logged
  saved_or_logged_keeps (none, env) h = h
  saved_or_logged_keeps (some e, env) h = keeps_state env _ h

  save_if_set_keeps : (env : Env W) → P env → P (save_if_set rt save env)
  unfolding save_if_set
  save_if_set_keeps env h = elim (Option-cases save) [
    | inl e ↦ rw (e, save_if_set) h
    | inr (f, e) ↦ rw (e, save_if_set) (saved_or_logged_keeps (f env) (keeps_save f e env h))
  ]

  append_history_keeps :
      (name : StepName) (detail : Text) (env : Env W)
      → P env
      → P (append_history rt name detail env)
  unfolding append_history
  append_history_keeps name detail env h =
      keeps_state env (append_history rt name detail env).state h

  record_stop_keeps :
      (name : StepName) (detail : Text) (env : Env W)
      → P env
      → P (record_stop rt save name detail env)
  unfolding record_stop
  record_stop_keeps name detail env h =
      save_if_set_keeps _
        (append_history_keeps name detail (set_phase name env) (keeps_state env _ h))

  save_verdict_keeps :
      (name : StepName) (st : _) (r : Option Err × Env W)
      → P r.1
      → P (save_verdict rt save name st r).1
  unfolding save_verdict
  save_verdict_keeps name st (none, env) h = h
  save_verdict_keeps name st (some e, env) h = h

  pub pass_keeps :
      (name : StepName) (obs : Observation) (detail : Text) (env : Env W)
      → P env
      → P (pass rt save name obs detail env).1
  unfolding pass
  pass_keeps name obs detail env h =
      let env' = set_phase name (append_history rt name detail env) in
      let h' : P env' =
        keeps_state (append_history rt name detail env) env'.state
          (append_history_keeps name detail env h) in
      elim (Option-cases save) [
        | inl e ↦ rw (e, pass) h'
        | inr (f, e) ↦ rw (e, pass) (save_verdict_keeps name _ (f env') (keeps_save f e env' h'))
      ]

  failed_act_keeps :
      (name : StepName) (obs : Observation) (e : Err) (env : Env W)
      → P env
      → P (failed_act rt save name obs e env).1
  unfolding failed_act
  failed_act_keeps name obs e env h = elim (Option-cases (as_act_blocked e)) [
    | inl n ↦ rw (n, failed_act) (record_stop_keeps name _ env h)
    | inr (reason, s) ↦ rw (s, failed_act) (record_stop_keeps name _ env h)
  ]

  acted_verdict_keeps :
      (name : StepName) (obs : Observation) (r : Option Err × Env W)
      → P r.1
      → P (acted_verdict rt save name obs r).1
  unfolding acted_verdict
  acted_verdict_keeps name obs (some e, env) h = failed_act_keeps name obs e env h
  acted_verdict_keeps name obs (none, env) h = pass_keeps name _ (codes "acted") env h

  after_observe_keeps :
      (step : Step W) (r : Result Observation × Env W)
      → Obeys P Ready step
      → P r.1
      → (Answers r.0 → Ready step r.1)
      → P (after_observe rt save step r).1
  unfolding after_observe needs_act
  after_observe_keeps step (err e, env) o h ready = keeps_state env _ h
  after_observe_keeps step (ok obs, env) o h ready =
      let Q : Verdict × Env W → Type 0 = λ v. P v.1 in
      if_elim Q (not (is_empty obs.blocked)) (λ _. record_stop_keeps step.name _ env h)
        λ b.
          if_elim Q obs.waiting (λ _. record_stop_keeps step.name _ env h)
            λ w.
              if_elim Q (not obs.satisfied)
                (λ s.
                  acted_verdict_keeps step.name obs (step.act env)
                    (o.act_keeps env h (ready (ground arith))))
                (λ s. pass_keeps step.name obs _ env h)

  pub drive_step_keeps :
      (probed : Option (ℕ × Observation)) (i : ℕ) (step : Step W) (rest : List (Step W))
      (env : Env W)
      → Obeys P Ready step
      → Reusable P Ready probed i (step ∷ rest)
      → P env
      → P (drive_step rt save probed i step env).1
  unfolding drive_step
  drive_step_keeps probed i step rest env o u h = elim (Option-cases (rt.cancelled env.world)) [
    | inl live ↦ rw (live, drive_step) (go probed u)
    | inr (e, over) ↦ rw (over, drive_step) h
  ]
    where
      go :
          (probed : Option (ℕ × Observation))
          → Reusable P Ready probed i (step ∷ rest)
          → P (after_observe rt save step (observe_at probed i step env)).1
      go none u =
          after_observe_keeps step (step.observe env) o (o.observe_keeps env h) (o.asks env h)
      go (some (j, obs)) u =
          if_elim (λ (r : Result Observation × Env W). P (after_observe rt save step r).1) (i == j)
            (λ hit. after_observe_keeps step (ok obs, env) o h (u.0 hit env h))
            (λ _.
              after_observe_keeps step (step.observe env) o (o.observe_keeps env h) (o.asks env h))

  pub Reusable-tail :
      (probed : Option (ℕ × Observation)) (i : ℕ) (step : Step W) (rest : List (Step W))
      → Reusable P Ready probed i (step ∷ rest)
      → Reusable P Ready probed (i + 1) rest
  Reusable-tail none i step rest u = tt
  Reusable-tail (some (j, obs)) i step rest u = u.1

  follow_keeps :
      (v : Verdict × Env W) (rest : Env W → Outcome × Env W)
      → P v.1
      → ((env : Env W) → P env → P (rest env).1)
      → P (follow v rest).1
  follow_keeps (stop sts e, env) rest h r = h
  follow_keeps (proceed st, env) rest h r = r env h

  pub drive_from_keeps :
      (probed : Option (ℕ × Observation)) (i : ℕ) (steps : List (Step W)) (env : Env W)
      → All (Obeys P Ready) steps
      → Reusable P Ready probed i steps
      → P env
      → P (drive_from rt save probed i steps env).1
  unfolding drive_from
  drive_from_keeps probed i [] env os u h = h
  drive_from_keeps probed i (step ∷ steps) env os u h =
      follow_keeps (drive_step rt save probed i step env)
        (λ env'. drive_from rt save probed (i + 1) steps env')
        (drive_step_keeps probed i step steps env os.0 u h)
        (λ env' h'.
          drive_from_keeps probed (i + 1) steps env' os.1 (Reusable-tail probed i step steps u) h')

-- ===== src/Engine/Drive/Trace.antt =====
-- A walk over steps whose calls are logged: no Act without an observation of the same walk that
-- asks for it.
use hoist.Prelude.{
  ℕ, suc, ◌+◌, ◌≡◌, refl, inl, inr, ◌⊎◌, true, List, [], ◌∷◌, Option, none, some, All, Option-cases,
  drop, map, All-drop, if_elim, codes, arith,
}
use mathlib.Core.Path.{subst}
use mathlib.Core.Option.{some-injective}
use hoist.Engine.StepName.{StepName}
use hoist.Engine.Errors.{Err, Result, ok, err}
use hoist.Engine.State.{Observation, satisfied_by, cleanly_satisfied, Env, Step, Runtime}
use hoist.Engine.Landing.{with_landing_walk, probed_not_landed}
use hoist.Engine.Drive.{Outcome, Save, drive_from, after_probe, probe_at, drive_status, probe_index}
use hoist.Engine.Drive.Invariant.{
  needs_act, Answers, Obeys, Reusable, drive_from_keeps, Reusable-past, Reusable-at,
}

-- What a walk does to the outside: it observes a step, with what answer, or it acts, with
-- what error.
pub data Event : Type 0 where
  observed : StepName → Result Observation → Event
  acted_on : StepName → Option Err → Event

-- The newest event first.
abbrev pub Log : Type 0
Log = List Event

-- The step was observed, and the answer asked for its Act.
abbrev pub Asked : StepName → Log → Type 0
Asked name [] = ⊥
Asked name (acted_on n e ∷ log) = Asked name log
Asked name (observed n (err e) ∷ log) = Asked name log
Asked name (observed n (ok obs) ∷ log) = ((n ≡ name) × (needs_act obs ≡ true)) ⊎ Asked name log

-- Every Act of the log comes after an observation that asked for it.
abbrev pub Justified : Log → Type 0
Justified [] = Unit
Justified (observed n r ∷ log) = Justified log
Justified (acted_on n e ∷ log) = Asked n log × Justified log

Asked-now :
    (name : StepName) (r : Result Observation) (log : Log)
    → Answers r
    → Asked name (observed name r ∷ log)
Asked-now name (ok obs) log h = inl (refl, h)
Asked-now name (err e) log h = absurd h

Asked-still :
    (name n : StepName) (r : Result Observation) (log : Log)
    → Asked name log
    → Asked name (observed n r ∷ log)
Asked-still name n (ok obs) log h = inr h
Asked-still name n (err e) log h = h

module _ {W : Type 0} where
  abbrev pub outer : Env (W × Log) → Env W
  outer env = record { world = env.world.0; walk = env.walk; state = env.state }

  abbrev pub inner : Log → Env W → Env (W × Log)
  inner log env = record { world = (env.world, log); walk = env.walk; state = env.state }

  abbrev pub log_of : Env (W × Log) → Log
  log_of env = env.world.1

  -- A step, a save and a runtime over a world that carries the log.
  unfoldable pub traced : Step W → Step (W × Log)
  traced step = record {
    name = step.name;
    observe = λ env.
        let (r, env') = step.observe (outer env) in
        (r, inner (observed step.name r ∷ log_of env) env');
    act = λ env.
        let (e, env') = step.act (outer env) in (e, inner (acted_on step.name e ∷ log_of env) env');
  }

  unfoldable pub traced_save : Save W → Save (W × Log)
  traced_save none = none
  traced_save (some f) = some (λ env. let (e, env') = f (outer env) in (e, inner (log_of env) env'))

  unfoldable pub traced_runtime : Runtime W → Runtime (W × Log)
  traced_runtime rt = record {
    now = λ w. rt.now w.0;
    registered = λ w. rt.registered w.0;
    cancelled = λ w. rt.cancelled w.0;
  }

  abbrev IsJustified : Env (W × Log) → Type 0
  IsJustified env = Justified (log_of env)

  abbrev IsAsked : Step (W × Log) → Env (W × Log) → Type 0
  IsAsked step env = Asked step.name (log_of env)

  -- The invariant of a walk that may reuse the observation of the step `name`.
  abbrev HoldsProbe : StepName → Observation → Env (W × Log) → Type 0
  HoldsProbe name obs env = IsJustified env × (needs_act obs ≡ true → Asked name (log_of env))

  traced-Obeys : (step : Step W) → Obeys IsJustified IsAsked (traced step)
  unfolding traced
  traced-Obeys step = record {
    observe_keeps = λ env h. h;
    asks = λ env h a. Asked-now step.name (step.observe (outer env)).0 (log_of env) a;
    act_keeps = λ env h ready. (ready, h);
  }

  traced-Obeys_probe :
      (name : StepName) (obs : Observation) (step : Step W)
      → Obeys (HoldsProbe name obs) IsAsked (traced step)
  unfolding traced
  traced-Obeys_probe name obs step = record {
    observe_keeps = λ env h.
        (h.0, λ n. Asked-still name step.name (step.observe (outer env)).0 (log_of env) (h.1 n));
    asks = λ env h a. Asked-now step.name (step.observe (outer env)).0 (log_of env) a;
    act_keeps = λ env h ready. ((ready, h.0), h.1);
  }

  AllTraced-map :
      (P : Env (W × Log) → Type 0)
      → ((step : Step W) → Obeys P IsAsked (traced step))
      → (steps : List (Step W)) → All (Obeys P IsAsked) (map traced steps)
  AllTraced-map P o [] = tt
  AllTraced-map P o (step ∷ steps) = (o step, AllTraced-map P o steps)

  pub saved_log :
      (P : Log → Type 0) (save : Save W) (f : Env (W × Log) → Option Err × Env (W × Log))
      → traced_save save ≡ some f
      → (env : Env (W × Log)) → P (log_of env)
      → P (log_of (f env).1)
  unfolding traced_save
  saved_log P none f e env h = cc
  saved_log P (some g) f e env h =
      subst (λ (k : Env (W × Log) → Option Err × Env (W × Log)). P (log_of (k env).1))
        (some-injective _ f e) h

  -- Every step of the list is a traced one.
  abbrev AllTraced : List (Step (W × Log)) → Type 0
  AllTraced steps =
      (name : StepName) (obs : Observation) → All (Obeys (HoldsProbe name obs) IsAsked) steps

module _ {W : Type 0} (rt : Runtime W) (save : Save W) where
  drive_traced :
      (name : StepName) (obs : Observation) (probed : Option (ℕ × Observation)) (i : ℕ)
      (steps : List (Step (W × Log))) (env : Env (W × Log))
      → AllTraced steps
      → Reusable (HoldsProbe name obs) IsAsked probed i steps
      → HoldsProbe name obs env
      → IsJustified (drive_from (traced_runtime rt) (traced_save save) probed i steps env).1
  drive_traced name obs probed i steps env os u h =
      (drive_from_keeps (traced_runtime rt) (traced_save save) (HoldsProbe name obs) IsAsked
        (λ env s h. h)
        (saved_log (λ log. Justified log × (needs_act obs ≡ true → Asked name log)) save) probed i
        steps env (os name obs) u h).0

  drive_unprobed :
      (steps : List (Step (W × Log))) (env : Env (W × Log))
      → AllTraced steps
      → IsJustified env
      → IsJustified (drive_from (traced_runtime rt) (traced_save save) none 0 steps env).1
  unfolding needs_act
  drive_unprobed steps env os h =
      drive_traced (codes "") (satisfied_by (codes "")) none 0 steps env os tt (h, λ n. cc)

  pub probed_log :
      (e : Option Err) (env : Env (W × Log)) → log_of (probed_not_landed e env) ≡ log_of env
  unfolding probed_not_landed
  probed_log none env = refl
  probed_log (some e) env = refl

  after_probe-IsJustified :
      (steps : List (Step (W × Log))) (m : ℕ) (merged : Step (W × Log))
      (rest : List (Step (W × Log))) (r : Result Observation × Env (W × Log))
      → AllTraced steps
      → drop m steps ≡ merged ∷ rest
      → IsJustified r.1
      → (Answers r.0 → IsAsked merged r.1)
      → IsJustified (after_probe (traced_runtime rt) (traced_save save) steps m merged.name r).1
  unfolding after_probe
  after_probe-IsJustified steps m merged rest (err e, env) os d h ready =
      drive_unprobed steps (probed_not_landed (some e) env) os (rw (probed_log (some e) env) h)
  after_probe-IsJustified steps m merged rest (ok obs, env) os d h ready =
      if_elim (λ (o : Outcome × Env (W × Log)). IsJustified o.1) (cleanly_satisfied obs)
        (λ _.
          drive_traced merged.name obs (some (m, obs)) (m + 1) (drop (suc m) steps) env
            (λ name obs. All-drop (Obeys (HoldsProbe name obs) IsAsked) (suc m) steps (os name obs))
            (Reusable-past (HoldsProbe merged.name obs) IsAsked m obs (m + 1) (drop (suc m) steps)
              (omega arith))
            (h, ready))
        (λ _.
          drive_traced merged.name obs (some (m, obs)) 0 steps (probed_not_landed none env) os
            (Reusable-at (HoldsProbe merged.name obs) IsAsked m obs 0 m steps merged rest
              (omega arith) d (λ env p n. p.1 n))
            (rw (probed_log none env) (h, ready)))

  probe_at-IsJustified :
      (steps : List (Step (W × Log))) (m : ℕ) (rest : List (Step (W × Log))) (env : Env (W × Log))
      → AllTraced steps
      → AllTraced rest
      → drop m steps ≡ rest
      → IsJustified env
      → IsJustified (probe_at (traced_runtime rt) (traced_save save) steps m rest env).1
  unfolding probe_at needs_act
  probe_at-IsJustified steps m [] env os rs d h = drive_unprobed steps env os h
  probe_at-IsJustified steps m (merged ∷ rest) env os rs d h =
      let o = (rs (codes "") (satisfied_by (codes ""))).0 in
      after_probe-IsJustified steps m merged rest (merged.observe env) os d
        (o.observe_keeps env (h, λ n. cc)).0 (o.asks env (h, λ n. cc))

  -- Whatever the steps, the save and the world do: in the log of a walk that began with an empty
  -- one, every Act of a step comes after an observation of that step, in the same walk, which was
  -- not blocked, not waiting and not satisfied.
  pub drive_status-Justified :
      (steps : List (Step W)) (env : Env W)
      → Justified (
          log_of
            (drive_status
              (traced_runtime rt)
              (traced_save save)
              (map traced steps)
              (inner [] env)).1)
  unfolding drive_status with_landing_walk
  drive_status-Justified steps env =
      let start = with_landing_walk (inner [] env) in
      let os : AllTraced (map traced steps) =
        λ name obs. AllTraced-map (HoldsProbe name obs) (traced-Obeys_probe name obs) steps in
      elim (Option-cases (probe_index (map traced steps) env.state.phase)) [
        | inl e ↦ rw (e, drive_status) (drive_unprobed (map traced steps) start os tt)
        | inr (m, e) ↦
            rw (e, drive_status)
              (probe_at-IsJustified (map traced steps) m (drop m (map traced steps)) start os
                (λ name obs.
                  All-drop (Obeys (HoldsProbe name obs) IsAsked) m (map traced steps) (os name obs))
                refl tt)
      ]

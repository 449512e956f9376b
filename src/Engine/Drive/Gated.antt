-- ===== src/Engine/Drive/Gated.antt =====
-- internal/engine/engine.go: DriveStatus. A walk over steps whose calls are logged: what has to be in the log
-- before a step's Act, for the loop.
pub mod Status
pub mod Promotion
use hoist.Prelude.{
  ℕ, zero, suc, ◌+◌, ◌<◌, ◌≡◌, ◌≢◌, refl, sym, inl, inr, ◌⊎◌, Bool, true, false, not, ◌&&◌, List,
  [], ◌∷◌, ◌++◌, Option, none, some, All, Option-cases, Text, codes, is_empty, drop, map, length,
  if_elim, arith, ◌==◌,
}
use mathlib.Core.Path.{subst}
use hoist.Engine.StepName.{StepName}
use hoist.Engine.Errors.{Err, Result, ok, err, as_act_blocked}
use hoist.Engine.State.{
  PromotionState, Observation, satisfied_by, cleanly_satisfied, Env, Step, Runtime,
}
use hoist.Engine.Drive.{
  Outcome, Verdict, stop, proceed, Save, follow, observe_at, pass, failed_act, acted_verdict,
  after_observe, drive_step, drive_from,
}
use hoist.Engine.Drive.Invariant.{
  needs_act, Answers, Obeys, Reusable, Reusable-tail, drive_from_keeps, drive_step_keeps,
  pass_keeps,
}
use hoist.Engine.Drive.Trace.{
  Event, observed, acted_on, Log, outer, inner, log_of, traced, traced_save, traced_runtime,
  saved_log,
}

-- The step was observed satisfied, neither waiting nor blocked, or its Act returned no error.
abbrev pub Cleared : StepName → Log → Type 0
Cleared name [] = ⊥
Cleared name (acted_on n none ∷ log) = (n ≡ name) ⊎ Cleared name log
Cleared name (acted_on n (some e) ∷ log) = Cleared name log
Cleared name (observed n (err e) ∷ log) = Cleared name log
Cleared name (observed n (ok obs) ∷ log) =
    ((n ≡ name) × (cleanly_satisfied obs ≡ true)) ⊎ Cleared name log

-- Every Act of the step `target` comes after the step `gate` was cleared.
abbrev pub Guarded : StepName → StepName → Log → Type 0
Guarded gate target [] = Unit
Guarded gate target (observed n r ∷ log) = Guarded gate target log
Guarded gate target (acted_on n e ∷ log) = (n ≡ target → Cleared gate log) × Guarded gate target log

Cleared-observed :
    (name n : StepName) (r : Result Observation) (log : Log)
    → Cleared name log
    → Cleared name (observed n r ∷ log)
Cleared-observed name n (ok obs) log h = inr h
Cleared-observed name n (err e) log h = h

Cleared-acted_on :
    (name n : StepName) (e : Option Err) (log : Log)
    → Cleared name log
    → Cleared name (acted_on n e ∷ log)
Cleared-acted_on name n none log h = inr h
Cleared-acted_on name n (some e) log h = h

-- The probe's observation is not reused at that index.
abbrev pub Fresh : Option (ℕ × Observation) → ℕ → Type 0
Fresh none i = Unit {0}
Fresh (some (j, obs)) i = (i == j) ≡ false

-- Nothing is asked of an observation.
abbrev pub Always : {W : Type 0} → Step (W × Log) → Env (W × Log) → Type 0
Always step env = Unit {0}

module _ {W : Type 0} (gate target : StepName) where
  -- The invariant before the gate, and past it.
  abbrev pub Before : Env (W × Log) → Type 0
  Before env = Guarded gate target (log_of env)

  abbrev Past : Env (W × Log) → Type 0
  Past env = Guarded gate target (log_of env) × Cleared gate (log_of env)

  Obeys-traced_early : (step : Step W) → step.name ≢ target → Obeys Before Always (traced step)
  unfolding traced
  Obeys-traced_early step other = record {
    observe_keeps = λ env h. h;
    asks = λ env h a. tt;
    act_keeps = λ env h ready. ((λ e. absurd (other e)), h);
  }

  Obeys-traced_late : (step : Step W) → Obeys Past Always (traced step)
  unfolding traced
  Obeys-traced_late step = record {
    observe_keeps = λ env h.
        (h.0, Cleared-observed gate step.name (step.observe (outer env)).0 (log_of env) h.1);
    asks = λ env h a. tt;
    act_keeps = λ env h ready. (
      ((λ e. h.1), h.0),
      Cleared-acted_on gate step.name (step.act (outer env)).0 (log_of env) h.1,
    );
  }

  pub AllBefore :
      (steps : List (Step W))
      → All (λ (s : Step W). s.name ≢ target) steps
      → All (Obeys Before Always) (map traced steps)
  AllBefore [] h = tt
  AllBefore (step ∷ steps) h = (Obeys-traced_early step h.0, AllBefore steps h.1)

  AllPast : (steps : List (Step W)) → All (Obeys Past Always) (map traced steps)
  AllPast [] = tt
  AllPast (step ∷ steps) = (Obeys-traced_late step, AllPast steps)

  -- A probe may always be reused.
  pub Reusable-any :
      (P : Env (W × Log) → Type 0) (probed : Option (ℕ × Observation)) (i : ℕ)
      (steps : List (Step (W × Log)))
      → Reusable P Always probed i steps
  Reusable-any P none i steps = tt
  Reusable-any P (some (j, obs)) i [] = tt
  Reusable-any P (some (j, obs)) i (step ∷ steps) =
      ((λ e env h n. tt), Reusable-any P (some (j, obs)) (i + 1) steps)

module _ {W : Type 0} (rt : Runtime W) (save : Save W) (gate target : StepName) where
  -- A round that lets the walk go on has cleared the gate.
  abbrev OnProceed : Verdict × Env (W × Log) → Type 0
  OnProceed (stop sts e, env) = Unit
  OnProceed (proceed st, env) = Cleared gate (log_of env)

  OnProceed-Cleared : (v : Verdict × Env (W × Log)) → Cleared gate (log_of v.1) → OnProceed v
  OnProceed-Cleared (stop sts e, env) h = tt
  OnProceed-Cleared (proceed st, env) h = h

  passed :
      (name : StepName) (obs : Observation) (detail : Text) (env : Env (W × Log))
      → Cleared gate (log_of env)
      → OnProceed (pass (traced_runtime rt) (traced_save save) name obs detail env)
  passed name obs detail env h =
      OnProceed-Cleared (pass (traced_runtime rt) (traced_save save) name obs detail env) (
        pass_keeps (traced_runtime rt) (traced_save save) (λ env. Cleared gate (log_of env)) Always
          (λ env s h. h) (saved_log (Cleared gate) save) name obs detail env h)

  failed :
      (name : StepName) (obs : Observation) (e : Err) (env : Env (W × Log))
      → OnProceed (failed_act (traced_runtime rt) (traced_save save) name obs e env)
  unfolding failed_act
  failed name obs e env = elim (Option-cases (as_act_blocked e)) [
    | inl n ↦ rw (n, failed_act) tt
    | inr (reason, r) ↦ rw (r, failed_act) tt
  ]

  acted :
      (name : StepName) (obs : Observation) (r : Option Err) (env : Env (W × Log)) (log : Log)
      → name ≡ gate
      → log_of env ≡ acted_on name r ∷ log
      → OnProceed (acted_verdict (traced_runtime rt) (traced_save save) name obs (r, env))
  unfolding acted_verdict
  acted name obs (some e) env log named h = failed name obs e env
  acted name obs none env log named h =
      passed name (satisfied_by (codes "acted")) (codes "acted") env
        (subst (Cleared gate) (sym h) (inl named))

  cleared_after :
      (step : Step W) (r : Result Observation) (env : Env (W × Log)) (log : Log)
      → step.name ≡ gate
      → log_of env ≡ observed step.name r ∷ log
      → OnProceed (after_observe (traced_runtime rt) (traced_save save) (traced step) (r, env))
  unfolding after_observe traced cleanly_satisfied
  cleared_after step (err e) env log named h = tt
  cleared_after step (ok obs) env log named h =
      if_elim OnProceed (not (is_empty obs.blocked)) (λ _. tt)
        λ b.
          if_elim OnProceed obs.waiting (λ _. tt)
            λ w.
              if_elim OnProceed (not obs.satisfied)
                (λ s.
                  acted step.name obs (step.act (outer env)).0 ((traced step).act env).1
                    (log_of env) named refl)
                (λ s.
                  passed step.name obs _ env
                    (subst (Cleared gate) (sym h) (inl (named, ground arith))))

  gate_round :
      (probed : Option (ℕ × Observation)) (i : ℕ) (step : Step W) (env : Env (W × Log))
      → step.name ≡ gate
      → Fresh probed i
      → OnProceed (drive_step (traced_runtime rt) (traced_save save) probed i (traced step) env)
  unfolding drive_step traced
  gate_round probed i step env named fresh =
      elim (Option-cases ((traced_runtime rt).cancelled env.world)) [
        | inr (e, over) ↦ rw (over, drive_step) tt
        | inl live ↦ rw (live, drive_step) (asked probed fresh)
      ]
    where
      asked :
          (probed : Option (ℕ × Observation))
          → Fresh probed i
          → OnProceed (
              after_observe
                (traced_runtime rt)
                (traced_save save)
                (traced step)
                (observe_at probed i (traced step) env))
      asked none fresh =
          cleared_after step (step.observe (outer env)).0 ((traced step).observe env).1 (log_of env)
            named refl
      asked (some (j, obs)) fresh = rw fresh (
          cleared_after step (step.observe (outer env)).0 ((traced step).observe env).1 (log_of env)
            named refl)

  past_gate :
      (probed : Option (ℕ × Observation)) (i : ℕ) (rest : List (Step W))
      (v : Verdict × Env (W × Log))
      → Before gate target v.1
      → OnProceed v
      → Before gate target
          (follow v (λ env.
            drive_from (traced_runtime rt) (traced_save save) probed i (map traced rest) env)).1
  past_gate probed i rest (stop sts e, env) b c = b
  past_gate probed i rest (proceed st, env) b c =
      (drive_from_keeps (traced_runtime rt) (traced_save save) (Past gate target) Always
        (λ env s h. h) (saved_log (λ log. Guarded gate target log × Cleared gate log) save) probed i
        (map traced rest) env (AllPast gate target rest)
        (Reusable-any gate target (Past gate target) probed i (map traced rest)) (b, c)).0

  first_round :
      (probed : Option (ℕ × Observation)) (i : ℕ) (step : Step W) (env : Env (W × Log))
      → step.name ≢ target
      → Before gate target env
      → Before gate target
          (drive_step (traced_runtime rt) (traced_save save) probed i (traced step) env).1
  first_round probed i step env other b =
      drive_step_keeps (traced_runtime rt) (traced_save save) (Before gate target) Always
        (λ env s h. h) (saved_log (Guarded gate target) save) probed i (traced step) [] env
        (Obeys-traced_early gate target step other)
        (Reusable-any gate target (Before gate target) probed i (traced step ∷ [])) b

  pub drive_gated :
      (probed : Option (ℕ × Observation)) (i : ℕ) (before : List (Step W)) (step : Step W)
      (rest : List (Step W)) (env : Env (W × Log))
      → All (λ (s : Step W). s.name ≢ target) before
      → step.name ≡ gate
      → gate ≢ target
      → Fresh probed (i + length before)
      → Before gate target env
      → Before gate target
          (drive_from
            (traced_runtime rt)
            (traced_save save)
            probed
            i
            (map traced (before ++ step ∷ rest))
            env).1
  unfolding drive_from
  drive_gated probed i [] step rest env os named other fresh b =
      past_gate probed (i + 1) rest
        (drive_step (traced_runtime rt) (traced_save save) probed i (traced step) env)
        (first_round probed i step env (λ e. other (cc (e, named))) b)
        (gate_round probed i step env named (subst (Fresh probed) (omega arith) fresh))
  drive_gated probed i (first ∷ before) step rest env os named other fresh b =
      by_verdict (drive_step (traced_runtime rt) (traced_save save) probed i (traced first) env)
        (first_round probed i first env os.0 b)
        (λ env'.
          drive_gated probed (i + 1) before step rest env' os.1 named other
            (subst (Fresh probed) (omega arith) fresh))
    where
      by_verdict :
          (v : Verdict × Env (W × Log))
          → Before gate target v.1
          → ((env : Env (W × Log))
              → Before gate target env
              → Before gate target
                  (drive_from
                    (traced_runtime rt)
                    (traced_save save)
                    probed
                    (i + 1)
                    (map traced (before ++ step ∷ rest))
                    env).1)
          → Before gate target
              (follow v (λ env.
                drive_from
                  (traced_runtime rt)
                  (traced_save save)
                  probed
                  (i + 1)
                  (map traced (before ++ step ∷ rest))
                  env)).1
      by_verdict (stop sts e, env) b ih = b
      by_verdict (proceed st, env) b ih = ih env b

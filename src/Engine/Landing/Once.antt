-- ===== src/Engine/Landing/Once.antt =====
-- The cost of the guards: one landing lookup a walk, however many guarded steps need the answer.
use hoist.Prelude.{
  ℕ, ◌+◌, ◌≤◌, ◌≡◌, refl, ◌∙◌, inl, inr, ◌⊎◌, List, [], ◌∷◌, sym, Option, none, some, arith, All,
  if_elim, not,
}
use mathlib.Core.Path.{subst}
use hoist.Engine.Errors.{Err, Result}
use hoist.Engine.State.{
  Observation, LandingAnswer, landing_no, landing_yes, landing_unknown, Env, Step, Runtime,
}
use hoist.Engine.Landing.{
  landing_observable, walk_get, walk_set, observe_landed, landed, is_clean, guard_answer,
  guard_observe, guard_landed,
}
use hoist.Engine.Drive.{Save, drive_from}
use hoist.Engine.Drive.Invariant.{Obeys, drive_from_keeps}

module _ {W : Type 0} (count : W → ℕ) where
  -- A call that asks nothing of what is counted, and leaves the walk's memo alone.
  abbrev pub Silent : Env W → Env W → Type 0
  Silent env env' = (count env'.world ≡ count env.world) × (env'.walk ≡ env.walk)

  pub record IsSilent (step : Step W) : Type 0 where
    pub observes : (env : Env W) → Silent env (step.observe env).1
    pub acts : (env : Env W) → Silent env (step.act env).1

  -- An Observe that is counted once.
  abbrev pub Rings : Step W → Type 0
  Rings step =
      (env : Env W)
      → (count (step.observe env).1.world ≤ count env.world + 1)
        × ((step.observe env).1.walk ≡ env.walk)

  -- A step of the list: silent, or a silent one under the guard.
  pub data GuardedBy (landing : Step W) (step : Step W) : Type 0 where
    bare : IsSilent step → GuardedBy landing step
    guarded :
        (inner : Step W)
        → IsSilent inner
        → step ≡ guard_landed inner landing
        → GuardedBy landing step

  -- Either nothing is known and nothing was asked, or the answer is known.
  abbrev Tally : ℕ → Env W → Type 0
  Tally c env =
      ((env.walk ≡ some none) × (count env.world ≡ c))
      ⊎ ((a : LandingAnswer) × (env.walk ≡ some (some a)) × (count env.world ≤ c + 1))

  Silent-Tally : (c : ℕ) (env env' : Env W) → Silent env env' → Tally c env → Tally c env'
  Silent-Tally c env env' s (inl h) = inl (s.1 ∙ h.0, s.0 ∙ h.1)
  Silent-Tally c env env' s (inr (a, w, n)) = inr (a, s.1 ∙ w, omega arith)

  walk_set-Tally :
      (c : ℕ) (a : LandingAnswer) (env : Env W)
      → env.walk ≡ some none
      → count env.world ≤ c + 1
      → Tally c (walk_set a env)
  unfolding walk_set
  walk_set-Tally c a env w n = inr (a, rw (w, walk_set), n)

  walk_get-eq : (env : Env W) (w : Option LandingAnswer) → env.walk ≡ some w → walk_get env ≡ w
  unfolding walk_get
  walk_get-eq env w h = rw (h, walk_get)

  module _ (landing : Step W) (rings : Rings landing) where
    asked-Tally :
        (c : ℕ) (env : Env W)
        → (env.walk ≡ some none) × (count env.world ≡ c)
        → Tally c (walk_set (observe_landed landing env).0 (observe_landed landing env).1)
    unfolding observe_landed
    asked-Tally c env h =
        walk_set-Tally c _ (observe_landed landing env).1 ((rings env).1 ∙ h.0)
          (omega (arith, (rings env).0))

    landed-Tally : (c : ℕ) (env : Env W) → Tally c env → Tally c (landed landing env).1
    unfolding landed
    landed-Tally c env h =
        if_elim (λ (r : LandingAnswer × Env W). Tally c r.1) (not (landing_observable env.state))
          (λ _. h) (λ _. go h)
      where
        go :
            Tally c env
            → Tally c (
                (elim (walk_get env) as (λ w. LandingAnswer × Env W) [
                  | some answer ↦ (answer, env)
                  | none ↦
                      let (answer, env') = observe_landed landing env in
                      (answer, walk_set answer env')
                ]).1)
        go (inl u) = rw (walk_get-eq env none u.0) (asked-Tally c env u)
        go (inr (a, w, n)) = rw (walk_get-eq env (some a) w) (inr (a, w, n))

    guard_answer-env :
        (r : Result Observation) (a : LandingAnswer × Env W) → (guard_answer landing r a).1 ≡ a.1
    unfolding guard_answer
    guard_answer-env r (landing_yes, env) = refl
    guard_answer-env r (landing_unknown e, env) = refl
    guard_answer-env r (landing_no, env) = refl

    guarded-Tally :
        (c : ℕ) (inner : Step W)
        → IsSilent inner
        → (env : Env W) → Tally c env
        → Tally c (guard_observe inner landing env).1
    unfolding guard_observe
    guarded-Tally c inner s env h =
        let r = inner.observe env in
        let h' : Tally c r.1 = Silent-Tally c env r.1 (s.observes env) h in
        if_elim (λ (x : Result Observation × Env W). Tally c x.1) (is_clean r.0) (λ _. h')
          (λ _. rw (guard_answer-env r.0 (landed landing r.1)) (landed-Tally c r.1 h'))

    GuardedBy-Obeys :
        (c : ℕ) (step : Step W) → GuardedBy landing step → Obeys (Tally c) (λ _ _. Unit) step
    unfolding guard_landed
    GuardedBy-Obeys c step (bare s) = record {
      observe_keeps = λ env h. Silent-Tally c env (step.observe env).1 (s.observes env) h;
      asks = λ env h a. tt;
      act_keeps = λ env h _. Silent-Tally c env (step.act env).1 (s.acts env) h;
    }
    GuardedBy-Obeys c step (guarded inner s e) =
        subst (Obeys (Tally c) (λ _ _. Unit)) (sym e) (record {
          observe_keeps = λ env h. guarded-Tally c inner s env h;
          asks = λ env h a. tt;
          act_keeps = λ env h _. Silent-Tally c env (inner.act env).1 (s.acts env) h;
        })

    AllGuarded-Obeys :
        (c : ℕ) (steps : List (Step W))
        → All (GuardedBy landing) steps
        → All (Obeys (Tally c) (λ _ _. Unit)) steps
    AllGuarded-Obeys c [] h = tt
    AllGuarded-Obeys c (step ∷ steps) h = (GuardedBy-Obeys c step h.0, AllGuarded-Obeys c steps h.1)

    Tally-bound : (c : ℕ) (env : Env W) → Tally c env → count env.world ≤ c + 1
    Tally-bound c env (inl h) = omega arith
    Tally-bound c env (inr (a, w, n)) = n

    -- Let each Observe of the landing step count at most once, and the save not count. Then a walk
    -- without a probe, over steps that do not count or are such steps under the guard, whose memo
    -- is empty at its start, raises the count by at most one, whatever is observed and done.
    pub drive_from_asks_once :
        (rt : Runtime W) (save : Save W) (steps : List (Step W)) (env : Env W)
        → ((f : Env W → Option Err × Env W) → save ≡ some f → (env : Env W) → Silent env (f env).1)
        → All (GuardedBy landing) steps
        → env.walk ≡ some none
        → count (drive_from rt save none 0 steps env).1.world ≤ count env.world + 1
    drive_from_asks_once rt save steps env quiet gs w =
        let c = count env.world in
        Tally-bound c (drive_from rt save none 0 steps env).1 (
          drive_from_keeps rt save (Tally c) (λ _ _. Unit) (λ env s h. h)
            (λ f e env h. Silent-Tally c env (f env).1 (quiet f e env) h) none 0 steps env
            (AllGuarded-Obeys c steps gs) tt (inl (w, refl)))

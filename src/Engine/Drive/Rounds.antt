-- ===== src/Engine/Drive/Rounds.antt =====
-- One round of the walk at a step whose observation is known.
use hoist.Prelude.{
  ℕ, ◌+◌, ◌≡◌, ◌∙◌, ap, true, false, not, List, [], ◌∷◌, ◌++◌, none, codes, is_empty, if_true,
  if_false, arith,
}
use hoist.Engine.Errors.{ok, blocked_error, waiting}
use hoist.Engine.State.{Observation, cleanly_satisfied, Env, Step, Runtime}
use hoist.Engine.Drive.{
  Save, stop, follow, observe_at, after_observe, record_stop, pass, drive_step, drive_from,
}

clean_parts :
    (obs : Observation)
    → cleanly_satisfied obs ≡ true
    → (obs.satisfied ≡ true) × (obs.waiting ≡ false) × (is_empty obs.blocked ≡ true)
unfolding cleanly_satisfied
clean_parts obs c = ground arith

module _ {W : Type 0} (rt : Runtime W) (save : Save W) where
  pub drive_step-eq :
      (i : ℕ) (step : Step W) (obs : Observation) (env after : Env W)
      → rt.cancelled env.world ≡ none
      → step.observe env ≡ (ok obs, after)
      → drive_step rt save none i step env ≡ after_observe rt save step (ok obs, after)
  unfolding drive_step observe_at
  drive_step-eq i step obs env after live f =
      rw (live, drive_step) (ap (after_observe rt save step) f)

  pub drive_from-eq :
      (i : ℕ) (step : Step W) (rest : List (Step W)) (obs : Observation) (env after : Env W)
      → rt.cancelled env.world ≡ none
      → step.observe env ≡ (ok obs, after)
      → drive_from rt save none i (step ∷ rest) env
        ≡ follow
            (after_observe rt save step (ok obs, after))
            (λ env'. drive_from rt save none (i + 1) rest env')
  unfolding drive_from
  drive_from-eq i step rest obs env after live f =
      ap (λ v. follow v (λ env'. drive_from rt save none (i + 1) rest env'))
        (drive_step-eq i step obs env after live f)

  pub after_observe-blocked :
      (step : Step W) (obs : Observation) (env : Env W)
      → is_empty obs.blocked ≡ false
      → after_observe rt save step (ok obs, env) ≡ (
        stop
            (record { step = step.name; observation = obs } ∷ [])
            (blocked_error step.name obs.blocked),
        record_stop rt save step.name (codes "blocked: " ++ obs.blocked) env,
      )
  unfolding after_observe
  after_observe-blocked step obs env b = if_true _ _ (ap not b)

  pub after_observe-waiting :
      (step : Step W) (obs : Observation) (env : Env W)
      → is_empty obs.blocked ≡ true
      → obs.waiting ≡ true
      → after_observe rt save step (ok obs, env) ≡ (
        stop (record { step = step.name; observation = obs } ∷ []) waiting,
        record_stop rt save step.name (codes "waiting: " ++ obs.detail) env,
      )
  unfolding after_observe
  after_observe-waiting step obs env b a = if_false _ _ (ap not b) ∙ if_true _ _ a

  pub after_observe-satisfied :
      (step : Step W) (obs : Observation) (env : Env W)
      → cleanly_satisfied obs ≡ true
      → after_observe rt save step (ok obs, env)
        ≡ pass rt save step.name obs (codes "already satisfied: " ++ obs.detail) env
  unfolding after_observe
  after_observe-satisfied step obs env c =
      let (s, a, b) = clean_parts obs c in
      if_false _ _ (ap not b) ∙ (if_false _ _ a ∙ if_false _ _ (ap not s))

-- ===== src/Engine/Lists.antt =====
-- internal/engine/lists.go: which steps, in what order, for which mode. The steps themselves are
-- given; what they are wired to is a part of them.
use hoist.Prelude.{Bool, List, [], ◌∷◌, ◌++◌, if◌then◌else◌}
use hoist.Engine.State.{PromotionState, Step}
use hoist.Engine.Landing.{guard_landed}
use hoist.Engine.Gate.{DirectCommitGate, gate_step}

-- The steps that the constructors put together.
pub record Wiring (W : Type 0) : Type 0 where
  pub branched : Step W
  pub committed : Step W
  pub pushed : Step W
  pub pr_opened : Step W
  pub ci_green : Step W
  pub approved : Step W
  pub merged : Step W
  pub direct_pushed : Step W
  pub argo_refreshed : Step W
  pub argo_synced : Step W
  pub rolled_out : Step W

module _ {W : Type 0} (x : Wiring W) where
  unfoldable pub steps : List (Step W)
  steps =
      guard_landed x.branched x.merged
      ∷ guard_landed x.committed x.merged
      ∷ guard_landed x.pushed x.merged
      ∷ x.pr_opened
      ∷ []

  unfoldable pub core_steps : List (Step W)
  unfolding steps
  core_steps = steps ++ (x.ci_green ∷ x.approved ∷ x.merged ∷ [])

  unfoldable pub converge_steps : List (Step W)
  converge_steps = x.argo_refreshed ∷ x.argo_synced ∷ x.rolled_out ∷ []

  unfoldable pub all_steps : List (Step W)
  unfolding core_steps converge_steps
  all_steps = core_steps ++ converge_steps

  unfoldable pub direct_steps : DirectCommitGate → List (Step W)
  direct_steps gate =
      gate_step gate
      ∷ guard_landed x.branched x.direct_pushed
      ∷ guard_landed x.committed x.direct_pushed
      ∷ x.direct_pushed
      ∷ []

  unfoldable pub all_direct_steps : DirectCommitGate → List (Step W)
  unfolding direct_steps converge_steps
  all_direct_steps gate = direct_steps gate ++ converge_steps

  -- ObserveSteps; `through` is false when neither argo nor rollout is given.
  unfoldable pub observe_steps : PromotionState → Bool → List (Step W)
  unfolding core_steps converge_steps
  observe_steps s through =
      let core =
        if s.direct
        then guard_landed x.branched x.direct_pushed
          ∷ guard_landed x.committed x.direct_pushed
          ∷ x.direct_pushed
          ∷ []
        else core_steps in
      if through then core ++ converge_steps else core

  unfoldable pub steps_for : PromotionState → DirectCommitGate → List (Step W)
  unfolding all_direct_steps all_steps
  steps_for s gate = if s.direct then all_direct_steps gate else all_steps

-- ===== src/Engine/Policy.antt =====
-- internal/engine/policy.go: how long a drive waits, and which errors it tries again.
pub mod Retry
use hoist.Prelude.{
  ℕ, Bool, true, false, not, ◌&&◌, ◌||◌, Option, none, some, text_eq, if◌then◌else◌,
}
use hoist.Engine.StepName.{StepName}
use hoist.Engine.StepName
use hoist.Engine.Errors.{
  Err, plain, wrapped, argo_not_found, rollout_not_found, waiting, blocked_error, act_blocked,
  step_error, landing_unknown, as_landing_unknown, as_step_error,
}

-- In nanoseconds.
pub record PollIntervals : Type 0 where
  pub ci : ℕ
  pub approval : ℕ
  pub argo : ℕ
  pub rollout : ℕ

unfoldable pub poll_interval : PollIntervals → StepName → ℕ
poll_interval p phase =
    if text_eq phase StepName.ci_green
    then p.ci
    else if text_eq phase StepName.approved
    then p.approval
    else if text_eq phase StepName.argo_refreshed || text_eq phase StepName.argo_synced
    then p.argo
    else if text_eq phase StepName.rolled_out
    then p.rollout
    else 2000000000

-- IsNotFound: one of the two sentinels, anywhere down the chain.
unfoldable pub is_not_found : Err → Bool
is_not_found argo_not_found = true
is_not_found rollout_not_found = true
is_not_found (wrapped t e) = is_not_found e
is_not_found (step_error step op e) = is_not_found e
is_not_found (landing_unknown step e) = is_not_found e
is_not_found _ = false

unfoldable pub retryable_step : StepName → Bool
retryable_step step =
    text_eq step StepName.ci_green
    || (text_eq step StepName.approved
        || (text_eq step StepName.argo_refreshed
            || (text_eq step StepName.argo_synced || text_eq step StepName.rolled_out)))

abbrev retry_step : Option (StepName × Err) → Bool
retry_step none = false
retry_step (some (step, e)) = if not (retryable_step step) then false else not (is_not_found e)

abbrev retry_landing : Option Err → Bool → Bool
retry_landing none other = other
retry_landing (some e) other = not (is_not_found e)

unfoldable pub retryable : Err → Bool
retryable e = retry_landing (as_landing_unknown e) (retry_step (as_step_error e))

-- ===== src/Engine/Errors.antt =====
-- The errors that the engine makes, wraps and classifies: internal/engine/engine.go,
-- landed_guard.go and policy.go. `Unwrap` is a part of the value.
use hoist.Prelude.{Bool, true, false, ◌++◌, Text, codes, Option, none, some}
use hoist.Engine.StepName.{StepName}

pub data Op : Type 0 where
  observing acting : Op

-- `plain` stands for every error with a text of its own and nothing under it, `wrapped` for
-- fmt.Errorf("<text>%w", …).
pub data Err : Type 0 where
  plain : Text → Err
  wrapped : Text → Err → Err
  argo_not_found : Err
  rollout_not_found : Err
  merge_refused : Err
  waiting : Err
  blocked_error : StepName → Text → Err
  act_blocked : Text → Err
  step_error : StepName → Op → Err → Err
  landing_unknown : StepName → Err → Err

abbrev pub op_text : Op → Text
op_text observing = codes "observe"
op_text acting = codes "act"

-- Error().
unfoldable pub error_text : Err → Text
error_text (plain t) = t
error_text (wrapped t e) = t ++ error_text e
error_text argo_not_found = codes "argo: application not found"
error_text rollout_not_found = codes "rollout: object not found"
error_text merge_refused = codes "forge: the forge refused the merge"
error_text waiting = codes "engine: waiting"
error_text (blocked_error step reason) = step ++ (codes ": blocked: " ++ reason)
error_text (act_blocked reason) = reason
error_text (step_error step op e) =
    step ++ (codes ": " ++ (op_text op ++ (codes ": " ++ error_text e)))
error_text (landing_unknown step e) =
    codes "could not confirm this promotion is still landed ("
    ++ (step ++ (codes ": observe: " ++ (error_text e ++ codes "); nothing was redone")))

-- errors.As(err, *ActBlockedError): the first one down the chain.
unfoldable pub as_act_blocked : Err → Option Text
as_act_blocked (act_blocked reason) = some reason
as_act_blocked (wrapped t e) = as_act_blocked e
as_act_blocked (step_error step op e) = as_act_blocked e
as_act_blocked (landing_unknown step e) = as_act_blocked e
as_act_blocked _ = none

-- errors.As(err, *LandingUnknownError): the error that it holds.
unfoldable pub as_landing_unknown : Err → Option Err
as_landing_unknown (landing_unknown step e) = some e
as_landing_unknown (wrapped t e) = as_landing_unknown e
as_landing_unknown (step_error step op e) = as_landing_unknown e
as_landing_unknown _ = none

-- errors.As(err, *StepError).
unfoldable pub as_step_error : Err → Option (StepName × Err)
as_step_error (step_error step op e) = some (step, e)
as_step_error (wrapped t e) = as_step_error e
as_step_error (landing_unknown step e) = as_step_error e
as_step_error _ = none

-- errors.Is(err, forge.ErrMergeRefused).
unfoldable pub is_merge_refused : Err → Bool
is_merge_refused merge_refused = true
is_merge_refused (wrapped t e) = is_merge_refused e
is_merge_refused (step_error step op e) = is_merge_refused e
is_merge_refused (landing_unknown step e) = is_merge_refused e
is_merge_refused _ = false

-- A call that may fail.
pub data Result {ℓ} (A : Type ℓ) : Type ℓ where
  ok : A → Result A
  err : Err → Result A

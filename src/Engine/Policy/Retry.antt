-- ===== src/Engine/Policy/Retry.antt =====
-- Which errors a drive loop tries again.
use hoist.Prelude.{List, [], ◌∷◌}
use hoist.Engine.StepName.{StepName}
use hoist.Engine.StepName

-- The steps that poll a remote.
abbrev pub polling : List StepName
polling =
    StepName.ci_green ∷ StepName.approved ∷ StepName.argo_refreshed ∷ StepName.argo_synced
    ∷ StepName.rolled_out ∷ []

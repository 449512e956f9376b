-- ===== src/Engine/StepName.antt =====
-- The names of the steps: internal/engine/engine.go, steps_review.go, steps_converge.go and
-- direct.go.
use hoist.Prelude.{Text, codes}

-- A step's name is a Go string; the constants are below.
abbrev pub StepName : Type 0
StepName = Text

abbrev pub branched : StepName
branched = codes "branched"

abbrev pub committed : StepName
committed = codes "committed"

abbrev pub pushed : StepName
pushed = codes "pushed"

abbrev pub pr_opened : StepName
pr_opened = codes "pr-opened"

abbrev pub ci_green : StepName
ci_green = codes "ci-green"

abbrev pub approved : StepName
approved = codes "approved"

abbrev pub merged : StepName
merged = codes "merged"

abbrev pub argo_refreshed : StepName
argo_refreshed = codes "argo-refreshed"

abbrev pub argo_synced : StepName
argo_synced = codes "argo-synced"

abbrev pub rolled_out : StepName
rolled_out = codes "rolled-out"

abbrev pub direct_gate : StepName
direct_gate = codes "direct-gate"

abbrev pub direct_pushed : StepName
direct_pushed = codes "direct-pushed"

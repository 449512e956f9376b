-- ===== src/Lib.antt =====
-- hoist: promotion of image references between the environments of a GitOps repository.
--
-- A promotion is driven by a list of steps, each of which observes the world and acts if it must
-- (internal/engine). A plan says which image scalars of which manifests change (pkg/gitops), over
-- references that are well formed and pinned (pkg/image); the rollout that follows is read from the
-- cluster (pkg/rollout), and texts are stripped of secrets before they are kept (pkg/redact). These
-- modules model those parts:
--
--   Engine/StepName, Errors, State  internal/engine/engine.go, state.go: the names, error values,
--                                   PromotionState, Observation and Step
--   Engine/History                  engine.go: appendHistory and its rules for repeats;
--                                   state.go: CompactHistory, LastActivity
--   Engine/Drive                    engine.go: DriveStatus and Drive
--   Engine/Observe                  engine.go: ObserveAll and Status
--   Engine/Landing                  landed_guard.go: guardLanded and a walk's landing memo
--   Engine/Gate, Engine/Lists       direct.go: DirectCommitGateStep; lists.go
--   Engine/Policy                   policy.go
--   Engine/Review                   steps_review.go: the CI gate, the approval gate and its commands
--   Engine/OwnPr, Reverted, Merge   steps_review.go: findOwnPR, notThisRunsMerge, mergeWasReverted and
--                                   MergedStep
--   Engine/Write                    steps_git.go: BranchedStep, PushedStep and PROpenedStep
--   Engine/Identity                 identity.go
--   Engine/Action, Engine/Remote    the methods' effects, and what they call of git and the forge
--   Forge                           pkg/forge/forge.go: Summarize
--   Image, Gitops, Redact, Rollout  pkg/image, pkg/gitops, pkg/redact, pkg/rollout
--   Gitops/Promote                  pkg/gitops/plan.go: BuildPlanWith, timestampTag, the warnings
--   Gitops/Apply, Gitops/Verify     pkg/gitops/apply.go: ApplyBytes; verify.go: verifyLines
--   Resolve                         pkg/resolve/resolve.go: choosePods, resolveRepo and Resolve
--   Examples                        the theorems at concrete inputs
--
-- How the code is carried over. A Go string is its list of bytes, and a time or a duration is a
-- number of nanoseconds. A step's method is a function on Env: the world outside the process, of any
-- type, the walk's landing memo where the context carries one, and the promotion's state, each of
-- which it may change; it returns an error value or an answer with the changed Env. So a walk is a
-- function, its loop is structural recursion on the list of steps, and a theorem about a walk holds
-- for every world and every step. The clock, the registered secrets and the context's end are read of
-- the world through Runtime. The forge and git are asked through Queries, a record of functions; one
-- observation of a gate reads one world. The steps that write call git and the forge through Remote, whose
-- functions also change the world, in the order in which the code calls them; what was changed before
-- an error stays changed. A map is an association list, in the order of the iteration where the
-- code iterates. An optional pointer is an Option, and an error that is returned alone is an Option or
-- a sum with its text. Regular expressions are scanners for the same language on texts of ASCII.
-- Kubernetes objects are records of the fields that are read; their counts are never negative, and a
-- printed int32 sum wraps around. A file is its text, split at the newlines, and a column is counted in runes as utf8.DecodeRune cuts
-- them. yaml.v3's style constants are parameters. No definition uses fuel but
-- the decimal printer, whose fuel is the number that it prints plus one.
--
-- The registry that a resolution asks is a function from references to answers, and the cluster one from
-- namespaces to the images that run; image.Canonical, which a library computes, is a parameter.
--
-- Not modelled: the commit and the direct push, the convergence steps, the files that an application
-- writes and the comparison of YAML trees, the parsing of Resolve's order, state files, the configuration, and everything whose content is calls of git, HTTP, Kubernetes
-- or the terminal.
pub mod Prelude
pub mod Redact
pub mod Image
pub mod Gitops
pub mod Engine
pub mod Forge
pub mod Resolve
pub mod Rollout
pub mod Examples

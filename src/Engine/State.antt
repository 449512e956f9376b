-- ===== src/Engine/State.antt =====
-- internal/engine/state.go and engine.go: a promotion's state, what a step observes, and a step.
-- Times are numbers of nanoseconds, and durations too.
use hoist.Prelude.{ℕ, Bool, true, false, not, ◌&&◌, List, Option, Text, codes, is_empty}
use hoist.Gitops.Types.{Edit}
use hoist.Engine.StepName.{StepName}
use hoist.Engine.Errors.{Err, Result}

-- forge.PR.
pub record Pr : Type 0 where
  pub number : ℕ
  pub url : Text
  pub head_branch : Text
  pub head_sha : Text
  pub base : Text
  pub merged : Bool
  pub merge_sha : Text
  pub created_at : ℕ
  pub closed : Bool

pub record HistoryEntry : Type 0 where
  pub step : StepName
  pub at : ℕ
  pub detail : Text

-- The maps are association lists.
pub record PromotionState : Type 0 where
  pub id : Text
  pub repo_full_name : Text
  pub source_env : Text
  pub target_env : Text
  pub branch : Text
  pub expected_blobs : List (Text × Text)
  pub commit_sha : Text
  pub pushed_sha : Text
  pub pr : Option Pr
  pub direct : Bool
  pub phase : StepName
  pub history : List HistoryEntry
  pub generated_at : ℕ
  pub clone_dir : Text
  pub worktree_dir : Text
  pub base : Text
  pub edits : List Edit
  pub commit_message : Text
  pub pr_title : Text
  pub pr_body : Text
  pub ci_none : Text
  pub ci_grace : ℕ
  pub ci_settle : ℕ
  pub ci_ignore : List Text
  pub ci_none_override : Bool
  pub approval : Text
  pub approvers : List Text
  pub collaborators : Bool
  pub merge_sha : Text
  pub argo_namespace : Text
  pub argo_apps : List Text
  pub edit_apps : List (Text × Text)

pub record Observation : Type 0 where
  pub satisfied : Bool
  pub waiting : Bool
  pub detail : Text
  pub blocked : Text
  pub superseded : Bool

-- Observation{}: every field at its zero value.
abbrev pub zero_observation : Observation
zero_observation = record {
  satisfied = false;
  waiting = false;
  detail = codes "";
  blocked = codes "";
  superseded = false;
}

abbrev pub satisfied_by : Text → Observation
satisfied_by d = record zero_observation { satisfied = true; detail = d }

abbrev pub waiting_for : Text → Observation
waiting_for d = record zero_observation { waiting = true; detail = d }

abbrev pub blocked_by : Text → Observation
blocked_by d = record zero_observation { blocked = d }

abbrev pub unsatisfied_as : Text → Observation
unsatisfied_as d = record zero_observation { detail = d }

unfoldable pub cleanly_satisfied : Observation → Bool
cleanly_satisfied o = o.satisfied && (not o.waiting && is_empty o.blocked)

pub record StepStatus : Type 0 where
  pub step : StepName
  pub observation : Observation

-- What a walk knows about whether its promotion has landed; an unknown landing holds the error
-- of the lookup that failed.
pub data LandingAnswer : Type 0 where
  landing_no landing_yes : LandingAnswer
  landing_unknown : Err → LandingAnswer

-- `none`: nothing is known yet.
abbrev pub LandingWalk : Type 0
LandingWalk = Option LandingAnswer

-- What a step's method may read and change: the world outside the process (the remotes, the
-- worktree, the clock), the walk's memo if the context carries one, and the promotion's state.
pub record Env (W : Type 0) : Type 0 where
  pub world : W
  pub walk : Option LandingWalk
  pub state : PromotionState

pub record Step (W : Type 0) : Type 0 where
  pub name : StepName
  pub observe : Env W → Result Observation × Env W
  pub act : Env W → Option Err × Env W

-- What a walk reads of the process around it: the clock, the registered secrets (pkg/redact), and
-- whether its context is over (ctx.Err).
pub record Runtime (W : Type 0) : Type 0 where
  pub now : W → ℕ
  pub registered : W → List Text
  pub cancelled : W → Option Err

-- ===== src/Examples/Fixtures.antt =====
-- A promotion, steps and a clock to run the engine's definitions on. The world is the time.
use hoist.Prelude.{ℕ, ◌+◌, false, List, [], ◌∷◌, none, some, codes, ltb, if◌then◌else◌}
use hoist.Engine.StepName.{StepName}
use hoist.Engine.StepName
use hoist.Engine.Errors.{ok}
use hoist.Engine.State.{
  Pr, PromotionState, Observation, satisfied_by, waiting_for, unsatisfied_as, Env, Step, Runtime,
}

abbrev pub clock : Runtime ℕ
clock = record { now = λ w. w; registered = λ w. []; cancelled = λ w. none }

abbrev pub opened_pr : Pr
opened_pr = record {
  number = 7;
  url = codes "https://example.com/7";
  head_branch = codes "hoist/ab";
  head_sha = codes "c1";
  base = codes "main";
  merged = false;
  merge_sha = codes "";
  created_at = 5;
  closed = false;
}

abbrev pub promotion : PromotionState
promotion = record {
  id = codes "ab";
  repo_full_name = codes "example/gitops";
  source_env = codes "dev";
  target_env = codes "prod";
  branch = codes "hoist/ab";
  expected_blobs = [];
  commit_sha = codes "c1";
  pushed_sha = codes "c1";
  pr = some opened_pr;
  direct = false;
  phase = codes "";
  history = [];
  generated_at = 1;
  clone_dir = codes "/clone";
  worktree_dir = codes "/worktree";
  base = codes "main";
  edits = [];
  commit_message = codes "m";
  pr_title = codes "t";
  pr_body = codes "b";
  ci_none = codes "";
  ci_grace = 0;
  ci_settle = 0;
  ci_ignore = [];
  ci_none_override = false;
  approval = codes "comment";
  approvers = codes "ann" ∷ [];
  collaborators = false;
  merge_sha = codes "";
  argo_namespace = codes "argocd";
  argo_apps = [];
  edit_apps = [];
}

abbrev pub start : Env ℕ
start = record { world = 0; walk = none; state = promotion }

-- A step that always observes the same, and whose Act does nothing.
abbrev pub fixed : StepName → Observation → Step ℕ
fixed name obs = record { name = name; observe = λ env. (ok obs, env); act = λ env. (none, env) }

-- A step that is satisfied once the clock has moved; its Act moves it.
abbrev pub writer : StepName → Step ℕ
writer name = record {
  name = name;
  observe = λ env. (
    ok (if ltb 0 env.world then satisfied_by (codes "there") else unsatisfied_as (codes "missing")),
    env,
  );
  act = λ env. (none, record env { world = env.world + 1 });
}

-- One step to do, one done, one to wait for.
abbrev pub three_steps : List (Step ℕ)
three_steps =
    writer StepName.branched
    ∷ fixed StepName.committed (satisfied_by (codes "there"))
    ∷ fixed StepName.approved (waiting_for (codes "nobody"))
    ∷ []

-- ===== src/Examples/Merges.antt =====
-- The steps that write, over a forge and a clone that answer as they would for one promotion. The
-- world counts the calls.
use hoist.Prelude.{
  ℕ, ◌+◌, ◌≡◌, refl, true, false, [], ◌∷◌, none, some, codes, All, map, if◌then◌else◌, decimal,
}
use hoist.Engine.StepName
use hoist.Engine.StepName.{StepName}
use hoist.Engine.Errors.{ok}
use hoist.Engine.State.{Pr, PromotionState, Env, Observation, satisfied_by}
use hoist.Engine.Action.{and_then, on_error}
use hoist.Engine.Remote.{Remote}
use hoist.Engine.Review.Ci.{expected_head}
use hoist.Engine.OwnPr.{origin, find_own_pr, is_other_head, not_this_runs_merge}
use hoist.Engine.Reverted.{merge_was_reverted}
use hoist.Engine.Merge.{merged_observation, is_replaced}
use hoist.Engine.Merge.Landed.{Landing, merged_observation-Landing}
use hoist.Engine.Merge.Act.{merged_act, merge_own, delete_branch, is_own_merge}
use hoist.Engine.Merge.Act.Merging.{Merging, merged_act-Merging}
use hoist.Engine.Write.{pr_opened_observation, pushed_act, pushed_observation}
use hoist.Engine.Write.Opened.{Adopted, pr_opened_observation-Adopted}
use hoist.Engine.Write.Sent.{pushed_act-settles}
use hoist.Engine.Lists.{all_steps}
use hoist.Engine.Drive.{drive_status}
use hoist.Engine.Drive.Trace.{inner, log_of, traced, traced_save, traced_runtime}
use hoist.Engine.Drive.Gated.{Guarded}
use hoist.Engine.Drive.Gated.Promotion.{Names, all_steps-Guarded}
use hoist.Examples.Fixtures.{clock, opened_pr, promotion, start}
use hoist.Examples.Gates.{wiring}

abbrev merged_pr : Pr
merged_pr = record opened_pr { merged = true; merge_sha = codes "m1" }

-- The PR of a promotion that merged, or is still open.
abbrev pub hub : Pr → Remote ℕ
hub pr = record {
  find_pr = λ branch marker w. (ok (some pr), w + 1);
  get_pr = λ n w. (ok (some pr), w + 1);
  create_pr = λ spec w. (ok pr, w + 1);
  merge_pr = λ n head w. (ok merged_pr, w + 1);
  worktree_branch = λ clone dir w. (ok (some (codes "hoist/ab")), w + 1);
  worktree = λ clone dir branch base w. (ok tt, w + 1);
  rev_parse = λ dir rev w. (ok (some (codes "c1")), w + 1);
  ls_tree_blob = λ dir rev path w. (ok none, w + 1);
  diff_name_only = λ dir from to w. (ok [], w + 1);
  push = λ dir remote branch w. (ok tt, w + 1);
  ls_remote_branch =
      λ dir remote branch w. (ok (if pr.merged then none else some (codes "c1")), w + 1);
  fetch_branch = λ dir remote branch w. (ok (some (codes "t1")), w + 1);
  object_exists = λ dir sha w. (ok true, w + 1);
  is_shallow = λ dir w. (ok false, w + 1);
  is_ancestor = λ dir sha tip w. (ok true, w + 1);
  delete_remote_branch = λ dir remote branch w. (ok tt, w + 1);
}

abbrev landed : Env ℕ
landed = record start {
  world = 5;
  state = record promotion { pr = some merged_pr; merge_sha = codes "m1" };
}

merged_observation-Landing_example : Landing (hub merged_pr) start landed
unfolding merged_observation and_then on_error find_own_pr is_other_head not_this_runs_merge
    merge_was_reverted is_replaced expected_head
merged_observation-Landing_example =
    merged_observation-Landing (hub merged_pr) (satisfied_by (codes "merged as m1; branch deleted"))
      start landed refl refl

abbrev promotion_merged : PromotionState
promotion_merged = record promotion { pr = some merged_pr; merge_sha = codes "m1" }

merged_act-Merging_example :
    (pr : Pr) × (deleting : Env ℕ) × (start.state.pr ≡ some pr)
    × Merging (hub opened_pr) pr start deleting
    × ((hub opened_pr).delete_remote_branch start.state.clone_dir origin start.state.branch
          deleting.world
        ≡ (ok tt, 2))
    × (promotion_merged ≡ deleting.state)
unfolding merged_act and_then on_error merge_own delete_branch is_own_merge is_other_head
    expected_head
merged_act-Merging_example =
    merged_act-Merging (hub opened_pr) start (record start { world = 2; state = promotion_merged })
      refl

pr_opened_observation-Adopted_example : Adopted (hub opened_pr) start (record start { world = 1 })
unfolding pr_opened_observation and_then on_error find_own_pr not_this_runs_merge decimal
pr_opened_observation-Adopted_example =
    pr_opened_observation-Adopted (hub opened_pr)
      (satisfied_by (codes "PR #7 already exists (https://example.com/7)")) start
      (record start { world = 1 }) refl refl

pushed_act-settles_example :
    ((hub opened_pr).push start.state.worktree_dir origin start.state.branch 0 ≡ (ok tt, 1))
    × (promotion ≡ record promotion { pushed_sha = promotion.commit_sha })
    × ((v w : ℕ)
        → (hub opened_pr).ls_remote_branch start.state.clone_dir origin start.state.branch v
          ≡ (ok (some (codes "c1")), w)
        → (obs : Observation) × (pushed_observation (hub opened_pr) (record start { world = v })
            ≡ (ok obs, record start { world = w }))
          × (obs.satisfied ≡ true))
unfolding pushed_act and_then on_error
pushed_act-settles_example =
    pushed_act-settles (hub opened_pr) start (record start { world = 1 }) refl

abbrev named : Names wiring
named = record {
  branched = refl;
  committed = refl;
  pushed = refl;
  pr_opened = refl;
  ci_green = refl;
  approved = refl;
  merged = refl;
  argo_refreshed = refl;
  argo_synced = refl;
  rolled_out = refl;
}

all_steps-Guarded_example :
    All
      (λ (gate : StepName). Guarded gate StepName.merged (
        log_of
          (drive_status
            (traced_runtime clock)
            (traced_save none)
            (map traced (all_steps wiring))
            (inner [] start)).1))
      (StepName.pushed ∷ StepName.pr_opened ∷ StepName.ci_green ∷ StepName.approved ∷ [])
all_steps-Guarded_example = all_steps-Guarded wiring named clock none start

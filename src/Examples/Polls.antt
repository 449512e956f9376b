-- ===== src/Examples/Polls.antt =====
-- Two polls of a promotion whose PR waits for an approval.
use hoist.Prelude.{ℕ, ◌+◌, ◌≡◌, refl, List, [], ◌∷◌, none, some, Text, codes, decimal}
use hoist.Redact.{strings}
use hoist.Engine.StepName
use hoist.Engine.Errors.{ok}
use hoist.Engine.State.{satisfied_by, waiting_for, cleanly_satisfied, Step}
use hoist.Engine.Action.{and_then, on_error}
use hoist.Engine.OwnPr.{find_own_pr, not_this_runs_merge}
use hoist.Engine.History.{is_stopping_detail}
use hoist.Engine.History.Repeats.{Said, stopped_at, passed}
use hoist.Engine.Review.{Queries}
use hoist.Engine.Review.Approval.{
  approved_step, approved_observation, decide_since, decide_comments, decide, all_comments,
  no_votes, decide_votes,
}
use hoist.Engine.Write.{
  branched_step, pushed_step, pr_opened_step, branched_observation, pushed_observation,
  pr_opened_observation, is_other_commit,
}
use hoist.Engine.Drive.{Save, drive_status, probe_index, index_of}
use hoist.Engine.Drive.Quiet.{Says, drive_status-quiet}
use hoist.Examples.Fixtures.{clock, opened_pr, promotion}
use hoist.Examples.Gates.{queries}
use hoist.Examples.Merges.{hub}

-- Nobody has commented yet.
abbrev silent : Queries ℕ
silent = record queries { comments = λ w number since. ok [] }

abbrev polled : List (Step ℕ)
polled =
    branched_step (hub opened_pr)
    ∷ pushed_step (hub opened_pr)
    ∷ pr_opened_step (hub opened_pr)
    ∷ approved_step silent
    ∷ []

-- A save takes time.
abbrev saving : Save ℕ
saving = some (λ env. (none, record env { world = env.world + 1 }))

abbrev there : Text
there = codes "worktree already present at /worktree on hoist/ab"

abbrev on_origin : Text
on_origin = codes "origin/hoist/ab is already at c1"

abbrev opened : Text
opened = codes "PR #7 already exists (https://example.com/7)"

abbrev nobody : Text
nobody = codes "waiting for `hoist approve ab` from an approver"

abbrev heard : Said
heard =
    passed StepName.branched
      (codes "already satisfied: worktree already present at /worktree on hoist/ab")
      (passed StepName.pushed (codes "already satisfied: origin/hoist/ab is already at c1") (
        passed StepName.pr_opened
          (codes "already satisfied: PR #7 already exists (https://example.com/7)")
          (stopped_at StepName.approved
            (codes "waiting: waiting for `hoist approve ab` from an approver"))))

says : (w : ℕ) → Says clock saving (λ v. v + 1) promotion w polled heard
unfolding branched_step pushed_step pr_opened_step approved_step branched_observation
    pushed_observation pr_opened_observation is_other_commit and_then on_error find_own_pr
    not_this_runs_merge decimal approved_observation decide_since decide_comments decide
    all_comments no_votes decide_votes cleanly_satisfied strings
says w =
    Says.on (satisfied_by there) (w + 1) refl (λ memo phase h. (memo, refl)) refl
      (Says.on (satisfied_by on_origin) (w + 1 + 1 + 1) refl (λ memo phase h. (memo, refl)) refl
        (Says.on (satisfied_by opened) (w + 1 + 1 + 1 + 1 + 1) refl (λ memo phase h. (memo, refl))
          refl
          (Says.at_wait (waiting_for nobody) (w + 1 + 1 + 1 + 1 + 1 + 1) refl
            (λ memo phase h. (memo, refl)) refl refl)))

drive_status-quiet_example :
    let first =
      (drive_status clock saving polled (record { world = 0; walk = none; state = promotion })).1 in
    (drive_status clock saving polled (record first { world = 100 })).1.state.history
    ≡ first.state.history
unfolding probe_index index_of drive_status is_stopping_detail branched_step pushed_step
    pr_opened_step approved_step
drive_status-quiet_example =
    drive_status-quiet clock saving (λ v. v + 1) promotion (λ env. refl) none (says 0)
      (
        (refl, refl),
        (refl, (refl, refl)),
        ((refl, refl), (refl, refl), ((refl, refl), refl, (refl, refl))),
      )
      refl 100 (says 100) refl

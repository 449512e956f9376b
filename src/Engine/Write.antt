-- ===== src/Engine/Write.antt =====
-- internal/engine/steps_git.go: BranchedStep, PushedStep and PROpenedStep.
pub mod Opened
pub mod Sent
use hoist.Prelude.{
  Bool, true, false, not, ◌&&◌, [], ◌∷◌, ◌++◌, Option, none, some, Text, codes, em_dash, text_eq,
  is_empty, decimal, quoted, concat, if◌then◌else◌,
}
use hoist.Engine.StepName
use hoist.Engine.Errors.{Err, wrapped, Result, ok, err}
use hoist.Engine.State.{
  Pr, PromotionState, Observation, satisfied_by, blocked_by, zero_observation, unsatisfied_as, Step,
}
use hoist.Engine.Action.{
  Action, pure, fail, call, attempt, with_state, setting, ◌>>=◌, ◌>>◌, error_of,
}
use hoist.Engine.Remote.{Remote}
use hoist.Engine.OwnPr.{origin, numbered, not_this_runs_merge, find_own_pr}

judge_worktree : PromotionState → Option Text → Observation
judge_worktree s none = zero_observation
judge_worktree s (some branch) =
    if not (text_eq branch s.branch)
    then unsatisfied_as (
        concat (
          codes "worktree at "
          ∷ s.worktree_dir
          ∷ codes " is registered on "
          ∷ quoted branch
          ∷ codes ", not "
          ∷ quoted s.branch
          ∷ codes "; will be recreated"
          ∷ []))
    else satisfied_by (
        concat
          (codes "worktree already present at " ∷ s.worktree_dir ∷ codes " on " ∷ s.branch ∷ []))

moved_branch_text : PromotionState → Text → Text
moved_branch_text s remote_sha = concat (
    codes "origin/"
    ∷ s.branch
    ∷ codes " is already at "
    ∷ remote_sha
    ∷ codes ", but this promotion's commit is "
    ∷ s.commit_sha
    ∷ codes " "
    ∷ em_dash
    ∷ codes
        " something else moved this branch; refusing to force-push. Delete or fast-forward it manually if that was intentional."
    ∷ [])

abbrev pub already_at : PromotionState → Text → Observation
already_at s remote_sha =
    satisfied_by (concat (codes "origin/" ∷ s.branch ∷ codes " is already at " ∷ remote_sha ∷ []))

-- The commit is known, and the remote holds another one.
unfoldable pub is_other_commit : PromotionState → Text → Bool
is_other_commit s remote_sha = not (is_empty s.commit_sha) && not (text_eq remote_sha s.commit_sha)

-- What a failed push is reported as, after a look at the remote.
push_error : PromotionState → Err → Result (Option Text) → Err
push_error s e (ok (some remote_sha)) =
    if is_other_commit s remote_sha
    then wrapped
        (concat (
          codes "push rejected: origin/"
          ∷ s.branch
          ∷ codes " is at "
          ∷ remote_sha
          ∷ codes ", this promotion's commit is "
          ∷ s.commit_sha
          ∷ codes " "
          ∷ em_dash
          ∷ codes " treating this as a real conflict, not retrying with --force: "
          ∷ []))
        e
    else wrapped
        (concat
          (codes "git push (retryable " ∷ em_dash ∷ codes " check network and try again): " ∷ []))
        e
push_error s e other =
    wrapped
      (concat
        (codes "git push (retryable " ∷ em_dash ∷ codes " check network and try again): " ∷ []))
      e

wrong_base_text : PromotionState → Pr → Text
wrong_base_text s pr = concat (
    codes "found PR "
    ∷ numbered pr.number
    ∷ codes " for branch "
    ∷ s.branch
    ∷ codes ", but it targets base "
    ∷ quoted pr.base
    ∷ codes ", not "
    ∷ quoted s.base
    ∷ codes " "
    ∷ em_dash
    ∷ codes " refusing to adopt a PR aimed at a different base; resolve the conflicting PR manually"
    ∷ [])

dead_pr_text : PromotionState → Pr → Text
dead_pr_text s pr = concat (
    codes "found PR "
    ∷ numbered pr.number
    ∷ codes " for branch "
    ∷ s.branch
    ∷ codes ", but it was closed without merging "
    ∷ em_dash
    ∷ codes
        " refusing to adopt a dead PR; reopen it on GitHub, or open a new PR from the same branch with the same body (gh pr create --head "
    ∷ s.branch
    ∷ codes " --base "
    ∷ s.base
    ∷ codes " --title \"$(gh pr view "
    ∷ decimal pr.number
    ∷ codes " --json title -q .title)\" --body \"$(gh pr view "
    ∷ decimal pr.number
    ∷ codes
        " --json body -q .body)\") and re-run: hoist adopts the open one. Deleting the state file does not help "
    ∷ em_dash
    ∷ codes " a re-run derives the same id, branch and PR"
    ∷ [])

-- The PR is put on record, unless it is one that this run may not adopt.
adopt : {W : Type 0} → Pr → Option Text → Action W Observation
adopt pr blocked = with_state λ s.
    setting (record s { pr = some pr })
      (pure (elim blocked [
        | some text ↦ blocked_by text
        | none ↦ satisfied_by (
            concat (
              codes "PR "
              ∷ numbered pr.number
              ∷ codes " already exists ("
              ∷ pr.url
              ∷ codes ")"
              ∷ []))
      ]))

module _ {W : Type 0} (remote : Remote W) where
  -- BranchedStep.Observe.
  unfoldable pub branched_observation : Action W Observation
  unfolding judge_worktree
  branched_observation = with_state λ s. do
    branch ← call (remote.worktree_branch s.clone_dir s.worktree_dir)
    pure (judge_worktree s branch)

  -- BranchedStep.Act.
  unfoldable pub branched_act : Action W (Unit {0})
  branched_act = with_state λ s. call (remote.worktree s.clone_dir s.worktree_dir s.branch s.base)

  judge_pushed : Option Text → Action W Observation
  unfolding moved_branch_text
  judge_pushed none = pure zero_observation
  judge_pushed (some remote_sha) = with_state λ s.
      if is_other_commit s remote_sha
      then pure (blocked_by (moved_branch_text s remote_sha))
      else setting (record s { pushed_sha = remote_sha }) (pure (already_at s remote_sha))

  -- PushedStep.Observe.
  unfoldable pub pushed_observation : Action W Observation
  unfolding judge_pushed
  pushed_observation = with_state λ s. do
    remote_sha ← call (remote.ls_remote_branch s.clone_dir origin s.branch)
    judge_pushed remote_sha

  after_push : Result (Unit {0}) → Action W (Unit {0})
  unfolding push_error
  after_push (ok u) = with_state λ s. setting (record s { pushed_sha = s.commit_sha }) (pure tt)
  after_push (err e) = with_state λ s. do
    looked ← attempt (call (remote.ls_remote_branch s.clone_dir origin s.branch))
    fail (push_error s e looked)

  -- PushedStep.Act.
  unfoldable pub pushed_act : Action W (Unit {0})
  unfolding after_push
  pushed_act = with_state λ s. do
    answer ← attempt (call (remote.push s.worktree_dir origin s.branch))
    after_push answer

  judge_opened : Option Pr → Action W Observation
  unfolding adopt wrong_base_text dead_pr_text
  judge_opened none = pure zero_observation
  judge_opened (some pr) = with_state λ s.
      if not (text_eq pr.base s.base)
      then pure (blocked_by (wrong_base_text s pr))
      else if pr.closed
      then pure (blocked_by (dead_pr_text s pr))
      else let (blocked, s') = not_this_runs_merge s pr in setting s' (adopt pr blocked)

  -- PROpenedStep.Observe.
  unfoldable pub pr_opened_observation : Action W Observation
  unfolding judge_opened
  pr_opened_observation = do found ← find_own_pr remote; judge_opened found

  -- PROpenedStep.Act.
  unfoldable pub pr_opened_act : Action W (Unit {0})
  pr_opened_act = with_state λ s. do
    pr ← call (
        remote.create_pr
          (record { title = s.pr_title; body = s.pr_body; head = s.branch; base = s.base }))
    with_state λ s'. setting (record s' { pr = some pr }) (pure tt)

  unfoldable pub branched_step : Step W
  branched_step = record {
    name = StepName.branched;
    observe = branched_observation;
    act = λ env. error_of (branched_act env);
  }

  unfoldable pub pushed_step : Step W
  pushed_step = record {
    name = StepName.pushed;
    observe = pushed_observation;
    act = λ env. error_of (pushed_act env);
  }

  unfoldable pub pr_opened_step : Step W
  pr_opened_step = record {
    name = StepName.pr_opened;
    observe = pr_opened_observation;
    act = λ env. error_of (pr_opened_act env);
  }

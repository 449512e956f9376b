-- ===== src/Engine/OwnPr.antt =====
-- internal/engine/steps_review.go: findOwnPR and notThisRunsMerge.
pub mod Found
use hoist.Prelude.{
  ℕ, Bool, true, false, not, ◌&&◌, ◌||◌, List, [], ◌∷◌, ◌++◌, Option, none, some, Text, codes,
  em_dash, text_eq, is_empty, ltb, ◌==◌, decimal, quoted, concat, if◌then◌else◌,
}
use hoist.Engine.StepName
use hoist.Engine.Errors.{Err, plain, wrapped, act_blocked, is_merge_refused, Result, ok, err}
use hoist.Engine.State.{
  Pr, PromotionState, Observation, satisfied_by, blocked_by, zero_observation, unsatisfied_as, Env,
  Step,
}
use hoist.Engine.Identity.{marker}
use hoist.Engine.Action.{
  Action, pure, fail, call, failing_as, attempt, with_state, setting, ◌>>=◌, ◌>>◌, error_of,
}
use hoist.Engine.Remote.{Remote}
use hoist.Engine.Review.Ci.{expected_head}

abbrev pub origin : Text
origin = codes "origin"

-- A PR number for a message, with its sign.
abbrev pub numbered : ℕ → Text
numbered n = codes "#" ++ decimal n

-- The heads are known, and they differ.
unfoldable pub is_other_head : PromotionState → Pr → Bool
is_other_head s pr =
    not (is_empty (expected_head s))
    && (not (is_empty pr.head_sha) && not (text_eq pr.head_sha (expected_head s)))

foreign_merge_text : PromotionState → Pr → Text
foreign_merge_text s pr = concat (
    codes "PR "
    ∷ numbered pr.number
    ∷ codes " for branch "
    ∷ s.branch
    ∷ codes " was merged with head "
    ∷ pr.head_sha
    ∷ codes ", not this run's commit "
    ∷ expected_head s
    ∷ codes " "
    ∷ em_dash
    ∷ codes
        " either an earlier run's PR for this same set of images (hoist cannot open a second PR for an identical set yet, #41) or someone changed the branch before merging it. This run's own commit is not what merged. Check the env, then make the change by hand or retire this run with `hoist abandon "
    ∷ s.id
    ∷ codes " --confirm-abandon="
    ∷ s.id
    ∷ codes "` (it deletes this run's branch, worktree and state file; the merged PR is left alone)"
    ∷ [])

-- notThisRunsMerge: the text of the block, and the state, which no longer counts that merge as
-- this promotion's own.
unfoldable pub not_this_runs_merge : PromotionState → Pr → Option Text × PromotionState
unfolding foreign_merge_text
not_this_runs_merge s pr =
    if not pr.merged then (none, s) else if not (is_other_head s pr) then (none, s) else (
      some (foreign_merge_text s pr),
      (if not (is_empty s.merge_sha) && text_eq s.merge_sha pr.merge_sha
          then record s { merge_sha = codes "" }
          else s),
    )

module _ {W : Type 0} (remote : Remote W) where
  find_by_branch : Action W (Option Pr)
  find_by_branch = with_state λ s. do call (remote.find_pr s.branch (marker s.id))

  keep_recorded : Option Pr → Action W (Option Pr)
  unfolding find_by_branch
  keep_recorded none = find_by_branch
  keep_recorded (some pr) = with_state λ s. do
    if text_eq pr.head_branch s.branch && not pr.closed then pure (some pr) else find_by_branch

  find_from_record : Option Pr → Action W (Option Pr)
  unfolding find_by_branch keep_recorded
  find_from_record none = find_by_branch
  find_from_record (some pr) =
      if ltb 0 pr.number
      then (do found ← call (remote.get_pr pr.number); keep_recorded found)
      else find_by_branch

  -- findOwnPR.
  unfoldable pub find_own_pr : Action W (Option Pr)
  unfolding find_from_record
  find_own_pr = with_state λ s. do find_from_record s.pr

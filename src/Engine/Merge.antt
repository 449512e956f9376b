-- ===== src/Engine/Merge.antt =====
-- internal/engine/steps_review.go: MergedStep's Observe.
pub mod Act
pub mod Landed
use hoist.Prelude.{
  ℕ, Bool, true, false, not, ◌&&◌, ◌||◌, List, [], ◌∷◌, ◌++◌, Option, none, some, Text, codes,
  em_dash, text_eq, is_empty, ltb, ◌==◌, decimal, quoted, concat, if◌then◌else◌,
}
use hoist.Engine.StepName
use hoist.Engine.Errors.{Err, plain, wrapped, act_blocked, is_merge_refused, Result, ok, err}
use hoist.Engine.State.{
  Pr, PromotionState, Observation, satisfied_by, blocked_by, zero_observation, unsatisfied_as, Env,
  Step,
}
use hoist.Engine.Identity.{marker}
use hoist.Engine.Action.{
  Action, pure, fail, call, failing_as, attempt, with_state, setting, ◌>>=◌, ◌>>◌, error_of,
}
use hoist.Engine.Remote.{Remote}
use hoist.Engine.OwnPr.{origin, numbered, is_other_head, not_this_runs_merge, find_own_pr}
use hoist.Engine.Reverted.{merge_was_reverted}
use hoist.Engine.Review.Ci.{expected_head}

-- Another PR is on record.
unfoldable pub is_replaced : Option Pr → Pr → Bool
is_replaced none pr = false
is_replaced (some recorded) pr = ltb 0 recorded.number && not (recorded.number == pr.number)

replaced_text : PromotionState → Option Pr → Pr → Text
replaced_text s none pr = codes ""
replaced_text s (some recorded) pr = concat (
    codes "PR "
    ∷ numbered pr.number
    ∷ codes " replaced the recorded PR "
    ∷ numbered recorded.number
    ∷ codes " for branch "
    ∷ s.branch
    ∷ codes " since this pass began "
    ∷ em_dash
    ∷ codes " not merging until approval has been re-observed on "
    ∷ numbered pr.number
    ∷ codes " (R, or the next poll)"
    ∷ [])

moved_text : PromotionState → Pr → Text
moved_text s pr = concat (
    codes "PR "
    ∷ numbered pr.number
    ∷ codes "'s head is now "
    ∷ pr.head_sha
    ∷ codes ", but this promotion last observed "
    ∷ expected_head s
    ∷ codes " pushed "
    ∷ em_dash
    ∷ codes " something else moved the branch; refusing to merge"
    ∷ [])

other_base_text : PromotionState → Pr → Text
other_base_text s pr = concat (
    codes "PR "
    ∷ numbered pr.number
    ∷ codes " for branch "
    ∷ s.branch
    ∷ codes " targets base "
    ∷ quoted pr.base
    ∷ codes ", not "
    ∷ quoted s.base
    ∷ codes " "
    ∷ em_dash
    ∷ codes " refusing to merge a PR aimed at a different base"
    ∷ [])

-- A merged PR of this promotion's base and head: is the merge still there, is the branch gone?
judge_branch : Text → Option Text → Observation
judge_branch merge_sha (some sha) =
    unsatisfied_as (codes "merged as " ++ (merge_sha ++ codes "; branch not yet deleted"))
judge_branch merge_sha none =
    satisfied_by (codes "merged as " ++ (merge_sha ++ codes "; branch deleted"))

module _ {W : Type 0} (remote : Remote W) where
  judge_reverted : Text → Option Text → Action W Observation
  unfolding judge_branch
  judge_reverted merge_sha (some blocked) = pure (blocked_by blocked)
  judge_reverted merge_sha none = with_state λ s.
      setting (record s { merge_sha = merge_sha })
        do
          there ← call (remote.ls_remote_branch s.clone_dir origin s.branch)
          pure (judge_branch merge_sha there)

  judge_foreign : Pr → Option Text → Action W Observation
  unfolding judge_reverted
  judge_foreign pr (some blocked) = pure (blocked_by blocked)
  judge_foreign pr none = do
    reverted ← merge_was_reverted remote pr.merge_sha
    judge_reverted pr.merge_sha reverted

  judge_merge : Pr → Action W Observation
  unfolding judge_foreign
  judge_merge pr =
      with_state
        λ s. let (blocked, s') = not_this_runs_merge s pr in setting s' (judge_foreign pr blocked)

  judge_unmerged : Pr → Action W Observation
  unfolding moved_text
  judge_unmerged pr =
      with_state
        λ s. pure (if is_other_head s pr then blocked_by (moved_text s pr) else zero_observation)

  judge_adopted : Pr → Action W Observation
  unfolding judge_merge judge_unmerged
  judge_adopted pr = with_state λ s.
      setting (record s { pr = some pr }) (if pr.merged then judge_merge pr else judge_unmerged pr)

  judge_found : Option Pr → Action W Observation
  unfolding judge_adopted other_base_text replaced_text
  judge_found none = pure zero_observation
  judge_found (some pr) = with_state λ s.
      if not (text_eq pr.base s.base)
      then pure (blocked_by (other_base_text s pr))
      else if is_replaced s.pr pr
      then pure (blocked_by (replaced_text s s.pr pr))
      else judge_adopted pr

  -- MergedStep.Observe.
  unfoldable pub merged_observation : Action W Observation
  unfolding judge_found
  merged_observation = do found ← find_own_pr remote; judge_found found

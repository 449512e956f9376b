-- ===== src/Engine/Merge/Act.antt =====
-- internal/engine/steps_review.go: MergedStep's Act, and the step.
pub mod Merging
use hoist.Prelude.{
  ℕ, Bool, true, false, not, ◌&&◌, ◌||◌, List, [], ◌∷◌, ◌++◌, Option, none, some, Text, codes,
  em_dash, text_eq, is_empty, ltb, ◌==◌, decimal, quoted, concat, if◌then◌else◌,
}
use hoist.Engine.StepName
use hoist.Engine.Errors.{Err, plain, wrapped, act_blocked, is_merge_refused, Result, ok, err}
use hoist.Engine.State.{
  Pr, PromotionState, Observation, satisfied_by, blocked_by, zero_observation, unsatisfied_as, Env,
  Step,
}
use hoist.Engine.Identity.{marker}
use hoist.Engine.Action.{
  Action, pure, fail, call, failing_as, attempt, with_state, setting, ◌>>=◌, ◌>>◌, error_of,
}
use hoist.Engine.Remote.{Remote}
use hoist.Engine.OwnPr.{origin, numbered, is_other_head, not_this_runs_merge, find_own_pr}
use hoist.Engine.Merge.{merged_observation}
use hoist.Engine.Review.Ci.{expected_head}

-- The fresh PR is this promotion's own merge.
unfoldable pub is_own_merge : PromotionState → Pr → Bool
is_own_merge s pr = pr.merged && (text_eq pr.base s.base && not (is_other_head s pr))

refused_text : Pr → PromotionState → Text
refused_text pr s = concat (
    codes "the forge refused the merge of PR "
    ∷ numbered pr.number
    ∷ codes " (HTTP 405): branch protection on "
    ∷ s.base
    ∷ codes
        " (a required review or check), the repository's merge settings, or the PR is not mergeable right now (a conflict, or the base moved) "
    ∷ em_dash
    ∷ codes " resolve it on the forge, then press r or run hoist resume "
    ∷ s.id
    ∷ [])

retargeted_text : Pr → Pr → PromotionState → Text
retargeted_text pr merged s = concat (
    codes "merged PR "
    ∷ numbered pr.number
    ∷ codes ", but its base is "
    ∷ quoted merged.base
    ∷ codes ", not the configured "
    ∷ quoted s.base
    ∷ codes " "
    ∷ em_dash
    ∷ codes
        " something retargeted this PR between observing it and merging; the merge itself cannot be undone, investigate manually"
    ∷ [])

merge_error : Pr → Err → Err
merge_error pr e = wrapped (concat (codes "merging PR " ∷ numbered pr.number ∷ codes ": " ∷ [])) e

-- The merge is on record, then the branch goes.
record_merge : {W : Type 0} → Pr → Action W (Unit {0})
record_merge pr =
    with_state λ s. setting (record s { pr = some pr; merge_sha = pr.merge_sha }) (pure tt)

module _ {W : Type 0} (remote : Remote W) where
  -- A merge call failed: what a fresh look at the PR says.
  recover : Pr → Err → Result (Option Pr) → Action W (Unit {0})
  unfolding record_merge is_own_merge refused_text merge_error
  recover pr e (err looking) = fail (merge_error pr e)
  recover pr e (ok none) = fail (merge_error pr e)
  recover pr e (ok (some fresh)) = with_state λ s.
      if is_own_merge s fresh
      then record_merge fresh
      else if is_merge_refused e && not fresh.merged
      then fail (act_blocked (refused_text pr s))
      else fail (merge_error pr e)

  after_merge : Pr → Result Pr → Action W (Unit {0})
  unfolding record_merge retargeted_text recover
  after_merge pr (ok merged) = with_state λ s.
      if not (text_eq merged.base s.base)
      then fail (plain (retargeted_text pr merged s))
      else record_merge merged
  after_merge pr (err e) = do fresh ← attempt (find_own_pr remote); recover pr e fresh

  unfoldable pub merge_own : Pr → Action W (Unit {0})
  unfolding after_merge
  merge_own pr = with_state λ s. do
    answer ← attempt (call (remote.merge_pr pr.number (expected_head s)))
    after_merge pr answer

  unfoldable pub delete_branch : Action W (Unit {0})
  delete_branch = with_state λ s.
      failing_as
        (wrapped (
          concat (
            codes "merge succeeded ("
            ∷ s.merge_sha
            ∷ codes ") but deleting origin/"
            ∷ s.branch
            ∷ codes " failed, will retry: "
            ∷ [])))
        (call (remote.delete_remote_branch s.clone_dir origin s.branch))

  merge_recorded : Option Pr → Action W (Unit {0})
  unfolding merge_own delete_branch
  merge_recorded none = fail (plain (codes "merging: no PR recorded on this promotion"))
  merge_recorded (some pr) = do if pr.merged then pure tt else merge_own pr; delete_branch

  -- MergedStep.Act.
  unfoldable pub merged_act : Action W (Unit {0})
  unfolding merge_recorded
  merged_act = with_state λ s. merge_recorded s.pr

-- MergedStep.
unfoldable pub merged_step : {W : Type 0} → Remote W → Step W
merged_step remote = record {
  name = StepName.merged;
  observe = merged_observation remote;
  act = λ env. error_of (merged_act remote env);
}

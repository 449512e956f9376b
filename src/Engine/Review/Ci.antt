-- ===== src/Engine/Review/Ci.antt =====
-- internal/engine/steps_review.go: CIGreenStep. A time of day is printed by `time_text`.
pub mod Green
use hoist.Prelude.{
  ℕ, ◌+◌, ◌-◌, Bool, true, false, not, ◌&&◌, ◌||◌, List, [], ◌∷◌, ◌++◌, Option, none, some, Text,
  codes, em_dash, mid_dot, text_eq, is_empty, has_prefix, ltb, leb, ◌==◌, decimal, join, sort_texts,
  if◌then◌else◌,
}
use hoist.Engine.StepName
use hoist.Engine.Errors.{Err, wrapped, Result, ok, err}
use hoist.Engine.State.{
  Pr, PromotionState, Observation, satisfied_by, waiting_for, blocked_by, zero_observation, Step,
}
use hoist.Engine.Review.{CheckSummary, Queries}

-- The head that this promotion last pushed, or committed.
unfoldable pub expected_head : PromotionState → Text
expected_head s = if is_empty s.pushed_sha then s.commit_sha else s.pushed_sha

abbrev names_after : List Text → Text
names_after [] = []
names_after (n ∷ ns) = codes ": " ++ join (codes ", ") (sort_texts (n ∷ ns))

abbrev of_total : ℕ → CheckSummary → Text → Text
of_total n sum rest = decimal n ++ (codes " of " ++ (decimal sum.total ++ rest))

-- parts: what failed, then what was skipped.
unfoldable pub failed_part : CheckSummary → List Text
failed_part sum =
    if ltb 0 sum.failure
    then of_total sum.failure sum (codes " checks failed" ++ names_after sum.failed_names) ∷ []
    else []

unfoldable pub skipped_part : CheckSummary → List Text
skipped_part sum =
    if ltb 0 sum.skipped
    then of_total sum.skipped sum
        (codes " checks were skipped (never ran)" ++ names_after sum.skipped_names)
      ∷ []
    else []

-- ignoredNote.
unfoldable pub ignored_note : List Text → Text
ignored_note [] = []
ignored_note (n ∷ ns) =
    codes " " ++ (mid_dot ++ (codes " ignoring " ++ join (codes ", ") (sort_texts (n ∷ ns))))

abbrev pub ci_none_prompt_blocked_prefix : Text
ci_none_prompt_blocked_prefix =
    codes "no checks reported after the grace period; ci.none=prompt requires an explicit override"

-- IsCINonePromptBlock.
unfoldable pub is_ci_none_prompt_block : Text → Bool
is_ci_none_prompt_block blocked = has_prefix blocked ci_none_prompt_blocked_prefix

-- The policy for a head on which nothing was reported.
unfoldable pub none_reported : PromotionState → Text → Observation
none_reported s ignoring =
    if text_eq s.ci_none (codes "block")
    then blocked_by (
        codes
          "no checks reported after the grace period and ci.none=block; block has no override, and this promotion keeps the ci.none it started with, so a config change does not apply to it "
        ++ (em_dash
            ++ (codes
                  " wait for the checks to report and re-run, or abandon this promotion (delete its state file, <id>.json under hoist's promotions state directory; `hoist promotions` lists the id) and start again with ci.none set to prompt or green"
                ++ ignoring)))
    else if text_eq s.ci_none (codes "green")
    then satisfied_by (codes "no checks reported after the grace period; ci.none=green" ++ ignoring)
    else if s.ci_none_override
    then satisfied_by (
        codes
          "no checks reported after the grace period; overridden by the operator (--override-ci-none, or c on the flight screen)"
        ++ ignoring)
    else blocked_by (
        ci_none_prompt_blocked_prefix
        ++ (codes " "
            ++ (em_dash
                ++ (codes " re-run `hoist resume "
                    ++ (s.id ++ (codes " --override-ci-none`" ++ ignoring))))))

module _ {W : Type 0} (q : Queries W) (w : W) (s : PromotionState) where
  -- Some checks were reported, and none failed or was skipped.
  unfoldable pub some_reported : Pr → CheckSummary → Text → Observation
  some_reported pr sum ignoring =
      if ltb 0 sum.pending
      then waiting_for (
          codes "CI: "
          ++ (decimal (sum.total - sum.pending)
              ++ (codes "/" ++ (decimal sum.total ++ (codes " checks complete" ++ ignoring)))))
      else if ltb (q.now w) (pr.created_at + s.ci_settle)
      then waiting_for (
          codes "CI: "
          ++ (decimal sum.total
              ++ (codes "/"
                  ++ (decimal sum.total
                      ++ (codes " checks complete; settling until "
                          ++ (q.time_text (pr.created_at + s.ci_settle) ++ ignoring))))))
      else satisfied_by
          (codes "CI green (" ++ (decimal sum.total ++ (codes " checks)" ++ ignoring)))

  -- now - created < grace, where a clock behind the PR's creation makes the difference negative.
  unfoldable pub nothing_reported : Pr → Text → Observation
  nothing_reported pr ignoring =
      if ltb (q.now w) (pr.created_at + s.ci_grace)
      then waiting_for (
          codes "no checks reported yet (grace until "
          ++ (q.time_text (pr.created_at + s.ci_grace) ++ (codes ")" ++ ignoring)))
      else none_reported s ignoring

  unfoldable pub judge_checks : Pr → CheckSummary → Observation
  judge_checks pr sum =
      let ignoring = ignored_note sum.ignored in
      if ltb 0 sum.failure || ltb 0 sum.skipped
      then blocked_by (join (codes "; ") (failed_part sum ++ skipped_part sum) ++ ignoring)
      else if ltb 0 sum.total
      then some_reported pr sum ignoring
      else nothing_reported pr ignoring

  unfoldable pub judge_answer : Pr → Result CheckSummary → Result Observation
  judge_answer pr (err e) =
      err (wrapped (codes "checking CI status for " ++ (expected_head s ++ codes ": ")) e)
  judge_answer pr (ok sum) = ok (judge_checks pr sum)

  -- CIGreenStep.Observe.
  unfoldable pub ci_observation : Result Observation
  ci_observation = elim s.pr [
    | none ↦ ok zero_observation
    | some pr ↦ judge_answer pr (q.checks w (expected_head s) s.ci_ignore)
  ]

-- CIGreenStep: its Act does nothing.
unfoldable pub ci_green_step : {W : Type 0} → Queries W → Step W
ci_green_step q = record {
  name = StepName.ci_green;
  observe = λ env. (ci_observation q env.world env.state, env);
  act = λ env. (none, env);
}

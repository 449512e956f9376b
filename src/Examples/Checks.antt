-- ===== src/Examples/Checks.antt =====
-- Checks that are counted, and the gate that rests on them.
use hoist.Prelude.{◌≡◌, ◌+◌, ◌↔◌, refl, true, List, [], ◌∷◌, codes, All, ℕ, Text, decimal}
use mathlib.Core.List.{Memᴰ}
use hoist.Engine.Errors.{ok}
use hoist.Engine.State.{satisfied_by}
use hoist.Engine.Review.{Queries}
use hoist.Engine.Review.Ci.{ci_observation, judge_answer, judge_checks, some_reported, ignored_note}
use hoist.Engine.Review.Ci.Green.{Succeeded, Timely, ci_observation-satisfied}
use hoist.Forge.Checks.{
  Check, check_success, check_failure, check_skipped, no_checks, is_named, count_check,
  summarize_from, summarize,
}
use hoist.Forge.Checks.Counts.{Adds, weigh, one_each, summarize-Adds}
use hoist.Examples.Fixtures.{promotion, opened_pr}
use hoist.Examples.Gates.{queries}

abbrev three_checks : List Check
three_checks =
    record { name = codes "build"; state = check_success }
    ∷ record { name = codes "lint"; state = check_skipped }
    ∷ record { name = codes "flaky"; state = check_failure }
    ∷ []

abbrev ignored : List Text
ignored = codes "flaky" ∷ []

summarize-Adds_example :
    Adds [] ignored three_checks no_checks (summarize [] three_checks ignored)
    × (let s = summarize [] three_checks ignored in
        s.total ≡ s.pending + (s.success + (s.skipped + s.failure)))
    × ((n : Text) → (is_named n ignored ≡ true) ↔ Memᴰ n ignored)
summarize-Adds_example = summarize-Adds [] three_checks ignored

abbrev built : List Check
built = record { name = codes "build"; state = check_success } ∷ []

abbrev reporting : Queries ℕ
reporting = record queries { checks = λ w ref ignore. ok (summarize [] built ignore) }

ci_observation-satisfied_example :
    ((satisfied_by (codes "CI green (1 checks)")).satisfied ≡ true)
    ↔ (All (Succeeded []) built × Timely reporting 9 promotion opened_pr (weigh one_each [] built))
unfolding ci_observation judge_answer judge_checks some_reported ignored_note summarize
    summarize_from count_check is_named decimal
ci_observation-satisfied_example =
    ci_observation-satisfied reporting 9 promotion [] built opened_pr
      (satisfied_by (codes "CI green (1 checks)")) refl refl refl

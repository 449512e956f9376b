-- ===== src/Examples/Guards.antt =====
-- The landing guard's theorems. The world counts what the landing step was asked.
use hoist.Prelude.{
  true, false, ◌↔◌, ◌⊎◌, ℕ, ◌+◌, ◌≡◌, ◌≤◌, refl, List, [], ◌∷◌, ◌++◌, none, codes, arith,
}
use hoist.Engine.StepName
use hoist.Engine.Errors.{Err, plain, Result, ok, err}
use hoist.Engine.Errors
use hoist.Engine.State.{Observation, satisfied_by, unsatisfied_as, Env, Step}
use hoist.Engine.Landing.{is_clean, guard_landed, guard_observe, with_landing_walk}
use hoist.Engine.Landing.Confirmed.{HasLanded, guard_observe-landed}
use hoist.Engine.Landing.Once.{guarded, bare, drive_from_asks_once}
use hoist.Engine.Drive.{drive_from}
use hoist.Examples.Fixtures.{clock, promotion, start, fixed}

abbrev ready : Env ℕ
ready = with_landing_walk start

abbrev gone : Step ℕ
gone = fixed StepName.branched (unsatisfied_as (codes "worktree is gone"))

-- The landing step, with one answer for every time it is asked.
abbrev landing_with : Result Observation → Step ℕ
landing_with answer = record {
  name = StepName.merged;
  observe = λ env. (answer, record env { world = env.world + 1 });
  act = λ env. (none, env);
}

abbrev unreachable : Step ℕ
unreachable = landing_with (err (plain (codes "timeout")))

abbrev merged_promotion : Step ℕ
merged_promotion = landing_with (ok (satisfied_by (codes "merged")))

guard_observe-landed_example :
    ((is_clean (guard_observe gone merged_promotion ready).0 ≡ true)
      ↔ ((is_clean (gone.observe ready).0 ≡ true) ⊎ HasLanded gone merged_promotion ready))
    × (is_clean (gone.observe ready).0 ≡ true
        → guard_observe gone merged_promotion ready ≡ gone.observe ready)
    × (is_clean (gone.observe ready).0 ≡ false
        → HasLanded gone merged_promotion ready
        → (guard_observe gone merged_promotion ready).0
          ≡ ok (
              satisfied_by (
                codes "already landed on origin/" ++ (codes "main" ++ codes "; no longer needed"))))
    × ((guard_observe gone merged_promotion ready).1.state ≡ promotion)
unfolding with_landing_walk
guard_observe-landed_example = guard_observe-landed gone merged_promotion ready

abbrev three_guarded : List (Step ℕ)
three_guarded =
    guard_landed gone merged_promotion
    ∷ guard_landed (fixed StepName.committed (unsatisfied_as (codes "no commit"))) merged_promotion
    ∷ fixed StepName.pr_opened (satisfied_by (codes "open"))
    ∷ []

drive_from_asks_once_example : (drive_from clock none none 0 three_guarded ready).1.world ≤ 0 + 1
unfolding with_landing_walk
drive_from_asks_once_example =
    drive_from_asks_once (λ w. w) merged_promotion (λ env. (omega arith, refl)) clock none
      three_guarded ready (λ f s. absurd (cc s))
      (
        guarded gone (record { observes = λ env. (refl, refl); acts = λ env. (refl, refl) }) refl,
        (
          guarded (fixed StepName.committed (unsatisfied_as (codes "no commit")))
              (record { observes = λ env. (refl, refl); acts = λ env. (refl, refl) }) refl,
          (bare (record { observes = λ env. (refl, refl); acts = λ env. (refl, refl) }), tt),
        ),
      )
      refl

-- ===== src/Engine/Drive/Gated/Promotion.antt =====
-- internal/engine/lists.go: AllSteps. The walk of a promotion through a PR.
use hoist.Prelude.{
  ◌<◌, ◌≡◌, ◌≢◌, refl, ◌∙◌, sym, List, [], ◌∷◌, ◌++◌, All, All-append, Text, text_eq, text_eq_iff,
  false, length, map, arith,
}
use hoist.Engine.StepName.{StepName}
use hoist.Engine.StepName
use hoist.Engine.State.{Env, Step, Runtime}
use hoist.Engine.Landing.{guard_landed}
use hoist.Engine.Lists.{Wiring, all_steps}
use hoist.Engine.Drive.{Save, drive_status}
use hoist.Engine.Drive.Trace.{inner, log_of, traced, traced_save, traced_runtime}
use hoist.Engine.Drive.Gated.{Guarded}
use hoist.Engine.Drive.Gated.Status.{OtherThan, Layout, drive_status-Guarded}

-- The steps of a promotion through a PR have the names of their types.
pub record Names {W : Type 0} (x : Wiring W) : Type 0 where
  pub branched : x.branched.name ≡ StepName.branched
  pub committed : x.committed.name ≡ StepName.committed
  pub pushed : x.pushed.name ≡ StepName.pushed
  pub pr_opened : x.pr_opened.name ≡ StepName.pr_opened
  pub ci_green : x.ci_green.name ≡ StepName.ci_green
  pub approved : x.approved.name ≡ StepName.approved
  pub merged : x.merged.name ≡ StepName.merged
  pub argo_refreshed : x.argo_refreshed.name ≡ StepName.argo_refreshed
  pub argo_synced : x.argo_synced.name ≡ StepName.argo_synced
  pub rolled_out : x.rolled_out.name ≡ StepName.rolled_out

differs : {name own other : Text} → name ≡ own → text_eq own other ≡ false → name ≢ other
differs {name} {own} {other} named d e =
    let same = (text_eq_iff own other).1 (sym named ∙ e) in cc (same, d)

module _ {W : Type 0} (x : Wiring W) (n : Names x) where
  abbrev branched : Step W
  branched = guard_landed x.branched x.merged

  abbrev committed : Step W
  committed = guard_landed x.committed x.merged

  abbrev pushed : Step W
  pushed = guard_landed x.pushed x.merged

  abbrev writes : List (Step W)
  writes = branched ∷ committed ∷ pushed ∷ x.pr_opened ∷ []

  abbrev IsOther : Step W → Type 0
  IsOther = OtherThan StepName.merged

  others_start : All IsOther (branched ∷ committed ∷ [])
  unfolding guard_landed
  others_start = (differs n.branched refl, (differs n.committed refl, tt))

  others_writes : All IsOther writes
  unfolding guard_landed
  others_writes =
      (others_start.0, (others_start.1.0, (differs n.pushed refl, (differs n.pr_opened refl, tt))))

  others_gates : All IsOther (writes ++ x.ci_green ∷ x.approved ∷ [])
  others_gates =
      All-append IsOther writes (x.ci_green ∷ x.approved ∷ []) others_writes
        (differs n.ci_green refl, (differs n.approved refl, tt))

  others_converging : All IsOther (x.argo_refreshed ∷ x.argo_synced ∷ x.rolled_out ∷ [])
  others_converging =
      (differs n.argo_refreshed refl, (differs n.argo_synced refl, (differs n.rolled_out refl, tt)))

  -- A gate among the steps before the landing step.
  layout :
      (gate : StepName) (before : List (Step W)) (step : Step W) (after : List (Step W))
      → all_steps x ≡ before ++ step ∷ after
      → length before < 6
      → step.name ≡ gate
      → gate ≢ StepName.merged
      → All IsOther before
      → Layout gate (all_steps x)
  unfolding all_steps
  layout gate before step after here early named other os = record {
    before = before;
    gate_step = step;
    after = after;
    prefix = writes ++ x.ci_green ∷ x.approved ∷ [];
    landing = x.merged;
    post = x.argo_refreshed ∷ x.argo_synced ∷ x.rolled_out ∷ [];
    gate_here = here;
    landing_here = refl;
    gate_first = early;
    gate_named = named;
    landing_named = n.merged;
    gate_other = other;
    others_before = os;
    others_prefix = others_gates;
    others_post = others_converging;
  }

  -- A promotion through a PR, driven by DriveStatus over AllSteps from whatever phase and in whatever
  -- world, is merged only after that same walk saw the push, the PR, the CI checks and the approval
  -- satisfied, each neither waiting nor blocked, or carried out by the step's own Act without an
  -- error: in the log of the walk every Act of the landing step comes after each of the four.
  pub all_steps-Guarded :
      (rt : Runtime W) (save : Save W) (env : Env W)
      → All
          (λ (gate : StepName). Guarded gate StepName.merged (
            log_of
              (drive_status
                (traced_runtime rt)
                (traced_save save)
                (map traced (all_steps x))
                (inner [] env)).1))
          (StepName.pushed ∷ StepName.pr_opened ∷ StepName.ci_green ∷ StepName.approved ∷ [])
  unfolding all_steps guard_landed
  all_steps-Guarded rt save env = (
    drive_status-Guarded rt save StepName.pushed (all_steps x) env (
        layout StepName.pushed (branched ∷ committed ∷ []) pushed _ refl (omega arith) n.pushed
          (differs refl refl) others_start),
    (
      drive_status-Guarded rt save StepName.pr_opened (all_steps x) env (
          layout StepName.pr_opened (branched ∷ committed ∷ pushed ∷ []) x.pr_opened _ refl
            (omega arith) n.pr_opened (differs refl refl)
            (others_writes.0, (others_writes.1.0, (others_writes.1.1.0, tt)))),
      (
        drive_status-Guarded rt save StepName.ci_green (all_steps x) env (
            layout StepName.ci_green writes x.ci_green _ refl (omega arith) n.ci_green
              (differs refl refl) others_writes),
        (
          drive_status-Guarded rt save StepName.approved (all_steps x) env (
              layout StepName.approved (writes ++ x.ci_green ∷ []) x.approved _ refl (omega arith)
                n.approved (differs refl refl)
                (All-append IsOther writes (x.ci_green ∷ []) others_writes
                  (differs n.ci_green refl, tt))),
          tt,
        ),
      ),
    ),
  )

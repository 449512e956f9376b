-- ===== src/Engine/Review/Ci/Green.antt =====
-- What a green CI gate rests on, with the checks counted by Summarize.
use hoist.Prelude.{
  ℕ, ◌+◌, ◌≡◌, ◌≤◌, refl, sym, ap, ◌∙◌, ◌↔◌, ◌⊎◌, inl, inr, Bool, true, false, List, [], ◌∷◌,
  Option, none, some, Text, codes, text_eq, All, arith, if◌then◌else◌,
}
use mathlib.Core.Path.{subst}
use hoist.Redact.{Registry}
use hoist.Engine.Errors.{Result, ok}
use hoist.Engine.State.{Pr, PromotionState, Observation, zero_observation}
use hoist.Engine.Review.{CheckSummary, Queries}
use hoist.Engine.Review.Ci.{
  expected_head, none_reported, some_reported, nothing_reported, ignored_note, judge_checks,
  judge_answer, ci_observation,
}
use hoist.Forge.Checks.{
  CheckState, check_pending, check_success, check_skipped, check_failure, Check, is_named,
  no_checks, summarize,
}
use hoist.Forge.Checks.Counts.{
  weigh, one_each, one_pending, one_skipped, one_failure, Adds, summarize-Adds,
}

-- A check that the promotion does not ignore has succeeded.
abbrev pub Succeeded : List Text → Check → Type 0
Succeeded ignore c = is_named c.name ignore ≡ false → c.state ≡ check_success

weightless :
    (b : Bool) (st : CheckState)
    → ((if b then 0 else one_pending st)
          + ((if b then 0 else one_skipped st) + (if b then 0 else one_failure st))
        ≡ 0)
      ↔ (b ≡ false → st ≡ check_success)
weightless true st = ((λ z e. absurd (cc e)), (λ f. refl))
weightless false check_pending = ((λ z. absurd (omega arith)), (λ f. absurd (cc (f refl))))
weightless false check_success = ((λ z e. refl), (λ f. refl))
weightless false check_skipped = ((λ z. absurd (omega arith)), (λ f. absurd (cc (f refl))))
weightless false check_failure = ((λ z. absurd (omega arith)), (λ f. absurd (cc (f refl))))

-- What is still to do, or went wrong.
abbrev undone : List Text → List Check → ℕ
undone ignore cs =
    weigh one_pending ignore cs + (weigh one_skipped ignore cs + weigh one_failure ignore cs)

undone-Succeeded :
    (ignore : List Text) (cs : List Check) → (undone ignore cs ≡ 0) ↔ All (Succeeded ignore) cs
undone-Succeeded ignore [] = ((λ z. tt), (λ h. refl))
undone-Succeeded ignore (c ∷ cs) =
    let here = weightless (is_named c.name ignore) c.state in
    let rest = undone-Succeeded ignore cs in
    (
      (λ z. (here.0 (omega (arith, z)), rest.0 (omega (arith, z)))),
      (λ h. omega (arith, here.1 h.0, rest.1 h.1)),
    )

module _ {W : Type 0} (q : Queries W) (w : W) (s : PromotionState) where
  none_reported-satisfied :
      (ignoring : Text)
      → ((none_reported s ignoring).satisfied ≡ true) ↔ (
          (text_eq s.ci_none (codes "block") ≡ false)
          × ((text_eq s.ci_none (codes "green") ≡ true) ⊎ (s.ci_none_override ≡ true)))
  unfolding none_reported
  none_reported-satisfied ignoring = ground arith

  -- What else a green gate needs: some check and the settling time, or none and the grace period
  -- with a policy that lets it pass.
  abbrev pub Timely : Pr → ℕ → Type 0
  Timely pr total =
      ((1 ≤ total) × (pr.created_at + s.ci_settle ≤ q.now w))
      ⊎ ((total ≡ 0)
          × (pr.created_at + s.ci_grace ≤ q.now w)
          × (text_eq s.ci_none (codes "block") ≡ false)
          × ((text_eq s.ci_none (codes "green") ≡ true) ⊎ (s.ci_none_override ≡ true)))

  judge_checks-satisfied :
      (pr : Pr) (sum : CheckSummary)
      → ((judge_checks q w s pr sum).satisfied ≡ true) ↔ (
          (sum.failure ≡ 0)
          × (sum.skipped ≡ 0)
          × ((sum.total ≡ 0) ⊎ (sum.pending ≡ 0))
          × Timely pr sum.total)
  unfolding judge_checks some_reported nothing_reported
  judge_checks-satisfied pr sum = ground (arith, none_reported-satisfied (ignored_note sum.ignored))

  counted_green :
      (hidden : Registry) (pr : Pr) (checks : List Check) (sum : CheckSummary)
      → Adds hidden s.ci_ignore checks no_checks sum
      → sum.total ≡ sum.pending + (sum.success + (sum.skipped + sum.failure))
      → ((judge_checks q w s pr sum).satisfied ≡ true)
        ↔ (All (Succeeded s.ci_ignore) checks × Timely pr (weigh one_each s.ci_ignore checks))
  counted_green hidden pr checks sum a total =
      let (judge, judge') = judge_checks-satisfied pr sum in
      let (todo, todo') = undone-Succeeded s.ci_ignore checks in
      let all : sum.total ≡ weigh one_each s.ci_ignore checks = omega (arith, a.all) in
      (
        (λ h.
            let (f, k, p, timely) = judge h in
            (
              todo (omega (arith, no_pending p, f, k, a.pendings, a.skips, a.failures)),
              subst (Timely pr) all timely,
            )),
        (λ (good, timely).
            let none_left = todo' good in
            judge' (
              omega (arith, none_left, a.failures),
              omega (arith, none_left, a.skips),
              inr (omega (arith, none_left, a.pendings)),
              subst (Timely pr) (sym all) timely,
            )),
      )
    where
      no_pending : (sum.total ≡ 0) ⊎ (sum.pending ≡ 0) → sum.pending ≡ 0
      no_pending (inl z) = omega (arith, z, total)
      no_pending (inr z) = z

  -- A CI gate whose summary is Summarize's of the reported checks is satisfied exactly when each
  -- check that the promotion does not ignore has succeeded and either there is such a check and the
  -- settling time since the PR was opened is over, or there is none, the grace period is over, and
  -- ci.none is "green" or is not "block" and the operator overrode it.
  pub ci_observation-satisfied :
      (hidden : Registry) (checks : List Check) (pr : Pr) (obs : Observation)
      → s.pr ≡ some pr
      → q.checks w (expected_head s) s.ci_ignore ≡ ok (summarize hidden checks s.ci_ignore)
      → ci_observation q w s ≡ ok obs
      → (obs.satisfied ≡ true)
        ↔ (All (Succeeded s.ci_ignore) checks × Timely pr (weigh one_each s.ci_ignore checks))
  unfolding ci_observation judge_answer
  ci_observation-satisfied hidden checks pr obs opened reported h =
      let sum = summarize hidden checks s.ci_ignore in
      let judged : ok (judge_checks q w s pr sum) ≡ ok obs =
        ap (judge_answer q w s pr) (sym reported) ∙ (ap by_pr (sym opened) ∙ h) in
      let same : judge_checks q w s pr sum ≡ obs = cc judged in
      subst
        (λ (o : Observation).
          (o.satisfied ≡ true)
          ↔ (All (Succeeded s.ci_ignore) checks × Timely pr (weigh one_each s.ci_ignore checks)))
        same
        (counted_green hidden pr checks sum (summarize-Adds hidden checks s.ci_ignore).0
          (summarize-Adds hidden checks s.ci_ignore).1)
    where
      by_pr : Option Pr → Result Observation
      by_pr o = elim o [
        | none ↦ ok zero_observation
        | some pr ↦ judge_answer q w s pr (q.checks w (expected_head s) s.ci_ignore)
      ]

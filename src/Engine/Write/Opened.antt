-- ===== src/Engine/Write/Opened.antt =====
-- Which PR the promotion adopts as its own.
use hoist.Prelude.{
  ◌≡◌, refl, inl, inr, Bool, true, false, Option, none, some, Text, text_eq, text_eq_iff,
  Bool-cases, arith, if◌then◌else◌,
}
use mathlib.Core.Path.{subst}
use hoist.Engine.Errors.{ok}
use hoist.Engine.State.{Pr, PromotionState, Observation, blocked_by, Env}
use hoist.Engine.Action.{pure, setting, and_then-eq-ok}
use hoist.Engine.Remote.{Remote}
use hoist.Engine.OwnPr.{not_this_runs_merge}
use hoist.Engine.OwnPr.Found.{HeadsAgree, is_other_head-HeadsAgree, Answered, find_own_pr-some}
use hoist.Engine.Write.{dead_pr_text, adopt, judge_opened, pr_opened_observation}

-- A merge that is not foreign, or no merge: the state stays as it was.
not_foreign :
    (s : PromotionState) (pr : Pr)
    → (not_this_runs_merge s pr).0 ≡ none
    → (pr.merged ≡ true → HeadsAgree s pr) × ((not_this_runs_merge s pr).1 ≡ s)
unfolding not_this_runs_merge
not_foreign s pr h = (λ m. ground (arith, is_other_head-HeadsAgree s pr), ground arith)

module _ {W : Type 0} (remote : Remote W) where
  -- What an adopted PR is.
  pub record Adopted (env env' : Env W) : Type 0 where
    pub pr : Pr
    pub answered : Answered remote pr env env'
    pub same_base : pr.base ≡ env.state.base
    pub not_dead : pr.closed ≡ false
    pub own_merge : pr.merged ≡ true → HeadsAgree env.state pr
    pub recorded : env'.state ≡ record (env.state) { pr = some pr }

  adopt-satisfied :
      (pr : Pr) (blocked : Option Text) (obs : Observation) (env env' : Env W)
      → adopt pr blocked env ≡ (ok obs, env')
      → obs.satisfied ≡ true
      → (blocked ≡ none) × (env' ≡ record env { state = record (env.state) { pr = some pr } })
  unfolding adopt
  adopt-satisfied pr none obs env env' h good = (refl, cc h)
  adopt-satisfied pr (some text) obs env env' h good = absurd (cc (h, good))

  judge_opened-satisfied :
      (found : Option Pr) (obs : Observation) (env env' : Env W)
      → judge_opened remote found env ≡ (ok obs, env')
      → obs.satisfied ≡ true
      → (pr : Pr) × (found ≡ some pr)
        × (pr.base ≡ env.state.base)
        × (pr.closed ≡ false)
        × (pr.merged ≡ true → HeadsAgree env.state pr)
        × (env' ≡ record env { state = record (env.state) { pr = some pr } })
  unfolding judge_opened
  judge_opened-satisfied none obs env env' h good = absurd (cc (h, good))
  judge_opened-satisfied (some pr) obs env env' h good =
      elim (Bool-cases (text_eq pr.base env.state.base)) [
        | inr e ↦ absurd (cc (rw e at h, good))
        | inl e ↦ by_closed e pr.closed refl (rw e at h)
      ]
    where
      judged : Option Text × PromotionState
      judged = not_this_runs_merge env.state pr

      by_closed :
          text_eq pr.base env.state.base ≡ true
          → (b : Bool) → pr.closed ≡ b
          → (if b
                then pure (blocked_by (dead_pr_text env.state pr))
                else setting judged.1 (adopt pr judged.0))
              env
            ≡ (ok obs, env')
          → (own : Pr) × (some pr ≡ some own)
            × (own.base ≡ env.state.base)
            × (own.closed ≡ false)
            × (own.merged ≡ true → HeadsAgree env.state own)
            × (env' ≡ record env { state = record (env.state) { pr = some own } })
      by_closed e true c h = absurd (cc (h, good))
      by_closed e false c h =
          let (own, made) =
            adopt-satisfied pr judged.0 obs (record env { state = judged.1 }) env' h good in
          let (agree, kept) = not_foreign env.state pr own in
          (pr, refl, (text_eq_iff pr.base env.state.base).0 e, c, agree, cc (made, kept))

  -- When the PR step's observation is satisfied, the forge answered just now with a PR for this
  -- promotion's number or branch that is aimed at its base, is not closed without a merge, and, if it
  -- is merged, has no known head that differs from the promotion's; the PR is recorded, and nothing
  -- else of the state changes.
  pub pr_opened_observation-Adopted :
      (obs : Observation) (env env' : Env W)
      → pr_opened_observation remote env ≡ (ok obs, env')
      → obs.satisfied ≡ true
      → Adopted env env'
  unfolding pr_opened_observation
  pr_opened_observation-Adopted obs env env' h good =
      let (answer, mid, looked, done) = and_then-eq-ok _ _ h in
      let (pr, is_pr, base, dead, own, made) =
        judge_opened-satisfied answer obs mid env' done good in
      let (kept, answered) = find_own_pr-some remote pr env mid (cc (looked, is_pr)) in
      record {
        pr = pr;
        answered =
            subst (λ (w : W). Answered remote pr env (record mid { world = w })) (cc made) answered;
        same_base = cc (base, kept);
        not_dead = dead;
        own_merge = subst (λ (s : PromotionState). pr.merged ≡ true → HeadsAgree s pr) kept own;
        recorded = cc (made, kept);
      }

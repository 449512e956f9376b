-- ===== src/Engine/Merge/Landed.antt =====
-- What a satisfied landing rests on.
use hoist.Prelude.{
  ◌≡◌, refl, inl, inr, Bool, true, false, Option, none, some, Text, text_eq, text_eq_iff, is_empty,
  Bool-cases, if_elim, if◌then◌else◌,
}
use mathlib.Core.Path.{subst}
use hoist.Engine.Errors.{ok}
use hoist.Engine.State.{Pr, PromotionState, Observation, Env}
use hoist.Engine.Action.{pure, and_then-eq-ok, call-eq-ok}
use hoist.Engine.Remote.{Remote}
use hoist.Engine.Review.Ci.{expected_head}
use hoist.Engine.OwnPr.{origin, is_other_head, not_this_runs_merge}
use hoist.Engine.OwnPr.Found.{HeadsAgree, not_this_runs_merge-none, Answered, find_own_pr-some}
use hoist.Engine.Reverted.{Holds, merge_was_reverted-none}
use hoist.Engine.Merge.{
  is_replaced, judge_branch, judge_reverted, judge_foreign, judge_merge, judge_unmerged,
  judge_adopted, judge_found, merged_observation,
}

module _ {W : Type 0} (remote : Remote W) where
  -- The branch is gone from origin, and the state holds the merge.
  record Cleaned (merge_sha : Text) (env env' : Env W) : Type 0 where
    asked : Env W
    merge_holds : Holds remote merge_sha env asked
    sha_known : is_empty merge_sha ≡ false
    branch_gone :
        remote.ls_remote_branch env.state.clone_dir origin env.state.branch asked.world
        ≡ (ok none, env'.world)
    merge_recorded : env'.state ≡ record (env.state) { merge_sha = merge_sha }

  judge_reverted-satisfied :
      (sha : Text) (reverted : Option Text) (obs : Observation) (env env' : Env W)
      → judge_reverted remote sha reverted env ≡ (ok obs, env')
      → obs.satisfied ≡ true
      → (reverted ≡ none)
        × (remote.ls_remote_branch env.state.clone_dir origin env.state.branch env.world
            ≡ (ok none, env'.world))
        × (env'.state ≡ record (env.state) { merge_sha = sha })
  unfolding judge_reverted judge_branch
  judge_reverted-satisfied sha (some blocked) obs env env' h good = absurd (cc (h, good))
  judge_reverted-satisfied sha none obs env env' h good =
      let (there, mid, asked, done) = and_then-eq-ok _ _ h in
      let (answer, kept) =
        call-eq-ok (remote.ls_remote_branch env.state.clone_dir origin env.state.branch)
          (record env { state = record (env.state) { merge_sha = sha } }) asked in
      let gone : there ≡ none = no_branch there mid done in
      (refl, cc (answer, gone, done), cc (kept, done))
    where
      no_branch :
          (there : Option Text) (mid : Env W)
          → pure (judge_branch sha there) mid ≡ (ok obs, env')
          → there ≡ none
      no_branch none mid e = refl
      no_branch (some x) mid e = absurd (cc (e, good))

  judge_foreign-satisfied :
      (pr : Pr) (blocked : Option Text) (obs : Observation) (env env' : Env W)
      → judge_foreign remote pr blocked env ≡ (ok obs, env')
      → obs.satisfied ≡ true
      → (blocked ≡ none) × Cleaned pr.merge_sha env env'
  unfolding judge_foreign
  judge_foreign-satisfied pr (some blocked) obs env env' h good = absurd (cc (h, good))
  judge_foreign-satisfied pr none obs env env' h good =
      let (reverted, mid, asked, done) = and_then-eq-ok _ _ h in
      let (clean, gone, kept) =
        judge_reverted-satisfied pr.merge_sha reverted obs mid env' done good in
      let (known, holds) =
        merge_was_reverted-none remote pr.merge_sha env mid (cc (asked, clean)) in
      (
        refl,
        record {
          asked = mid;
          merge_holds = holds;
          sha_known = known;
          branch_gone = cc (gone, holds.state_kept);
          merge_recorded = cc (kept, holds.state_kept);
        },
      )

  judge_unmerged-unsatisfied :
      (pr : Pr) (obs : Observation) (env env' : Env W)
      → judge_unmerged remote pr env ≡ (ok obs, env')
      → obs.satisfied ≡ false
  unfolding judge_unmerged
  judge_unmerged-unsatisfied pr obs env env' h =
      if_elim (λ (o : Observation). pure o env ≡ (ok obs, env') → obs.satisfied ≡ false)
        (is_other_head env.state pr) (λ _ e. cc e) (λ _ e. cc e) h

  judge_adopted-satisfied :
      (pr : Pr) (obs : Observation) (env env' : Env W)
      → judge_adopted remote pr env ≡ (ok obs, env')
      → obs.satisfied ≡ true
      → (pr.merged ≡ true)
        × HeadsAgree env.state pr
        × Cleaned pr.merge_sha (record env { state = record (env.state) { pr = some pr } }) env'
  unfolding judge_adopted judge_merge expected_head
  judge_adopted-satisfied pr obs env env' h good = by_merged pr.merged refl h
    where
      adopted : Env W
      adopted = record env { state = record (env.state) { pr = some pr } }

      by_merged :
          (b : Bool)
          → pr.merged ≡ b
          → (if b then judge_merge remote pr else judge_unmerged remote pr) adopted ≡ (ok obs, env')
          → (pr.merged ≡ true) × HeadsAgree env.state pr × Cleaned pr.merge_sha adopted env'
      by_merged true m h =
          let judged = not_this_runs_merge adopted.state pr in
          let (own, clean) =
            judge_foreign-satisfied pr judged.0 obs (record adopted { state = judged.1 }) env' h
              good in
          let (agree, kept) = not_this_runs_merge-none adopted.state pr m own in
          (
            m,
            agree,
            subst (λ (s : PromotionState). Cleaned pr.merge_sha (record adopted { state = s }) env')
                kept clean,
          )
      by_merged false m h = absurd (cc (judge_unmerged-unsatisfied pr obs adopted env' h, good))

  judge_found-satisfied :
      (found : Option Pr) (obs : Observation) (env env' : Env W)
      → judge_found remote found env ≡ (ok obs, env')
      → obs.satisfied ≡ true
      → (pr : Pr) × (found ≡ some pr)
        × (pr.base ≡ env.state.base)
        × (is_replaced env.state.pr pr ≡ false)
        × (pr.merged ≡ true)
        × HeadsAgree env.state pr
        × Cleaned pr.merge_sha (record env { state = record (env.state) { pr = some pr } }) env'
  unfolding judge_found
  judge_found-satisfied none obs env env' h good = absurd (cc (h, good))
  judge_found-satisfied (some pr) obs env env' h good =
      elim (Bool-cases (text_eq pr.base env.state.base)) [
        | inr e ↦ absurd (cc (rw e at h, good))
        | inl e ↦ elim (Bool-cases (is_replaced env.state.pr pr)) [
          | inl e' ↦ absurd (cc (rw (e, e') at h, good))
          | inr e' ↦
              let (m, agree, clean) =
                judge_adopted-satisfied pr obs env env' (rw (e, e') at h) good in
              (pr, refl, (text_eq_iff pr.base env.state.base).0 e, e', m, agree, clean)
        ]
      ]

  -- Everything that a satisfied landing was told in that one observation, in this order: the PR, the
  -- tip of the base, the merge's presence and its ancestry, and origin's branches.
  pub record Landing (env env' : Env W) : Type 0 where
    pub pr : Pr
    pub found : Env W
    pub answered : Answered remote pr env found
    pub is_merged : pr.merged ≡ true
    pub same_base : pr.base ≡ env.state.base
    pub not_replaced : is_replaced env.state.pr pr ≡ false
    pub heads_agree : HeadsAgree env.state pr
    pub sha_known : is_empty pr.merge_sha ≡ false
    pub tip : Text
    pub fetched : W
    pub checked : W
    pub compared : W
    pub tip_fetched :
        remote.fetch_branch env.state.clone_dir origin env.state.base found.world
        ≡ (ok (some tip), fetched)
    pub merge_present :
        remote.object_exists env.state.clone_dir pr.merge_sha fetched ≡ (ok true, checked)
    pub merge_in_tip :
        remote.is_ancestor env.state.clone_dir pr.merge_sha tip checked ≡ (ok true, compared)
    pub branch_gone :
        remote.ls_remote_branch env.state.clone_dir origin env.state.branch compared
        ≡ (ok none, env'.world)
    pub recorded : env'.state ≡ record (env.state) { pr = some pr; merge_sha = pr.merge_sha }

  -- When the landing step's observation is satisfied, then in that one observation the forge
  -- answered with a merged PR for this promotion's number or branch, aimed at its base, with no
  -- other PR on record and no known head that differs; origin's base was fetched anew and the merge
  -- commit is in the clone and an ancestor of the fetched tip; origin no longer has the branch; and
  -- of the state, the PR and the merge commit are recorded and nothing else changes.
  pub merged_observation-Landing :
      (obs : Observation) (env env' : Env W)
      → merged_observation remote env ≡ (ok obs, env')
      → obs.satisfied ≡ true
      → Landing env env'
  unfolding merged_observation
  merged_observation-Landing obs env env' h good =
      let (answer, mid, looked, done) = and_then-eq-ok _ _ h in
      let (pr, is_pr, base, replaced, m, agree, clean) =
        judge_found-satisfied answer obs mid env' done good in
      let (kept, answered) = find_own_pr-some remote pr env mid (cc (looked, is_pr)) in
      let holds = clean.merge_holds in
      record {
        pr = pr;
        found = mid;
        answered = answered;
        is_merged = m;
        same_base = cc (base, kept);
        not_replaced = cc (replaced, kept);
        heads_agree = subst (λ (s : PromotionState). HeadsAgree s pr) kept agree;
        sha_known = clean.sha_known;
        tip = holds.tip;
        fetched = holds.fetched;
        checked = holds.checked;
        compared = clean.asked.world;
        tip_fetched = cc (holds.tip_fetched, kept);
        merge_present = cc (holds.merge_present, kept);
        merge_in_tip = cc (holds.merge_in_tip, kept);
        branch_gone = cc (clean.branch_gone, kept);
        recorded = cc (clean.merge_recorded, kept);
      }

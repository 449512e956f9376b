-- ===== src/Engine/Merge/Act/Merging.antt =====
-- What a landing that was carried out without an error did.
use hoist.Prelude.{
  ◌≡◌, refl, ◌⊎◌, inl, inr, Bool, true, false, not, ◌&&◌, Option, none, some, text_eq, text_eq_iff,
  arith, Bool-cases, if◌then◌else◌,
}
use mathlib.Core.Path.{subst}
use hoist.Engine.Errors.{is_merge_refused, act_blocked, Err, Result, ok, err}
use hoist.Engine.State.{Pr, PromotionState, Env}
use hoist.Engine.Action.{
  fail, pure, and_then-eq-ok, on_error-eq-ok, call-eq-ok, attempt-eq-ok, attempt-call-eq,
}
use hoist.Engine.Remote.{Remote}
use hoist.Engine.Review.Ci.{expected_head}
use hoist.Engine.OwnPr.{origin, find_own_pr}
use hoist.Engine.OwnPr.Found.{HeadsAgree, is_other_head-HeadsAgree, Answered, find_own_pr-some}
use hoist.Engine.Merge.Act.{
  refused_text, merge_error, record_merge, is_own_merge, recover, after_merge, merge_own,
  delete_branch, merge_recorded, merged_act,
}

is_own_merge_lem :
    (s : PromotionState) (pr : Pr)
    → is_own_merge s pr ≡ true
    → (pr.merged ≡ true) × (pr.base ≡ s.base) × HeadsAgree s pr
unfolding is_own_merge
is_own_merge_lem s pr h = (
  ground arith,
  (text_eq_iff pr.base s.base).0 (ground arith),
  is_other_head-HeadsAgree s pr (ground arith),
)

module _ {W : Type 0} (remote : Remote W) where
  -- The PR that a merge call ended with: the forge's answer, or, when the answer was an error, the
  -- PR that a fresh look found merged with a head that agrees.
  abbrev pub Confirmed : Pr → Env W → Result Pr → Env W → Type 0
  Confirmed own asked (ok answer) done = (answer ≡ own) × (done.world ≡ asked.world)
  Confirmed own asked (err e) done =
      (own.merged ≡ true) × HeadsAgree asked.state own × Answered remote own asked done

  recover-ok :
      (pr : Pr) (e : Err) (fresh : Result (Option Pr)) (asked env env' : Env W)
      → find_own_pr remote asked ≡ (fresh, env)
      → recover remote pr e fresh env ≡ (ok tt, env')
      → (own : Pr) × (own.base ≡ asked.state.base)
        × (env'.state ≡ record (asked.state) { pr = some own; merge_sha = own.merge_sha })
        × Confirmed own asked (err e) env'
  unfolding recover record_merge
  recover-ok pr e (err looking) asked env env' looked h = absurd (cc h)
  recover-ok pr e (ok none) asked env env' looked h = absurd (cc h)
  recover-ok pr e (ok (some fresh)) asked env env' looked h =
      let (kept, answered) = find_own_pr-some remote fresh asked env looked in
      elim (Bool-cases (is_own_merge env.state fresh)) [
        | inl own ↦
            let (m, base, agree) = is_own_merge_lem env.state fresh own in
            let done : record_merge fresh env ≡ (ok tt, env') = rw own at h in
            (
              fresh,
              cc (base, kept),
              cc (done, kept),
              (
                m,
                subst (λ (s : PromotionState). HeadsAgree s fresh) kept agree,
                subst (λ (w : W). Answered remote fresh asked (record env { world = w })) (cc done)
                    answered,
              ),
            )
        | inr other ↦ absurd (by_refusal (is_merge_refused e && not fresh.merged) (rw other at h))
      ]
    where
      by_refusal :
          (b : Bool)
          → (if b then fail (act_blocked (refused_text pr env.state)) else fail (merge_error pr e))
              env
            ≡ (ok tt, env')
          → ⊥
      by_refusal true f = cc f
      by_refusal false f = cc f

  after_merge-ok :
      (pr : Pr) (answer : Result Pr) (asked env' : Env W)
      → after_merge remote pr answer asked ≡ (ok tt, env')
      → (own : Pr) × (own.base ≡ asked.state.base)
        × (env'.state ≡ record (asked.state) { pr = some own; merge_sha = own.merge_sha })
        × Confirmed own asked answer env'
  unfolding after_merge record_merge
  after_merge-ok pr (ok merged) asked env' h =
      elim (Bool-cases (text_eq merged.base asked.state.base)) [
        | inl e ↦ (
          merged,
          (text_eq_iff merged.base asked.state.base).0 e,
          cc (rw e at h),
          (refl, cc (rw e at h)),
        )
        | inr e ↦ absurd (cc (rw e at h))
      ]
  after_merge-ok pr (err e) asked env' h =
      let (fresh, mid, looked, done) = and_then-eq-ok _ _ h in
      recover-ok pr e fresh asked mid env' (attempt-eq-ok (find_own_pr remote) asked looked) done

  -- What happened to the recorded PR: it had merged before, or this Act merged it.
  abbrev pub Merging : Pr → Env W → Env W → Type 0
  Merging pr env deleting =
      ((pr.merged ≡ true) × (deleting ≡ env))
      ⊎ ((own : Pr) × (answer : Result Pr) × (asked : Env W) × (remote.merge_pr pr.number
              (expected_head env.state) env.world
            ≡ (answer, asked.world))
          × (asked.state ≡ env.state)
          × (own.base ≡ env.state.base)
          × (deleting.state ≡ record (env.state) { pr = some own; merge_sha = own.merge_sha })
          × Confirmed own asked answer deleting)

  -- Merging changes neither the clone nor the branch.
  places :
      (pr : Pr) (env deleting : Env W)
      → Merging pr env deleting
      → (deleting.state.clone_dir ≡ env.state.clone_dir)
        × (deleting.state.branch ≡ env.state.branch)
  places pr env deleting (inl (m, same)) = (cc same, cc same)
  places pr env deleting (inr (own, answer, asked, called, kept, base, state, confirmed)) =
      (cc state, cc state)

  answered :
      (pr : Pr) (env env' : Env W) (answer : Result Pr) (asked : Env W)
      → remote.merge_pr pr.number (expected_head env.state) env.world ≡ (answer, asked.world)
      → asked.state ≡ env.state
      → ((own : Pr) × (own.base ≡ asked.state.base)
          × (env'.state ≡ record (asked.state) { pr = some own; merge_sha = own.merge_sha })
          × Confirmed own asked answer env')
      → Merging pr env env'
  answered pr env env' answer asked called kept (own, base, state, confirmed) =
      inr (own, answer, asked, called, kept, cc (base, kept), cc (state, kept), confirmed)

  merge_own-ok :
      (pr : Pr) (env env' : Env W) → merge_own remote pr env ≡ (ok tt, env') → Merging pr env env'
  unfolding merge_own
  merge_own-ok pr env env' h =
      let (answer, asked, called, done) = and_then-eq-ok _ _ h in
      let (called_now, kept) =
        attempt-call-eq (remote.merge_pr pr.number (expected_head env.state)) env called in
      answered pr env env' answer asked called_now kept (after_merge-ok pr answer asked env' done)

  -- Where the landing step's Act returns no error, the state had a PR on record, and it is recorded
  -- as merged before this Act, or this Act called MergePR for that PR's number with the head that
  -- the promotion expects and either took the answered PR, whose base is the promotion's, or after
  -- an error found a merged PR with that base and no known head that differs; that PR and its merge
  -- commit were recorded before the branch was deleted from origin, and the deletion succeeded.
  pub merged_act-Merging :
      (env env' : Env W)
      → merged_act remote env ≡ (ok tt, env')
      → (pr : Pr) × (deleting : Env W) × (env.state.pr ≡ some pr)
        × Merging pr env deleting
        × (remote.delete_remote_branch env.state.clone_dir origin env.state.branch deleting.world
            ≡ (ok tt, env'.world))
        × (env'.state ≡ deleting.state)
  unfolding merged_act merge_recorded delete_branch
  merged_act-Merging env env' h = by_record env.state.pr refl h
    where
      by_merged :
          (pr : Pr) (b : Bool) (mid : Env W)
          → pr.merged ≡ b
          → (if b then pure tt else merge_own remote pr) env ≡ (ok tt, mid)
          → Merging pr env mid
      by_merged pr true mid m h = inl (m, cc h)
      by_merged pr false mid m h = merge_own-ok pr env mid h

      by_record :
          (o : Option Pr)
          → env.state.pr ≡ o
          → merge_recorded remote o env ≡ (ok tt, env')
          → (pr : Pr) × (deleting : Env W) × (env.state.pr ≡ some pr)
            × Merging pr env deleting
            × (remote.delete_remote_branch env.state.clone_dir origin env.state.branch
                  deleting.world
                ≡ (ok tt, env'.world))
            × (env'.state ≡ deleting.state)
      by_record none r h = absurd (cc h)
      by_record (some pr) r h =
          let (u, mid, merging, deleted) = and_then-eq-ok _ _ h in
          let did = by_merged pr pr.merged mid refl merging in
          let (dir, branch) = places pr env mid did in
          let (gone, kept) =
            call-eq-ok (remote.delete_remote_branch mid.state.clone_dir origin mid.state.branch) mid
              (on_error-eq-ok _ _ deleted) in
          (pr, mid, r, did, cc (gone, dir, branch), kept)

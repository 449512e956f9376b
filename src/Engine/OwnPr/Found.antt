-- ===== src/Engine/OwnPr/Found.antt =====
-- What a found PR rests on.
use hoist.Prelude.{
  ℕ, ◌<◌, ◌≡◌, refl, ◌⊎◌, inl, inr, true, false, not, ◌&&◌, Option, none, some, Text, text_eq,
  text_eq_iff, is_empty, ltb, arith, Bool-cases,
}
use hoist.Engine.Errors.{ok}
use hoist.Engine.State.{Pr, PromotionState, Env}
use hoist.Engine.Identity.{marker}
use hoist.Engine.Action.{pure, and_then-eq-ok, call-eq-ok}
use hoist.Engine.Remote.{Remote}
use hoist.Engine.Review.Ci.{expected_head}
use hoist.Engine.OwnPr.{
  is_other_head, not_this_runs_merge, find_own_pr, find_by_branch, keep_recorded, find_from_record,
}

-- The heads agree, or one of them is not known.
abbrev pub HeadsAgree : PromotionState → Pr → Type 0
HeadsAgree s pr =
    (is_empty (expected_head s) ≡ true)
    ⊎ ((is_empty pr.head_sha ≡ true) ⊎ (pr.head_sha ≡ expected_head s))

pub is_other_head-HeadsAgree :
    (s : PromotionState) (pr : Pr) → is_other_head s pr ≡ false → HeadsAgree s pr
unfolding is_other_head
is_other_head-HeadsAgree s pr h = ground (arith, text_eq_iff pr.head_sha (expected_head s))

usable :
    (pr : Pr) (branch : Text)
    → (text_eq pr.head_branch branch && not pr.closed) ≡ true
    → (pr.head_branch ≡ branch) × (pr.closed ≡ false)
usable pr branch e = ground (arith, text_eq_iff pr.head_branch branch)

-- A merge that is not foreign leaves the state alone.
pub not_this_runs_merge-none :
    (s : PromotionState) (pr : Pr)
    → pr.merged ≡ true
    → (not_this_runs_merge s pr).0 ≡ none
    → HeadsAgree s pr × ((not_this_runs_merge s pr).1 ≡ s)
unfolding not_this_runs_merge
not_this_runs_merge-none s pr m h = (ground (arith, is_other_head-HeadsAgree s pr), ground arith)

module _ {W : Type 0} (remote : Remote W) where
  -- The forge answered with this PR just now: under the number on record, for this promotion's
  -- branch and not closed, or when it was asked for the branch and the marker.
  abbrev pub Answered : Pr → Env W → Env W → Type 0
  Answered pr env env' =
      ((n : ℕ) × (0 < n)
        × (remote.get_pr n env.world ≡ (ok (some pr), env'.world))
        × (pr.head_branch ≡ env.state.branch)
        × (pr.closed ≡ false))
      ⊎ ((w : W) × (remote.find_pr env.state.branch (marker env.state.id) w
            ≡ (ok (some pr), env'.world)))

  find_by_branch-some :
      (pr : Pr) (env mid env' : Env W)
      → mid.state ≡ env.state
      → find_by_branch remote mid ≡ (ok (some pr), env')
      → (env'.state ≡ env.state) × Answered pr env env'
  unfolding find_by_branch
  find_by_branch-some pr env mid env' same h =
      let (answer, kept) =
        call-eq-ok (remote.find_pr mid.state.branch (marker mid.state.id)) mid h in
      (cc (kept, same), inr (mid.world, cc (answer, same)))

  keep_recorded-some :
      (n : ℕ) (found : Option Pr) (pr : Pr) (env mid env' : Env W)
      → 0 < n
      → mid.state ≡ env.state
      → remote.get_pr n env.world ≡ (ok found, mid.world)
      → keep_recorded remote found mid ≡ (ok (some pr), env')
      → (env'.state ≡ env.state) × Answered pr env env'
  unfolding keep_recorded
  keep_recorded-some n none pr env mid env' pos same asked h =
      find_by_branch-some pr env mid env' same h
  keep_recorded-some n (some own) pr env mid env' pos same asked h =
      elim (Bool-cases (text_eq own.head_branch mid.state.branch && not own.closed)) [
        | inl e ↦
            let got : pure (some own) mid ≡ (ok (some pr), env') = rw e at h in
            let (named, open_still) = usable own mid.state.branch e in
            (
              cc (got, same),
              inl (n, pos, cc (asked, got), cc (named, same, got), cc (open_still, got)),
            )
        | inr e ↦ find_by_branch-some pr env mid env' same (rw e at h)
      ]

  find_from_record-some :
      (o : Option Pr) (pr : Pr) (env env' : Env W)
      → find_from_record remote o env ≡ (ok (some pr), env')
      → (env'.state ≡ env.state) × Answered pr env env'
  unfolding find_from_record
  find_from_record-some none pr env env' h = find_by_branch-some pr env env env' refl h
  find_from_record-some (some recorded) pr env env' h = elim (Bool-cases (ltb 0 recorded.number)) [
    | inl e ↦
        let (found, mid, asked, done) = and_then-eq-ok _ _ (rw e at h) in
        let (answer, kept) = call-eq-ok (remote.get_pr recorded.number) env asked in
        keep_recorded-some recorded.number found pr env mid env' (ground (arith, e)) kept answer
          done
    | inr e ↦ find_by_branch-some pr env env env' refl (rw e at h)
  ]

  pub find_own_pr-some :
      (pr : Pr) (env env' : Env W)
      → find_own_pr remote env ≡ (ok (some pr), env')
      → (env'.state ≡ env.state) × Answered pr env env'
  unfolding find_own_pr
  find_own_pr-some pr env env' h = find_from_record-some env.state.pr pr env env' h

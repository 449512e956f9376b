-- ===== src/Engine/Write/Sent.antt =====
-- A push and the observation after it.
use hoist.Prelude.{◌≡◌, refl, sym, ap, ◌∙◌, true, false, Option, some, Text, text_eq_refl, arith}
use mathlib.Core.Path.{subst}
use hoist.Engine.Errors.{Result, ok, err}
use hoist.Engine.State.{PromotionState, Observation, Env}
use hoist.Engine.Action.{and_then, and_then-eq-ok, attempt-call-eq}
use hoist.Engine.Remote.{Remote}
use hoist.Engine.OwnPr.{origin}
use hoist.Engine.Write.{
  already_at, is_other_commit, judge_pushed, pushed_observation, after_push, pushed_act,
}

abbrev pushed_own : PromotionState → PromotionState
pushed_own s = record s { pushed_sha = s.commit_sha }

own_commit : (s : PromotionState) (sha : Text) → sha ≡ s.commit_sha → is_other_commit s sha ≡ false
unfolding is_other_commit
own_commit s sha e = ground (arith, e, text_eq_refl s.commit_sha)

module _ {W : Type 0} (remote : Remote W) where
  after_push-ok :
      (answer : Result (Unit {0})) (env env' : Env W)
      → after_push remote answer env ≡ (ok tt, env')
      → (answer ≡ ok tt)
        × (env' ≡ record env { state = record (env.state) { pushed_sha = env.state.commit_sha } })
  unfolding after_push
  after_push-ok (ok u) env env' h = (refl, cc h)
  after_push-ok (err e) env env' h =
      let (looked, mid, asked, done) = and_then-eq-ok _ _ h in absurd (cc done)

  observed_again :
      (env : Env W) (w : W)
      → remote.ls_remote_branch env.state.clone_dir origin env.state.branch env.world
        ≡ (ok (some env.state.commit_sha), w)
      → (obs : Observation) × (pushed_observation remote env ≡ (
        ok obs,
        record env { world = w; state = record (env.state) { pushed_sha = env.state.commit_sha } },
      ))
        × (obs.satisfied ≡ true)
  unfolding pushed_observation judge_pushed and_then
  observed_again env w h = (
    already_at env.state env.state.commit_sha,
    ap by_answer h ∙ rw (own_commit env.state env.state.commit_sha refl) refl,
    refl,
  )
    where
      by_answer : Result (Option Text) × W → Result Observation × Env W
      by_answer (r, w) = and_then (r, record env { world = w }) (judge_pushed remote)

  -- The observation of a state is satisfied and keeps it.
  abbrev Settled : Env W → W → W → PromotionState → Type 0
  Settled env v w s =
      (obs : Observation) × (pushed_observation remote (record env { world = v; state = s })
        ≡ (ok obs, record env { world = w; state = s }))
      × (obs.satisfied ≡ true)

  -- Where the push step's Act returns no error, git pushed the branch and the promotion's commit is
  -- recorded as pushed, with nothing else of the state changed; and whenever origin then answers for
  -- the branch with that commit, in whatever world, the step's next observation is satisfied and
  -- leaves the state as it is.
  pub pushed_act-settles :
      (env env' : Env W)
      → pushed_act remote env ≡ (ok tt, env')
      → (remote.push env.state.worktree_dir origin env.state.branch env.world ≡ (ok tt, env'.world))
        × (env'.state ≡ record (env.state) { pushed_sha = env.state.commit_sha })
        × ((v w : W)
            → remote.ls_remote_branch env.state.clone_dir origin env.state.branch v
              ≡ (ok (some env.state.commit_sha), w)
            → (obs : Observation) × (pushed_observation remote (record env' { world = v })
                ≡ (ok obs, record env' { world = w }))
              × (obs.satisfied ≡ true))
  unfolding pushed_act
  pushed_act-settles env env' h =
      let (answer, asked, called, done) = and_then-eq-ok _ _ h in
      let (sent, kept) =
        attempt-call-eq (remote.push env.state.worktree_dir origin env.state.branch) env called in
      let (fine, made) = after_push-ok answer asked env' done in
      (
        cc (sent, fine, made),
        cc (made, kept),
        λ v w answered.
            subst (Settled env' v w) (sym (cc (made, kept)))
              (observed_again (record env' { world = v; state = pushed_own env.state }) w answered),
      )

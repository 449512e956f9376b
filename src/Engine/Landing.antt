-- ===== src/Engine/Landing.antt =====
-- internal/engine/landed_guard.go: a step that a promotion needs only before it lands reads
-- satisfied once the landing step does, with one landing lookup a walk.
pub mod Once
pub mod Answers
pub mod Judged
pub mod Paths
pub mod Confirmed
use hoist.Prelude.{
  Bool, true, false, not, ◌&&◌, List, [], ◌∷◌, ◌++◌, Option, none, some, Text, codes, text_eq,
  is_empty, if◌then◌else◌,
}
use hoist.Engine.Errors.{Err, Result, ok, err, landing_unknown}
use hoist.Engine.State.{
  Pr, PromotionState, Observation, satisfied_by, cleanly_satisfied, LandingAnswer, landing_no,
  landing_yes, Env, Step,
}

abbrev no_entries {ℓ} : {A : Type ℓ} → List A → Bool
no_entries [] = true
no_entries (x ∷ xs) = false

-- LandingObservable: the state records enough for a landing step to be asked about it.
unfoldable pub landing_observable : PromotionState → Bool
landing_observable s =
    if is_empty s.commit_sha
    then false
    else if s.direct
    then not (no_entries s.expected_blobs) && not (no_entries s.edits)
    else true

-- The commit that the forge says the PR merged is the one on record.
abbrev merged_here : Text → Option Pr → Bool
merged_here sha none = false
merged_here sha (some pr) = text_eq pr.head_sha sha

-- `s` is the promotion's own state, `cp` the copy that the landing step was given.
pub judge_landing : PromotionState → PromotionState → Result Observation → LandingAnswer
judge_landing s cp (err e) = LandingAnswer.landing_unknown e
judge_landing s cp (ok obs) =
    if not (cleanly_satisfied obs)
    then landing_no
    else if not cp.direct && not (merged_here s.commit_sha cp.pr)
    then landing_no
    else landing_yes

abbrev pub is_clean : Result Observation → Bool
is_clean (ok obs) = cleanly_satisfied obs
is_clean (err e) = false

module _ {W : Type 0} where
  -- withLandingWalk: a walk begins with nothing known.
  unfoldable pub with_landing_walk : Env W → Env W
  with_landing_walk env = record env { walk = some none }

  -- landingWalkFrom(ctx).set.
  unfoldable pub walk_set : LandingAnswer → Env W → Env W
  walk_set answer env = record env {
    walk = elim env.walk [ none ↦ none | some w ↦ some (some answer) ];
  }

  -- landingWalkFrom(ctx).get.
  unfoldable pub walk_get : Env W → Option LandingAnswer
  walk_get env = elim env.walk [ none ↦ none | some w ↦ w ]

  -- What the walker's own probe of the landing step found, when it was not cleanly satisfied.
  unfoldable pub probed_not_landed : Option Err → Env W → Env W
  unfolding walk_set
  probed_not_landed (some e) env = walk_set (LandingAnswer.landing_unknown e) env
  probed_not_landed none env = walk_set landing_no env

  -- observeLanded: the landing step's changes of the state are thrown away.
  unfoldable pub observe_landed : Step W → Env W → LandingAnswer × Env W
  unfolding judge_landing
  observe_landed landing env =
      let (r, env') = landing.observe env in
      (judge_landing env.state env'.state r, record env' { state = env.state })

  unfoldable pub landed : Step W → Env W → LandingAnswer × Env W
  unfolding landing_observable observe_landed walk_get walk_set
  landed landing env =
      if not (landing_observable env.state) then (landing_no, env) else elim (walk_get env) [
        | some answer ↦ (answer, env)
        | none ↦ let (answer, env') = observe_landed landing env in (answer, walk_set answer env')
      ]

  pub guard_answer :
      Step W → Result Observation → LandingAnswer × Env W → Result Observation × Env W
  guard_answer landing r (landing_yes, env) = (
    ok (
        satisfied_by
          (codes "already landed on origin/" ++ (env.state.base ++ codes "; no longer needed"))),
    env,
  )
  guard_answer landing r (LandingAnswer.landing_unknown e, env) =
      (err (landing_unknown landing.name e), env)
  guard_answer landing r (landing_no, env) = (r, env)

  unfoldable pub guard_observe : Step W → Step W → Env W → Result Observation × Env W
  unfolding landed guard_answer
  guard_observe inner landing env =
      let (r, env') = inner.observe env in
      if is_clean r then (r, env') else guard_answer landing r (landed landing env')

  -- guardLanded.
  unfoldable pub guard_landed : Step W → Step W → Step W
  unfolding guard_observe
  guard_landed inner landing = record {
    name = inner.name;
    observe = guard_observe inner landing;
    act = inner.act;
  }

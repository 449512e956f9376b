-- ===== src/Engine/Landing/Answers.antt =====
-- What a guarded step answers once it is asked about the landing.
use hoist.Prelude.{◌≡◌, true, false, none}
use hoist.Engine.Errors.{Result, ok}
use hoist.Engine.Errors
use hoist.Engine.State.{Observation, LandingAnswer, Env, Step}
use hoist.Engine.Landing.{
  landing_observable, walk_get, walk_set, judge_landing, is_clean, guard_answer,
}

module _ {W : Type 0} (inner landing : Step W) (env : Env W) where
  -- Where the guarded step's own Observe left everything.
  abbrev pub own : Env W
  own = (inner.observe env).1

  -- Where the landing step's left everything, with the promotion's own state put back.
  abbrev pub asked : Env W
  asked = record ((landing.observe own).1) { state = own.state }

  -- The guard asks the landing step: its own step is not done, the state records a commit that
  -- could have landed, and the walk knows nothing yet.
  pub record Asks : Type 0 where
    pub not_done : is_clean (inner.observe env).0 ≡ false
    pub observable : landing_observable own.state ≡ true
    pub nothing_known : walk_get own ≡ none

  -- The landing's answer from what its Observe returned, and the guard's from that.
  abbrev judged : Result Observation → LandingAnswer
  judged = judge_landing own.state (landing.observe own).1.state

  abbrev answer_by : LandingAnswer → Result Observation × Env W
  answer_by j = guard_answer landing (inner.observe env).0 (j, walk_set j asked)

-- ===== src/Engine/Landing/Paths.antt =====
-- What the landing guard returns on each of its paths.
use hoist.Prelude.{
  ◌≡◌, inl, inr, refl, ap, ◌∙◌, true, false, not, ◌++◌, none, some, codes, Bool-cases, Option-cases,
  if_true, if_false,
}
use hoist.Engine.Errors.{Result, ok}
use hoist.Engine.State.{
  Observation, satisfied_by, LandingAnswer, landing_no, landing_yes, landing_unknown, Env, Step,
}
use hoist.Engine.Landing.{
  landing_observable, walk_get, walk_set, judge_landing, observe_landed, landed, is_clean,
  guard_answer,
}

-- What `landed` returns on each of its paths.
module _ {W : Type 0} (landing : Step W) (after : Env W) where
  pub landed-blind :
      landing_observable after.state ≡ false → landed landing after ≡ (landing_no, after)
  unfolding landed
  landed-blind n = if_true _ _ (ap not n)

  pub landed-known :
      (a : LandingAnswer)
      → landing_observable after.state ≡ true
      → walk_get after ≡ some a
      → landed landing after ≡ (a, after)
  unfolding landed
  landed-known a see known = if_false _ _ (ap not see) ∙ rw known refl

  pub landed-asked :
      landing_observable after.state ≡ true
      → walk_get after ≡ none
      → landed landing after ≡ (
          let (r, asked) = landing.observe after in
          let j = judge_landing after.state asked.state r in
          (j, walk_set j (record asked { state = after.state })))
  unfolding landed observe_landed
  landed-asked see unknown = if_false _ _ (ap not see) ∙ rw unknown refl

  pub landed_state : (landed landing after).1.state ≡ after.state
  unfolding walk_set
  landed_state = elim (Bool-cases (landing_observable after.state)) [
    | inr n ↦ ap (λ x. x.1.state) (landed-blind n)
    | inl see ↦ elim (Option-cases (walk_get after)) [
      | inr (a, known) ↦ ap (λ x. x.1.state) (landed-known a see known)
      | inl unknown ↦ ap (λ x. x.1.state) (landed-asked see unknown)
    ]
  ]

  -- What the guard makes of an answer.
  pub answer-env :
      (r : Result Observation) (x : LandingAnswer × Env W) → (guard_answer landing r x).1 ≡ x.1
  unfolding guard_answer
  answer-env r (landing_yes, e) = refl
  answer-env r (landing_no, e) = refl
  answer-env r (landing_unknown f, e) = refl

  pub answer-landed :
      (r : Result Observation) (x : LandingAnswer × Env W)
      → x.0 ≡ landing_yes
      → (guard_answer landing r x).0
        ≡ ok (
            satisfied_by
              (codes "already landed on origin/" ++ (x.1.state.base ++ codes "; no longer needed")))
  unfolding guard_answer
  answer-landed r (landing_yes, e) h = refl
  answer-landed r (landing_no, e) h = absurd (cc h)
  answer-landed r (landing_unknown f, e) h = absurd (cc h)

  pub answer-clean :
      (r : Result Observation) (x : LandingAnswer × Env W)
      → is_clean r ≡ false
      → is_clean (guard_answer landing r x).0 ≡ true
      → x.0 ≡ landing_yes
  unfolding guard_answer
  answer-clean r (landing_yes, e) n h = refl
  answer-clean r (landing_no, e) n h = absurd (cc (n, h))
  answer-clean r (landing_unknown f, e) n h = absurd (cc h)

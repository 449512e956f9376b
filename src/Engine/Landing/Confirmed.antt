-- ===== src/Engine/Landing/Confirmed.antt =====
-- When a guarded step reads satisfied because the promotion has landed.
use hoist.Prelude.{
  ◌≡◌, ◌↔◌, ◌⊎◌, inl, inr, sym, ap, ◌∙◌, true, false, ◌++◌, none, some, codes, Bool-cases,
  Option-cases, if_true, if_false,
}
use mathlib.Core.Option.{some-injective}
use hoist.Engine.Errors.{ok}
use hoist.Engine.State.{
  PromotionState, Observation, satisfied_by, cleanly_satisfied, LandingAnswer, landing_yes, Env,
  Step,
}
use hoist.Engine.Landing.{
  landing_observable, walk_get, landed, is_clean, guard_answer, guard_observe,
}
use hoist.Engine.Landing.Judged.{
  IsClean, Landable, OwnLanding, landing_observable-Landable, judge_landing-yes,
}
use hoist.Engine.Landing.Paths.{
  landed-blind, landed-known, landed-asked, landed_state, answer-env, answer-landed, answer-clean,
}

module _ {W : Type 0} (inner landing : Step W) (env : Env W) where
  -- The landing step, asked where the own Observe left everything, is cleanly satisfied about this
  -- promotion's commit.
  abbrev pub Confirms : Type 0
  Confirms =
      let after = (inner.observe env).1 in
      (o : Observation) × ((landing.observe after).0 ≡ ok o)
      × IsClean o
      × OwnLanding after.state.commit_sha (landing.observe after).1.state

  abbrev pub HasLanded : Type 0
  HasLanded =
      let after = (inner.observe env).1 in
      Landable after.state
      × ((walk_get after ≡ some landing_yes) ⊎ ((walk_get after ≡ none) × Confirms))

  landed-HasLanded : ((landed landing (inner.observe env).1).0 ≡ landing_yes) ↔ HasLanded
  landed-HasLanded =
      let after = (inner.observe env).1 in
      let able = landing_observable-Landable after.state in
      elim (Bool-cases (landing_observable after.state)) [
        | inr n ↦ (
          λ h. absurd (not_yes (sym (ap (λ x. x.0) (landed-blind landing after n)) ∙ h)),
          λ k. (let see = able.1 k.0 in absurd (cc (see, n))),
        )
        | inl see ↦ elim (Option-cases (walk_get after)) [
          | inr (a, known) ↦ (
            λ h. (
              able.0 see,
              inl (
                  known
                  ∙ ap some (sym (ap (λ x. x.0) (landed-known landing after a see known)) ∙ h)),
            ),
            λ k. ap (λ x. x.0) (landed-known landing after a see known) ∙ remembered a k.1 known,
          )
          | inl unknown ↦ (
            λ h. (
              able.0 see,
              inr (
                unknown,
                (judge_landing-yes after.state (landing.observe after).1.state
                      (landing.observe after).0).0
                    (sym (ap (λ x. x.0) (landed-asked landing after see unknown)) ∙ h),
              ),
            ),
            λ k.
                ap (λ x. x.0) (landed-asked landing after see unknown)
                ∙ (judge_landing-yes after.state (landing.observe after).1.state
                      (landing.observe after).0).1
                    (confirmed k.1 unknown),
          )
        ]
      ]
    where
      not_yes : LandingAnswer.landing_no ≡ landing_yes → ⊥
      not_yes h = cc h

      remembered :
          (a : LandingAnswer)
          → (walk_get (inner.observe env).1 ≡ some landing_yes)
            ⊎ ((walk_get (inner.observe env).1 ≡ none) × Confirms)
          → walk_get (inner.observe env).1 ≡ some a
          → a ≡ landing_yes
      remembered a (inl y) known = some-injective a landing_yes (sym known ∙ y)
      remembered a (inr (n, c)) known = absurd (cc (n, known))

      confirmed :
          (walk_get (inner.observe env).1 ≡ some landing_yes)
            ⊎ ((walk_get (inner.observe env).1 ≡ none) × Confirms)
          → walk_get (inner.observe env).1 ≡ none
          → Confirms
      confirmed (inl y) unknown = absurd (cc (y, unknown))
      confirmed (inr (n, c)) unknown = c

  -- A guarded step is cleanly satisfied exactly when its own Observe is, or the promotion has landed:
  -- the state records what could have landed, and the walk remembers that it did, or knows nothing
  -- yet and the landing step is cleanly satisfied about a direct promotion or a PR that merged this
  -- promotion's own commit. Where its own Observe is, the guard does nothing besides; where only the
  -- landing is, its answer is that the change has already landed on the base. And whatever it
  -- answers, the state is left as the own Observe left it.
  pub guard_observe-landed :
      ((is_clean (guard_observe inner landing env).0 ≡ true)
        ↔ ((is_clean (inner.observe env).0 ≡ true) ⊎ HasLanded))
      × (is_clean (inner.observe env).0 ≡ true
          → guard_observe inner landing env ≡ inner.observe env)
      × (is_clean (inner.observe env).0 ≡ false
          → HasLanded
          → (guard_observe inner landing env).0
            ≡ ok (
                satisfied_by (
                  codes "already landed on origin/"
                  ++ ((inner.observe env).1.state.base ++ codes "; no longer needed"))))
      × ((guard_observe inner landing env).1.state ≡ (inner.observe env).1.state)
  unfolding guard_observe cleanly_satisfied
  guard_observe-landed =
      let r = (inner.observe env).0 in
      let after = (inner.observe env).1 in
      let x = landed landing after in
      elim (Bool-cases (is_clean r)) [
        | inl c ↦
            let same : guard_observe inner landing env ≡ inner.observe env = if_true _ _ c in
            (
              (λ h. inl c, λ k. ap (λ y. is_clean y.0) same ∙ c),
              λ d. same,
              λ n k. absurd (cc (c, n)),
              ap (λ y. y.1.state) same,
            )
        | inr n ↦
            let same : guard_observe inner landing env ≡ guard_answer landing r x =
              if_false _ _ n in
            let told : HasLanded
                → (guard_answer landing r x).0
                  ≡ ok (
                      satisfied_by (
                        codes "already landed on origin/"
                        ++ (x.1.state.base ++ codes "; no longer needed"))) =
              λ k. answer-landed landing after r x (landed-HasLanded.1 k) in
            (
              (
                λ h. inr (
                    landed-HasLanded.0
                      (answer-clean landing after r x n (sym (ap (λ y. is_clean y.0) same) ∙ h))),
                λ k. ap (λ y. is_clean y.0) same ∙ ap is_clean (told (fallen k n)),
              ),
              λ d. absurd (cc (d, n)),
              λ m k.
                  ap (λ y. y.0) same
                  ∙ (told k
                      ∙ ap
                          (λ (t : PromotionState). ok (
                            satisfied_by (
                              codes "already landed on origin/"
                              ++ (t.base ++ codes "; no longer needed"))))
                          (landed_state landing after)),
              ap (λ y. y.1.state) same
                  ∙ (ap (λ (e : Env W). e.state) (answer-env landing after r x)
                      ∙ landed_state landing after),
            )
      ]
    where
      fallen :
          (is_clean (inner.observe env).0 ≡ true) ⊎ HasLanded
          → is_clean (inner.observe env).0 ≡ false
          → HasLanded
      fallen (inl c) n = absurd (cc (c, n))
      fallen (inr k) n = k

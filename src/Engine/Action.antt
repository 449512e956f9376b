-- ===== src/Engine/Action.antt =====
-- A method of a step: it reads and changes the walk's environment, and may fail. What it changed
-- before it failed stays changed.
use hoist.Prelude.{◌≡◌, refl, Option, none, some}
use hoist.Engine.Errors.{Err, Result, ok, err}
use hoist.Engine.State.{PromotionState, Env}

abbrev pub Action : Type 0 → Type 0 → Type 0
Action W A = Env W → Result A × Env W

module _ {W A : Type 0} where
  abbrev pub pure : A → Action W A
  pure a env = (ok a, env)

  abbrev pub fail : Err → Action W A
  fail e env = (err e, env)

  -- A call to the outside.
  abbrev pub call : (W → Result A × W) → Action W A
  call f env = let (r, w) = f env.world in (r, record env { world = w })

  -- The error is wrapped in a text.
  unfoldable pub on_error : (Err → Err) → Result A × Env W → Result A × Env W
  on_error f (ok a, env) = (ok a, env)
  on_error f (err e, env) = (err (f e), env)

  abbrev pub failing_as : (Err → Err) → Action W A → Action W A
  failing_as f m env = on_error f (m env)

  -- `r, err := m()` where the caller itself looks at the error.
  abbrev pub attempt : Action W A → Action W (Result A)
  attempt m env = let (r, env') = m env in (ok r, env')

  pub on_error-eq-ok :
      (f : Err → Err) (r : Result A × Env W) {a : A} {env' : Env W}
      → on_error f r ≡ (ok a, env')
      → r ≡ (ok a, env')
  unfolding on_error
  on_error-eq-ok f (ok b, mid) h = h
  on_error-eq-ok f (err e, mid) h = absurd (cc h)

  pub call-eq-ok :
      (f : W → Result A × W) (env : Env W) {a : A} {env' : Env W}
      → call f env ≡ (ok a, env')
      → (f env.world ≡ (ok a, env'.world)) × (env'.state ≡ env.state)
  call-eq-ok f env h = (cc h, cc h)

  pub attempt-eq-ok :
      (m : Action W A) (env : Env W) {r : Result A} {env' : Env W}
      → attempt m env ≡ (ok r, env')
      → m env ≡ (r, env')
  attempt-eq-ok m env h = cc h

  pub attempt-call-eq :
      (f : W → Result A × W) (env : Env W) {r : Result A} {env' : Env W}
      → attempt (call f) env ≡ (ok r, env')
      → (f env.world ≡ (r, env'.world)) × (env'.state ≡ env.state)
  attempt-call-eq f env h = (cc h, cc h)

  -- The state, at this point of the method, and a change of it.
  abbrev pub with_state : (PromotionState → Action W A) → Action W A
  with_state f env = f env.state env

  abbrev pub setting : PromotionState → Action W A → Action W A
  setting s m env = m (record env { state = s })

module _ {W A B : Type 0} where
  unfoldable pub and_then : Result A × Env W → (A → Action W B) → Result B × Env W
  and_then (ok a, env) f = f a env
  and_then (err e, env) f = (err e, env)

  infixl 5 ◌>>=◌ ◌>>◌
  abbrev pub ◌>>=◌ : Action W A → (A → Action W B) → Action W B
  m >>= f = λ env. and_then (m env) f

  abbrev pub ◌>>◌ : Action W A → Action W B → Action W B
  m >> n = m >>= λ _. n

  -- A method that succeeded: its first part did, and the rest went on from there.
  pub and_then-eq-ok :
      (r : Result A × Env W) (f : A → Action W B) {b : B} {env' : Env W}
      → and_then r f ≡ (ok b, env')
      → (a : A) × (mid : Env W) × (r ≡ (ok a, mid)) × (f a mid ≡ (ok b, env'))
  unfolding and_then
  and_then-eq-ok (ok a, mid) f h = (a, mid, refl, h)
  and_then-eq-ok (err e, mid) f h = absurd (cc h)

-- An Act returns an error or nothing.
abbrev pub error_of : {W : Type 0} → Result (Unit {0}) × Env W → Option Err × Env W
error_of (ok u, env) = (none, env)
error_of (err e, env) = (some e, env)

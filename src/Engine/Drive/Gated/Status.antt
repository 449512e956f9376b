-- ===== src/Engine/Drive/Gated/Status.antt =====
-- The same for DriveStatus, which may probe the landing step first and start past it.
use hoist.Prelude.{
  ℕ, suc, ◌+◌, ◌<◌, ◌≡◌, ◌≢◌, refl, sym, ap, ◌∙◌, inl, inr, false, ◌&&◌, List, [], ◌∷◌, ◌++◌,
  Option, none, some, All, Option-cases, Bool-cases, Text, text_eq, text_eq_iff, drop, map, length,
  if_elim, arith, ltb, drop-suc,
}
use mathlib.Core.Path.{subst}
use mathlib.Core.Option.{some-injective}
use hoist.Engine.StepName.{StepName}
use hoist.Engine.StepName
use hoist.Engine.Errors.{Result, ok, err}
use hoist.Engine.State.{Observation, cleanly_satisfied, Env, Step, Runtime}
use hoist.Engine.Landing.{with_landing_walk, probed_not_landed}
use hoist.Engine.Drive.{
  Outcome, Save, index_of, phase_index, past, probe_index, drive_from, after_probe, probe_at,
  drive_status,
}
use hoist.Engine.Drive.Invariant.{drive_from_keeps}
use hoist.Engine.Drive.Trace.{
  Log, inner, log_of, traced, traced_save, traced_runtime, saved_log, probed_log,
}
use hoist.Engine.Drive.Gated.{Guarded, Before, Always, AllBefore, Fresh, Reusable-any, drive_gated}

abbrev pub OtherThan : {W : Type 0} → StepName → Step W → Type 0
OtherThan name step = step.name ≢ name

text_eq-differ : (s t : Text) → s ≢ t → text_eq s t ≡ false
text_eq-differ s t d = elim (Bool-cases (text_eq s t)) [
  | inl e ↦ absurd (d ((text_eq_iff s t).0 e))
  | inr e ↦ e
]

module _ {W : Type 0} where
  -- The first step of that name stands right behind the others.
  index_of-first :
      (name : StepName) (prefix : List (Step W)) (step : Step W) (rest : List (Step W))
      → All (OtherThan name) prefix
      → step.name ≡ name
      → index_of name (map traced (prefix ++ step ∷ rest)) ≡ some (length prefix)
  unfolding index_of traced
  index_of-first name [] step rest os named =
      rw ((text_eq_iff step.name name).1 named, index_of) refl
  index_of-first name (s ∷ prefix) step rest os named =
      rw (text_eq-differ s.name name os.0, index_of)
        (rw (index_of-first name prefix step rest os.1 named) (ap some (omega arith)))

  drop-prefix :
      (prefix : List (Step W)) (step : Step W) (rest : List (Step W))
      → drop (length prefix) (map traced (prefix ++ step ∷ rest)) ≡ traced step ∷ map traced rest
  drop-prefix [] step rest = refl
  drop-prefix (s ∷ prefix) step rest = drop-prefix prefix step rest

  probe_index-some :
      (steps : List (Step (W × Log))) (phase : StepName) (m : ℕ)
      → probe_index steps phase ≡ some m
      → index_of StepName.merged steps ≡ some m
  unfolding probe_index
  probe_index-some steps phase m h = elim (Option-cases (index_of StepName.merged steps)) [
    | inl e ↦ absurd (cc (rw (e, probe_index) at h))
    | inr (k, e) ↦
        e
        ∙ if_elim (λ (o : Option ℕ). o ≡ some m → some k ≡ some m)
            (ltb (k + 1) (length steps) && past k (phase_index steps phase)) (λ _ g. g)
            (λ _ g. absurd (cc g)) (rw (e, probe_index) at h)
  ]

-- Where the gate and the landing step stand in a list of steps, and that no other step has the
-- landing step's name.
pub record Layout {W : Type 0} (gate : StepName) (steps : List (Step W)) : Type 0 where
  pub before : List (Step W)
  pub gate_step : Step W
  pub after : List (Step W)
  pub prefix : List (Step W)
  pub landing : Step W
  pub post : List (Step W)
  pub gate_here : steps ≡ before ++ gate_step ∷ after
  pub landing_here : steps ≡ prefix ++ landing ∷ post
  pub gate_first : length before < length prefix
  pub gate_named : gate_step.name ≡ gate
  pub landing_named : landing.name ≡ StepName.merged
  pub gate_other : gate ≢ StepName.merged
  pub others_before : All (OtherThan StepName.merged) before
  pub others_prefix : All (OtherThan StepName.merged) prefix
  pub others_post : All (OtherThan StepName.merged) post

module _ {W : Type 0} (rt : Runtime W) (save : Save W) (gate : StepName) where
  abbrev Good : Outcome × Env (W × Log) → Type 0
  Good o = Guarded gate StepName.merged (log_of o.1)

  from_start :
      (steps : List (Step W)) (probed : Option (ℕ × Observation)) (env : Env (W × Log))
      → (lay : Layout gate steps) → Fresh probed (0 + length lay.before)
      → Before gate StepName.merged env
      → Good (drive_from (traced_runtime rt) (traced_save save) probed 0 (map traced steps) env)
  from_start steps probed env lay fresh b =
      subst
        (λ (l : List (Step W)).
          Good (drive_from (traced_runtime rt) (traced_save save) probed 0 (map traced l) env))
        (sym lay.gate_here)
        (drive_gated rt save gate StepName.merged probed 0 lay.before lay.gate_step lay.after env
          lay.others_before lay.gate_named lay.gate_other fresh b)

  -- The landing step's own index is not the gate's.
  at_landing :
      (steps : List (Step W)) (lay : Layout gate steps)
      → index_of StepName.merged (map traced steps) ≡ some (length lay.prefix)
  at_landing steps lay =
      subst
        (λ (l : List (Step W)). index_of StepName.merged (map traced l) ≡ some (length lay.prefix))
        (sym lay.landing_here)
        (index_of-first StepName.merged lay.prefix lay.landing lay.post lay.others_prefix
          lay.landing_named)

  dropped :
      (steps : List (Step W)) (lay : Layout gate steps)
      → drop (length lay.prefix) (map traced steps) ≡ traced lay.landing ∷ map traced lay.post
  dropped steps lay =
      subst
        (λ (l : List (Step W)).
          drop (length lay.prefix) (map traced l) ≡ traced lay.landing ∷ map traced lay.post)
        (sym lay.landing_here) (drop-prefix lay.prefix lay.landing lay.post)

  past_landing :
      (steps : List (Step W)) (lay : Layout gate steps) (probed : Option (ℕ × Observation)) (i : ℕ)
      (env : Env (W × Log))
      → Before gate StepName.merged env
      → Good (
          drive_from
            (traced_runtime rt)
            (traced_save save)
            probed
            i
            (drop (suc (length lay.prefix)) (map traced steps))
            env)
  past_landing steps lay probed i env b =
      rw
        (drop-suc (length lay.prefix) (map traced steps) (traced lay.landing) (map traced lay.post)
          (dropped steps lay))
        (drive_from_keeps (traced_runtime rt) (traced_save save) (Before gate StepName.merged)
          Always (λ env s h. h) (saved_log (Guarded gate StepName.merged) save) probed i
          (map traced lay.post) env (AllBefore gate StepName.merged lay.post lay.others_post)
          (Reusable-any gate StepName.merged (Before gate StepName.merged) probed i
            (map traced lay.post))
          b)

  after_probe-Guarded :
      (steps : List (Step W)) (lay : Layout gate steps) (name : StepName)
      (r : Result Observation × Env (W × Log))
      → Before gate StepName.merged r.1
      → Good (
          after_probe
            (traced_runtime rt)
            (traced_save save)
            (map traced steps)
            (length lay.prefix)
            name
            r)
  unfolding after_probe
  after_probe-Guarded steps lay name (err e, env) b =
      from_start steps none (probed_not_landed (some e) env) lay tt
        (rw (probed_log rt save (some e) env) b)
  after_probe-Guarded steps lay name (ok obs, env) b =
      if_elim Good (cleanly_satisfied obs)
        (λ _. past_landing steps lay (some (length lay.prefix, obs)) (length lay.prefix + 1) env b)
        (λ _.
          from_start steps (some (length lay.prefix, obs)) (probed_not_landed none env) lay
            (ground (arith, lay.gate_first)) (rw (probed_log rt save none env) b))

  probe_at-Guarded :
      (steps : List (Step W)) (lay : Layout gate steps) (l : List (Step (W × Log)))
      (env : Env (W × Log))
      → l ≡ traced lay.landing ∷ map traced lay.post
      → Before gate StepName.merged env
      → Good (
          probe_at
            (traced_runtime rt)
            (traced_save save)
            (map traced steps)
            (length lay.prefix)
            l
            env)
  unfolding probe_at traced
  probe_at-Guarded steps lay l env e b =
      subst
        (λ (l : List (Step (W × Log))). Good (
          probe_at (traced_runtime rt) (traced_save save) (map traced steps) (length lay.prefix) l
            env))
        (sym e)
        (after_probe-Guarded steps lay lay.landing.name ((traced lay.landing).observe env) b)

  -- In the log of a DriveStatus walk that began with an empty one, whatever the phase on record and
  -- whatever the world does: where the gate stands before the landing step, every Act of the landing
  -- step comes after the gate was, in the same walk, observed satisfied, neither waiting nor blocked,
  -- or acted on without an error.
  pub drive_status-Guarded :
      (steps : List (Step W)) (env : Env W)
      → Layout gate steps
      → Guarded gate StepName.merged (
          log_of
            (drive_status
              (traced_runtime rt)
              (traced_save save)
              (map traced steps)
              (inner [] env)).1)
  unfolding drive_status with_landing_walk
  drive_status-Guarded steps env lay =
      let start = with_landing_walk (inner [] env) in
      elim (Option-cases (probe_index (map traced steps) env.state.phase)) [
        | inl e ↦ rw (e, drive_status) (from_start steps none start lay tt tt)
        | inr (m, e) ↦
            rw (e, drive_status)
              (subst
                (λ (k : ℕ). Good (
                  probe_at (traced_runtime rt) (traced_save save) (map traced steps) k
                    (drop k (map traced steps)) start))
                (some-injective (length lay.prefix) m (
                  sym (at_landing steps lay)
                  ∙ probe_index-some (map traced steps) env.state.phase m e))
                (probe_at-Guarded steps lay (drop (length lay.prefix) (map traced steps)) start
                  (dropped steps lay) tt))
      ]

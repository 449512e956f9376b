-- ===== src/Engine/Drive/Shortcut.antt =====
-- The probe of the merged step: what lies before a merge that still holds is not walked again.
use hoist.Prelude.{
  ℕ, suc, ◌+◌, ◌≡◌, refl, sym, ap, ◌∙◌, true, List, [], ◌∷◌, ◌++◌, some, arith, drop, length,
  drop-length-append, if_elim, drop-suc,
}
use mathlib.Core.List.{map-append}
use hoist.Engine.StepName.{StepName}
use hoist.Engine.StepName
use hoist.Engine.Errors.{ok}
use hoist.Engine.State.{Observation, cleanly_satisfied, Env, Step, Runtime}
use hoist.Engine.Landing.{with_landing_walk}
use hoist.Engine.Drive.{
  Outcome, Save, add_status, drive_from, after_probe, probe_at, drive_status, index_of, phase_index,
  probe_index,
}
use hoist.Engine.Drive.Reports.{names_of}

module _ {W : Type 0} where
  index_of-names :
      (name : StepName) (xs ys : List (Step W))
      → names_of xs ≡ names_of ys
      → index_of name xs ≡ index_of name ys
  unfolding index_of
  index_of-names name [] [] h = refl
  index_of-names name [] (y ∷ ys) h = cc
  index_of-names name (x ∷ xs) [] h = cc
  index_of-names name (x ∷ xs) (y ∷ ys) h = ground (arith, index_of-names name xs ys (cc))

  length-names : (xs ys : List (Step W)) → names_of xs ≡ names_of ys → length xs ≡ length ys
  length-names [] [] h = refl
  length-names [] (y ∷ ys) h = cc
  length-names (x ∷ xs) [] h = cc
  length-names (x ∷ xs) (y ∷ ys) h = ap suc (length-names xs ys (cc))

  names_of-append :
      (xs ys zs : List (Step W))
      → names_of xs ≡ names_of ys
      → names_of (xs ++ zs) ≡ names_of (ys ++ zs)
  names_of-append xs ys zs h =
      cc (map-append (λ (s : Step W). s.name) xs zs, map-append (λ (s : Step W). s.name) ys zs)

  probe_index-names :
      (phase : StepName) (xs ys : List (Step W))
      → names_of xs ≡ names_of ys
      → probe_index xs phase ≡ probe_index ys phase
  unfolding probe_index phase_index
  probe_index-names phase xs ys h = ground (
    arith,
    index_of-names StepName.merged xs ys h,
    index_of-names phase xs ys h,
    length-names xs ys h,
  )

module _ {W : Type 0} (rt : Runtime W) (save : Save W) where
  after_probe-eq_tail :
      (steps : List (Step W)) (m : ℕ) (name : StepName) (obs : Observation) (env : Env W)
      → cleanly_satisfied obs ≡ true
      → after_probe rt save steps m name (ok obs, env)
        ≡ add_status
            (record { step = name; observation = obs })
            (drive_from rt save (some (m, obs)) (m + 1) (drop (suc m) steps) env)
  unfolding after_probe
  after_probe-eq_tail steps m name obs env c =
      if_elim
        (λ (o : Outcome × Env W).
          o
          ≡ add_status (record { step = name; observation = obs })
              (drive_from rt save (some (m, obs)) (m + 1) (drop (suc m) steps) env))
        (cleanly_satisfied obs) (λ _. refl) (λ n. cc)

  drive_status-eq_tail :
      (steps : List (Step W)) (m : ℕ) (merged : Step W) (post : List (Step W)) (env env' : Env W)
      (obs : Observation)
      → probe_index steps env.state.phase ≡ some m
      → drop m steps ≡ merged ∷ post
      → merged.observe (with_landing_walk env) ≡ (ok obs, env')
      → cleanly_satisfied obs ≡ true
      → drive_status rt save steps env
        ≡ add_status
            (record { step = merged.name; observation = obs })
            (drive_from rt save (some (m, obs)) (m + 1) post env')
  unfolding drive_status
  drive_status-eq_tail steps m merged post env env' obs p d o c =
      rw (p, drive_status)
        (rw (d, probe_at)
          (rw (o, after_probe)
            (after_probe-eq_tail steps m merged.name obs env' c
              ∙ ap
                  (λ rest.
                    add_status (record { step = merged.name; observation = obs })
                      (drive_from rt save (some (m, obs)) (m + 1) rest env'))
                  (drop-suc m steps merged post d))))

  -- Once the phase on record lies beyond the merge and the merged step is observed cleanly
  -- satisfied, the steps before it are out of the walk: any others of the same names, whatever
  -- they would observe or do, leave the same outcome, world and state.
  pub drive_status_skips_before_merge :
      (pre pre' : List (Step W)) (merged : Step W) (post : List (Step W)) (env env' : Env W)
      (obs : Observation)
      → names_of pre ≡ names_of pre'
      → probe_index (pre ++ merged ∷ post) env.state.phase ≡ some (length pre)
      → merged.observe (with_landing_walk env) ≡ (ok obs, env')
      → cleanly_satisfied obs ≡ true
      → drive_status rt save (pre ++ merged ∷ post) env
        ≡ drive_status rt save (pre' ++ merged ∷ post) env
  drive_status_skips_before_merge pre pre' merged post env env' obs same p o c =
      drive_status-eq_tail (pre ++ merged ∷ post) (length pre) merged post env env' obs p
        (drop-length-append pre (merged ∷ post)) o c
      ∙ sym (
          drive_status-eq_tail (pre' ++ merged ∷ post) (length pre) merged post env env' obs
            (sym (
                probe_index-names env.state.phase (pre ++ merged ∷ post) (pre' ++ merged ∷ post)
                  (names_of-append pre pre' (merged ∷ post) same))
              ∙ p)
            (rw (length-names pre pre' same) (drop-length-append pre' (merged ∷ post))) o c)

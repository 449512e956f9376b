-- ===== src/Engine/Gate/Refusal.antt =====
-- When direct mode is refused, and that nothing runs after a refusal.
use hoist.Prelude.{
  ◌↔◌, inl, inr, List, Text, true, Bool-cases, Memᴰ-tested, ◌≡◌, ◌∙◌, ap, false, not, [], ◌∷◌, ◌++◌,
  none, codes, is_empty, arith, if_true,
}
use mathlib.Core.List.{tail, Memᴰ}
use hoist.Engine.StepName.{StepName}
use hoist.Engine.StepName
use hoist.Engine.Errors.{blocked_error, ok}
use hoist.Engine.State.{PromotionState, Env, Runtime, blocked_by}
use hoist.Engine.Landing.{with_landing_walk, guard_landed}
use hoist.Engine.Drive.{
  Save, follow, stopped, record_stop, drive_from, drive_status, probe_index, index_of,
}
use hoist.Engine.Drive.Rounds.{drive_from-eq, after_observe-blocked}
use hoist.Engine.Lists.{Wiring, direct_steps, all_direct_steps}
use hoist.Engine.Gate.{DirectCommitGate, is_listed, refuse, gate_step, gate_observation}

is_listed-Memᴰ : (envs : List Text) (env : Text) → (is_listed envs env ≡ true) ↔ Memᴰ env envs
unfolding is_listed
is_listed-Memᴰ [] env = (λ h. absurd (cc h), λ m. elim m [ ])
is_listed-Memᴰ (p ∷ envs) env =
    Memᴰ-tested env p envs (is_listed envs env) (is_listed-Memᴰ envs env)

-- Direct mode is allowed, with no reason to refuse it, exactly where the target env is none of the
-- production envs, wherever it would stand in their list, and the operator's gesture is confirmed.
pub refuse-allows :
    (gate : DirectCommitGate) (s : PromotionState)
    → (is_empty (refuse gate s) ≡ true)
      ↔ ((Memᴰ s.target_env gate.production_envs → ⊥) × (gate.confirmed ≡ true))
unfolding refuse
refuse-allows gate s =
    let listed = is_listed-Memᴰ gate.production_envs s.target_env in
    elim (Bool-cases (is_listed gate.production_envs s.target_env)) [
      | inl found ↦ (λ h. absurd (refused found h), λ k. absurd (k.0 (listed.0 found)))
      | inr missing ↦ (
        λ h. (λ m. (let found = listed.1 m in absurd (cc (found, missing))), ground arith),
        λ k. (let c = k.1 in ground arith),
      )
    ]
  where
    refused :
        is_listed gate.production_envs s.target_env ≡ true → is_empty (refuse gate s) ≡ true → ⊥
    refused found h = ground arith

-- The wired steps have the names that the engine gives them.
pub record Named {W : Type 0} (x : Wiring W) : Type 0 where
  pub branched : x.branched.name ≡ StepName.branched
  pub committed : x.committed.name ≡ StepName.committed
  pub direct_pushed : x.direct_pushed.name ≡ StepName.direct_pushed
  pub argo_refreshed : x.argo_refreshed.name ≡ StepName.argo_refreshed
  pub argo_synced : x.argo_synced.name ≡ StepName.argo_synced
  pub rolled_out : x.rolled_out.name ≡ StepName.rolled_out

module _ {W : Type 0} (x : Wiring W) (named : Named x) (gate : DirectCommitGate) where
  direct_unprobed : (phase : StepName) → probe_index (all_direct_steps x gate) phase ≡ none
  unfolding probe_index index_of all_direct_steps gate_step guard_landed
  direct_unprobed phase = rw (
    named.branched, named.committed, named.direct_pushed, named.argo_refreshed, named.argo_synced,
    named.rolled_out,
  )

  -- While the walk's context is live, a direct promotion that the gate refuses stops there,
  -- whatever the other wired steps are and whatever phase is on record: the walk returns the
  -- refusal with the gate's one status, and all that changes of the world and the state is the
  -- record of the stop.
  pub direct_mode_refused :
      (rt : Runtime W) (save : Save W) (env : Env W)
      → rt.cancelled env.world ≡ none
      → is_empty (refuse gate env.state) ≡ false
      → let reason = refuse gate env.state in
        drive_status rt save (all_direct_steps x gate) env ≡ (
          stopped
              (record { step = StepName.direct_gate; observation = blocked_by reason } ∷ [])
              (blocked_error StepName.direct_gate reason),
          record_stop rt save StepName.direct_gate
              (codes "blocked: " ++ reason)
              (with_landing_walk env),
        )
  unfolding drive_status all_direct_steps direct_steps gate_step gate_observation
  direct_mode_refused rt save env live no_go =
      let reason = refuse gate env.state in
      let start = with_landing_walk env in
      let rest = tail (all_direct_steps x gate) in
      let same : gate_observation gate env.state ≡ blocked_by reason = if_true _ _ (ap not no_go) in
      rw (direct_unprobed env.state.phase, drive_status)
        (drive_from-eq rt save 0 (gate_step gate) rest (blocked_by reason) start start live
            (λ i. (ok (same i), start))
          ∙ ap (λ v. follow v (λ env'. drive_from rt save none 1 rest env'))
              (after_observe-blocked rt save (gate_step gate) (blocked_by reason) start no_go))

-- ===== src/Rollout/Complete/Finished.antt =====
-- A rollout is reported complete exactly when the cluster has finished it.
use hoist.Prelude.{ℕ, ◌≡◌, arith, ◌≤◌, ◌↔◌, true, false, text_eq, ltb, ◌==◌, ◌||◌}
use hoist.Rollout.Workload.{partitioned_updates, on_delete}
use hoist.Rollout.Complete.{
  Deployment, StatefulSet, DaemonSet, or_default, deadline_passed, deployment_rollout_complete,
  stateful_set_rollout_complete, daemon_set_rollout_complete,
}

partitioned_updates-bound :
    (replicas partition start : ℕ) → partitioned_updates replicas partition start ≤ replicas
unfolding partitioned_updates
partitioned_updates-bound replicas partition start = ground arith

-- A deployment is reported complete exactly when its latest spec is observed, its progress deadline
-- has not passed, every wanted replica is updated, no old replica is left, and every updated
-- replica is available.
pub deployment_rollout_complete_lem :
    (d : Deployment)
    → ((deployment_rollout_complete d).complete ≡ true) ↔ (
        d.generation ≤ d.observed_generation
        × (deadline_passed d.conditions ≡ false)
        × or_default 1 d.spec_replicas ≤ d.updated_replicas
        × d.replicas ≤ d.updated_replicas
        × d.updated_replicas ≤ d.available_replicas)
unfolding deployment_rollout_complete
deployment_rollout_complete_lem d = ground arith

-- A stateful set is reported complete exactly when its strategy is not OnDelete, its latest spec
-- is observed, every replica is ready, every pod at or above the partition is updated, and, where
-- the partition leaves no pod out, the current revision is the updated one.
pub stateful_set_rollout_complete_lem :
    (s : StatefulSet)
    → let replicas = or_default 1 s.spec_replicas in
      let want =
        partitioned_updates replicas (or_default 0 s.partition) (or_default 0 s.ordinals) in
      ((stateful_set_rollout_complete s).complete ≡ true) ↔ (
        (text_eq s.strategy on_delete ≡ false)
        × ((s.observed_generation == 0) ≡ false)
        × s.generation ≤ s.observed_generation
        × replicas ≤ s.ready_replicas
        × want ≤ s.updated_replicas
        × ((ltb want replicas || text_eq s.update_revision s.current_revision) ≡ true))
unfolding stateful_set_rollout_complete
stateful_set_rollout_complete_lem s =
    let bound =
      partitioned_updates-bound (or_default 1 s.spec_replicas) (or_default 0 s.partition)
        (or_default 0 s.ordinals) in
    ground arith

-- A daemon set is reported complete exactly when its strategy is not OnDelete, its latest spec is
-- observed, and on every node that should run it the pod is updated and available.
pub daemon_set_rollout_complete_lem :
    (d : DaemonSet)
    → ((daemon_set_rollout_complete d).complete ≡ true) ↔ (
        (text_eq d.strategy on_delete ≡ false)
        × d.generation ≤ d.observed_generation
        × d.desired_number_scheduled ≤ d.updated_number_scheduled
        × d.desired_number_scheduled ≤ d.number_available)
unfolding daemon_set_rollout_complete
daemon_set_rollout_complete_lem d = ground arith

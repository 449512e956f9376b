-- ===== src/Examples/Rollouts.antt =====
-- A partitioned stateful set, and a deployment and a daemon set in the middle of a rollout.
use hoist.Prelude.{◌≡◌, ◌≤◌, ◌↔◌, true, false, [], none, some, codes, text_eq, ltb, ◌==◌, ◌||◌}
use hoist.Rollout.Workload.{
  WorkloadStatus, stateful_set, on_delete, partitioned_updates, unpinned_images,
  graceful_restart_concerns,
}
use hoist.Rollout.Workload.Partition.{count_updated, partitioned_updates-count}
use hoist.Rollout.Workload.Concerns.{Seamless, graceful_restart_concerns-none}
use hoist.Rollout.Complete.{
  Deployment, StatefulSet, DaemonSet, deadline_passed, deployment_rollout_complete,
  stateful_set_rollout_complete, daemon_set_rollout_complete,
}
use hoist.Rollout.Complete.Finished.{
  deployment_rollout_complete_lem, stateful_set_rollout_complete_lem,
  daemon_set_rollout_complete_lem,
}

partitioned_updates-count_example : partitioned_updates 3 11 10 ≡ count_updated 3 11 10
partitioned_updates-count_example = partitioned_updates-count 3 11 10

abbrev database : WorkloadStatus
database = record {
  kind = stateful_set;
  namespace = codes "data";
  name = codes "db";
  images = [];
  complete = true;
  deadline_exceeded = false;
  detail = codes "";
  restarted_at = codes "";
  replicas = 3;
  strategy = codes "RollingUpdate";
  max_unavailable = 1;
  max_surge = 0;
  partition = 11;
  ordinal_start = 10;
  parallel_pods = false;
  readiness_probes = 1;
}

graceful_restart_concerns-none_example : (graceful_restart_concerns database ≡ []) ↔ (
    (1 ≤ 3)
    × (text_eq (codes "RollingUpdate") on_delete ≡ false)
    × Seamless database stateful_set
    × (1 ≤ 1)
    × (unpinned_images database ≡ []))
graceful_restart_concerns-none_example = graceful_restart_concerns-none database

abbrev web : Deployment
web = record {
  name = codes "web";
  generation = 2;
  spec_replicas = some 3;
  observed_generation = 2;
  replicas = 4;
  updated_replicas = 3;
  available_replicas = 3;
  conditions = [];
}

deployment_rollout_complete_lem_example :
    ((deployment_rollout_complete web).complete ≡ true)
    ↔ ((2 ≤ 2) × (deadline_passed [] ≡ false) × (3 ≤ 3) × (4 ≤ 3) × (3 ≤ 3))
deployment_rollout_complete_lem_example = deployment_rollout_complete_lem web

abbrev store : StatefulSet
store = record {
  name = codes "store";
  generation = 1;
  spec_replicas = none;
  strategy = codes "RollingUpdate";
  partition = some 1;
  ordinals = none;
  observed_generation = 1;
  ready_replicas = 1;
  updated_replicas = 0;
  current_replicas = 1;
  update_revision = codes "r2";
  current_revision = codes "r1";
}

stateful_set_rollout_complete_lem_example :
    ((stateful_set_rollout_complete store).complete ≡ true) ↔ (
      (text_eq (codes "RollingUpdate") on_delete ≡ false)
      × ((1 == 0) ≡ false)
      × (1 ≤ 1)
      × (1 ≤ 1)
      × (partitioned_updates 1 1 0 ≤ 0)
      × ((ltb (partitioned_updates 1 1 0) 1 || text_eq (codes "r2") (codes "r1")) ≡ true))
stateful_set_rollout_complete_lem_example = stateful_set_rollout_complete_lem store

abbrev agent : DaemonSet
agent = record {
  name = codes "agent";
  generation = 1;
  strategy = codes "RollingUpdate";
  observed_generation = 1;
  updated_number_scheduled = 2;
  desired_number_scheduled = 2;
  number_available = 1;
}

daemon_set_rollout_complete_lem_example :
    ((daemon_set_rollout_complete agent).complete ≡ true)
    ↔ ((text_eq (codes "RollingUpdate") on_delete ≡ false) × (1 ≤ 1) × (2 ≤ 2) × (2 ≤ 1))
daemon_set_rollout_complete_lem_example = daemon_set_rollout_complete_lem agent
